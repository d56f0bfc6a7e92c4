-- ===== src/Context/Laws.antt =====
-- The operations on a context keep its rows and columns in step, and `ctx_from_matrix` builds
-- the incidence that the matrix describes.
use fca4j_project.Base.{
  ℕ, ◌<◌, ◌≡◌, refl, ap, Bool, true, false, List, length, get_or, set, if◌then◌else◌, ◌==◌, ◌&&◌,
  arith, length-set, length-replicate, get_or-set_self, get_or-set_ne, get_or-replicate,
}
use fca4j_project.Roaring.{Roaring}
use fca4j_project.Context.{BinaryContext, row, col, ctx_create, ctx_set, IsContext}

module _ {B : Type 0} ⦃R : Roaring B⦄ where
  open R use {create, contains, add, remove, contains-create, contains-add, contains-remove}

  -- Membership in one cell of an array of bitmaps after a write.
  contains-set :
      (xs : List B) (i j y : ℕ) (v : B)
      → i < length xs
      → contains (get_or (set xs i v) j create) y
        ≡ (if j == i then contains v y else contains (get_or xs j create) y)
  contains-set xs i j y v h =
      ground (arith, get_or-set_self xs i v create, get_or-set_ne xs i j v create)

  row-set :
      (ctx : BinaryContext B) (obj attr : ℕ) (val : Bool) (o a : ℕ)
      → obj < length ctx.rows
      → contains (row (ctx_set ctx obj attr val) o) a
        ≡ (if o == obj && a == attr then val else contains (row ctx o) a)
  unfolding ctx_set
  row-set ctx obj attr true o a h = ground (
    arith,
    contains-set ctx.rows obj o a (add (row ctx obj) attr) h,
    contains-add (row ctx obj) attr a,
  )
  row-set ctx obj attr false o a h = ground (
    arith,
    contains-set ctx.rows obj o a (remove (row ctx obj) attr) h,
    contains-remove (row ctx obj) attr a,
  )

  col-set :
      (ctx : BinaryContext B) (obj attr : ℕ) (val : Bool) (o a : ℕ)
      → attr < length ctx.cols
      → contains (col (ctx_set ctx obj attr val) a) o
        ≡ (if o == obj && a == attr then val else contains (col ctx a) o)
  unfolding ctx_set
  col-set ctx obj attr true o a h = ground (
    arith,
    contains-set ctx.cols attr a o (add (col ctx attr) obj) h,
    contains-add (col ctx attr) obj o,
  )
  col-set ctx obj attr false o a h = ground (
    arith,
    contains-set ctx.cols attr a o (remove (col ctx attr) obj) h,
    contains-remove (col ctx attr) obj o,
  )

  pub ctx_set-nb :
      (ctx : BinaryContext B) (obj attr : ℕ) (val : Bool)
      → ((ctx_set ctx obj attr val).nb_objects ≡ ctx.nb_objects)
        × ((ctx_set ctx obj attr val).nb_attributes ≡ ctx.nb_attributes)
        × (length (ctx_set ctx obj attr val).rows ≡ length ctx.rows)
        × (length (ctx_set ctx obj attr val).cols ≡ length ctx.cols)
  unfolding ctx_set
  ctx_set-nb ctx obj attr true = (refl, refl, length-set _ _ _, length-set _ _ _)
  ctx_set-nb ctx obj attr false = (refl, refl, length-set _ _ _, length-set _ _ _)

  pub ctx_create-IsContext :
      (ctx : BinaryContext B) (n m : ℕ) (name : List ℕ) → ctx ≡ ctx_create n m name → IsContext ctx
  unfolding ctx_create
  ctx_create-IsContext ctx n m name new = record {
    rows_length = rw new (length-replicate n create);
    cols_length = rw new (length-replicate m create);
    agree = λ o a. ground (
      arith,
      ap (λ (c : BinaryContext B). contains (row c o) a) new,
      ap (λ (c : BinaryContext B). contains (col c a) o) new,
      get_or-replicate n o create,
      get_or-replicate m a create,
      contains-create a,
      contains-create o,
    );
    row_below = λ o a h. absurd (
        ground (
          arith,
          ap (λ (c : BinaryContext B). contains (row c o) a) new,
          get_or-replicate n o create,
          contains-create a,
        ));
    col_below = λ o a h. absurd (
        ground (
          arith,
          ap (λ (c : BinaryContext B). contains (row c o) a) new,
          get_or-replicate n o create,
          contains-create a,
        ));
  }

  pub row-ctx_create :
      (ctx : BinaryContext B) (n m : ℕ) (name : List ℕ)
      → ctx ≡ ctx_create n m name
      → (o a : ℕ) → contains (row ctx o) a ≡ false
  unfolding ctx_create
  row-ctx_create ctx n m name new o a =
      rw new (ground (arith, get_or-replicate n o create, contains-create a))

  -- Within the bounds of a well-formed context `ctx_set` changes the incidence at the one pair
  -- (obj, attr), to `val`, and keeps the context well formed.
  pub ctx_set-IsContext :
      (ctx : BinaryContext B) (obj attr : ℕ) (val : Bool)
      → IsContext ctx
      → obj < ctx.nb_objects
      → attr < ctx.nb_attributes
      → IsContext (ctx_set ctx obj attr val)
        × ((o a : ℕ)
            → contains (row (ctx_set ctx obj attr val) o) a
              ≡ (if o == obj && a == attr then val else contains (row ctx o) a))
  ctx_set-IsContext ctx obj attr val c ho ha =
      let nb = ctx_set-nb ctx obj attr val in
      let rs = λ (o a : ℕ). row-set ctx obj attr val o a (omega (arith, c.rows_length)) in
      let cs = λ (o a : ℕ). col-set ctx obj attr val o a (omega (arith, c.cols_length)) in
      (
        record {
          rows_length = omega (arith, nb, c.rows_length);
          cols_length = omega (arith, nb, c.cols_length);
          agree = λ o a. ground (arith, rs o a, cs o a, c.agree o a);
          row_below = λ o a h. ground (arith, nb, rs o a, c.row_below o a);
          col_below = λ o a h. ground (arith, nb, rs o a, c.col_below o a);
        },
        rs,
      )
