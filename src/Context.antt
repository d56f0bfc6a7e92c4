-- ===== src/Context.antt =====
-- core/context.h and core/context.c: the formal context, as one bitmap of attributes for each
-- object and one bitmap of objects for each attribute. A read out of bounds, which C leaves
-- undefined, reads the empty bitmap; a write out of bounds changes nothing. `IsContext` says
-- among other things which indices are in bounds.
pub mod Laws
pub mod Matrix
pub mod Examples
use fca4j_project.Base.{
  ℕ, ◌+◌, ◌*◌, ◌<◌, ◌≡◌, Bool, true, false, List, [], ◌∷◌, ◌++◌, length, get_or, set, take,
  replicate, if◌then◌else◌, for_to, not, ◌==◌,
}
use fca4j_project.Roaring.{Roaring}

-- A name is the list of its bytes, without the final NUL.
pub record BinaryContext (B : Type 0) : Type 0 where
  pub nb_objects : ℕ
  pub nb_attributes : ℕ
  pub rows : List B
  pub cols : List B
  pub obj_names : List (List ℕ)
  pub attr_names : List (List ℕ)
  pub name : List ℕ

module _ {B : Type 0} ⦃R : Roaring B⦄ where
  open R use {create, contains, add, remove}

  -- ctx->rows[o] and ctx->cols[a]
  abbrev pub row : BinaryContext B → ℕ → B
  row ctx o = get_or ctx.rows o create

  abbrev pub col : BinaryContext B → ℕ → B
  col ctx a = get_or ctx.cols a create

  unfoldable pub ctx_create : ℕ → ℕ → List ℕ → BinaryContext B
  ctx_create nb_obj nb_attr name = record {
    nb_objects = nb_obj;
    nb_attributes = nb_attr;
    rows = replicate nb_obj create;
    cols = replicate nb_attr create;
    obj_names = [];
    attr_names = [];
    name = take 255 name;
  }

  unfoldable pub ctx_set : BinaryContext B → ℕ → ℕ → Bool → BinaryContext B
  ctx_set ctx obj attr val =
      if val
      then record ctx {
        rows = set ctx.rows obj (add (row ctx obj) attr);
        cols = set ctx.cols attr (add (col ctx attr) obj);
      }
      else record ctx {
        rows = set ctx.rows obj (remove (row ctx obj) attr);
        cols = set ctx.cols attr (remove (col ctx attr) obj);
      }

  unfoldable pub ctx_add_obj_name : BinaryContext B → List ℕ → BinaryContext B
  ctx_add_obj_name ctx n = record ctx { obj_names = ctx.obj_names ++ n ∷ [] }

  unfoldable pub ctx_add_attr_name : BinaryContext B → List ℕ → BinaryContext B
  ctx_add_attr_name ctx n = record ctx { attr_names = ctx.attr_names ++ n ∷ [] }

  -- The inner loop: object `o`, attributes 0 … nb_attr - 1. A matrix byte is read as a number,
  -- of which only "zero or not" matters.
  unfoldable pub matrix_row : ℕ → List ℕ → ℕ → ℕ → BinaryContext B → BinaryContext B
  matrix_row nb_attr matrix o n ctx =
      for_to n
        (λ a c. if not (get_or matrix (o * nb_attr + a) 0 == 0) then ctx_set c o a true else c) ctx

  unfoldable pub ctx_from_matrix : ℕ → ℕ → List ℕ → List ℕ → BinaryContext B
  unfolding matrix_row
  ctx_from_matrix nb_obj nb_attr matrix name =
      for_to nb_obj (λ o c. matrix_row nb_attr matrix o nb_attr c) (ctx_create nb_obj nb_attr name)

  -- The rows and the columns hold the same incidence, which stays within the dimensions.
  pub record IsContext (ctx : BinaryContext B) : Type 0 where
    pub rows_length : length ctx.rows ≡ ctx.nb_objects
    pub cols_length : length ctx.cols ≡ ctx.nb_attributes
    pub agree : (o a : ℕ) → contains (row ctx o) a ≡ contains (col ctx a) o
    pub row_below : (o a : ℕ) → contains (row ctx o) a ≡ true → a < ctx.nb_attributes
    pub col_below : (o a : ℕ) → contains (row ctx o) a ≡ true → o < ctx.nb_objects
