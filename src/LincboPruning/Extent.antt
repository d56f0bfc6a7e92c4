-- ===== src/LincboPruning/Extent.antt =====
-- algo/lincbo_pruning.c: what the dense rows are, and the extent that they give.
use fca4j_project.Base.{
  ℕ, zero, suc, ◌*◌, ◌<◌, ◌≡◌, ◌↔◌, refl, sym, ◌∙◌, ap, ◌&&◌, true, List, [], ◌∷◌, ◌++◌, length,
  if◌then◌else◌, ltb, ◌==◌, arith, Bool-cases, inl, inr, ==_iff, foldl, for_to, for_inv,
  length-append, get_or-append_left, get_or-append_last,
}
use mathlib.Core.Path.{subst}
use fca4j_project.Roaring.{Roaring}
use fca4j_project.Roaring.Sets.{Has, Below, all_visited}
use fca4j_project.Context.{BinaryContext, row, col, IsContext}
use fca4j_project.Bitset.{aw_n, bs_test, bs_subset, bs_foreach}
use fca4j_project.Bitset.Words.{IsWords}
use fca4j_project.Bitset.Tests.{bs_subset_iff}
use fca4j_project.Bitset.Items.{bs_foreach_lem}
use fca4j_project.BitsetRoaring.{bs_from_roaring}
use fca4j_project.BitsetRoaring.RoundTrip.{from_roaring-IsWords, test-from_roaring}
use fca4j_project.DynOrder.{at}
use fca4j_project.LincboPruning.{LincboState, LincboPruneMode, lincbo_state_create}
use fca4j_project.LincboPruning.Closure.{dense_compute_extent}

module _ {B : Type 0} ⦃R : Roaring B⦄ where
  open R use {
    create, contains, add, add_range, and, contains-create, contains-add, contains-add_range,
    contains-and,
  }

  -- The dense rows of the first `k` objects are the rows of the context.
  pub record Rows (ctx : BinaryContext B) (w k : ℕ) (rows : List (List ℕ)) : Type 0 where
    pub count : length rows ≡ k
    pub words : (o : ℕ) → o < k → IsWords (at rows o)
    pub bits : (o j : ℕ) → o < k → bs_test (at rows o) j ≡ contains (row ctx o) j

  Rows-snoc :
      (ctx : BinaryContext B) (w k : ℕ) (rows : List (List ℕ))
      → Below (64 * w) (row ctx k)
      → Rows ctx w k rows
      → Rows ctx w (suc k) (rows ++ bs_from_roaring (row ctx k) w ∷ [])
  Rows-snoc ctx w k rows below r =
      let new = bs_from_roaring (row ctx k) w in
      let last : at (rows ++ new ∷ []) k ≡ new =
        ap (λ t. at (rows ++ new ∷ []) t) (sym r.count) ∙ get_or-append_last rows new [] in
      record {
        count = omega (arith, length-append rows (new ∷ []), r.count);
        words = λ o l. elim (Bool-cases (o == k)) [
          | inl e ↦
              subst (λ t. IsWords (at (rows ++ new ∷ []) t)) (sym ((==_iff o k).0 e))
                (subst IsWords (sym last) (from_roaring-IsWords (row ctx k) w))
          | inr e ↦
              let before : o < k = ground (arith, l, e) in
              subst IsWords
                (sym (get_or-append_left rows (new ∷ []) o [] (omega (arith, before, r.count))))
                (r.words o before)
        ];
        bits = λ o j l. elim (Bool-cases (o == k)) [
          | inl e ↦
              subst (λ t. bs_test (at (rows ++ new ∷ []) t) j ≡ contains (row ctx t) j)
                (sym ((==_iff o k).0 e))
                (ap (λ t. bs_test t j) last ∙ test-from_roaring (row ctx k) w below j)
          | inr e ↦
              let before : o < k = ground (arith, l, e) in
              ap (λ t. bs_test t j)
                (get_or-append_left rows (new ∷ []) o [] (omega (arith, before, r.count)))
              ∙ r.bits o j before
        ];
      }

  -- The state goes with its context.
  pub record IsDense (st : LincboState B) : Type 0 where
    pub wf : IsContext st.ctx
    pub size : st.n ≡ st.ctx.nb_attributes
    pub width : st.w ≡ aw_n st.n
    pub rows : Rows st.ctx st.w st.ctx.nb_objects st.dense_rows

  pub lincbo_state_create-IsDense :
      (ctx : BinaryContext B) (mode : LincboPruneMode)
      → IsContext ctx
      → IsDense (lincbo_state_create ctx mode)
  unfolding lincbo_state_create bs_from_roaring aw_n
  lincbo_state_create-IsDense ctx mode wf = record {
    wf = wf;
    size = refl;
    width = refl;
    rows =
        for_inv (λ k rows. Rows ctx (aw_n ctx.nb_attributes) k rows) _ ctx.nb_objects []
          (λ o rows l r.
            Rows-snoc ctx (aw_n ctx.nb_attributes) o rows (λ x h. omega (arith, wf.row_below o x h))
              r)
          (record {
            count = refl;
            words = λ o l. absurd (omega arith);
            bits = λ o j l. absurd (omega arith);
          });
  }

  -- The objects whose rows hold all the bits.
  abbrev pub HasAll : LincboState B → List ℕ → ℕ → Type 0
  HasAll st bo o = (a : ℕ) → a < 64 * st.w → bs_test bo a ≡ true → Has (row st.ctx o) a

  by_rows :
      (st : LincboState B) (bo : List ℕ) (o n : ℕ)
      → contains
          (for_to n
            (λ o extent. if bs_subset bo (at st.dense_rows o) st.w then add extent o else extent)
            create)
          o
        ≡ (ltb o n && bs_subset bo (at st.dense_rows o) st.w)
  by_rows st bo o zero = ground (arith, contains-create o)
  by_rows st bo o (suc n) =
      let acc =
        for_to n
          (λ o extent. if bs_subset bo (at st.dense_rows o) st.w then add extent o else extent)
          create in
      elim (Bool-cases (o == n)) [
        | inl e ↦ ground (arith, by_rows st bo o n, contains-add acc n o, (==_iff o n).0 e)
        | inr e ↦ ground (arith, by_rows st bo o n, contains-add acc n o)
      ]

  by_columns :
      (st : LincboState B) (bo : List ℕ) (o : ℕ)
      → IsDense st
      → IsWords bo
      → Has
          (foldl
            (λ extent a. and extent (col st.ctx a))
            (add_range create 0 st.ctx.nb_objects)
            (bs_foreach bo st.w))
          o
        ↔ ((o < st.ctx.nb_objects) × HasAll st bo o)
  by_columns st bo o d words =
      let visited =
        all_visited (λ s. Has s o) (λ a. Has (col st.ctx a) o) (λ acc a. and acc (col st.ctx a))
          (λ s a. ground (arith, contains-and s (col st.ctx a) o)) (bs_foreach bo st.w)
          (add_range create 0 st.ctx.nb_objects) in
      let start = contains-add_range create 0 st.ctx.nb_objects o in
      let items = (bs_foreach_lem bo st.w words).0 in
      (
        λ h.
            let (base, all) = visited.0 h in
            (
              ground (arith, start, contains-create o),
              λ a l t. d.wf.agree o a ∙ all a (ground (arith, items a, l, t)),
            ),
        λ h. visited.1 (
          ground (arith, h.0, start),
          λ a e.
              let member = items a in
              sym (d.wf.agree o a) ∙ h.1 a (ground (arith, member, e)) (ground (arith, member, e)),
        ),
      )

  -- The objects of `dense_compute_extent` are exactly those of the context that have every attribute of
  -- the dense set, whichever of the two loops computes it.
  pub dense_compute_extent_iff :
      (st : LincboState B) (bo : List ℕ) (o : ℕ)
      → IsDense st
      → IsWords bo
      → Has (dense_compute_extent st bo) o ↔ ((o < st.ctx.nb_objects) × HasAll st bo o)
  unfolding dense_compute_extent
  dense_compute_extent_iff st bo o d words =
      elim (Bool-cases (ltb st.ctx.nb_attributes st.ctx.nb_objects)) [
        | inl few ↦ rw few (by_columns st bo o d words)
        | inr many ↦
            rw (many, by_rows st bo o st.ctx.nb_objects)
              (
                λ h.
                    let l : o < st.ctx.nb_objects = ground (arith, h) in
                    (
                      l,
                      λ a la t.
                          sym (d.rows.bits o a l)
                          ∙ (bs_subset_iff bo (at st.dense_rows o) st.w words (d.rows.words o l)).0
                              (ground (arith, h)) a la t,
                    ),
                λ h.
                    let sub =
                      (bs_subset_iff bo (at st.dense_rows o) st.w words (d.rows.words o h.0)).1
                        (λ a la t. d.rows.bits o a h.0 ∙ h.1 a la t) in
                    ground (arith, h.0, sub),
              )
      ]
