-- ===== src/LincboPruning/Agree.antt =====
-- algo/lincbo_pruning.c, real_closure_dense: the closure on dense sets is that of core/closure.c.
use fca4j_project.Base.{ℕ, ◌*◌, ◌≤◌, ◌<◌, ◌≡◌, ◌↔◌, true, List, length, arith, Bool-cases, inl, inr}
use fca4j_project.Roaring.{Roaring}
use fca4j_project.Roaring.Sets.{Has}
use fca4j_project.Closure.{compute_extent, compute_intent, closure}
use fca4j_project.Closure.Derivation.{compute_extent_iff, compute_intent_iff}
use fca4j_project.Bitset.{bs_test}
use fca4j_project.Bitset.Words.{IsWords}
use fca4j_project.Bitset.Ops.{test-or_and_andnot}
use fca4j_project.LincboPruning.{LincboState}
use fca4j_project.LincboPruning.Closure.{
  dense_compute_extent, dense_compute_intent_into, real_closure_dense,
}
use fca4j_project.LincboPruning.Extent.{IsDense, dense_compute_extent_iff}
use fca4j_project.LincboPruning.Ways.{dense_compute_intent_into-IntentOf}

module _ {B : Type 0} ⦃R : Roaring B⦄ where
  open R use {
    contains, or, elem-to_list, is_subset, is_subset_iff, to_list, cardinality, cardinality_lem,
    contains-or,
  }

  -- The set and the words hold the same attributes.
  abbrev pub SameBits : LincboState B → List ℕ → B → Type 0
  SameBits st bo s = (a : ℕ) → Has s a ↔ ((a < 64 * st.w) × (bs_test bo a ≡ true))

  -- The closure on dense sets is the one on compressed sets: for a state whose dense rows are those of
  -- its context, and an attribute set that the words and the compressed set both hold, the support is the
  -- extent that `compute_extent` gives, and the words written over `out` hold exactly the attributes
  -- of `closure`, whichever of the loops over rows and columns run and whatever `out` held.
  pub real_closure_dense_iff :
      (st : LincboState B) (bo out : List ℕ) (s : B)
      → IsDense st
      → IsWords bo
      → st.w ≤ length out
      → SameBits st bo s
      → ((o : ℕ) → Has ((real_closure_dense st bo out).1) o ↔ Has (compute_extent st.ctx s) o)
        × ((a : ℕ)
            → a < 64 * st.w
            → (bs_test ((real_closure_dense st bo out).0) a ≡ true) ↔ Has (closure st.ctx s) a)
  unfolding real_closure_dense closure
  real_closure_dense_iff st bo out s d words room same =
      let ext = dense_compute_extent st bo in
      let dense = λ (o : ℕ). dense_compute_extent_iff st bo o d words in
      let sparse = λ (o : ℕ). compute_extent_iff st.ctx s o d.wf in
      let extents : (o : ℕ) → Has ext o ↔ Has (compute_extent st.ctx s) o = λ o. (
        λ h.
            let (l, all) = (dense o).0 h in
            (sparse o).1 (l, λ a ha. all a ((same a).0 ha).0 ((same a).0 ha).1),
        λ h. let (l, all) = (sparse o).0 h in (dense o).1 (l, λ a l t. all a ((same a).1 (l, t))),
      ) in
      let intent =
        dense_compute_intent_into-IntentOf st ext out d room (λ o h. ((dense o).0 h).0) in
      let written = dense_compute_intent_into st ext out in
      (
        extents,
        λ a l.
            let bits = intent.bits a l in
            let sets = compute_intent_iff st.ctx (compute_extent st.ctx s) a d.wf in
            let there : (bs_test written a ≡ true)
                ↔ Has (compute_intent st.ctx (compute_extent st.ctx s)) a =
              (
                λ h.
                    let (la, all) = bits.0 h in
                    sets.1 (omega (arith, d.size), λ o ho. all o ((extents o).1 ho)),
                λ h.
                    let (la, all) = sets.0 h in
                    bits.1 (omega (arith, d.size), λ o ho. all o ((extents o).0 ho)),
              ) in
            let dense_or =
              (test-or_and_andnot written bo st.w a (omega (arith, room, intent.same_length))
                words).0 in
            let sparse_or = contains-or (compute_intent st.ctx (compute_extent st.ctx s)) s a in
            (
              λ h. elim (Bool-cases (bs_test written a)) [
                | inl e ↦ ground (arith, sparse_or, there.0 e)
                | inr e ↦
                    ground (arith, sparse_or, (same a).1 (l, ground (arith, h, dense_or, l, e)))
              ],
              λ h. elim (Bool-cases (contains s a)) [
                | inl e ↦ ground (arith, dense_or, l, ((same a).0 e).1)
                | inr e ↦ ground (arith, dense_or, l, there.1 (ground (arith, h, sparse_or, e)))
              ],
            ),
      )
