-- ===== src/LincboPruning/Closure.antt =====
-- algo/lincbo_pruning.c: the closure through the extent, on the dense rows of the context.
use fca4j_project.Base.{ℕ, true, false, List, [], ◌∷◌, if◌then◌else◌, ltb, ◌==◌, foldl, for_to}
use fca4j_project.Roaring.{Roaring}
use fca4j_project.Context.{col}
use fca4j_project.Bitset.{bs_zero, bs_copy, bs_set, bs_or, bs_and, bs_empty, bs_subset, bs_foreach}
use fca4j_project.DynOrder.{at}
use fca4j_project.LincboPruning.{LincboState, bs_fill_universe}

module _ {B : Type 0} ⦃R : Roaring B⦄ where
  open R use {create, add, add_range, and, is_subset, to_list, cardinality}

  unfoldable pub dense_compute_extent : LincboState B → List ℕ → B
  dense_compute_extent st bo =
      if ltb st.ctx.nb_attributes st.ctx.nb_objects
      then foldl (λ extent a. and extent (col st.ctx a)) (add_range create 0 st.ctx.nb_objects)
          (bs_foreach bo st.w)
      else for_to st.ctx.nb_objects
          (λ o extent. if bs_subset bo (at st.dense_rows o) st.w then add extent o else extent)
          create

  -- `while (it.has_value)`, which stops on an empty intent.
  unfoldable pub and_rows : LincboState B → List ℕ → List ℕ → List ℕ
  and_rows st [] intent = intent
  and_rows st (o ∷ objects) intent = elim (bs_empty intent st.w) [
    | true ↦ intent
    | false ↦ and_rows st objects (bs_and intent (at st.dense_rows o) st.w)
  ]

  -- The first object gives the intent to begin with.
  unfoldable pub intent_of_objects : LincboState B → List ℕ → List ℕ → List ℕ
  intent_of_objects st [] out = out
  intent_of_objects st (o0 ∷ objects) out =
      and_rows st objects (bs_copy out (at st.dense_rows o0) st.w)

  unfoldable pub dense_compute_intent_into : LincboState B → B → List ℕ → List ℕ
  dense_compute_intent_into st extent out =
      let card = cardinality extent in
      if card == 0
      then bs_fill_universe out st.w st.n
      else if ltb card st.n
      then intent_of_objects st (to_list extent) out
      else for_to st.n
          (λ a intent. if is_subset extent (col st.ctx a) then bs_set intent a else intent)
          (bs_zero out st.w)

  -- The closure, written over `out`, and the support.
  unfoldable pub real_closure_dense : LincboState B → List ℕ → List ℕ → List ℕ × B
  real_closure_dense st bo out =
      let ext = dense_compute_extent st bo in
      (bs_or (dense_compute_intent_into st ext out) bo st.w, ext)
