-- ===== src/LincboPruning/Output.antt =====
-- algo/lincbo_pruning.c: the export of the implications, and the basis as JSON text and as one array.
use fca4j_project.Base.{ℕ, ◌+◌, List, [], ◌∷◌, ◌++◌, Option, none, some, length, get_or, for_to}
use fca4j_project.Roaring.{Roaring}
use fca4j_project.Context.{BinaryContext}
use fca4j_project.Implication.{CImplication, impl_create_with_support}
use fca4j_project.BitsetRoaring.{bs_to_roaring}
use fca4j_project.StrBuf.{StrBuf, sb_new, sb_append, sb_printf, sb_append_json_str}
use fca4j_project.StrBuf.Arrays.{codes, decimal}
use fca4j_project.AddExtent.{◌>>=◌}
use fca4j_project.LinCbo.Output.{implication_json}
use fca4j_project.LincboPruning.{
  LincboState, LincboPruneMode, prune_none, prune_lifo, prune_lcm, lincbo_state_create,
}
use fca4j_project.LincboPruning.Linear.{dense_impl}
use fca4j_project.LincboPruning.Engine.{run_engine}

unfoldable pub mode_name : LincboPruneMode → List ℕ
mode_name prune_lifo = codes "LinCbOWithPruning"
mode_name prune_lcm = codes "LinCbOWithLCMPruning"
mode_name prune_none = codes "LinCbO"

module _ {B : Type 0} ⦃R : Roaring B⦄ where
  open R use {create, to_list, cardinality}

  unfoldable pub export_implications : LincboState B → List (CImplication B)
  export_implications st =
      for_to (length st.impls)
        (λ i out.
          let di = dense_impl st i in
          out
          ++ impl_create_with_support (bs_to_roaring di.premise st.w)
              (bs_to_roaring di.closure st.w) di.support
            ∷ [])
        []

  unfoldable pub run_lincbo_pruning :
      ℕ → ℕ → BinaryContext B → LincboPruneMode → Option (List (CImplication B))
  run_lincbo_pruning fuel inner ctx mode =
      run_engine fuel inner (lincbo_state_create ctx mode) >>= λ st. some (export_implications st)

  -- result.data[i]
  abbrev pub implication : List (CImplication B) → ℕ → CImplication B
  implication result i =
      get_or result i
        (record { premise = create; conclusion = create; support = none; support_size = 0 })

  unfoldable pub pruning_json : BinaryContext B → LincboPruneMode → List (CImplication B) → StrBuf
  pruning_json ctx mode result =
      let head = sb_printf sb_new (
        codes "{\"algorithm\":\""
        ++ mode_name mode
        ++ codes "\",\"implications\":"
        ++ decimal (length result)
        ++ codes ",\"context\":") in
      let named = sb_printf (sb_append_json_str head ctx.name) (
        codes ",\"objects\":"
        ++ decimal ctx.nb_objects
        ++ codes ",\"attributes\":"
        ++ decimal ctx.nb_attributes
        ++ codes ",\"basis\":[") in
      sb_append
        (for_to (length result) (λ i sb. implication_json ctx i (implication result i) sb) named)
        (codes "]}")

  unfoldable pub run_lincbo_pruning_json :
      ℕ → ℕ → BinaryContext B → LincboPruneMode → Option (List ℕ)
  run_lincbo_pruning_json fuel inner ctx mode = run_lincbo_pruning fuel inner ctx mode >>= λ result.
      some ((pruning_json ctx mode result).text)

  -- One implication of the array.
  unfoldable pub flat_implication : CImplication B → List ℕ
  flat_implication imp =
      cardinality imp.premise ∷ to_list imp.premise
      ++ cardinality imp.conclusion ∷ to_list imp.conclusion
      ++ imp.support_size ∷ []

  unfoldable pub flat_basis : List (CImplication B) → List ℕ
  flat_basis result =
      for_to (length result) (λ i flat. flat ++ flat_implication (implication result i))
        (length result ∷ [])

  -- `total`, the size of the array that is allocated.
  unfoldable pub basis_total : List (CImplication B) → ℕ
  basis_total result =
      for_to (length result)
        (λ i total.
          let imp = implication result i in
          total + (cardinality imp.premise + cardinality imp.conclusion + 3))
        1

  unfoldable pub run_lincbo_pruning_flat :
      ℕ → ℕ → BinaryContext B → LincboPruneMode → Option (List ℕ)
  run_lincbo_pruning_flat fuel inner ctx mode =
      run_lincbo_pruning fuel inner ctx mode >>= λ result. some (flat_basis result)
