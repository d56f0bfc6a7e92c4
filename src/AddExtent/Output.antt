-- ===== src/AddExtent/Output.antt =====
-- algo/addextent.c, run_addextent_flat: what the caller reads from the array.
use fca4j_project.Base.{ℕ, ◌<◌, ◌≡◌, refl, true, List, some, length}
use fca4j_project.Roaring.{Roaring}
use fca4j_project.Context.{BinaryContext, IsContext}
use fca4j_project.ConceptOrder.{ConceptOrder}
use fca4j_project.ConceptOrder.Flat.{co_to_flat_array, flat_total}
use fca4j_project.ConceptOrder.Decode.{decode}
use fca4j_project.ConceptOrder.RoundTrip.{edges_of, concepts_of, decode-flat}
use fca4j_project.AddExtent.Descent.{IsNested}
use fca4j_project.AddExtent.Build.{IsIntroduced, build_lattice_correct}
use fca4j_project.AddExtent.Run.{run_addextent_flat}

module _ {B : Type 0} ⦃R : Roaring B⦄ where
  some_flat : (co : ConceptOrder B) → (flat : List ℕ) × (co_to_flat_array true co ≡ some flat)
  unfolding co_to_flat_array
  some_flat co = (_, refl)

  -- On a well-formed context, where the allocation succeeds, `run_addextent_flat` returns an array
  -- of the length computed beforehand, from which the reader of the format gives back the edges
  -- and the reduced sets of an order whose edges go from an extent to one that properly contains
  -- it, and in which every attribute is introduced by a concept that has its column as extent.
  pub run_addextent_flat_correct :
      (ctx : BinaryContext B)
      → IsContext ctx
      → (co : ConceptOrder B) × (flat : List ℕ) × (run_addextent_flat true ctx ≡ some (some flat))
        × (length flat ≡ flat_total co)
        × (decode flat ≡ some (edges_of co co.counter, concepts_of co co.counter))
        × IsNested co
        × ((a : ℕ) → a < ctx.nb_attributes → IsIntroduced ctx co a)
  unfolding run_addextent_flat
  run_addextent_flat_correct ctx wf =
      let (co, built, nested, top, introduced, _) = build_lattice_correct ctx wf in
      let (flat, e) = some_flat co in
      let (len, read) = decode-flat co flat e in
      (co, flat, rw (built, e) refl, len, read, nested, introduced)
