-- ===== src/AddExtent/Run.antt =====
-- algo/addextent.c, run_addextent_impl and run_addextent_flat: the lattice as JSON text and as one
-- array of integers. The outer `none` means that the fuel ran out; the inner one is the NULL.
use fca4j_project.Base.{ℕ, Bool, List, Option, some}
use fca4j_project.Roaring.{Roaring}
use fca4j_project.Context.{BinaryContext}
use fca4j_project.ConceptOrder.Flat.{co_to_flat_array}
use fca4j_project.ConceptOrder.Intents.{co_compute_intents}
use fca4j_project.ConceptOrder.Json.{co_to_json}
use fca4j_project.AddExtent.{◌>>=◌, build_lattice}

module _ {B : Type 0} ⦃R : Roaring B⦄ where
  unfoldable pub run_addextent_impl : ℕ → BinaryContext B → Option (List ℕ)
  run_addextent_impl fuel ctx =
      build_lattice ctx >>= λ co. co_compute_intents fuel co >>= λ co'. some (co_to_json co')

  unfoldable pub run_addextent_flat : Bool → BinaryContext B → Option (Option (List ℕ))
  run_addextent_flat allocated ctx =
      build_lattice ctx >>= λ co. some (co_to_flat_array allocated co)
