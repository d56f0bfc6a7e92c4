-- ===== src/AddExtent.antt =====
-- algo/addextent.c: the lattice built by inserting the extent of each attribute. The recursion
-- and the descent take fuel; `none` means that it ran out. The fuel that the
-- run is given is the number of objects plus one.
pub mod Candidates
pub mod SwapRemove
pub mod Dominance
pub mod Descent
pub mod Rewire
pub mod Insert
pub mod Children
pub mod Correct
pub mod Build
pub mod Run
pub mod Output
pub mod Examples
use fca4j_project.Base.{
  ℕ, zero, suc, ◌-◌, ◌+◌, Bool, true, false, List, [], ◌∷◌, ◌++◌, Option, none, some, length,
  get_or, set, take, if◌then◌else◌, foldl, for_to,
}
use fca4j_project.Roaring.{Roaring}
use fca4j_project.Context.{BinaryContext, col}
use fca4j_project.DGraph.{bitmap_at, children_of}
use fca4j_project.ConceptOrder.{
  ConceptOrder, co_create, co_add_concept, co_add_edge, co_remove_edge, co_compute_rextents,
}

infixl 5 ◌>>=◌
abbrev pub ◌>>=◌ : {A B : Type 0} → Option A → (A → Option B) → Option B
none >>= f = none
some a >>= f = f a

-- data[j] = data[len - 1]; len--
unfoldable pub swap_remove : List ℕ → ℕ → List ℕ
swap_remove l j = take (length l - 1) (set l j (get_or l (length l - 1) 0))

module _ {B : Type 0} ⦃R : Roaring B⦄ where
  open R use {create, add, and, is_subset, equals, to_list}

  abbrev pub extent_of : ConceptOrder B → ℕ → B
  extent_of co c = bitmap_at co.extents c

  -- The scan of the children up to the `break`.
  unfoldable pub first_containing : ConceptOrder B → B → List ℕ → Option ℕ
  first_containing co extent [] = none
  first_containing co extent (child ∷ children) = elim (is_subset extent (extent_of co child)) [
    | true ↦ some child
    | false ↦ first_containing co extent children
  ]

  unfoldable pub get_smallest_containing : ℕ → ConceptOrder B → B → ℕ → Option ℕ
  get_smallest_containing zero co extent generator = none
  get_smallest_containing (suc fuel) co extent generator =
      elim (first_containing co extent (to_list (children_of co.graph generator))) [
        | none ↦ some generator
        | some child ↦ get_smallest_containing fuel co extent child
      ]

  -- The loop `for (j = len - 1; j >= 0; j--)`, with `j` rounds left: the list, and `addChild`.
  unfoldable pub dominance : ConceptOrder B → ℕ → ℕ → List ℕ → List ℕ × Bool
  dominance co candidate zero l = (l, true)
  dominance co candidate (suc j) l =
      elim (is_subset (extent_of co candidate) (extent_of co (get_or l j 0))) [
        | true ↦ (l, false)
        | false ↦ dominance co candidate j (
            if is_subset (extent_of co (get_or l j 0)) (extent_of co candidate)
            then swap_remove l j
            else l)
      ]

  unfoldable pub offer_child : ConceptOrder B → ℕ → List ℕ → List ℕ
  offer_child co candidate l =
      let (kept, add_child) = dominance co candidate (length l) l in
      if add_child then kept ++ candidate ∷ [] else kept

  -- One candidate: as it is, or what the recursive call finds for the intersection.
  unfoldable pub candidate_of :
      (ConceptOrder B → B → ℕ → Option (ConceptOrder B × ℕ))
      → ConceptOrder B
      → B
      → ℕ
      → Option (ConceptOrder B × ℕ)
  candidate_of rec co extent candidate = elim (is_subset extent (extent_of co candidate)) [
    | true ↦ some (co, candidate)
    | false ↦ rec co (and extent (extent_of co candidate)) candidate
  ]

  -- The loop over the snapshot of the children.
  unfoldable pub new_children :
      (ConceptOrder B → B → ℕ → Option (ConceptOrder B × ℕ))
      → B
      → List ℕ
      → ConceptOrder B
      → List ℕ
      → Option (ConceptOrder B × List ℕ)
  new_children rec extent [] co l = some (co, l)
  new_children rec extent (child ∷ children) co l = candidate_of rec co extent child >>= λ found.
      new_children rec extent children found.0 (offer_child found.0 found.1 l)

  -- The rewiring of one new child from the generator to the new concept.
  unfoldable pub rewire : ℕ → ℕ → ConceptOrder B → ℕ → ConceptOrder B
  rewire generator nc co child = co_add_edge (co_remove_edge co child generator) child nc

  unfoldable pub insert_concept : ConceptOrder B → B → ℕ → List ℕ → ConceptOrder B × ℕ
  insert_concept co extent generator children =
      let added = co_add_concept co extent (bitmap_at co.intents generator) in
      (co_add_edge (foldl (rewire generator added.1) added.0 children) added.1 generator, added.1)

  unfoldable pub add_extent : ℕ → ConceptOrder B → B → ℕ → Option (ConceptOrder B × ℕ)
  add_extent zero co extent generator = none
  add_extent (suc fuel) co extent generator =
      get_smallest_containing (suc fuel) co extent generator >>= λ g.
      if equals extent (extent_of co g)
      then some (co, g)
      else new_children (add_extent fuel) extent (to_list (children_of co.graph g)) co []
        >>= λ found. some (insert_concept found.0 extent g found.1)

  -- The loop that fills the extent of the top concept.
  unfoldable pub all_below : ℕ → B
  all_below n = for_to n (λ o s. add s o) create

  -- One round of the loop of `build_lattice`, for attribute `a`.
  unfoldable pub insert_attribute :
      ℕ → BinaryContext B → ℕ → ℕ → ConceptOrder B → Option (ConceptOrder B)
  insert_attribute fuel ctx top a co = add_extent fuel co (col ctx a) top >>= λ found.
      some (record (found.0) {
        rintents = set found.0.rintents found.1 (some (add (bitmap_at found.0.rintents found.1) a));
      })

  -- `build_lattice`: the top concept, the attributes, and the reduced extents. Every extent is
  -- within the objects, so that `nb_objects + 1` rounds are enough.
  unfoldable pub build_lattice : BinaryContext B → Option (ConceptOrder B)
  build_lattice ctx =
      let (start, top) = co_add_concept (co_create ctx) (all_below ctx.nb_objects) create in
      for_to ctx.nb_attributes (λ a acc. acc >>= insert_attribute (ctx.nb_objects + 1) ctx top a)
        (some start)
      >>= λ co. some (co_compute_rextents co)
