-- ===== src/ConceptOrder/Reduced.antt =====
-- `co_compute_rextents`: the reduced extent of a concept is its extent without those of its
-- children.
use fca4j_project.Base.{
  ℕ, zero, suc, ◌≤◌, ◌<◌, ◌≡◌, refl, ap, ◌∙◌, ◌↔◌, false, List, Option, none, some, length, set,
  get_or, for_to, arith, length-set, get_or-set_self, get_or-set_ne,
}
use fca4j_project.Roaring.{Roaring}
use fca4j_project.Roaring.Sets.{Has, all_visited}
use fca4j_project.DGraph.{bitmap_at, children_of}
use fca4j_project.ConceptOrder.{ConceptOrder, reduced_extent, co_compute_rextents}

module _ {B : Type 0} ⦃R : Roaring B⦄ where
  open R use {contains, andnot, to_list, contains-andnot, elem-to_list}

  reduced_extent_iff :
      (co : ConceptOrder B) (c o : ℕ)
      → Has (reduced_extent co c) o ↔ (
          Has (bitmap_at co.extents c) o
          × ((d : ℕ)
              → Has (children_of co.graph c) d
              → contains (bitmap_at co.extents d) o ≡ false))
  unfolding reduced_extent
  reduced_extent_iff co c o =
      let children = children_of co.graph c in
      let visited =
        all_visited (λ s. Has s o) (λ d. contains (bitmap_at co.extents d) o ≡ false)
          (λ re child. andnot re (bitmap_at co.extents child))
          (λ s d. ground (arith, contains-andnot s (bitmap_at co.extents d) o)) (to_list children)
          (bitmap_at co.extents c) in
      (
        λ h. let (own, free) = visited.0 h in (own, λ d hd. free d (elem-to_list children d ∙ hd)),
        λ h. visited.1 (h.0, λ d e. h.1 d (ground (arith, elem-to_list children d))),
      )

  module _ (co : ConceptOrder B) where
    abbrev pub cells_after : ℕ → List (Option B)
    cells_after n = for_to n (λ c cells. set cells c (some (reduced_extent co c))) co.rextents

    -- The loop writes the array of reduced extents and nothing else.
    loop-cells :
        (n : ℕ)
        → for_to n (λ c o. record o { rextents = set o.rextents c (some (reduced_extent o c)) }) co
          ≡ record co { rextents = cells_after n }
    unfolding reduced_extent
    loop-cells zero = refl
    loop-cells (suc n) =
        ap
          (λ (o : ConceptOrder B). record o {
            rextents = set o.rextents n (some (reduced_extent o n));
          })
          (loop-cells n)

    pub length-cells : (n : ℕ) → length (cells_after n) ≡ length co.rextents
    length-cells zero = refl
    length-cells (suc n) = length-set (cells_after n) n _ ∙ length-cells n

    cell :
        (n c : ℕ)
        → c < n
        → n ≤ length co.rextents
        → get_or (cells_after n) c none ≡ some (reduced_extent co c)
    cell zero c h l = absurd (omega arith)
    cell (suc n) c h l = ground (
      arith,
      cell n c,
      length-cells n,
      get_or-set_self (cells_after n) n (some (reduced_extent co n)) none,
      get_or-set_ne (cells_after n) n c (some (reduced_extent co n)) none,
    )

    pub compute_rextents_lem :
        co_compute_rextents co ≡ record co { rextents = cells_after co.counter }
    unfolding co_compute_rextents
    compute_rextents_lem = loop-cells co.counter

    -- After `co_compute_rextents`, on arrays that cover the ids, the reduced extent of a concept
    -- holds exactly the objects of its extent that are in the extent of none of its children.
    pub compute_rextents_iff :
        (c o : ℕ)
        → co.counter ≤ length co.rextents
        → c < co.counter
        → Has (bitmap_at (co_compute_rextents co).rextents c) o ↔ (
            Has (bitmap_at co.extents c) o
            × ((d : ℕ)
                → Has (children_of co.graph c) d
                → contains (bitmap_at co.extents d) o ≡ false))
    unfolding co_compute_rextents
    compute_rextents_iff c o room lt =
        let at_c = ap (λ (r : ConceptOrder B). get_or r.rextents c none) (loop-cells co.counter) in
        rw (at_c ∙ cell co.counter c lt room) (reduced_extent_iff co c o)
