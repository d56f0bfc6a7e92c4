-- ===== src/AddExtent/Children.antt =====
-- algo/addextent.c: the loop over the children of the generator.
use fca4j_project.Base.{
  ℕ, ◌≤◌, ◌<◌, ◌≡◌, refl, sym, ◌∙◌, true, false, List, [], ◌∷◌, Option, some, elem, arith,
  Bool-cases, inl, inr, ltb, length, get_or, ◌==◌, ==_iff,
}
use mathlib.Core.Path.{subst}
use fca4j_project.Roaring.{Roaring}
use fca4j_project.Roaring.Sets.{Subset}
use fca4j_project.DGraph.{bitmap_at}
use fca4j_project.ConceptOrder.{ConceptOrder}
use fca4j_project.AddExtent.{extent_of, candidate_of, new_children, offer_child}
use fca4j_project.AddExtent.Candidates.{All, All-get_or, offer_child-All}
use fca4j_project.AddExtent.Dominance.{Covered, IsApart, offer_child-IsApart, offer_child-Covered}
use fca4j_project.AddExtent.Descent.{IsNested, Climbs, Climbs-trans}
use fca4j_project.AddExtent.Insert.{Inserts, IsChildOf}
use fca4j_project.AddExtent.Rewire.{All-map}

pub All-at : (Q : ℕ → Type 0) (xs : List ℕ) (c : ℕ) → All Q xs → elem c xs ≡ true → Q c
All-at Q [] c a m = absurd (ground (arith, m))
All-at Q (x ∷ xs) c a m = elim (Bool-cases (c == x)) [
  | inl same ↦ subst Q (sym ((==_iff c x).0 same)) a.0
  | inr other ↦ All-at Q xs c a.1 (ground (arith, m, other))
]

module _ {B : Type 0} ⦃R : Roaring B⦄ where
  open R use {
    contains, and, is_subset, equals, to_list, cardinality, contains-and, is_subset_iff, equals_iff,
    elem-to_list,
  }

  and-Subset : (a b : B) → Subset (and a b) b
  and-Subset a b x h = ground (arith, contains-and a b x)

  -- Nothing but additions, below `g`: the concepts there were keep their extents and the ways up.
  pub record Grows (co co' : ConceptOrder B) (g : ℕ) : Type 0 where
    pub nested : IsNested co'
    pub grows : co.counter ≤ co'.counter
    pub kept : (c : ℕ) → c < co.counter → extent_of co' c ≡ extent_of co c
    pub rintents_kept :
        (c : ℕ) → c < co.counter → bitmap_at co'.rintents c ≡ bitmap_at co.rintents c
    pub above_kept : (c p : ℕ) → Climbs co.graph c p → Climbs co'.graph c p
    pub new_under : (c : ℕ) → co.counter ≤ c → c < co'.counter → Climbs co'.graph c g

  Grows-trans : (a b c : ConceptOrder B) (top : ℕ) → Grows a b top → Grows b c top → Grows a c top
  Grows-trans a b c top f g = record {
    nested = g.nested;
    grows = omega (arith, f.grows, g.grows);
    kept = λ i h. g.kept i (omega (arith, f.grows)) ∙ f.kept i h;
    rintents_kept = λ i h. g.rintents_kept i (omega (arith, f.grows)) ∙ f.rintents_kept i h;
    above_kept = λ i p up. g.above_kept i p (f.above_kept i p up);
    new_under = λ i new lt. elim (Bool-cases (ltb i b.counter)) [
      | inl first ↦ g.above_kept i top (f.new_under i new (ground (arith, first)))
      | inr second ↦ g.new_under i (ground (arith, second)) lt
    ];
  }

  module _ (co co' : ConceptOrder B) (g : ℕ) (more : Grows co co' g) (l : List ℕ)
      (old : All (λ d. d < co.counter) l) where
    kept_at : (i : ℕ) → i < length l → extent_of co' (get_or l i 0) ≡ extent_of co (get_or l i 0)
    kept_at i hi = more.kept (get_or l i 0) (All-get_or (λ d. d < co.counter) l i hi old)

    Covered-kept : (s : B) → Covered co l s → Covered co' l s
    Covered-kept s (i, hi, sub) = (i, hi, subst (Subset s) (sym (kept_at i hi)) sub)

    IsApart-kept : IsApart co l → IsApart co' l
    IsApart-kept apart i j hi hj sub = apart i j hi hj (rw (kept_at i hi, kept_at j hj) at sub)

  -- What the loop over the children of the generator makes of the list: still no extent in another,
  -- and what was covered and the intersection with each child are covered.
  pub record Chosen (co co' : ConceptOrder B) (extent : B) (children l l' : List ℕ) : Type 0 where
    pub apart : IsApart co l → IsApart co' l'
    pub still : (s : B) → Covered co l s → Covered co' l' s
    pub cut : (o : ℕ) → elem o children ≡ true → Covered co' l' (and extent (extent_of co o))

  -- The contract of a call with this much fuel.
  abbrev Inserter : ℕ → (ConceptOrder B → B → ℕ → Option (ConceptOrder B × ℕ)) → Type 0
  Inserter fuel rec =
      (co : ConceptOrder B) (extent : B) (generator : ℕ)
      → IsNested co
      → generator < co.counter
      → Subset extent (extent_of co generator)
      → cardinality (extent_of co generator) < fuel
      → (co' : ConceptOrder B) × (r : ℕ) × (rec co extent generator ≡ some (co', r))
        × Inserts co co' extent generator r

  module _ (fuel : ℕ) (rec : ConceptOrder B → B → ℕ → Option (ConceptOrder B × ℕ))
      (correct : Inserter fuel rec) (extent : B) (g : ℕ) where
    -- A child of the generator, as the loop finds it.
    abbrev IsCandidate : ConceptOrder B → ℕ → Type 0
    IsCandidate co c =
        (c < co.counter)
        × (is_subset extent (extent_of co c) ≡ false)
        × (cardinality (extent_of co c) < fuel)
        × Climbs co.graph c g

    candidate_lem :
        (co : ConceptOrder B) (c : ℕ)
        → IsNested co
        → IsCandidate co c
        → (co' : ConceptOrder B) × (r : ℕ) × (candidate_of rec co extent c ≡ some (co', r))
          × Grows co co' g
          × IsChildOf co' extent r
          × Subset (and extent (extent_of co c)) (extent_of co' r)
    unfolding candidate_of
    candidate_lem co c w (lt, misses, small, up) =
        let inter = and extent (extent_of co c) in
        let (co', r, result, ins) =
          correct co inter c w lt (and-Subset extent (extent_of co c)) small in
        (
          co',
          r,
          rw (misses, candidate_of) result,
          record {
            nested = ins.nested;
            grows = ins.grows;
            kept = ins.kept;
            rintents_kept = ins.rintents_kept;
            above_kept = ins.above_kept;
            new_under = λ d new l.
                Climbs-trans co'.graph d c g (ins.under d (inr new) l) (ins.above_kept c g up);
          },
          (
            ins.id_lt,
            (
              λ x h. ground (arith, ins.holds x, contains-and extent (extent_of co c) x),
              λ whole.
                  let all_in : is_subset extent (extent_of co c) ≡ true =
                    (is_subset_iff extent (extent_of co c)).1 (λ x h.
                      ground
                        (arith, whole x h, ins.holds x, contains-and extent (extent_of co c) x)) in
                  cc,
            ),
          ),
          λ x h. ins.holds x ∙ h,
        )

    pub children_lem :
        (children : List ℕ) (co : ConceptOrder B) (l : List ℕ)
        → IsNested co
        → All (IsCandidate co) children
        → All (IsChildOf co extent) l
        → (co' : ConceptOrder B) × (l' : List ℕ) × (new_children rec extent children co l
            ≡ some (co', l'))
          × Grows co co' g
          × All (IsChildOf co' extent) l'
          × Chosen co co' extent children l l'
    unfolding new_children
    children_lem [] co l w cs a = (
      co,
      l,
      refl,
      record {
        nested = w;
        grows = omega arith;
        kept = λ c h. refl;
        rintents_kept = λ c h. refl;
        above_kept = λ c p up. up;
        new_under = λ c new lt. absurd (omega arith);
      },
      a,
      record {
        apart = λ apart. apart;
        still = λ s covered. covered;
        cut = λ o m. absurd (ground (arith, m));
      },
    )
    children_lem (c ∷ children) co l w cs a =
        let (co1, r, result, more, is_child, meets) = candidate_lem co c w cs.0 in
        let kept_candidates =
          All-map (IsCandidate co) (IsCandidate co1) children
            (λ d h.
              let (lt, misses, small, up) = h in
              (
                omega (arith, lt, more.grows),
                rw (more.kept d lt) misses,
                rw (more.kept d lt) small,
                more.above_kept d g up,
              ))
            cs.1 in
        let kept_list =
          All-map (IsChildOf co extent) (IsChildOf co1 extent) l
            (λ d h. (omega (arith, h.0, more.grows), rw (more.kept d h.0) h.1)) a in
        let (co2, l2, results, more2, all2, chosen) =
          children_lem children co1 (offer_child co1 r l) more.nested kept_candidates
            (offer_child-All (IsChildOf co1 extent) co1 r l is_child kept_list) in
        let old = All-map (IsChildOf co extent) (λ d. d < co.counter) l (λ d h. h.0) a in
        (
          co2,
          l2,
          rw result results,
          Grows-trans co co1 co2 g more more2,
          all2,
          record {
            apart = λ apart.
                chosen.apart (offer_child-IsApart co1 r l (IsApart-kept co co1 g more l old apart));
            still = λ s covered.
                chosen.still s (
                  offer_child-Covered co1 r l s (inl (Covered-kept co co1 g more l old s covered)));
            cut = λ o m. elim (Bool-cases (o == c)) [
              | inl same ↦
                  let inter = and extent (extent_of co c) in
                  subst (λ t. Covered co2 l2 (and extent (extent_of co t)))
                    (sym ((==_iff o c).0 same))
                    (chosen.still inter (offer_child-Covered co1 r l inter (inr meets)))
              | inr other ↦
                  let later : elem o children ≡ true = ground (arith, m, other) in
                  let lt = (All-at (IsCandidate co) children o cs.1 later).0 in
                  subst (λ t. Covered co2 l2 (and extent t)) (more.kept o lt) (chosen.cut o later)
            ];
          },
        )
