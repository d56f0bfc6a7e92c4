-- ===== src/AddExtent/Correct.antt =====
-- Total correctness of `add_extent`.
use fca4j_project.Base.{
  ℕ, zero, suc, ◌<◌, ◌≡◌, refl, sym, ◌∙◌, true, false, List, [], ◌∷◌, some, elem, arith, Bool-cases,
  Bool-ext, inl, inr, ==_refl, ltb, ◌⊎◌,
}
use mathlib.Core.Path.{subst}
use fca4j_project.Roaring.{Roaring}
use fca4j_project.Roaring.Sets.{Has, Subset}
use fca4j_project.Roaring.Cardinal.{cardinality-lt}
use fca4j_project.DGraph.{children_of, parents_of}
use fca4j_project.ConceptOrder.{ConceptOrder}
use fca4j_project.AddExtent.{extent_of, add_extent, insert_concept}
use fca4j_project.AddExtent.Candidates.{All}
use fca4j_project.AddExtent.Dominance.{Covered-elem, IsApart-elem}
use fca4j_project.AddExtent.Descent.{
  Proper, IsNested, child-Proper, IsSmallest, get_smallest_lem, Climbs, stays, climbs, Climbs-trans,
}
use fca4j_project.AddExtent.Insert.{Inserts, IsChildOf, insert_concept-Inserts}
use fca4j_project.AddExtent.Children.{All-at, Chosen, children_lem}

-- Members satisfy what all members satisfy.
All-of_elem : (Q : ℕ → Type 0) (xs : List ℕ) → ((c : ℕ) → elem c xs ≡ true → Q c) → All Q xs
All-of_elem Q [] h = tt
All-of_elem Q (x ∷ xs) h =
    (h x (ground (arith, ==_refl x)), All-of_elem Q xs (λ c e. h c (ground arith)))

module _ {B : Type 0} ⦃R : Roaring B⦄ where
  open R use {
    contains, and, is_subset, equals, to_list, cardinality, contains-and, is_subset_iff, equals_iff,
    elem-to_list,
  }

  -- Two sets that are not equal, one inside the other.
  Proper-of_ne : (a b : B) → Subset a b → equals a b ≡ false → Proper a b
  Proper-of_ne a b sub ne = (
    sub,
    λ back.
        let same : equals a b ≡ true =
          (equals_iff a b).1 (λ x. Bool-ext (contains a x) (contains b x) (sub x) (back x)) in
        cc,
  )

  candidate_child :
      (fuel : ℕ) (co : ConceptOrder B) (extent : B) (start g : ℕ)
      → IsNested co
      → cardinality (extent_of co start) < suc fuel
      → IsSmallest co extent start g
      → (c : ℕ) → Has (children_of co.graph g) c
      → (c < co.counter)
        × (is_subset extent (extent_of co c) ≡ false)
        × (cardinality (extent_of co c) < fuel)
        × Climbs co.graph c g
  candidate_child fuel co extent start g w h small c hc =
      let (lt, proper) = child-Proper co g c w hc in
      let less = cardinality-lt (extent_of co c) (extent_of co g) proper.0 proper.1 in
      (
        lt,
        small.lowest c hc,
        omega (arith, small.not_larger),
        climbs c g g (w.order.graph_wf.mirror c g ∙ hc) (stays g),
      )

  -- Where a new concept lies: under `g`, whose extent properly contains its own, and over children that
  -- have no extent in another, and within whose extents the intersections with those of the
  -- children that `g` had lie.
  pub record Placed (co co' : ConceptOrder B) (extent : B) (r : ℕ) : Type 0 where
    pub g : ℕ
    pub old : g < co.counter
    pub over : Proper extent (extent_of co g)
    pub edge : Has (parents_of co'.graph r) g
    pub apart :
        (c d : ℕ)
        → Has (children_of co'.graph r) c
        → Has (children_of co'.graph r) d
        → Subset (extent_of co' c) (extent_of co' d)
        → c ≡ d
    pub covers :
        (o : ℕ)
        → Has (children_of co.graph g) o
        → (d : ℕ) × Has (children_of co'.graph r) d
          × Subset (and extent (extent_of co o)) (extent_of co' d)

  module _ (co co1 co2 : ConceptOrder B) (extent : B) (l : List ℕ) (g r : ℕ)
      (all : All (IsChildOf co1 extent) l)
      (chosen : Chosen co co1 extent (to_list (children_of co.graph g)) [] l)
      (ins : Inserts co1 co2 extent g r)
      (exact : (c : ℕ) → contains (parents_of co2.graph c) r ≡ elem c l) where
    chosen_iff : (c : ℕ) → contains (children_of co2.graph r) c ≡ elem c l
    chosen_iff c = sym (ins.nested.order.graph_wf.mirror c r) ∙ exact c

    same_extent : (c : ℕ) → elem c l ≡ true → extent_of co2 c ≡ extent_of co1 c
    same_extent c m = ins.kept c (All-at (IsChildOf co1 extent) l c all m).0

    chosen-Placed :
        g < co.counter
        → Proper extent (extent_of co g)
        → Has (parents_of co2.graph r) g
        → Placed co co2 extent r
    chosen-Placed old over edge = record {
      g = g;
      old = old;
      over = over;
      edge = edge;
      apart = λ c d hc hd sub.
          let mc = sym (chosen_iff c) ∙ hc in
          let md = sym (chosen_iff d) ∙ hd in
          IsApart-elem co1 l c d (chosen.apart (λ i j hi hj e. absurd (omega arith))) mc md (
            subst (λ t. Subset t (extent_of co1 d)) (same_extent c mc)
              (subst (λ t. Subset (extent_of co2 c) t) (same_extent d md) sub));
      covers = λ o ho.
          let (d, md, sub) =
            Covered-elem co1 l (and extent (extent_of co o))
              (chosen.cut o (elem-to_list (children_of co.graph g) o ∙ ho)) in
          (
            d,
            chosen_iff d ∙ md,
            subst (Subset (and extent (extent_of co o))) (sym (same_extent d md)) sub,
          );
    }

  -- In a well-formed order whose edges go from an extent to one that properly contains it, from a
  -- generator (a concept of the order) whose extent contains the set to insert, and with more fuel
  -- than the cardinality of that extent, `add_extent` returns an order that is again of this form and
  -- a concept of it whose extent has the same elements as the set; the concepts there before keep
  -- their extents, their reduced intents and all ways up between them, and the concept returned and
  -- the ones that are new have a way up to the generator. The concept returned was there before, or it
  -- has an edge to an old concept whose extent properly contains its own, no extent of a child of
  -- it lies within that of another, and the intersection of the set with the extent of each child
  -- that the old concept had lies within the extent of one of its children.
  pub add_extent_correct :
      (fuel : ℕ) (co : ConceptOrder B) (extent : B) (generator : ℕ)
      → IsNested co
      → generator < co.counter
      → Subset extent (extent_of co generator)
      → cardinality (extent_of co generator) < fuel
      → (co' : ConceptOrder B) × (r : ℕ) × (add_extent fuel co extent generator ≡ some (co', r))
        × Inserts co co' extent generator r
        × ((r < co.counter) ⊎ Placed co co' extent r)
  unfolding add_extent
  add_extent_correct zero co extent generator w lt fits h = absurd (omega arith)
  add_extent_correct (suc fuel) co extent generator w lt fits h =
      let (g, found, small) = get_smallest_lem (suc fuel) co extent generator w lt fits h in
      elim (Bool-cases (equals extent (extent_of co g))) [
        | inl same ↦ (
          co,
          g,
          rw (found, same),
          record {
            nested = w;
            grows = omega arith;
            kept = λ c l. refl;
            rintents_kept = λ c l. refl;
            id_lt = small.id_lt;
            holds = λ x. sym ((equals_iff extent (extent_of co g)).0 same x);
            above_kept = λ c p up. up;
            under = λ c new l. elim new [
              | inl e ↦ subst (λ q. Climbs co.graph q generator) (sym e) small.under
              | inr above ↦ absurd (omega arith)
            ];
          },
          inl small.id_lt,
        )
        | inr differs ↦
            let children = children_of co.graph g in
            let candidates =
              All-of_elem
                (λ c.
                  (c < co.counter)
                  × (is_subset extent (extent_of co c) ≡ false)
                  × (cardinality (extent_of co c) < fuel)
                  × Climbs co.graph c g)
                (to_list children)
                (λ c e.
                  candidate_child fuel co extent generator g w h small c
                    (sym (elem-to_list children c) ∙ e)) in
            let (co1, l, loop, more, all, chosen) =
              children_lem fuel (add_extent fuel)
                (λ a s u v x y z.
                  let (b, r, result, ins, _) = add_extent_correct fuel a s u v x y z in
                  (b, r, result, ins))
                extent g (to_list children) co [] w candidates tt in
            let proper = Proper-of_ne extent (extent_of co g) small.fits differs in
            let (ins, exact, edge) =
              insert_concept-Inserts co1 extent g l more.nested
                (omega (arith, small.id_lt, more.grows)) (rw (more.kept g small.id_lt) proper)
                all in
            let co2 = (insert_concept co1 extent g l).0 in
            let up : Climbs co2.graph g generator =
              ins.above_kept g generator (more.above_kept g generator small.under) in
            (
              (insert_concept co1 extent g l).0,
              (insert_concept co1 extent g l).1,
              rw (found, differs, loop),
              record {
                nested = ins.nested;
                grows = omega (arith, more.grows, ins.grows);
                kept = λ c d. ins.kept c (omega (arith, more.grows)) ∙ more.kept c d;
                rintents_kept =
                    λ c d. ins.rintents_kept c (omega (arith, more.grows)) ∙ more.rintents_kept c d;
                id_lt = ins.id_lt;
                holds = ins.holds;
                above_kept = λ c p way. ins.above_kept c p (more.above_kept c p way);
                under = λ c new lt2.
                    Climbs-trans co2.graph c g generator
                      (elim new [
                        | inl same ↦ ins.under c (inl same) lt2
                        | inr above ↦ elim (Bool-cases (ltb c co1.counter)) [
                          | inl early ↦
                              ins.above_kept c g (more.new_under c above (ground (arith, early)))
                          | inr late ↦ ins.under c (inr (ground (arith, late))) lt2
                        ]
                      ])
                      up;
              },
              inr (
                  chosen-Placed co co1 co2 extent l g (insert_concept co1 extent g l).1 all chosen
                    ins exact small.id_lt proper edge),
            )
      ]
