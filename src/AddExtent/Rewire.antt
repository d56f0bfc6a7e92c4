-- ===== src/AddExtent/Rewire.antt =====
-- algo/addextent.c: the new children are moved from the generator to the new concept.
use fca4j_project.Base.{
  ℕ, ◌<◌, ◌≡◌, refl, sym, ◌∙◌, true, ◌&&◌, List, [], ◌∷◌, foldl, Option, ◌==◌, arith, Bool-cases,
  inl, inr, false, if◌then◌else◌, elem,
}
use mathlib.Core.Path.{subst}
use fca4j_project.Roaring.{Roaring}
use fca4j_project.DGraph.{bitmap_at, parents_of}
use fca4j_project.ConceptOrder.{ConceptOrder, co_add_edge, co_remove_edge}
use fca4j_project.ConceptOrder.Edges.{add_edge-IsOrder, remove_edge-IsOrder}
use fca4j_project.AddExtent.{extent_of, rewire}
use fca4j_project.AddExtent.Candidates.{All}
use fca4j_project.AddExtent.Descent.{Proper, IsNested}

pub All-map : (P Q : ℕ → Type 0) (l : List ℕ) → ((c : ℕ) → P c → Q c) → All P l → All Q l
All-map P Q [] f a = tt
All-map P Q (c ∷ l) f a = (f c a.0, All-map P Q l f a.1)

module _ {B : Type 0} ⦃R : Roaring B⦄ where
  open R use {contains}

  -- Only edges changed.
  pub record Rewired (co co' : ConceptOrder B) : Type 0 where
    pub nested : IsNested co'
    pub counter_same : co'.counter ≡ co.counter
    pub extents_same : co'.extents ≡ co.extents
    pub rintents_same : co'.rintents ≡ co.rintents

  pub add_edge-Rewired :
      (co : ConceptOrder B) (lower upper : ℕ)
      → IsNested co
      → lower < co.counter
      → upper < co.counter
      → Proper (extent_of co lower) (extent_of co upper)
      → Rewired co (co_add_edge co lower upper)
  add_edge-Rewired co lower upper w hl hu proper =
      let (order, edges) = add_edge-IsOrder co w.order lower upper hl hu in
      unfold co_add_edge in
      record {
        nested = record {
          order = order;
          upward = λ c p h. elim (Bool-cases (c == lower && p == upper)) [
            | inl new ↦
                let ec : c ≡ lower = ground arith in
                let ep : p ≡ upper = ground arith in rw (ec, ep) proper
            | inr old ↦ w.upward c p (ground (arith, edges c p))
          ];
        };
        counter_same = refl;
        extents_same = refl;
        rintents_same = refl;
      }

  remove_edge-Rewired :
      (co : ConceptOrder B) (lower upper : ℕ)
      → IsNested co
      → lower < co.counter
      → upper < co.counter
      → Rewired co (co_remove_edge co lower upper)
  remove_edge-Rewired co lower upper w hl hu =
      let (order, edges) = remove_edge-IsOrder co w.order lower upper hl hu in
      unfold co_remove_edge in
      record {
        nested = record {
          order = order;
          upward = λ c p h. w.upward c p (ground (arith, edges c p));
        };
        counter_same = refl;
        extents_same = refl;
        rintents_same = refl;
      }

  module _ (n : ℕ) (extents : List (Option B)) (generator nc : ℕ) where
    -- A child to be moved under the new concept.
    abbrev pub IsMovable : ℕ → Type 0
    IsMovable c = (c < n) × Proper (bitmap_at extents c) (bitmap_at extents nc)

    rewire-Rewired :
        (co : ConceptOrder B) (child : ℕ)
        → IsNested co
        → co.counter ≡ n
        → co.extents ≡ extents
        → generator < n
        → nc < n
        → IsMovable child
        → Rewired co (rewire generator nc co child)
    unfolding rewire
    rewire-Rewired co child w en ee hg hn (hc, proper) =
        let removed = co_remove_edge co child generator in
        let first = remove_edge-Rewired co child generator w (omega arith) (omega arith) in
        let same : removed.extents ≡ extents = first.extents_same ∙ ee in
        let second =
          add_edge-Rewired removed child nc first.nested (omega (arith, first.counter_same))
            (omega (arith, first.counter_same))
            (subst (λ es. Proper (bitmap_at es child) (bitmap_at es nc)) (sym same) proper) in
        record {
          nested = second.nested;
          counter_same = second.counter_same ∙ first.counter_same;
          extents_same = second.extents_same ∙ first.extents_same;
          rintents_same = second.rintents_same ∙ first.rintents_same;
        }

    pub rewires-Rewired :
        (children : List ℕ) (co : ConceptOrder B)
        → IsNested co
        → co.counter ≡ n
        → co.extents ≡ extents
        → generator < n
        → nc < n
        → All IsMovable children
        → Rewired co (foldl (rewire generator nc) co children)
    rewires-Rewired [] co w en ee hg hn a = record {
      nested = w;
      counter_same = refl;
      extents_same = refl;
      rintents_same = refl;
    }
    rewires-Rewired (c ∷ children) co w en ee hg hn a =
        let first = rewire-Rewired co c w en ee hg hn a.0 in
        let rest =
          rewires-Rewired children (rewire generator nc co c) first.nested (first.counter_same ∙ en)
            (first.extents_same ∙ ee) hg hn a.1 in
        record {
          nested = rest.nested;
          counter_same = rest.counter_same ∙ first.counter_same;
          extents_same = rest.extents_same ∙ first.extents_same;
          rintents_same = rest.rintents_same ∙ first.rintents_same;
        }

  module _ (n : ℕ) (extents : List (Option B)) (generator nc : ℕ) where
    -- A child has the new concept as its upper cover, and no longer the generator.
    rewire-edges :
        (co : ConceptOrder B) (child : ℕ)
        → IsNested co
        → child < co.counter
        → generator < co.counter
        → nc < co.counter
        → (y z : ℕ)
        → contains (parents_of (rewire generator nc co child).graph y) z ≡ (
            if y == child && z == nc
            then true
            else if y == child && z == generator
            then false
            else contains (parents_of co.graph y) z)
    unfolding rewire
    rewire-edges co child w hc hg hn y z =
        let removed = co_remove_edge co child generator in
        let (order, without) = remove_edge-IsOrder co w.order child generator hc hg in
        let same = (remove_edge-Rewired co child generator w hc hg).counter_same in
        let (_, with_new) =
          add_edge-IsOrder removed order child nc (omega (arith, same)) (omega (arith, same)) in
        ground (arith, with_new y z, without y z)

    pub rewires-edges :
        (children : List ℕ) (co : ConceptOrder B)
        → IsNested co
        → co.counter ≡ n
        → co.extents ≡ extents
        → generator < n
        → nc < n
        → All (IsMovable n extents generator nc) children
        → (y z : ℕ)
        → contains (parents_of (foldl (rewire generator nc) co children).graph y) z ≡ (
            if elem y children && z == nc
            then true
            else if elem y children && z == generator
            then false
            else contains (parents_of co.graph y) z)
    rewires-edges [] co w en ee hg hn a y z = ground arith
    rewires-edges (c ∷ children) co w en ee hg hn a y z =
        let first = rewire-Rewired n extents generator nc co c w en ee hg hn a.0 in
        let one = rewire-edges co c w (omega (arith, a.0.0, en)) (omega arith) (omega arith) y z in
        let rest =
          rewires-edges children (rewire generator nc co c) first.nested (first.counter_same ∙ en)
            (first.extents_same ∙ ee) hg hn a.1 y z in
        ground (arith, one, rest)
