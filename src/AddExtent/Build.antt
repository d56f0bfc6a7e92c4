-- ===== src/AddExtent/Build.antt =====
-- `build_lattice` ends, and every attribute is introduced by a concept with its extent.
use fca4j_project.Base.{
  ℕ, zero, suc, ◌+◌, ◌<◌, ◌≡◌, refl, sym, ap, ◌∙◌, true, some, set, for_to, ltb, ◌==◌, arith,
  length-set, Bool-cases, inl, inr, ==_iff,
}
use mathlib.Core.Path.{subst}
use fca4j_project.Roaring.{Roaring}
use fca4j_project.Roaring.Sets.{Has, Subset, Below, SameSet}
use fca4j_project.Roaring.Cardinal.{cardinality-le}
use fca4j_project.Context.{BinaryContext, col, IsContext}
use fca4j_project.DGraph.{bitmap_at, parents_of}
use fca4j_project.DGraph.Laws.{contains-set}
use fca4j_project.ConceptOrder.{ConceptOrder, co_create, co_add_concept, co_compute_rextents}
use fca4j_project.ConceptOrder.Reduced.{compute_rextents_lem, length-cells}
use fca4j_project.ConceptOrder.Concepts.{create-IsOrder, add_concept-IsOrder}
use fca4j_project.AddExtent.{extent_of, all_below, insert_attribute, build_lattice, ◌>>=◌}
use fca4j_project.AddExtent.Descent.{IsNested, Climbs, stays}
use fca4j_project.AddExtent.Correct.{add_extent_correct}

module _ {B : Type 0} ⦃R : Roaring B⦄ where
  open R use {create, contains, add, cardinality, contains-create, contains-add}

  contains-all_below : (n : ℕ) (s : B) → s ≡ all_below n → (x : ℕ) → contains s x ≡ ltb x n
  unfolding all_below
  contains-all_below zero s e x = rw e (ground (arith, contains-create x))
  contains-all_below (suc n) s e x =
      let before : B = all_below n in
      rw e (ground (arith, contains-add before n x, contains-all_below n before refl x))

  module _ (ctx : BinaryContext B) where
    -- Attribute `a` is in the reduced intent of a concept whose extent is its column.
    abbrev pub IsIntroduced : ConceptOrder B → ℕ → Type 0
    IsIntroduced co a =
        (r : ℕ) × (r < co.counter)
        × SameSet (extent_of co r) (col ctx a)
        × Has (bitmap_at co.rintents r) a

    -- After the attributes below `a`: concept 0 is the top.
    record IsBuilt (a : ℕ) (co : ConceptOrder B) : Type 0 where
      nested : IsNested co
      nonempty : 0 < co.counter
      top : (x : ℕ) → contains (extent_of co 0) x ≡ ltb x ctx.nb_objects
      connected : (c : ℕ) → c < co.counter → Climbs co.graph c 0
      introduced : (b : ℕ) → b < a → IsIntroduced co b

    -- The write of `a` into a reduced intent leaves all else.
    mark-IsNested :
        (co : ConceptOrder B) (r a : ℕ)
        → IsNested co
        → IsNested
            (record co { rintents = set co.rintents r (some (add (bitmap_at co.rintents r) a)) })
    mark-IsNested co r a w = record {
      order = record {
        graph_wf = w.order.graph_wf;
        vertices = w.order.vertices;
        maximal_iff = w.order.maximal_iff;
        minimal_iff = w.order.minimal_iff;
        extents_length = w.order.extents_length;
        intents_length = w.order.intents_length;
        rextents_length = w.order.rextents_length;
        rintents_length = length-set co.rintents r _ ∙ w.order.rintents_length;
        room = w.order.room;
      };
      upward = w.upward;
    }

    step-IsBuilt :
        (a : ℕ) (co : ConceptOrder B)
        → IsContext ctx
        → IsBuilt a co
        → (co' : ConceptOrder B) × (insert_attribute (ctx.nb_objects + 1) ctx 0 a co ≡ some co')
          × IsBuilt (suc a) co'
    unfolding insert_attribute
    step-IsBuilt a co wf b =
        let top_below : Below ctx.nb_objects (extent_of co 0) = λ x h. ground (arith, b.top x) in
        let fits : Subset (col ctx a) (extent_of co 0) =
          λ o h. ground (arith, b.top o, wf.agree o a, wf.col_below o a) in
        let (co1, r, result, ins, _) =
          add_extent_correct (ctx.nb_objects + 1) co (col ctx a) 0 b.nested b.nonempty fits
            (omega (arith, cardinality-le ctx.nb_objects (extent_of co 0) top_below)) in
        let cell = λ (c y : ℕ).
          contains-set co1.rintents r c y (add (bitmap_at co1.rintents r) a)
            (omega (arith, ins.id_lt, ins.nested.order.room, ins.nested.order.rintents_length)) in
        (
          record co1 { rintents = set co1.rintents r (some (add (bitmap_at co1.rintents r) a)) },
          rw result,
          record {
            nested = mark-IsNested co1 r a ins.nested;
            nonempty = omega (arith, b.nonempty, ins.grows);
            top = λ x. ap (λ (s : B). contains s x) (ins.kept 0 b.nonempty) ∙ b.top x;
            connected = λ c h. elim (Bool-cases (ltb c co.counter)) [
              | inl early ↦ ins.above_kept c 0 (b.connected c (ground (arith, early)))
              | inr late ↦ ins.under c (inr (ground (arith, late))) h
            ];
            introduced = λ c h. elim (Bool-cases (c == a)) [
              | inl new ↦
                  let e : c ≡ a = (==_iff c a).0 new in
                  (
                    r,
                    ins.id_lt,
                    λ x. rw e (ins.holds x),
                    rw e (ground (arith, cell r a, contains-add (bitmap_at co1.rintents r) a a)),
                  )
              | inr old ↦
                  let (s, lt, same, has) = b.introduced c (ground arith) in
                  (
                    s,
                    omega (arith, ins.grows),
                    λ x. ap (λ (t : B). contains t x) (ins.kept s lt) ∙ same x,
                    ground (
                      arith,
                      cell s c,
                      contains-add (bitmap_at co1.rintents r) a c,
                      ap (λ (t : B). contains t c) (ins.rintents_kept s lt),
                      has,
                    ),
                  )
            ];
          },
        )

    steps-IsBuilt :
        (n : ℕ) (start : ConceptOrder B)
        → IsContext ctx
        → IsBuilt 0 start
        → (co : ConceptOrder B) × (for_to n
              (λ a acc. acc >>= insert_attribute (ctx.nb_objects + 1) ctx 0 a)
              (some start)
            ≡ some co)
          × IsBuilt n co
    steps-IsBuilt zero start wf b = (start, refl, b)
    steps-IsBuilt (suc n) start wf b =
        let (co, before, built) = steps-IsBuilt n start wf b in
        let (co', step, built') = step-IsBuilt n co wf built in (co', rw before step, built')

    -- The order with the top concept alone.
    start-IsBuilt :
        (empty : ConceptOrder B) (all_objects : B)
        → empty ≡ co_create ctx
        → all_objects ≡ all_below ctx.nb_objects
        → IsBuilt 0 (co_add_concept empty all_objects create).0
          × ((co_add_concept empty all_objects create).1 ≡ 0)
    start-IsBuilt empty all_objects e ea =
        let is_new : empty.counter ≡ 0 =
          ap (λ (c : ConceptOrder B). c.counter) e ∙ unfold co_create in refl in
        let (order, adds) =
          add_concept-IsOrder empty all_objects create (create-IsOrder empty ctx e) in
        let first = adds.id_next ∙ is_new in
        (
          record {
            nested = record {
              order = order;
              upward = λ c p h. absurd (no_edge empty e c p (sym (adds.covers_kept c p) ∙ h));
            };
            nonempty = omega (arith, adds.counter_next);
            top = λ x.
                ap
                  (λ i.
                    contains (bitmap_at (co_add_concept empty all_objects create).0.extents i) x)
                  (sym first)
                ∙ ap (λ (s : B). contains s x) adds.extent_new
                ∙ contains-all_below ctx.nb_objects all_objects ea x;
            connected = λ c h.
                let e : c ≡ 0 = omega (arith, adds.counter_next, is_new) in
                subst (λ t. Climbs (co_add_concept empty all_objects create).0.graph t 0) (sym e)
                  (stays 0);
            introduced = λ b h. absurd (omega arith);
          },
          first,
        )
      where
        no_edge :
            (empty : ConceptOrder B)
            → empty ≡ co_create ctx
            → (c p : ℕ) → contains (parents_of empty.graph c) p ≡ true
            → ⊥
        no_edge empty e c p h =
            let w = create-IsOrder empty ctx e in
            let none_yet : empty.counter ≡ 0 =
              ap (λ (c : ConceptOrder B). c.counter) e ∙ unfold co_create in refl in
            absurd (ground (arith, w.vertices c, w.graph_wf.child_vertex c p h))

    -- Computing the reduced extents keeps the nested order and what was introduced.
    reduced-IsBuilt :
        (n : ℕ) (co : ConceptOrder B) → IsBuilt n co → IsBuilt n (co_compute_rextents co)
    reduced-IsBuilt n co b =
        let o = b.nested.order in
        subst (IsBuilt n) (sym (compute_rextents_lem co)) (record {
          nested = record {
            order = record {
              graph_wf = o.graph_wf;
              vertices = o.vertices;
              maximal_iff = o.maximal_iff;
              minimal_iff = o.minimal_iff;
              extents_length = o.extents_length;
              intents_length = o.intents_length;
              rextents_length = length-cells co co.counter ∙ o.rextents_length;
              rintents_length = o.rintents_length;
              room = o.room;
            };
            upward = b.nested.upward;
          };
          nonempty = b.nonempty;
          top = b.top;
          connected = b.connected;
          introduced = b.introduced;
        })

    -- On a well-formed context `build_lattice` returns, without running out of fuel, an order that
    -- is well formed, whose edges go from an extent to one that properly contains it, whose concept
    -- 0 has all the objects, and in which every attribute is in the reduced intent of a concept whose
    -- extent is the column of the attribute; every concept has a way up to concept 0.
    pub build_lattice_correct :
        IsContext ctx
        → (co : ConceptOrder B) × (build_lattice ctx ≡ some co)
          × IsNested co
          × ((x : ℕ) → contains (extent_of co 0) x ≡ ltb x ctx.nb_objects)
          × ((a : ℕ) → a < ctx.nb_attributes → IsIntroduced co a)
          × ((c : ℕ) → c < co.counter → Climbs co.graph c 0)
    unfolding build_lattice
    build_lattice_correct wf =
        let empty : ConceptOrder B = co_create ctx in
        let all_objects : B = all_below ctx.nb_objects in
        let start = (co_add_concept empty all_objects create).0 in
        let (first, at_top) = start-IsBuilt empty all_objects refl refl in
        let (co, loop, built) = steps-IsBuilt ctx.nb_attributes start wf first in
        let done = reduced-IsBuilt ctx.nb_attributes co built in
        (
          co_compute_rextents co,
          rw (at_top, loop),
          done.nested,
          done.top,
          done.introduced,
          done.connected,
        )
