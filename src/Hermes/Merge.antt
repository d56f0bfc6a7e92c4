-- ===== src/Hermes/Merge.antt =====
-- algo/hermes.c, hermes_clarify: a set that merges into an earlier one of its block, and the block.
use fca4j_project.Base.{
  ℕ, suc, ◌≤◌, ◌<◌, ◌≡◌, ◌≢◌, refl, sym, ◌∙◌, ap, true, false, List, length, get_or, set, ◌==◌,
  arith, Bool-cases, inl, inr, ==_iff, length-set, get_or-set_self, get_or-set_ne,
}
use mathlib.Core.Path.{subst}
use fca4j_project.Roaring.{Roaring}
use fca4j_project.Hermes.{RefSet, refset, hermes_hash_values}
use fca4j_project.Hermes.Clarify.{Grouping, merged, settle}
use fca4j_project.Hermes.Groups.{vals, Grouped, last_or_before, equals_refl}

module _ {B : Type 0} ⦃R : Roaring B⦄ where
  open R use {contains, or, equals, contains-or}

  module _ (sets : List (RefSet B)) (start stop w i : ℕ) (g : Grouping B) (j : ℕ) where
    -- Set `j` with the references of set `i`.
    abbrev joined : RefSet B
    joined = record (refset g.sets j) { refs = or (refset g.sets j).refs (refset g.sets i).refs }

    abbrev sets' : List (RefSet B)
    sets' = set g.sets j joined

    module _ (p : Grouped sets start stop w i g) (from : start ≤ i) (lt : i < stop)
        (size : stop ≤ length sets) (start_j : start ≤ j) (j_i : j < i)
        (alive_j : get_or g.dead j false ≡ false)
        (same : equals (vals sets j) (vals sets i) ≡ true) where
      refset_j : refset sets' j ≡ joined
      refset_j = get_or-set_self g.sets j joined _ (omega (arith, p.sets_length))

      refset_ne : (q : ℕ) → (q == j) ≡ false → refset sets' q ≡ refset g.sets q
      refset_ne q ne = get_or-set_ne g.sets j q joined _ (λ e. ground (arith, e, ne))

      dead_ne : (q : ℕ) → q ≢ i → get_or (set g.dead i true) q false ≡ get_or g.dead q false
      dead_ne q ne = get_or-set_ne g.dead i q true false (λ e. ne (sym e))

      dead_i : get_or (set g.dead i true) i false ≡ true
      dead_i = get_or-set_self g.dead i true false (omega (arith, p.dead_length))

      not_alive : (q : ℕ) → q ≡ i → get_or (set g.dead i true) q false ≡ false → ⊥
      not_alive q e alive =
          absurd (
            ground (arith, dead_i, subst (λ t. get_or (set g.dead i true) t false ≡ false) e alive))

      still_alive :
          (q : ℕ)
          → q < i
          → get_or (set g.dead i true) q false ≡ false
          → get_or g.dead q false ≡ false
      still_alive q l alive = sym (dead_ne q (λ e. omega (arith, e))) ∙ alive

      -- References are not lost.
      refs_grow :
          (q r : ℕ)
          → contains (refset g.sets q).refs r ≡ true
          → contains (refset sets' q).refs r ≡ true
      refs_grow q r c = elim (Bool-cases (q == j)) [
        | inl e ↦
            subst
              (λ t.
                contains (refset g.sets t).refs r ≡ true → contains (refset sets' t).refs r ≡ true)
              (sym ((==_iff q j).0 e))
              (λ old.
                ap (λ t. contains t.refs r) refset_j
                ∙ contains-or (refset g.sets j).refs (refset g.sets i).refs r
                ∙ rw old refl)
              c
        | inr e ↦ ap (λ t. contains t.refs r) (refset_ne q e) ∙ c
      ]

      refs_i : (r : ℕ) → contains (refset g.sets i).refs r ≡ contains (refset sets i).refs r
      refs_i r = ap (λ t. contains t.refs r) (p.later i (omega arith))

      refs_sound_j :
          (r : ℕ)
          → contains (refset sets' j).refs r ≡ true
          → (q : ℕ) × (start ≤ q)
            × (q < suc i)
            × (equals (vals sets j) (vals sets q) ≡ true)
            × (contains (refset sets q).refs r ≡ true)
      refs_sound_j r c =
          let both =
            sym (
              ap (λ t. contains t.refs r) refset_j
              ∙ contains-or (refset g.sets j).refs (refset g.sets i).refs r)
            ∙ c in
          elim (Bool-cases (contains (refset g.sets j).refs r)) [
            | inl old ↦
                let (q, a, l, e, has) = p.sound j r start_j j_i old in
                (q, a, omega (arith, l), e, has)
            | inr no_old ↦
                (i, from, omega arith, same, sym (refs_i r) ∙ ground (arith, both, no_old))
          ]

      pub settle-merged :
          Grouped sets start stop w
            (suc i)
            (settle g i (hermes_hash_values (vals sets i)) (merged j))
      unfolding settle
      settle-merged = record {
        sets_length = length-set g.sets j joined ∙ p.sets_length;
        dead_length = length-set g.dead i true ∙ p.dead_length;
        slot_length = p.slot_length;
        hsl_length = p.hsl_length;
        used = omega (arith, p.used);
        values = λ q. elim (Bool-cases (q == j)) [
          | inl e ↦
              subst (λ t. vals sets' t ≡ vals sets t) (sym ((==_iff q j).0 e))
                (ap (λ t. t.values) refset_j ∙ p.values j)
          | inr e ↦ ap (λ t. t.values) (refset_ne q e) ∙ p.values q
        ];
        held = λ k q s.
            let old = p.held k q s in
            (old.0, omega (arith, old.1), dead_ne q (λ e. omega (arith, e, old.1)) ∙ old.2, old.3);
        routed = λ q a l alive. elim (last_or_before q i l) [
          | inl here ↦ absurd (not_alive q here alive)
          | inr before ↦ p.routed q a before (still_alive q before alive)
        ];
        distinct = λ u q a l m alive alive'. elim (last_or_before q i m) [
          | inl here ↦ absurd (not_alive q here alive')
          | inr before ↦
              p.distinct u q a l before (still_alive u (omega arith) alive)
                (still_alive q before alive')
        ];
        fresh = λ q a l. dead_ne q (λ e. omega (arith, e)) ∙ p.fresh q (omega arith) l;
        later = λ q a. refset_ne q (ground (arith, a, j_i)) ∙ p.later q (omega arith);
        absorbed = λ q a l. elim (last_or_before q i l) [
          | inl here ↦ (
            j,
            start_j,
            omega arith,
            dead_ne j (λ e. omega (arith, e)) ∙ alive_j,
            subst (λ t. equals (vals sets j) (vals sets t) ≡ true) (sym here) same,
            λ r c.
                ap (λ t. contains t.refs r) refset_j
                ∙ contains-or (refset g.sets j).refs (refset g.sets i).refs r
                ∙ ground
                    (arith, refs_i r, subst (λ t. contains (refset sets t).refs r ≡ true) here c),
          )
          | inr before ↦
              let (u, b, lu, alive, eq, kept) = p.absorbed q a before in
              (
                u,
                b,
                omega (arith, lu),
                dead_ne u (λ e. omega (arith, e, lu)) ∙ alive,
                eq,
                λ r c. refs_grow u r (kept r c),
              )
        ];
        sound = λ u r a l c. elim (Bool-cases (u == j)) [
          | inl e ↦
              let u_j = (==_iff u j).0 e in
              subst
                (λ t.
                  (q : ℕ) × (start ≤ q)
                  × (q < suc i)
                  × (equals (vals sets t) (vals sets q) ≡ true)
                  × (contains (refset sets q).refs r ≡ true))
                (sym u_j)
                (refs_sound_j r (subst (λ t. contains (refset sets' t).refs r ≡ true) u_j c))
          | inr e ↦
              let old = sym (ap (λ t. contains t.refs r) (refset_ne u e)) ∙ c in
              elim (last_or_before u i l) [
                | inl here ↦ (
                  i,
                  from,
                  omega arith,
                  subst (λ t. equals (vals sets t) (vals sets i) ≡ true) (sym here)
                      (equals_refl (vals sets i)),
                  sym (refs_i r) ∙ subst (λ t. contains (refset g.sets t).refs r ≡ true) here old,
                )
                | inr before ↦
                    let (q, b, lq, eq, has) = p.sound u r a before old in
                    (q, b, omega (arith, lq), eq, has)
              ]
        ];
      }
