-- ===== src/Hermes/Groups.antt =====
-- algo/hermes.c, hermes_clarify: the sets of one block, grouped by their values: what the table, the
-- flags and the references hold after each set.
use fca4j_project.Base.{
  ℕ, suc, ◌+◌, ◌-◌, ◌^◌, ◌≤◌, ◌<◌, ◌≡◌, ◌≢◌, ◌⊎◌, refl, sym, ◌∙◌, ap, true, false, List, Option,
  none, some, length, get_or, set, ◌==◌, arith, Bool-cases, inl, inr, ==_iff, length-set,
  get_or-set_self, get_or-set_ne,
}
use mathlib.Core.Path.{subst}
use native.Mathlib.Nat.{one-le-pow}
use Prim.Native.Nat.{bit_and}
use fca4j_project.Base.Bits.{bit_and-le_right}
use fca4j_project.Base.Count.{count_to, count_to-grow}
use fca4j_project.Roaring.{Roaring}
use fca4j_project.Roaring.Cardinal.{to_list-same}
use fca4j_project.Hermes.{RefSet, refset, hermes_hash_values}
use fca4j_project.Hermes.Clarify.{Grouping, free, settle}
use fca4j_project.Hermes.Table.{
  slot_at, is_filled, RouteTo, RouteOut, RouteOut-in, RouteTo-set, RouteOut-set,
}

pub last_or_before : (j i : ℕ) → j < suc i → (j ≡ i) ⊎ (j < i)
last_or_before j i l = elim (Bool-cases (j == i)) [
  | inl e ↦ inl ((==_iff j i).0 e)
  | inr e ↦ inr (ground (arith, e, l))
]

abbrev content : Option ℕ → ℕ
content none = 0
content (some j) = j

some_injective : (i j : ℕ) → some i ≡ some j → i ≡ j
some_injective i j e = ap content e

module _ {B : Type 0} ⦃R : Roaring B⦄ where
  open R use {contains, or, equals, equals_iff, contains-or}

  pub equals_refl : (a : B) → equals a a ≡ true
  equals_refl a = (equals_iff a a).1 (λ y. refl)

  pub equals_sym : (a b : B) → equals a b ≡ true → equals b a ≡ true
  equals_sym a b e = (equals_iff b a).1 (λ y. sym ((equals_iff a b).0 e y))

  pub equals_trans : (a b c : B) → equals a b ≡ true → equals b c ≡ true → equals a c ≡ true
  equals_trans a b c e f = (equals_iff a c).1 (λ y. (equals_iff a b).0 e y ∙ (equals_iff b c).0 f y)

  pub hash-same : (a b : B) → equals a b ≡ true → hermes_hash_values a ≡ hermes_hash_values b
  unfolding hermes_hash_values
  hash-same a b e = rw (to_list-same a b e) refl

  -- The values of set `j`, and the slot where its probe begins.
  abbrev pub vals : List (RefSet B) → ℕ → B
  vals sets j = (refset sets j).values

  abbrev pub home : List (RefSet B) → ℕ → ℕ → ℕ
  home sets w j = bit_and (hermes_hash_values (vals sets j)) (2 ^ w - 1)

  -- After the sets `start` … `i` - 1 of the block that ends at `stop`, in a table of 2 ^ w slots.
  pub record Grouped (sets : List (RefSet B)) (start stop w i : ℕ) (g : Grouping B) : Type 0 where
    pub sets_length : length g.sets ≡ length sets
    pub dead_length : length g.dead ≡ length sets
    pub slot_length : length g.slot ≡ 2 ^ w
    pub hsl_length : length g.hsl ≡ 2 ^ w
    pub used : count_to (2 ^ w) (λ k. is_filled (slot_at g.slot k)) + start ≤ i
    pub values : (j : ℕ) → vals g.sets j ≡ vals sets j
    pub held :
        (k j : ℕ)
        → slot_at g.slot k ≡ some j
        → (start ≤ j)
          × (j < i)
          × (get_or g.dead j false ≡ false)
          × (get_or g.hsl k 0 ≡ hermes_hash_values (vals sets j))
    pub routed :
        (j : ℕ)
        → start ≤ j
        → j < i
        → get_or g.dead j false ≡ false
        → (d : ℕ) × (d < 2 ^ w) × RouteTo g.slot (2 ^ w) (home sets w j) d j
    pub distinct :
        (j q : ℕ)
        → start ≤ j
        → j < q
        → q < i
        → get_or g.dead j false ≡ false
        → get_or g.dead q false ≡ false
        → equals (vals sets j) (vals sets q) ≡ false
    pub fresh : (q : ℕ) → i ≤ q → q < stop → get_or g.dead q false ≡ false
    pub later : (q : ℕ) → i ≤ q → refset g.sets q ≡ refset sets q
    pub absorbed :
        (q : ℕ)
        → start ≤ q
        → q < i
        → (j : ℕ) × (start ≤ j)
          × (j < i)
          × (get_or g.dead j false ≡ false)
          × (equals (vals sets j) (vals sets q) ≡ true)
          × ((r : ℕ)
              → contains (refset sets q).refs r ≡ true
              → contains (refset g.sets j).refs r ≡ true)
    pub sound :
        (j r : ℕ)
        → start ≤ j
        → j < i
        → contains (refset g.sets j).refs r ≡ true
        → (q : ℕ) × (start ≤ q)
          × (q < i)
          × (equals (vals sets j) (vals sets q) ≡ true)
          × (contains (refset sets q).refs r ≡ true)

  module _ (sets : List (RefSet B)) (start stop w i : ℕ) (g : Grouping B) where
    abbrev h : ℕ
    h = hermes_hash_values (vals sets i)

    module _ (p : Grouped sets start stop w i g) (from : start ≤ i) (lt : i < stop)
        (size : stop ≤ length sets) where
      pub home-lt : home sets w i < 2 ^ w
      home-lt = omega (
        arith,
        bit_and-le_right (hermes_hash_values (vals sets i)) (2 ^ w - 1),
        one-le-pow w 2 (omega arith),
      )

      pub alive_here : get_or g.dead i false ≡ false
      alive_here = p.fresh i (omega arith) lt

      -- The probe ends at a free slot: the set stays alive.
      pub settle-free :
          (d e : ℕ)
          → d < 2 ^ w
          → RouteOut g.slot (2 ^ w) (home sets w i) d e
          → ((j : ℕ)
              → start ≤ j
              → j < i
              → get_or g.dead j false ≡ false
              → equals (vals sets j) (vals sets i) ≡ false)
          → Grouped sets start stop w (suc i) (settle g i h (free e))
      unfolding settle
      settle-free d e ld route none_same =
          let (le, blank) = RouteOut-in w g.slot (home sets w i) d e home-lt route in
          record {
            sets_length = p.sets_length;
            dead_length = p.dead_length;
            slot_length = length-set g.slot e (some i) ∙ p.slot_length;
            hsl_length = length-set g.hsl e h ∙ p.hsl_length;
            used = omega (
              arith,
              p.used,
              count_to-grow (2 ^ w) (λ k. is_filled (slot_at (set g.slot e (some i)) k))
                  (λ k. is_filled (slot_at g.slot k)) e
                  (λ k ne.
                    ap is_filled
                      (get_or-set_ne g.slot e k (some i) none (λ same. ground (arith, same, ne)))),
            );
            values = p.values;
            held = λ k j s. elim (Bool-cases (k == e)) [
              | inl at_e ↦
                  let k_e : k ≡ e = (==_iff k e).0 at_e in
                  let i_j : i ≡ j = some_injective i j (
                    sym (get_or-set_self g.slot e (some i) none (omega (arith, le, p.slot_length)))
                    ∙ subst (λ t. slot_at (set g.slot e (some i)) t ≡ some j) k_e s) in
                  (
                    omega (arith, i_j, from),
                    omega (arith, i_j),
                    subst (λ t. get_or g.dead t false ≡ false) i_j alive_here,
                    ap (λ t. get_or (set g.hsl e h) t 0) k_e
                        ∙ get_or-set_self g.hsl e h 0 (omega (arith, le, p.hsl_length))
                        ∙ ap (λ t. hermes_hash_values (vals sets t)) i_j,
                  )
              | inr off_e ↦
                  let ne : e ≢ k = λ same. ground (arith, same, off_e) in
                  let old = p.held k j (sym (get_or-set_ne g.slot e k (some i) none ne) ∙ s) in
                  (old.0, omega (arith, old.1), old.2, get_or-set_ne g.hsl e k h 0 ne ∙ old.3)
            ];
            routed = λ j a l alive. elim (last_or_before j i l) [
              | inl here ↦
                  subst
                    (λ t.
                      (x : ℕ) × (x < 2 ^ w)
                      × RouteTo (set g.slot e (some i)) (2 ^ w) (home sets w t) x t)
                    (sym here)
                    (
                      d,
                      ld,
                      RouteOut-set g.slot (2 ^ w) (home sets w i) d e i
                          (omega (arith, le, p.slot_length)) blank route,
                    )
              | inr before ↦
                  let (x, lx, old) = p.routed j a before alive in
                  (x, lx, RouteTo-set g.slot (2 ^ w) (home sets w j) x j e i blank old)
            ];
            distinct = λ j q a l m alive alive'. elim (last_or_before q i m) [
              | inl here ↦
                  subst (λ t. equals (vals sets j) (vals sets t) ≡ false) (sym here)
                    (none_same j a (omega (arith, here, l)) alive)
              | inr before ↦ p.distinct j q a l before alive alive'
            ];
            fresh = λ q a l. p.fresh q (omega arith) l;
            later = λ q a. p.later q (omega arith);
            absorbed = λ q a l. elim (last_or_before q i l) [
              | inl here ↦ (
                i,
                from,
                omega arith,
                alive_here,
                subst (λ t. equals (vals sets i) (vals sets t) ≡ true) (sym here)
                    (equals_refl (vals sets i)),
                λ r c.
                    ap (λ t. contains t.refs r) (p.later i (omega arith))
                    ∙ subst (λ t. contains (refset sets t).refs r ≡ true) here c,
              )
              | inr before ↦
                  let (j, b, lj, alive, same, kept) = p.absorbed q a before in
                  (j, b, omega (arith, lj), alive, same, kept)
            ];
            sound = λ j r a l c. elim (last_or_before j i l) [
              | inl here ↦ (
                i,
                from,
                omega arith,
                subst (λ t. equals (vals sets t) (vals sets i) ≡ true) (sym here)
                    (equals_refl (vals sets i)),
                sym (ap (λ t. contains t.refs r) (p.later i (omega arith)))
                    ∙ subst (λ t. contains (refset g.sets t).refs r ≡ true) here c,
              )
              | inr before ↦
                  let (q, b, lq, same, has) = p.sound j r a before c in
                  (q, b, omega (arith, lq), same, has)
            ];
          }
