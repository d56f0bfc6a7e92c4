-- ===== src/Hermes/Table.antt =====
-- algo/hermes.c, hermes_clarify: the open table. A probe follows a route of filled slots; it ends, for
-- the table has a free slot, and it finds what its route leads to.
use fca4j_project.Base.{
  ℕ, zero, suc, ◌+◌, ◌-◌, ◌^◌, ◌≤◌, ◌<◌, ◌≡◌, ◌≢◌, ◌⊎◌, refl, sym, ◌∙◌, ◌&&◌, Bool, true, false,
  List, Option, none, some, length, get_or, set, ltb, ◌==◌, arith, Bool-cases, inl, inr,
  get_or-set_self, get_or-set_ne,
}
use Prim.Native.Nat.{bit_and}
use mathlib.Core.Path.{subst}
use native.Mathlib.Nat.{one-le-pow}
use fca4j_project.Base.Bits.{bit_and-mask, bit_and-mask_top, bit_and-le_right}
use fca4j_project.Base.Count.{count_to}
use fca4j_project.Roaring.{Roaring}
use fca4j_project.Hermes.{refset}
use fca4j_project.Hermes.Clarify.{Grouping, Probe, free, merged, probe}

-- The next slot.
abbrev pub hop : ℕ → ℕ → ℕ
hop cap k = bit_and (k + 1) (cap - 1)

abbrev pub slot_at : List (Option ℕ) → ℕ → Option ℕ
slot_at slot k = get_or slot k none

abbrev pub is_filled : Option ℕ → Bool
is_filled none = false
is_filled (some j) = true

-- `d` filled slots, and then one that holds `j`.
abbrev pub RouteTo : List (Option ℕ) → ℕ → ℕ → ℕ → ℕ → Type 0
RouteTo slot cap k zero j = slot_at slot k ≡ some j
RouteTo slot cap k (suc d) j =
    (is_filled (slot_at slot k) ≡ true) × RouteTo slot cap (hop cap k) d j

-- `d` filled slots, and then a free one, which is `e`.
abbrev pub RouteOut : List (Option ℕ) → ℕ → ℕ → ℕ → ℕ → Type 0
RouteOut slot cap k zero e = (k ≡ e) × (slot_at slot k ≡ none)
RouteOut slot cap k (suc d) e =
    (is_filled (slot_at slot k) ≡ true) × RouteOut slot cap (hop cap k) d e

pub Option-cases : (s : Option ℕ) → (s ≡ none) ⊎ ((j : ℕ) × (s ≡ some j))
Option-cases none = inl refl
Option-cases (some j) = inr (j, refl)

-- In a table of 2 ^ w slots, from a slot `gap` hops before a free one, round the end or not.
hop_cases :
    (w k : ℕ)
    → k < 2 ^ w
    → (hop (2 ^ w) k ≡ k + 1) × (k + 1 < 2 ^ w) ⊎ (hop (2 ^ w) k ≡ 0) × (k + 1 ≡ 2 ^ w)
hop_cases w k l = elim (Bool-cases (ltb (k + 1) (2 ^ w))) [
  | inl e ↦ let lt : k + 1 < 2 ^ w = ground arith in inl (bit_and-mask w (k + 1) lt, lt)
  | inr e ↦
      let at_end : k + 1 ≡ 2 ^ w = ground arith in inr (rw at_end (bit_and-mask_top w), at_end)
]

-- One hop brings the free slot one nearer.
hop-nearer :
    (w t gap k : ℕ)
    → t < 2 ^ w
    → k < 2 ^ w
    → (k + suc gap ≡ t) ⊎ (k + suc gap ≡ t + 2 ^ w)
    → (hop (2 ^ w) k < 2 ^ w) × ((hop (2 ^ w) k + gap ≡ t) ⊎ (hop (2 ^ w) k + gap ≡ t + 2 ^ w))
hop-nearer w t gap k lt lk far = elim (hop_cases w k lk) [
  | inl (h, inside) ↦
      rw h (inside, elim far [ inl e ↦ inl (omega (arith, e)) | inr e ↦ inr (omega (arith, e)) ])
  | inr (h, at_end) ↦ rw h (
    omega (arith, lk),
    elim far [ inl e ↦ absurd (omega (arith, e, at_end)) | inr e ↦ inl (omega (arith, e, at_end)) ],
  )
]

pub RouteOut-exists :
    (w : ℕ) (slot : List (Option ℕ)) (t gap k : ℕ)
    → t < 2 ^ w
    → k < 2 ^ w
    → slot_at slot t ≡ none
    → (k + gap ≡ t) ⊎ (k + gap ≡ t + 2 ^ w)
    → (d : ℕ) × (e : ℕ) × (d ≤ gap) × RouteOut slot (2 ^ w) k d e
RouteOut-exists w slot t zero k lt lk none_at (inl e) =
    let e' : k ≡ t = omega arith in (0, k, omega arith, (refl, rw e' none_at))
RouteOut-exists w slot t zero k lt lk none_at (inr e) = absurd (omega arith)
RouteOut-exists w slot t (suc gap) k lt lk none_at far = elim (Option-cases (slot_at slot k)) [
  | inl e ↦ (0, k, omega arith, (refl, e))
  | inr (j, e) ↦
      let near = hop-nearer w t gap k lt lk far in
      let (d, out, le, route) =
        RouteOut-exists w slot t gap (hop (2 ^ w) k) lt near.0 none_at near.1 in
      (suc d, out, omega arith, (rw e refl, route))
]

-- Where not every slot is filled there is a free one.
free_slot :
    (slot : List (Option ℕ)) (n : ℕ)
    → count_to n (λ k. is_filled (slot_at slot k)) < n
    → (t : ℕ) × (t < n) × (slot_at slot t ≡ none)
free_slot slot zero h = absurd (omega arith)
free_slot slot (suc n) h = elim (Option-cases (slot_at slot n)) [
  | inl e ↦ (n, omega arith, e)
  | inr (j, e) ↦
      let full : is_filled (slot_at slot n) ≡ true = rw e refl in
      let (t, l, free_at) = free_slot slot n (ground (arith, h, full)) in (t, omega arith, free_at)
]

-- From any slot there is a way out of fewer hops than there are slots.
pub way_out :
    (w : ℕ) (slot : List (Option ℕ)) (k : ℕ)
    → k < 2 ^ w
    → count_to (2 ^ w) (λ i. is_filled (slot_at slot i)) < 2 ^ w
    → (d : ℕ) × (e : ℕ) × (d < 2 ^ w) × RouteOut slot (2 ^ w) k d e
way_out w slot k lk room =
    let (t, lt, none_at) = free_slot slot (2 ^ w) room in
    elim (Bool-cases (ltb t k)) [
      | inr e ↦
          let (d, out, le, route) =
            RouteOut-exists w slot t (t - k) k lt lk none_at (inl (ground (arith, e))) in
          (d, out, omega (arith, le, lt), route)
      | inl e ↦
          let back : t < k = ground arith in
          let (d, out, le, route) =
            RouteOut-exists w slot t (t + 2 ^ w - k) k lt lk none_at
              (inr (omega (arith, back, lk))) in
          (d, out, omega (arith, le, back, lk), route)
    ]

abbrev pub IsMerged : Option Probe → Type 0
IsMerged none = ⊥
IsMerged (some (free e)) = ⊥
IsMerged (some (merged j)) = Unit

hop-lt : (w k : ℕ) → hop (2 ^ w) k < 2 ^ w
hop-lt w k = omega (arith, bit_and-le_right (k + 1) (2 ^ w - 1), one-le-pow w 2 (omega arith))

pub RouteOut-in :
    (w : ℕ) (slot : List (Option ℕ)) (k d e : ℕ)
    → k < 2 ^ w
    → RouteOut slot (2 ^ w) k d e
    → (e < 2 ^ w) × (slot_at slot e ≡ none)
RouteOut-in w slot k zero e l (at_e, blank) =
    (omega (arith, at_e), subst (λ t. slot_at slot t ≡ none) at_e blank)
RouteOut-in w slot k (suc d) e l (full, route) =
    RouteOut-in w slot (hop (2 ^ w) k) d e (hop-lt w k) route

-- A filled slot is not the free one.
filled-ne :
    (slot : List (Option ℕ)) (k e : ℕ)
    → is_filled (slot_at slot k) ≡ true
    → slot_at slot e ≡ none
    → e ≢ k
filled-ne slot k e full blank same = absurd (ground (arith, rw (sym same, blank) at full))

-- To fill a free slot keeps the routes, and makes the way out a route to what fills it.
pub RouteTo-set :
    (slot : List (Option ℕ)) (cap k d j e i : ℕ)
    → slot_at slot e ≡ none
    → RouteTo slot cap k d j
    → RouteTo (set slot e (some i)) cap k d j
RouteTo-set slot cap k zero j e i blank route =
    get_or-set_ne slot e k (some i) none (filled-ne slot k e (rw route refl) blank) ∙ route
RouteTo-set slot cap k (suc d) j e i blank route = (
  rw (get_or-set_ne slot e k (some i) none (filled-ne slot k e route.0 blank)) route.0,
  RouteTo-set slot cap (hop cap k) d j e i blank route.1,
)

pub RouteOut-set :
    (slot : List (Option ℕ)) (cap k d e i : ℕ)
    → e < length slot
    → slot_at slot e ≡ none
    → RouteOut slot cap k d e
    → RouteTo (set slot e (some i)) cap k d i
RouteOut-set slot cap k zero e i l blank route = rw route.0 (get_or-set_self slot e (some i) none l)
RouteOut-set slot cap k (suc d) e i l blank route = (
  rw (get_or-set_ne slot e k (some i) none (filled-ne slot k e route.0 blank)) route.0,
  RouteOut-set slot cap (hop cap k) d e i l blank route.1,
)

module _ {B : Type 0} ⦃R : Roaring B⦄ where
  open R use {equals}

  -- What a probe for `values` returns: a free slot at the end of a route of fewer hops than `bound`,
  -- or a set in the table with the same values.
  abbrev pub Found : ℕ → Grouping B → ℕ → B → ℕ → Option Probe → Type 0
  Found bound g cap values k none = ⊥
  Found bound g cap values k (some (free e)) = (d : ℕ) × (d < bound) × RouteOut g.slot cap k d e
  Found bound g cap values k (some (merged j)) =
      (at_slot : ℕ) × (slot_at g.slot at_slot ≡ some j)
      × (equals (refset g.sets j).values values ≡ true)

  Found-hop :
      (bound : ℕ) (g : Grouping B) (cap : ℕ) (values : B) (k : ℕ) (r : Option Probe)
      → is_filled (slot_at g.slot k) ≡ true
      → Found bound g cap values (hop cap k) r
      → Found (suc bound) g cap values k r
  Found-hop bound g cap values k none full f = f
  Found-hop bound g cap values k (some (free e)) full (d, l, route) =
      (suc d, omega arith, (full, route))
  Found-hop bound g cap values k (some (merged j)) full f = f

  pub probe-Found :
      (left d e : ℕ) (g : Grouping B) (cap h : ℕ) (values : B) (k : ℕ)
      → d < left
      → RouteOut g.slot cap k d e
      → Found left g cap values k (probe left g cap h values k)
  unfolding probe
  probe-Found zero d e g cap h values k l route = absurd (omega arith)
  probe-Found (suc left) zero e g cap h values k l route =
      rw (route.1, probe) (0, omega arith, (refl, route.1))
  probe-Found (suc left) (suc d) e g cap h values k l route =
      elim (Option-cases (slot_at g.slot k)) [
        | inl blank ↦ rw (blank, probe) (0, omega arith, (refl, blank))
        | inr (j, filled) ↦
            elim (Bool-cases (get_or g.hsl k 0 == h && equals (refset g.sets j).values values)) [
              | inl same ↦ rw (filled, same, probe) (k, filled, ground (arith, same))
              | inr other ↦
                  rw (filled, other, probe)
                    (Found-hop left g cap values k _ route.0
                      (probe-Found left d e g cap h values (hop cap k) (omega arith) route.1))
            ]
      ]

  -- A probe whose route leads to a set with the hash and the values ends at a set.
  pub probe-IsMerged :
      (left d j : ℕ) (g : Grouping B) (cap h : ℕ) (values : B) (k : ℕ)
      → d < left
      → RouteTo g.slot cap k d j
      → ((s : ℕ)
          → slot_at g.slot s ≡ some j
          → get_or g.hsl s 0 == h && equals (refset g.sets j).values values ≡ true)
      → IsMerged (probe left g cap h values k)
  unfolding probe
  probe-IsMerged zero d j g cap h values k l route hit = absurd (omega arith)
  probe-IsMerged (suc left) zero j g cap h values k l route hit =
      let same = hit k route in rw (route, same, probe) tt
  probe-IsMerged (suc left) (suc d) j g cap h values k l route hit =
      elim (Option-cases (slot_at g.slot k)) [
        | inl blank ↦ absurd (ground (arith, rw blank at route.0))
        | inr (i, filled) ↦
            elim (Bool-cases (get_or g.hsl k 0 == h && equals (refset g.sets i).values values)) [
              | inl same ↦ rw (filled, same, probe) tt
              | inr other ↦
                  rw (filled, other, probe)
                    (probe-IsMerged left d j g cap h values (hop cap k) (omega arith) route.1 hit)
            ]
      ]
