-- ===== src/DynOrder/Maximal.antt =====
-- core/dynorder.c: `dyn_maximal_of` selects the maximal elements of a list.
use fca4j_project.Base.{
  ℕ, ◌+◌, ◌≤◌, ◌≡◌, ◌↔◌, refl, ap, Bool, true, false, ◌⊎◌, List, [], ◌∷◌, Option, none, some,
  length, get_or, ◌==◌, elem, Bool-cases, inl, inr, arith, ==_iff, not, ◌&&◌,
}
use fca4j_project.DynOrder.{DynOrder, at}
use fca4j_project.DynOrder.Traverse.{
  marked, descend, push_covers, mark_below, unmarked, dyn_maximal_of,
}
use fca4j_project.DynOrder.Marks.{pending, AllBelowLen}
use fca4j_project.DynOrder.Offered.{all_covers, push_covers-Pushed, all_covers_iff}
use fca4j_project.DynOrder.Reach.{Leads, Leads.{direct, further}, Ends, ClosedMarks, descend-Ends}

-- What the listed concepts lead to.
abbrev pub LedToBy : List (List ℕ) → List ℕ → ℕ → Type 0
LedToBy covers vs w = (v : ℕ) × (elem v vs ≡ true) × Leads covers v w

-- The marks are those of the concepts that the list leads to.
abbrev pub MarksBelow : List (List ℕ) → ℕ → List ℕ → Option (List ℕ) → Type 0
MarksBelow covers epoch vs none = ⊥
MarksBelow covers epoch vs (some marks) =
    (w : ℕ) → (marked marks epoch w ≡ true) ↔ LedToBy covers vs w

-- A closed set of marks that has the covers of `v` has all that `v` leads to.
Leads-marked :
    (covers : List (List ℕ)) (epoch : ℕ) (marks : List ℕ) (v w : ℕ)
    → ClosedMarks covers epoch marks
    → ((u : ℕ) → elem u (at covers v) ≡ true → marked marks epoch u ≡ true)
    → Leads covers v w
    → marked marks epoch w ≡ true
Leads-marked covers epoch marks v w closed start (direct _ _ e) = start w e
Leads-marked covers epoch marks v w closed start (further _ u _ l e) =
    closed u w (Leads-marked covers epoch marks v u closed start l) e

pending-le : (epoch : ℕ) (marks : List ℕ) → pending epoch marks ≤ length marks
pending-le epoch [] = omega arith
pending-le epoch (m ∷ marks) = ground (arith, pending-le epoch marks)

MarksBelow-of :
    (covers : List (List ℕ)) (epoch : ℕ) (vs start : List ℕ) (r : Option (List ℕ))
    → ((u : ℕ) → elem u (all_covers covers vs) ≡ true → marked start epoch u ≡ true)
    → Ends covers epoch (LedToBy covers vs) start r
    → MarksBelow covers epoch vs r
MarksBelow-of covers epoch vs start none offered e = e
MarksBelow-of covers epoch vs start (some marks) offered e = λ w. (
  e.0 w,
  λ led.
      Leads-marked covers epoch marks led.0 w e.2
        (λ u hu. e.1 u (offered u ((all_covers_iff covers vs u).1 (led.0, led.1, hu)))) led.2,
)

offered_led :
    (covers : List (List ℕ)) (vs : List ℕ) (u : ℕ)
    → elem u (all_covers covers vs) ≡ true
    → LedToBy covers vs u
offered_led covers vs u h =
    let (v, hv, hu) = (all_covers_iff covers vs u).0 h in (v, hv, direct v u hu)

not_before : {P : Type 0} {b : Bool} → b ≡ false → (b ≡ true) ⊎ P → P
not_before off (inl on) = absurd (cc (off, on))
not_before off (inr p) = p

-- With a fresh epoch and covers within the array of marks, as much fuel as there are marks is
-- enough.
mark_below-MarksBelow :
    (fuel : ℕ) (covers : List (List ℕ)) (epoch : ℕ) (vs marks : List ℕ)
    → ((u : ℕ) → AllBelowLen marks (at covers u))
    → ((u : ℕ) → marked marks epoch u ≡ false)
    → length marks ≤ fuel
    → MarksBelow covers epoch vs (mark_below fuel covers epoch vs marks)
unfolding mark_below
mark_below-MarksBelow fuel covers epoch vs marks small fresh enough =
    let start = push_covers covers epoch vs marks [] in
    let p = push_covers-Pushed covers epoch vs marks [] small in
    MarksBelow-of covers epoch vs start.0 (descend fuel covers epoch start.0 start.1) p.offered (
      descend-Ends fuel covers epoch (LedToBy covers vs) start.0 start.1
        (λ u w led hw. (led.0, led.1, further led.0 u w led.2 hw))
        (λ u w hw. omega (arith, p.same_length, small u w hw))
        (λ u h. offered_led covers vs u (not_before (fresh u) (p.origin u h)))
        (λ u h. offered_led covers vs u (not_before refl (p.stack_origin u h)))
        (λ u h. inl (not_before (fresh u) (p.new_stacked u h)))
        (omega (arith, p.spent, enough, pending-le epoch marks)))

elem-unmarked :
    (marks : List ℕ) (epoch : ℕ) (vs : List ℕ) (v : ℕ)
    → elem v (unmarked marks epoch vs) ≡ (elem v vs && not (marked marks epoch v))
unfolding unmarked
elem-unmarked marks epoch [] v = refl
elem-unmarked marks epoch (x ∷ vs) v =
    let ih = elem-unmarked marks epoch vs v in
    elim (Bool-cases (v == x)) [
      | inl e ↦
          let same : marked marks epoch v ≡ marked marks epoch x =
            ap (marked marks epoch) ((==_iff v x).0 e) in
          elim (Bool-cases (marked marks epoch x)) [
            | inl m ↦ rw (m, unmarked) (ground (arith, ih, e, same, m))
            | inr m ↦ rw (m, unmarked) (ground (arith, ih, e, same, m))
          ]
      | inr e ↦ elim (Bool-cases (marked marks epoch x)) [
        | inl m ↦ rw (m, unmarked) (ground (arith, ih, e))
        | inr m ↦ rw (m, unmarked) (ground (arith, ih, e))
      ]
    ]

-- The selection is that of the listed concepts to which no listed one leads.
abbrev pub SelectsMaximal : DynOrder → List ℕ → Option DynOrder → Type 0
SelectsMaximal dyn vs none = ⊥
SelectsMaximal dyn vs (some dyn') =
    (v : ℕ) → (elem v dyn'.sel ≡ true) ↔ ((elem v vs ≡ true) × ¬ LedToBy dyn.lower vs v)

selected :
    (dyn : DynOrder) (vs : List ℕ) (epoch : ℕ) (r : Option (List ℕ))
    → MarksBelow dyn.lower epoch vs r
    → SelectsMaximal dyn vs (elim r [
      | none ↦ none
      | some marks ↦
          some (record dyn { sel = unmarked marks epoch vs; mark_b = marks; epoch_b = epoch })
    ])
selected dyn vs epoch none m = m
selected dyn vs epoch (some marks) m = λ v. (
  λ h. (
    ground (arith, elem-unmarked marks epoch vs v),
    λ led. ground (arith, elem-unmarked marks epoch vs v, (m v).1 led),
  ),
  λ h. elim (Bool-cases (marked marks epoch v)) [
    | inl e ↦ absurd (h.1 ((m v).0 e))
    | inr e ↦ ground (arith, elem-unmarked marks epoch vs v, h.0, e)
  ],
)

-- On two or more concepts, when the lower covers stay within the array of marks and no mark is
-- newer than the epoch, as much fuel as there are marks is enough for `dyn_maximal_of`; it
-- selects exactly the listed concepts that are below no listed one.
pub dyn_maximal_of-SelectsMaximal :
    (fuel : ℕ) (dyn : DynOrder) (v w : ℕ) (vs : List ℕ)
    → ((u : ℕ) → AllBelowLen dyn.mark_b (at dyn.lower u))
    → ((u : ℕ) → get_or dyn.mark_b u 0 ≤ dyn.epoch_b)
    → length dyn.mark_b ≤ fuel
    → SelectsMaximal dyn (v ∷ w ∷ vs) (dyn_maximal_of fuel dyn (v ∷ w ∷ vs))
unfolding dyn_maximal_of
dyn_maximal_of-SelectsMaximal fuel dyn v w vs small stamped enough =
    selected dyn (v ∷ w ∷ vs) (dyn.epoch_b + 1)
      (mark_below fuel dyn.lower (dyn.epoch_b + 1) (v ∷ w ∷ vs) dyn.mark_b)
      (mark_below-MarksBelow fuel dyn.lower (dyn.epoch_b + 1) (v ∷ w ∷ vs) dyn.mark_b small
        (λ u. ground (arith, stamped u)) enough)
