-- ===== src/DynOrder/Reach.antt =====
-- core/dynorder.c: what a traversal along the covers marks.
use fca4j_project.Base.{
  ℕ, zero, suc, ◌+◌, ◌≤◌, ◌≡◌, true, ◌⊎◌, List, [], ◌∷◌, Option, none, some, length, elem,
  elem-cons_cases, inl, inr, arith,
}
use mathlib.Core.Path.{subst}
use fca4j_project.DynOrder.{at}
use fca4j_project.DynOrder.Traverse.{marked, push_new, descend}
use fca4j_project.DynOrder.Marks.{pending, Pushed, AllBelowLen, push_new-Pushed, elem_here}

-- One or more steps along the covers.
pub data Leads (covers : List (List ℕ)) : ℕ → ℕ → Type 0 where
  direct : (v w : ℕ) → elem w (at covers v) ≡ true → Leads covers v w
  further : (v u w : ℕ) → Leads covers v u → elem w (at covers u) ≡ true → Leads covers v w

-- Every marked concept is on the stack, or its covers are marked.
abbrev pub Frontier : List (List ℕ) → ℕ → List ℕ → List ℕ → Type 0
Frontier covers epoch marks stack =
    (u : ℕ)
    → marked marks epoch u ≡ true
    → (elem u stack ≡ true) ⊎ ((w : ℕ) → elem w (at covers u) ≡ true → marked marks epoch w ≡ true)

abbrev pub ClosedMarks : List (List ℕ) → ℕ → List ℕ → Type 0
ClosedMarks covers epoch marks =
    (u w : ℕ)
    → marked marks epoch u ≡ true
    → elem w (at covers u) ≡ true
    → marked marks epoch w ≡ true

-- The end of a traversal: nothing beyond `Q` is marked, all of before is, and it is closed.
abbrev pub Ends : List (List ℕ) → ℕ → (ℕ → Type 0) → List ℕ → Option (List ℕ) → Type 0
Ends covers epoch Q marks none = ⊥
Ends covers epoch Q marks (some marks') =
    ((u : ℕ) → marked marks' epoch u ≡ true → Q u)
    × ((u : ℕ) → marked marks epoch u ≡ true → marked marks' epoch u ≡ true)
    × ClosedMarks covers epoch marks'

later-Ends :
    (covers : List (List ℕ)) (epoch : ℕ) (Q : ℕ → Type 0) (marks marks1 : List ℕ)
    (r : Option (List ℕ))
    → ((u : ℕ) → marked marks epoch u ≡ true → marked marks1 epoch u ≡ true)
    → Ends covers epoch Q marks1 r
    → Ends covers epoch Q marks r
later-Ends covers epoch Q marks marks1 none kept e = e
later-Ends covers epoch Q marks marks1 (some marks') kept e = (e.0, λ u h. e.1 u (kept u h), e.2)

-- The frontier after a concept is taken off the stack and its covers are pushed.
next-Frontier :
    (covers : List (List ℕ)) (epoch v : ℕ) (marks stack marks' stack' : List ℕ)
    → Frontier covers epoch marks (v ∷ stack)
    → Pushed epoch (at covers v) marks stack marks' stack'
    → Frontier covers epoch marks' stack'
next-Frontier covers epoch v marks stack marks' stack' front p u h = elim (p.new_stacked u h) [
  | inr on_stack ↦ inl on_stack
  | inl old ↦ elim (front u old) [
    | inr done ↦ inr (λ w hw. p.kept w (done w hw))
    | inl waiting ↦ elim (elem-cons_cases u v stack waiting) [
      | inl same ↦ inr (λ w hw. p.offered w (subst (λ k. elem w (at covers k) ≡ true) same hw))
      | inr below ↦ inl (p.stacked u below)
    ]
  ]
]

pub descend-Ends :
    (fuel : ℕ) (covers : List (List ℕ)) (epoch : ℕ) (Q : ℕ → Type 0) (marks stack : List ℕ)
    → ((u w : ℕ) → Q u → elem w (at covers u) ≡ true → Q w)
    → ((u : ℕ) → AllBelowLen marks (at covers u))
    → ((u : ℕ) → marked marks epoch u ≡ true → Q u)
    → ((u : ℕ) → elem u stack ≡ true → Q u)
    → Frontier covers epoch marks stack
    → pending epoch marks + length stack ≤ fuel
    → Ends covers epoch Q marks (descend fuel covers epoch marks stack)
unfolding descend
descend-Ends fuel covers epoch Q marks [] step small sound on_stack front enough = (
  sound,
  λ u h. h,
  λ u w h hw. elim (front u h) [ inl waiting ↦ absurd (ground arith) | inr done ↦ done w hw ],
)
descend-Ends zero covers epoch Q marks (v ∷ stack) step small sound on_stack front enough =
    absurd (omega arith)
descend-Ends (suc fuel) covers epoch Q marks (v ∷ stack) step small sound on_stack front enough =
    let next = push_new epoch (at covers v) marks stack in
    let p = push_new-Pushed epoch (at covers v) marks stack (small v) in
    let here : Q v = on_stack v (elem_here v stack) in
    later-Ends covers epoch Q marks next.0 (descend fuel covers epoch next.0 next.1) p.kept (
      descend-Ends fuel covers epoch Q next.0 next.1 step
        (λ u w hw. omega (arith, p.same_length, small u w hw))
        (λ u h. elim (p.origin u h) [ inl old ↦ sound u old | inr new ↦ step v u here new ])
        (λ u h. elim (p.stack_origin u h) [
          | inl old ↦ on_stack u (ground arith)
          | inr new ↦ step v u here new
        ])
        (next-Frontier covers epoch v marks stack next.0 next.1 front p)
        (omega (arith, p.spent, enough)))
