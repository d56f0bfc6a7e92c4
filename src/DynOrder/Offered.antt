-- ===== src/DynOrder/Offered.antt =====
-- core/dynorder.c: the loops that push the covers of several concepts.
use fca4j_project.Base.{
  ℕ, ◌≡◌, ◌↔◌, ◌∙◌, ap, true, ◌||◌, ◌⊎◌, List, [], ◌∷◌, ◌++◌, elem, elem-append, elem-append_cases,
  elem-cons_cases, inl, inr, arith,
}
use mathlib.Core.Path.{subst}
use fca4j_project.DynOrder.{at}
use fca4j_project.DynOrder.Traverse.{push_new, push_covers}
use fca4j_project.DynOrder.Marks.{Pushed, AllBelowLen, push_new-Pushed, elem_here, push_none}

-- The covers of all the listed concepts.
abbrev pub all_covers : List (List ℕ) → List ℕ → List ℕ
all_covers covers [] = []
all_covers covers (v ∷ vs) = at covers v ++ all_covers covers vs

elem-append_intro :
    (u : ℕ) (xs ys : List ℕ) → (elem u xs ≡ true) ⊎ (elem u ys ≡ true) → elem u (xs ++ ys) ≡ true
elem-append_intro u xs ys (inl h) = elem-append u xs ys ∙ ap (λ b. b || elem u ys) h
elem-append_intro u xs ys (inr h) = ground (arith, elem-append u xs ys)

-- One loop after another.
Pushed-trans :
    (epoch : ℕ) (xs ys m s m1 s1 m2 s2 : List ℕ)
    → Pushed epoch xs m s m1 s1
    → Pushed epoch ys m1 s1 m2 s2
    → Pushed epoch (xs ++ ys) m s m2 s2
Pushed-trans epoch xs ys m s m1 s1 m2 s2 p q = record {
  same_length = q.same_length ∙ p.same_length;
  spent = q.spent ∙ p.spent;
  kept = λ u h. q.kept u (p.kept u h);
  offered = λ u h. elim (elem-append_cases u xs ys h) [
    | inl a ↦ q.kept u (p.offered u a)
    | inr b ↦ q.offered u b
  ];
  origin = λ u h. elim (q.origin u h) [
    | inr b ↦ inr (elem-append_intro u xs ys (inr b))
    | inl a ↦ elim (p.origin u a) [
      | inl old ↦ inl old
      | inr b ↦ inr (elem-append_intro u xs ys (inl b))
    ]
  ];
  stacked = λ u h. q.stacked u (p.stacked u h);
  stack_origin = λ u h. elim (q.stack_origin u h) [
    | inr b ↦ inr (elem-append_intro u xs ys (inr b))
    | inl a ↦ elim (p.stack_origin u a) [
      | inl old ↦ inl old
      | inr b ↦ inr (elem-append_intro u xs ys (inl b))
    ]
  ];
  new_stacked = λ u h. elim (q.new_stacked u h) [
    | inr b ↦ inr b
    | inl a ↦ elim (p.new_stacked u a) [ inl old ↦ inl old | inr b ↦ inr (q.stacked u b) ]
  ];
}

pub push_covers-Pushed :
    (covers : List (List ℕ)) (epoch : ℕ) (vs marks stack : List ℕ)
    → ((u : ℕ) → AllBelowLen marks (at covers u))
    → Pushed epoch
        (all_covers covers vs)
        marks
        stack
        (push_covers covers epoch vs marks stack).0
        (push_covers covers epoch vs marks stack).1
unfolding push_covers
push_covers-Pushed covers epoch [] marks stack small = push_none epoch marks stack
push_covers-Pushed covers epoch (v ∷ vs) marks stack small =
    let next = push_new epoch (at covers v) marks stack in
    let p = push_new-Pushed epoch (at covers v) marks stack (small v) in
    let last = push_covers covers epoch vs next.0 next.1 in
    Pushed-trans epoch (at covers v) (all_covers covers vs) marks stack next.0 next.1 last.0 last.1
      p
      (push_covers-Pushed covers epoch vs next.0 next.1
        (λ u w hw. omega (arith, p.same_length, small u w hw)))

-- Where an element of the covers comes from.
pub all_covers_iff :
    (covers : List (List ℕ)) (vs : List ℕ) (w : ℕ)
    → (elem w (all_covers covers vs) ≡ true)
      ↔ ((v : ℕ) × (elem v vs ≡ true) × (elem w (at covers v) ≡ true))
all_covers_iff covers [] w = (λ h. absurd (ground arith), λ h. absurd (ground (arith, h.1)))
all_covers_iff covers (v ∷ vs) w =
    let ih = all_covers_iff covers vs w in
    (
      λ h. elim (elem-append_cases w (at covers v) (all_covers covers vs) h) [
        | inl here ↦ (v, elem_here v vs, here)
        | inr there ↦ let (u, hu, hw) = ih.0 there in (u, ground arith, hw)
      ],
      λ h. elim (elem-cons_cases h.0 v vs h.1) [
        | inl same ↦
            elem-append_intro w (at covers v) (all_covers covers vs)
              (inl (subst (λ k. elem w (at covers k) ≡ true) same h.2))
        | inr there ↦
            elem-append_intro w (at covers v) (all_covers covers vs) (inr (ih.1 (h.0, there, h.2)))
      ],
    )
