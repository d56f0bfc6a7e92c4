-- ===== src/DynOrder/Marks.antt =====
-- core/dynorder.c: the traversals mark exactly the concepts that the covers lead to, and the
-- stack empties.
use fca4j_project.Base.{
  ℕ, zero, suc, ◌+◌, ◌<◌, ◌≡◌, refl, sym, ◌∙◌, ap, true, false, ◌||◌, ◌⊎◌, List, [], ◌∷◌, length,
  set, if◌then◌else◌, ◌==◌, elem, elem-cons_cases, Bool-cases, inl, inr, arith, ==_refl, ==_iff,
  get_or-set_self, get_or-set_ne, length-set,
}
use mathlib.Core.Path.{subst}
use fca4j_project.DynOrder.Traverse.{marked, push_new}

-- The entries that are not marked in this epoch.
abbrev pub pending : ℕ → List ℕ → ℕ
pending epoch [] = 0
pending epoch (m ∷ marks) = (if m == epoch then 0 else 1) + pending epoch marks

pending-set :
    (epoch : ℕ) (marks : List ℕ) (v : ℕ)
    → v < length marks
    → marked marks epoch v ≡ false
    → pending epoch (set marks v epoch) + 1 ≡ pending epoch marks
pending-set epoch [] v lt e = absurd (omega arith)
pending-set epoch (m ∷ marks) zero lt e = ground (arith, e, ==_refl epoch)
pending-set epoch (m ∷ marks) (suc v) lt e =
    omega (arith, pending-set epoch marks v (omega arith) e)

marked-set :
    (epoch : ℕ) (marks : List ℕ) (v w : ℕ)
    → v < length marks
    → marked (set marks v epoch) epoch w ≡ (w == v || marked marks epoch w)
marked-set epoch marks v w lt = elim (Bool-cases (w == v)) [
  | inl e ↦ rw e (
      ap (λ k. marked (set marks v epoch) epoch k) ((==_iff w v).0 e)
      ∙ ap (λ m. m == epoch) (get_or-set_self marks v epoch 0 lt)
      ∙ ==_refl epoch)
  | inr e ↦
      rw e (ap (λ m. m == epoch) (get_or-set_ne marks v w epoch 0 (λ same. ground (arith, e))))
]

-- What a loop that marks and pushes does to the marks and the stack; `ws` is what it is offered.
pub record Pushed (epoch : ℕ) (ws marks stack marks' stack' : List ℕ) : Type 0 where
  pub same_length : length marks' ≡ length marks
  pub spent : pending epoch marks' + length stack' ≡ pending epoch marks + length stack
  pub kept : (u : ℕ) → marked marks epoch u ≡ true → marked marks' epoch u ≡ true
  pub offered : (u : ℕ) → elem u ws ≡ true → marked marks' epoch u ≡ true
  pub origin :
      (u : ℕ) → marked marks' epoch u ≡ true → (marked marks epoch u ≡ true) ⊎ (elem u ws ≡ true)
  pub stacked : (u : ℕ) → elem u stack ≡ true → elem u stack' ≡ true
  pub stack_origin : (u : ℕ) → elem u stack' ≡ true → (elem u stack ≡ true) ⊎ (elem u ws ≡ true)
  pub new_stacked :
      (u : ℕ)
      → marked marks' epoch u ≡ true
      → (marked marks epoch u ≡ true) ⊎ (elem u stack' ≡ true)

abbrev pub AllBelowLen : List ℕ → List ℕ → Type 0
AllBelowLen marks ws = (u : ℕ) → elem u ws ≡ true → u < length marks

pub elem_here : (w : ℕ) (ws : List ℕ) → elem w (w ∷ ws) ≡ true
elem_here w ws = ground (arith, ==_refl w)

elem_later : (u w : ℕ) (ws : List ℕ) → elem u ws ≡ true → elem u (w ∷ ws) ≡ true
elem_later u w ws h = ground arith

-- What is marked after a write.
marked-set_cases :
    (epoch : ℕ) (marks : List ℕ) (v u : ℕ)
    → v < length marks
    → marked (set marks v epoch) epoch u ≡ true
    → (u ≡ v) ⊎ (marked marks epoch u ≡ true)
marked-set_cases epoch marks v u lt h = elim (Bool-cases (u == v)) [
  | inl e ↦ inl ((==_iff u v).0 e)
  | inr e ↦ inr (ground (arith, e, h, marked-set epoch marks v u lt))
]

-- The first item offered is marked already.
offer_marked :
    (epoch w : ℕ) (ws marks stack marks' stack' : List ℕ)
    → marked marks epoch w ≡ true
    → Pushed epoch ws marks stack marks' stack'
    → Pushed epoch (w ∷ ws) marks stack marks' stack'
offer_marked epoch w ws marks stack marks' stack' e p = record {
  same_length = p.same_length;
  spent = p.spent;
  kept = p.kept;
  offered = λ u h. elim (elem-cons_cases u w ws h) [
    | inl same ↦ p.kept u (subst (λ k. marked marks epoch k ≡ true) (sym same) e)
    | inr later ↦ p.offered u later
  ];
  origin = λ u h. elim (p.origin u h) [ inl old ↦ inl old | inr new ↦ inr (elem_later u w ws new) ];
  stacked = p.stacked;
  stack_origin = λ u h. elim (p.stack_origin u h) [
    | inl old ↦ inl old
    | inr new ↦ inr (elem_later u w ws new)
  ];
  new_stacked = p.new_stacked;
}

-- The first item offered is marked and pushed.
offer_new :
    (epoch w : ℕ) (ws marks stack marks' stack' : List ℕ)
    → w < length marks
    → marked marks epoch w ≡ false
    → Pushed epoch ws (set marks w epoch) (w ∷ stack) marks' stack'
    → Pushed epoch (w ∷ ws) marks stack marks' stack'
offer_new epoch w ws marks stack marks' stack' lt e p = record {
  same_length = p.same_length ∙ length-set marks w epoch;
  spent = omega (arith, p.spent, pending-set epoch marks w lt e);
  kept = λ u h. p.kept u (ground (arith, h, marked-set epoch marks w u lt));
  offered = λ u h. elim (elem-cons_cases u w ws h) [
    | inl same ↦ p.kept u (ground (arith, same, ==_refl w, marked-set epoch marks w u lt))
    | inr later ↦ p.offered u later
  ];
  origin = λ u h. elim (p.origin u h) [
    | inr new ↦ inr (elem_later u w ws new)
    | inl old ↦ elim (marked-set_cases epoch marks w u lt old) [
      | inl same ↦ inr (subst (λ k. elem k (w ∷ ws) ≡ true) (sym same) (elem_here w ws))
      | inr before ↦ inl before
    ]
  ];
  stacked = λ u h. p.stacked u (elem_later u w stack h);
  stack_origin = λ u h. elim (p.stack_origin u h) [
    | inr new ↦ inr (elem_later u w ws new)
    | inl old ↦ elim (elem-cons_cases u w stack old) [
      | inl same ↦ inr (subst (λ k. elem k (w ∷ ws) ≡ true) (sym same) (elem_here w ws))
      | inr before ↦ inl before
    ]
  ];
  new_stacked = λ u h. elim (p.new_stacked u h) [
    | inr on_stack ↦ inr on_stack
    | inl old ↦ elim (marked-set_cases epoch marks w u lt old) [
      | inl same ↦
          inr (p.stacked u (subst (λ k. elem k (w ∷ stack) ≡ true) (sym same) (elem_here w stack)))
      | inr before ↦ inl before
    ]
  ];
}

-- Nothing is offered.
pub push_none : (epoch : ℕ) (marks stack : List ℕ) → Pushed epoch [] marks stack marks stack
push_none epoch marks stack = record {
  same_length = refl;
  spent = refl;
  kept = λ u h. h;
  offered = λ u h. absurd (ground arith);
  origin = λ u h. inl h;
  stacked = λ u h. h;
  stack_origin = λ u h. inl h;
  new_stacked = λ u h. inl h;
}

pub push_new-Pushed :
    (epoch : ℕ) (ws marks stack : List ℕ)
    → AllBelowLen marks ws
    → Pushed epoch ws marks stack
        (push_new epoch ws marks stack).0
        (push_new epoch ws marks stack).1
unfolding push_new
push_new-Pushed epoch [] marks stack small = push_none epoch marks stack
push_new-Pushed epoch (w ∷ ws) marks stack small = elim (Bool-cases (marked marks epoch w)) [
  | inl e ↦
      let p = push_new-Pushed epoch ws marks stack (λ u h. small u (ground arith)) in
      rw (e, push_new)
        (offer_marked epoch w ws marks stack (push_new epoch ws marks stack).0
          (push_new epoch ws marks stack).1 e p)
  | inr e ↦
      let lt : w < length marks = small w (ground (arith, ==_refl w)) in
      let p =
        push_new-Pushed epoch ws (set marks w epoch) (w ∷ stack)
          (λ u h. omega (arith, length-set marks w epoch, small u (ground arith))) in
      let next = push_new epoch ws (set marks w epoch) (w ∷ stack) in
      rw (e, push_new) (offer_new epoch w ws marks stack next.0 next.1 lt e p)
]
