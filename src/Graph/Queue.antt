-- ===== src/Graph/Queue.antt =====
-- core/graph.c: the loops that mark vertices and enqueue them.
use fca4j_project.Base.{
  ℕ, ◌+◌, ◌<◌, ◌≤◌, ◌≡◌, sym, true, false, ◌⊎◌, List, [], ◌∷◌, ◌++◌, length, elem, elem-append,
  elem-cons_cases, length-append, ◌==◌, Bool-cases, inl, inr, arith, ==_refl, ==_iff,
}
use mathlib.Core.Path.{subst}
use fca4j_project.Roaring.{Roaring}
use fca4j_project.Roaring.Sets.{Has}
use fca4j_project.Roaring.Cardinal.{cardinality-lt}
use fca4j_project.Graph.{enqueue_new}

pushed_cases : (q : List ℕ) (t u : ℕ) → elem u (q ++ t ∷ []) ≡ true → (elem u q ≡ true) ⊎ (u ≡ t)
pushed_cases q t u h = elim (Bool-cases (u == t)) [
  | inl e ↦ inr ((==_iff u t).0 e)
  | inr e ↦ inl (ground (arith, elem-append u q (t ∷ [])))
]

here : (t u : ℕ) (ts : List ℕ) → u ≡ t → elem u (t ∷ ts) ≡ true
here t u ts e = ground (arith, e, ==_refl t)

last : (q : List ℕ) (t u : ℕ) → u ≡ t → elem u (q ++ t ∷ []) ≡ true
last q t u e = ground (arith, elem-append u q (t ∷ []), here t u [] e)

module _ {B : Type 0} ⦃R : Roaring B⦄ where
  open R use {contains, add, cardinality, contains-add}

  -- What a loop that is offered `ws` does to the marks and the queue.
  pub record Enqueued (ws : List ℕ) (r : B) (q : List ℕ) (r' : B) (q' : List ℕ) : Type 0 where
    pub spent : length q' + cardinality r ≤ length q + cardinality r'
    pub kept : (u : ℕ) → Has r u → Has r' u
    pub offered : (u : ℕ) → elem u ws ≡ true → Has r' u
    pub origin : (u : ℕ) → Has r' u → Has r u ⊎ (elem u ws ≡ true)
    pub queued : (u : ℕ) → elem u q ≡ true → elem u q' ≡ true
    pub queue_origin : (u : ℕ) → elem u q' ≡ true → (elem u q ≡ true) ⊎ (elem u ws ≡ true)
    pub new_queued : (u : ℕ) → Has r' u → Has r u ⊎ (elem u q' ≡ true)

  pub enqueue_none : (r : B) (q : List ℕ) → Enqueued [] r q r q
  enqueue_none r q = record {
    spent = omega arith;
    kept = λ u h. h;
    offered = λ u h. absurd (ground arith);
    origin = λ u h. inl h;
    queued = λ u h. h;
    queue_origin = λ u h. inl h;
    new_queued = λ u h. inl h;
  }

  -- A vertex that is marked already.
  enqueue_old :
      (t : ℕ) (ts : List ℕ) (r : B) (q : List ℕ) (r' : B) (q' : List ℕ)
      → Has r t
      → Enqueued ts r q r' q'
      → Enqueued (t ∷ ts) r q r' q'
  enqueue_old t ts r q r' q' old e = record {
    spent = e.spent;
    kept = e.kept;
    offered = λ u h. elim (elem-cons_cases u t ts h) [
      | inl same ↦ e.kept u (subst (Has r) (sym same) old)
      | inr later ↦ e.offered u later
    ];
    origin = λ u h. elim (e.origin u h) [ inl a ↦ inl a | inr b ↦ inr (ground arith) ];
    queued = e.queued;
    queue_origin = λ u h. elim (e.queue_origin u h) [ inl a ↦ inl a | inr b ↦ inr (ground arith) ];
    new_queued = e.new_queued;
  }

  add_cases : (r : B) (t u : ℕ) → Has (add r t) u → Has r u ⊎ (u ≡ t)
  add_cases r t u h = elim (Bool-cases (u == t)) [
    | inl e ↦ inr ((==_iff u t).0 e)
    | inr e ↦ inl (ground (arith, contains-add r t u))
  ]

  -- A vertex that is new.
  enqueue_fresh :
      (t : ℕ) (ts : List ℕ) (r : B) (q : List ℕ) (r' : B) (q' : List ℕ)
      → contains r t ≡ false
      → Enqueued ts (add r t) (q ++ t ∷ []) r' q'
      → Enqueued (t ∷ ts) r q r' q'
  enqueue_fresh t ts r q r' q' new e =
      let more : cardinality r < cardinality (add r t) =
        cardinality-lt r (add r t) (λ x h. ground (arith, contains-add r t x))
          (λ back. ground (arith, back t, contains-add r t t, ==_refl t, new)) in
      record {
        spent = omega (arith, e.spent, more, length-append q (t ∷ []));
        kept = λ u h. e.kept u (ground (arith, contains-add r t u));
        offered = λ u h. elim (elem-cons_cases u t ts h) [
          | inl same ↦ e.kept u (ground (arith, contains-add r t u, same, ==_refl t))
          | inr later ↦ e.offered u later
        ];
        origin = λ u h. elim (e.origin u h) [
          | inl a ↦ elim (add_cases r t u a) [
            | inl old ↦ inl old
            | inr same ↦ inr (here t u ts same)
          ]
          | inr b ↦ inr (ground arith)
        ];
        queued = λ u h. e.queued u (ground (arith, elem-append u q (t ∷ [])));
        queue_origin = λ u h. elim (e.queue_origin u h) [
          | inl a ↦ elim (pushed_cases q t u a) [
            | inl old ↦ inl old
            | inr same ↦ inr (here t u ts same)
          ]
          | inr b ↦ inr (ground arith)
        ];
        new_queued = λ u h. elim (e.new_queued u h) [
          | inl a ↦ elim (add_cases r t u a) [
            | inl old ↦ inl old
            | inr same ↦ inr (e.queued u (last q t u same))
          ]
          | inr b ↦ inr b
        ];
      }

  pub enqueue_new-Enqueued :
      (ts : List ℕ) (r : B) (q : List ℕ)
      → Enqueued ts r q (enqueue_new ts r q).0 (enqueue_new ts r q).1
  unfolding enqueue_new
  enqueue_new-Enqueued [] r q = enqueue_none r q
  enqueue_new-Enqueued (t ∷ ts) r q = elim (Bool-cases (contains r t)) [
    | inl e ↦
        let next = enqueue_new ts r q in
        rw (e, enqueue_new) (enqueue_old t ts r q next.0 next.1 e (enqueue_new-Enqueued ts r q))
    | inr e ↦
        let next = enqueue_new ts (add r t) (q ++ t ∷ []) in
        rw (e, enqueue_new)
          (enqueue_fresh t ts r q next.0 next.1 e (enqueue_new-Enqueued ts (add r t) (q ++ t ∷ [])))
  ]
