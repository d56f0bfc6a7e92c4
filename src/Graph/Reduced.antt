-- ===== src/Graph/Reduced.antt =====
-- core/graph.c, transitive_reduction: the edges that a vertex keeps.
use fca4j_project.Base.{
  ℕ, ◌<◌, ◌≤◌, ◌≡◌, ◌↔◌, sym, ◌∙◌, ap, true, false, ◌&&◌, ◌||◌, not, List, [], ◌∷◌, ◌++◌, Option,
  none, some, length, get_or, set, leb, elem, elem-append, elem-append_cases, elem-cons_cases,
  Bool-cases, inl, inr, arith, get_or-set_self, ==_refl,
}
use mathlib.Core.Path.{subst}
use fca4j_project.Roaring.{Roaring}
use fca4j_project.Roaring.Sets.{Has}
use fca4j_project.Graph.{AttrGraph, successors, enqueue_new, from_successors, spread, reduce_vertex}
use fca4j_project.Graph.Queue.{Enqueued, enqueue_none, enqueue_new-Enqueued}
use fca4j_project.Graph.Reduction.{Reaches, Reaches.{edge, then_edge}, Spreads, spread-Spreads}

append_left : (u : ℕ) (xs ys : List ℕ) → elem u xs ≡ true → elem u (xs ++ ys) ≡ true
append_left u xs ys h = elem-append u xs ys ∙ ap (λ b. b || elem u ys) h

append_right : (u : ℕ) (xs ys : List ℕ) → elem u ys ≡ true → elem u (xs ++ ys) ≡ true
append_right u xs ys h = ground (arith, elem-append u xs ys)

module _ {B : Type 0} ⦃R : Roaring B⦄ where
  open R use {
    create, contains, andnot, to_list, cardinality, contains-create, contains-andnot, elem-to_list,
  }

  Enqueued-trans :
      (xs ys : List ℕ) (r : B) (q : List ℕ) (r1 : B) (q1 : List ℕ) (r2 : B) (q2 : List ℕ)
      → Enqueued xs r q r1 q1
      → Enqueued ys r1 q1 r2 q2
      → Enqueued (xs ++ ys) r q r2 q2
  Enqueued-trans xs ys r q r1 q1 r2 q2 d e = record {
    spent = omega (arith, d.spent, e.spent);
    kept = λ u h. e.kept u (d.kept u h);
    offered = λ u h. elim (elem-append_cases u xs ys h) [
      | inl a ↦ e.kept u (d.offered u a)
      | inr b ↦ e.offered u b
    ];
    origin = λ u h. elim (e.origin u h) [
      | inr b ↦ inr (append_right u xs ys b)
      | inl a ↦ elim (d.origin u a) [ inl old ↦ inl old | inr b ↦ inr (append_left u xs ys b) ]
    ];
    queued = λ u h. e.queued u (d.queued u h);
    queue_origin = λ u h. elim (e.queue_origin u h) [
      | inr b ↦ inr (append_right u xs ys b)
      | inl a ↦ elim (d.queue_origin u a) [
        | inl old ↦ inl old
        | inr b ↦ inr (append_left u xs ys b)
      ]
    ];
    new_queued = λ u h. elim (e.new_queued u h) [
      | inr b ↦ inr b
      | inl a ↦ elim (d.new_queued u a) [ inl old ↦ inl old | inr b ↦ inr (e.queued u b) ]
    ];
  }

  abbrev all_successors : AttrGraph B → List ℕ → List ℕ
  all_successors g [] = []
  all_successors g (s ∷ succs) = to_list (successors g s) ++ all_successors g succs

  from_successors-Enqueued :
      (g : AttrGraph B) (succs : List ℕ) (r : B) (q : List ℕ)
      → Enqueued
          (all_successors g succs)
          r
          q
          (from_successors g succs r q).0
          (from_successors g succs r q).1
  unfolding from_successors
  from_successors-Enqueued g [] r q = enqueue_none r q
  from_successors-Enqueued g (s ∷ succs) r q =
      let next = enqueue_new (to_list (successors g s)) r q in
      let end = from_successors g succs next.0 next.1 in
      Enqueued-trans (to_list (successors g s)) (all_successors g succs) r q next.0 next.1 end.0
        end.1 (enqueue_new-Enqueued (to_list (successors g s)) r q)
        (from_successors-Enqueued g succs next.0 next.1)

  all_successors_iff :
      (g : AttrGraph B) (succs : List ℕ) (w : ℕ)
      → (elem w (all_successors g succs) ≡ true)
        ↔ ((s : ℕ) × (elem s succs ≡ true) × Has (successors g s) w)
  all_successors_iff g [] w = (λ h. absurd (ground arith), λ h. absurd (ground (arith, h.1)))
  all_successors_iff g (s ∷ succs) w =
      let items = to_list (successors g s) in
      let ih = all_successors_iff g succs w in
      (
        λ h. elim (elem-append_cases w items (all_successors g succs) h) [
          | inl a ↦ (s, ground (arith, ==_refl s), sym (elem-to_list (successors g s) w) ∙ a)
          | inr b ↦ let (t, ht, hw) = ih.0 b in (t, ground arith, hw)
        ],
        λ h. elim (elem-cons_cases h.0 s succs h.1) [
          | inl same ↦
              append_left w items (all_successors g succs)
                (elem-to_list (successors g s) w ∙ subst (λ k. Has (successors g k) w) same h.2)
          | inr later ↦ append_right w items (all_successors g succs) (ih.1 (h.0, later, h.2))
        ],
      )

  -- `v` is reached from `u` by two or more edges.
  abbrev pub Beyond : AttrGraph B → ℕ → ℕ → Type 0
  Beyond g u v = (s : ℕ) × Has (successors g u) s × Reaches g s v

  beyond_marked :
      (g : AttrGraph B) (r : B) (s v : ℕ)
      → ((w : ℕ) → Has (successors g s) w → Has r w)
      → ((x w : ℕ) → Has r x → Has (successors g x) w → Has r w)
      → Reaches g s v
      → Has r v
  beyond_marked g r s v first closed (edge _ _ h) = first v h
  beyond_marked g r s v first closed (then_edge _ x _ path h) =
      closed x v (beyond_marked g r s x first closed path) h

  -- The edges of `u` after the round.
  abbrev pub Reduces : AttrGraph B → ℕ → Option (AttrGraph B) → Type 0
  Reduces g u none = ⊥
  Reduces g u (some g') =
      (v : ℕ) → Has (successors g' u) v ↔ (Has (successors g u) v × ¬ Beyond g u v)

  reduced :
      (g : AttrGraph B) (u : ℕ) (start : B) (result : Option B)
      → u < length g.adj
      → ((s w : ℕ) → Has (successors g u) s → Has (successors g s) w → Has start w)
      → Spreads g (Beyond g u) start result
      → Reduces g u (elim result [
        | none ↦ none
        | some reachable ↦ some (record g { adj = set g.adj u (andnot (successors g u) reachable) })
      ])
  reduced g u start none lt first s = s
  reduced g u start (some r) lt first s = λ v.
      let cell : contains (get_or (set g.adj u (andnot (successors g u) r)) u create) v
          ≡ (contains (successors g u) v && not (contains r v)) =
        ap (λ (b : B). contains b v) (get_or-set_self g.adj u (andnot (successors g u) r) create lt)
        ∙ contains-andnot (successors g u) r v in
      let marked =
        λ (b : Beyond g u v). beyond_marked g r b.0 v (λ w h. s.1 w (first b.0 w b.1 h)) s.2 b.2 in
      (
        λ h. (ground (arith, cell, h), λ b. ground (arith, cell, h, marked b)),
        λ h. elim (Bool-cases (contains r v)) [
          | inl e ↦ absurd (h.1 (s.0 v e))
          | inr e ↦ ground (arith, cell, h.0, e)
        ],
      )

  -- For a vertex `u` with two or more successors, in a graph whose edges end below `n`, as much
  -- fuel as there are vertices is enough: the round of `u` returns, and `u` keeps exactly the
  -- edges to the vertices that it does not also reach by two or more edges.
  pub reduce_vertex-Reduces :
      (fuel : ℕ) (g : AttrGraph B) (u : ℕ)
      → ((x w : ℕ) → Has (successors g x) w → w < g.n)
      → u < length g.adj
      → 1 < cardinality (successors g u)
      → g.n ≤ fuel
      → Reduces g u (reduce_vertex fuel g u)
  unfolding reduce_vertex
  reduce_vertex-Reduces fuel g u small lt many enough =
      let several : leb (cardinality (successors g u)) 1 ≡ false = ground arith in
      let succs = to_list (successors g u) in
      let start = from_successors g succs create [] in
      let e = from_successors-Enqueued g succs create [] in
      let found = λ (w : ℕ) (h : elem w (all_successors g succs) ≡ true).
        two_edges g u w ((all_successors_iff g succs w).0 h) in
      rw (several, reduce_vertex)
        (reduced g u start.0 (spread fuel g start.0 start.1) lt
          (λ s w hs hw.
            e.offered w
              ((all_successors_iff g succs w).1 (s, elem-to_list (successors g u) s ∙ hs, hw)))
          (spread-Spreads fuel g (Beyond g u) start.0 start.1
            (λ x w b hw. (b.0, b.1, then_edge b.0 x w b.2 hw)) (λ x b. end_small g small b.0 x b.2)
            (λ x h. elim (e.origin x h) [
              | inl old ↦ absurd (ground (arith, old, contains-create x))
              | inr new ↦ found x new
            ])
            (λ x h. elim (e.queue_origin x h) [
              | inl old ↦ absurd (ground arith)
              | inr new ↦ found x new
            ])
            (λ x h. elim (e.new_queued x h) [
              | inl old ↦ absurd (ground (arith, old, contains-create x))
              | inr new ↦ inl new
            ])
            (omega (arith, e.spent, enough))))
    where
      two_edges :
          (g : AttrGraph B) (u w : ℕ)
          → ((s : ℕ) × (elem s (to_list (successors g u)) ≡ true) × Has (successors g s) w)
          → Beyond g u w
      two_edges g u w h = (h.0, sym (elem-to_list (successors g u) h.0) ∙ h.1, edge h.0 w h.2)

      end_small :
          (g : AttrGraph B)
          → ((x w : ℕ) → Has (successors g x) w → w < g.n)
          → (s x : ℕ) → Reaches g s x
          → x < g.n
      end_small g small s x (edge _ _ h) = small s x h
      end_small g small s x (then_edge _ v _ path h) = small v x h
