-- ===== src/AddExtent/Dominance.antt =====
-- algo/addextent.c, the dominance loop: the list of new children has no two comparable extents, and
-- what is left out lies within what is kept.
use fca4j_project.Base.{
  ℕ, zero, suc, ◌-◌, ◌≤◌, ◌<◌, ◌≡◌, ◌⊎◌, sym, ap, ◌∙◌, Bool, true, false, List, [], ◌∷◌, ◌++◌,
  length, get_or, if◌then◌else◌, ◌==◌, elem, arith, length-append, get_or-append_left,
  get_or-append_last, Bool-cases, inl, inr, ==_iff, ==_refl,
}
use mathlib.Core.Path.{subst}
use fca4j_project.Roaring.{Roaring}
use fca4j_project.Roaring.Sets.{Subset}
use fca4j_project.ConceptOrder.{ConceptOrder}
use fca4j_project.AddExtent.{swap_remove, dominance, offer_child, extent_of}
use fca4j_project.AddExtent.SwapRemove.{
  length-swap_remove, get_or-swap_remove, elem-position, elem-get_or,
}

module _ {B : Type 0} ⦃R : Roaring B⦄ where
  open R use {contains, is_subset, is_subset_iff}

  -- A set lies within the extent of an element of the list.
  abbrev pub Covered : ConceptOrder B → List ℕ → B → Type 0
  Covered co l s = (i : ℕ) × (i < length l) × Subset s (extent_of co (get_or l i 0))

  -- No extent of the list lies within another.
  abbrev pub IsApart : ConceptOrder B → List ℕ → Type 0
  IsApart co l =
      (i j : ℕ)
      → i < length l
      → j < length l
      → is_subset (extent_of co (get_or l i 0)) (extent_of co (get_or l j 0)) ≡ true
      → i ≡ j

  pub Covered-elem :
      (co : ConceptOrder B) (l : List ℕ) (s : B)
      → Covered co l s
      → (d : ℕ) × (elem d l ≡ true) × Subset s (extent_of co d)
  Covered-elem co l s (i, hi, sub) = (get_or l i 0, elem-get_or l i hi, sub)

  pub IsApart-elem :
      (co : ConceptOrder B) (l : List ℕ) (c d : ℕ)
      → IsApart co l
      → elem c l ≡ true
      → elem d l ≡ true
      → Subset (extent_of co c) (extent_of co d)
      → c ≡ d
  IsApart-elem co l c d apart mc md sub =
      let (i, hi, ei) = elem-position l c mc in
      let (j, hj, ej) = elem-position l d md in
      let same : i ≡ j =
        apart i j hi hj (rw (ei, ej) ((is_subset_iff (extent_of co c) (extent_of co d)).1 sub)) in
      sym ei ∙ ap (λ t. get_or l t 0) same ∙ ej

  module _ (co : ConceptOrder B) (candidate : ℕ) where
    -- Neither extent lies within the other.
    abbrev IsFree : ℕ → Type 0
    IsFree c =
        (is_subset (extent_of co candidate) (extent_of co c) ≡ false)
        × (is_subset (extent_of co c) (extent_of co candidate) ≡ false)

    -- What the loop promises of the list and of `addChild`.
    record Filters (l : List ℕ) (kept : List ℕ) (add_child : Bool) : Type 0 where
      apart : IsApart co l → IsApart co kept
      covers : (s : B) → Covered co l s → Covered co kept s ⊎ Subset s (extent_of co candidate)
      free : add_child ≡ true → (i : ℕ) → i < length kept → IsFree (get_or kept i 0)
      dominated : add_child ≡ false → Covered co kept (extent_of co candidate)

    swap_remove-IsApart :
        (l : List ℕ) (j : ℕ) → j < length l → IsApart co l → IsApart co (swap_remove l j)
    swap_remove-IsApart l j h apart p q hp hq sub =
        let shorter = length-swap_remove l j h in
        let at_p = get_or-swap_remove l j p h (omega (arith, shorter)) in
        let at_q = get_or-swap_remove l j q h (omega (arith, shorter)) in
        let p' = if p == j then length l - 1 else p in
        let q' = if q == j then length l - 1 else q in
        let same : p' ≡ q' =
          apart p' q' (ground (arith, h, hp, shorter)) (ground (arith, h, hq, shorter)) (
            subst (λ t. is_subset (extent_of co t) (extent_of co (get_or l q' 0)) ≡ true) at_p
              (subst
                (λ t.
                  is_subset (extent_of co (get_or (swap_remove l j) p 0)) (extent_of co t) ≡ true)
                at_q sub)) in
        ground (arith, same, hp, hq, shorter)

    -- Only the element removed may lose its cover.
    swap_remove-Covered :
        (l : List ℕ) (j : ℕ) (s : B)
        → j < length l
        → Covered co l s
        → Covered co (swap_remove l j) s ⊎ Subset s (extent_of co (get_or l j 0))
    swap_remove-Covered l j s h (i, hi, sub) =
        let shorter = length-swap_remove l j h in
        elim (Bool-cases (i == j)) [
          | inl removed ↦
              inr (subst (λ t. Subset s (extent_of co (get_or l t 0))) ((==_iff i j).0 removed) sub)
          | inr stays ↦ elim (Bool-cases (i == length l - 1)) [
            | inl last ↦
                let e : i ≡ length l - 1 = (==_iff i (length l - 1)).0 last in
                let at_j = get_or-swap_remove l j j h (ground (arith, h, stays, e)) in
                inl (
                  j,
                  ground (arith, shorter, h, stays, e),
                  subst (λ t. Subset s (extent_of co t))
                      (ap (λ t. get_or l t 0) (ground (arith, e, ==_refl j)) ∙ sym at_j) sub,
                )
            | inr inner ↦
                let below : i < length l - 1 = ground (arith, hi, inner) in
                let at_i = get_or-swap_remove l j i h below in
                inl (
                  i,
                  omega (arith, shorter, below),
                  subst (λ t. Subset s (extent_of co t))
                      (ap (λ t. get_or l t 0) (ground (arith, stays)) ∙ sym at_i) sub,
                )
          ]
        ]

    dominance-Filters :
        (j : ℕ) (l : List ℕ)
        → j ≤ length l
        → ((i : ℕ) → j ≤ i → i < length l → IsFree (get_or l i 0))
        → Filters l (dominance co candidate j l).0 (dominance co candidate j l).1
    unfolding dominance
    dominance-Filters zero l h checked = record {
      apart = λ apart. apart;
      covers = λ s c. inl c;
      free = λ e i hi. checked i (omega arith) hi;
      dominated = λ e. absurd (ground (arith, e));
    }
    dominance-Filters (suc j) l h checked =
        let at_j = get_or l j 0 in
        elim (Bool-cases (is_subset (extent_of co candidate) (extent_of co at_j))) [
          | inl below ↦
              rw (below, dominance)
                (record {
                  apart = λ apart. apart;
                  covers = λ s c. inl c;
                  free = λ e i hi. absurd (ground (arith, e));
                  dominated = λ e. (
                    j,
                    omega arith,
                    (is_subset_iff (extent_of co candidate) (extent_of co at_j)).0 below,
                  );
                })
          | inr misses ↦
              elim (Bool-cases (is_subset (extent_of co at_j) (extent_of co candidate))) [
                | inl above ↦
                    let removed = swap_remove l j in
                    let shorter = length-swap_remove l j (omega arith) in
                    let rest = dominance-Filters j removed (omega (arith, shorter)) (λ i hj hi.
                      subst IsFree
                        (sym (get_or-swap_remove l j i (omega arith) (omega (arith, shorter))))
                        (checked (if i == j then length l - 1 else i)
                          (ground (arith, hj, hi, shorter)) (ground (arith, hj, hi, shorter)))) in
                    let inside =
                      (is_subset_iff (extent_of co at_j) (extent_of co candidate)).0 above in
                    rw (misses, above, dominance)
                      (record {
                        apart = λ apart. rest.apart (swap_remove-IsApart l j (omega arith) apart);
                        covers = λ s c. elim (swap_remove-Covered l j s (omega arith) c) [
                          | inl still ↦ rest.covers s still
                          | inr lost ↦ inr (λ x hx. inside x (lost x hx))
                        ];
                        free = rest.free;
                        dominated = rest.dominated;
                      })
                | inr apart ↦
                    rw (misses, apart, dominance)
                      (dominance-Filters j l (omega arith) (λ i hj hi. elim (Bool-cases (i == j)) [
                        | inl same ↦
                            subst (λ t. IsFree (get_or l t 0)) (sym ((==_iff i j).0 same))
                              (misses, apart)
                        | inr other ↦ checked i (ground (arith, hj, other)) hi
                      ]))
              ]
        ]

    get_or-snoc :
        (kept : List ℕ) (i : ℕ)
        → i < suc (length kept)
        → get_or (kept ++ candidate ∷ []) i 0
          ≡ (if i == length kept then candidate else get_or kept i 0)
    get_or-snoc kept i h = elim (Bool-cases (i == length kept)) [
      | inl last ↦ rw last (
          ap (λ t. get_or (kept ++ candidate ∷ []) t 0) ((==_iff i (length kept)).0 last)
          ∙ get_or-append_last kept candidate 0)
      | inr inner ↦
          rw inner (get_or-append_left kept (candidate ∷ []) i 0 (ground (arith, h, inner)))
    ]

    snoc-IsApart :
        (kept : List ℕ)
        → IsApart co kept
        → ((i : ℕ) → i < length kept → IsFree (get_or kept i 0))
        → IsApart co (kept ++ candidate ∷ [])
    snoc-IsApart kept apart free i j hi hj sub =
        let n = length-append kept (candidate ∷ []) in
        let at_i = get_or-snoc kept i (omega (arith, hi, n)) in
        let at_j = get_or-snoc kept j (omega (arith, hj, n)) in
        let moved : is_subset
              (extent_of co (if i == length kept then candidate else get_or kept i 0))
              (extent_of co (if j == length kept then candidate else get_or kept j 0))
            ≡ true =
          subst
            (λ t.
              is_subset (extent_of co t)
                (extent_of co (if j == length kept then candidate else get_or kept j 0))
              ≡ true)
            at_i
            (subst
              (λ t.
                is_subset (extent_of co (get_or (kept ++ candidate ∷ []) i 0)) (extent_of co t)
                ≡ true)
              at_j sub) in
        elim (Bool-cases (i == length kept)) [
          | inl ei ↦ elim (Bool-cases (j == length kept)) [
            | inl ej ↦ ground (arith, ei, ej)
            | inr lj ↦
                let below : j < length kept = ground (arith, hj, n, lj) in
                absurd (ground (arith, free j below, simp (ei, lj) at moved))
          ]
          | inr li ↦ elim (Bool-cases (j == length kept)) [
            | inl ej ↦
                let below : i < length kept = ground (arith, hi, n, li) in
                absurd (ground (arith, free i below, simp (li, ej) at moved))
            | inr lj ↦
                apart i j (ground (arith, hi, n, li)) (ground (arith, hj, n, lj))
                  (simp (li, lj) at moved)
          ]
        ]

    -- The list after one candidate: still apart, nothing loses its cover, the candidate has one.
    pub offer_child-IsApart : (l : List ℕ) → IsApart co l → IsApart co (offer_child co candidate l)
    unfolding offer_child
    offer_child-IsApart l apart =
        let f = dominance-Filters (length l) l (omega arith) (λ i hj hi. absurd (omega arith)) in
        elim (Bool-cases (dominance co candidate (length l) l).1) [
          | inl joins ↦ rw joins (snoc-IsApart _ (f.apart apart) (f.free joins))
          | inr out ↦ rw out (f.apart apart)
        ]

    snoc-Covered :
        (kept : List ℕ) (s : B)
        → Covered co kept s ⊎ Subset s (extent_of co candidate)
        → Covered co (kept ++ candidate ∷ []) s
    snoc-Covered kept s (inl (i, hi, sub)) = (
      i,
      omega (arith, hi, length-append kept (candidate ∷ [])),
      subst (λ t. Subset s (extent_of co t)) (sym (get_or-append_left kept (candidate ∷ []) i 0 hi))
          sub,
    )
    snoc-Covered kept s (inr sub) = (
      length kept,
      omega (arith, length-append kept (candidate ∷ [])),
      subst (λ t. Subset s (extent_of co t)) (sym (get_or-append_last kept candidate 0)) sub,
    )

    pub offer_child-Covered :
        (l : List ℕ) (s : B)
        → Covered co l s ⊎ Subset s (extent_of co candidate)
        → Covered co (offer_child co candidate l) s
    unfolding offer_child
    offer_child-Covered l s c =
        let f = dominance-Filters (length l) l (omega arith) (λ i hj hi. absurd (omega arith)) in
        let kept = (dominance co candidate (length l) l).0 in
        let filtered : Covered co kept s ⊎ Subset s (extent_of co candidate) = elim c [
          | inl before ↦ f.covers s before
          | inr fits ↦ inr fits
        ] in
        elim (Bool-cases (dominance co candidate (length l) l).1) [
          | inl joins ↦ rw joins (snoc-Covered kept s filtered)
          | inr out ↦ rw out (elim filtered [
            | inl still ↦ still
            | inr fits ↦ let (i, hi, sub) = f.dominated out in (i, hi, λ x hx. sub x (fits x hx))
          ])
        ]
