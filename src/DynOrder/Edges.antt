-- ===== src/DynOrder/Edges.antt =====
-- core/dynorder.c: the two cover arrays mirror one another, as multisets.
use fca4j_project.Base.{
  ℕ, ◌+◌, ◌-◌, ◌<◌, ◌≤◌, ◌≡◌, refl, sym, ◌∙◌, ap, ◌||◌, ◌&&◌, List, [], ◌∷◌, ◌++◌, length, get_or,
  set, take, if◌then◌else◌, ltb, ◌==◌, elem, Bool-cases, inl, inr, arith, ==_iff, get_or-set_self,
  get_or-set_ne, length-set,
}
use fca4j_project.DynOrder.{DynOrder, at, dyn_add_edge, fill_gap, intvec_remove, dyn_remove_edge}

-- How often `v` occurs.
abbrev pub count : ℕ → List ℕ → ℕ
count v [] = 0
count v (x ∷ xs) = (if v == x then 1 else 0) + count v xs

count-append : (v : ℕ) (xs ys : List ℕ) → count v (xs ++ ys) ≡ count v xs + count v ys
count-append v [] ys = omega arith
count-append v (x ∷ xs) ys = omega (arith, count-append v xs ys)

-- A list is its last element and the rest.
count-last :
    (v x : ℕ) (xs : List ℕ)
    → count v (take (length xs) (x ∷ xs)) + (if v == get_or (x ∷ xs) (length xs) 0 then 1 else 0)
      ≡ count v (x ∷ xs)
count-last v x [] = omega arith
count-last v x (y ∷ ys) = omega (arith, count-last v y ys)

count-fill_gap : (v : ℕ) (xs : List ℕ) → count v (fill_gap xs) ≡ count v xs
unfolding fill_gap
count-fill_gap v [] = refl
count-fill_gap v (x ∷ xs) = omega (arith, count-last v x xs)

-- One occurrence goes, if there is one, and the result says so.
count-intvec_remove :
    (v val : ℕ) (xs : List ℕ)
    → (count v (intvec_remove xs val).0 ≡ (if v == val then count v xs - 1 else count v xs))
      × ((intvec_remove xs val).1 ≡ elem val xs)
unfolding intvec_remove
count-intvec_remove v val [] = (ground arith, refl)
count-intvec_remove v val (x ∷ xs) =
    let later = count-intvec_remove v val xs in
    elim (Bool-cases (x == val)) [
      | inl e ↦ rw (e, intvec_remove) (ground (arith, count-fill_gap v xs, e), ground arith)
      | inr e ↦ rw (e, intvec_remove) (ground (arith, later.0, e), ground (arith, later.1, e))
    ]

-- The arrays cover the ids given out, and `p` is above `c` as often as `c` is below `p`.
pub record IsMirrored (dyn : DynOrder) : Type 0 where
  pub upper_length : length dyn.upper ≡ dyn.cap
  pub lower_length : length dyn.lower ≡ dyn.cap
  pub room : dyn.n ≤ dyn.cap
  pub mirror : (c p : ℕ) → count p (at dyn.upper c) ≡ count c (at dyn.lower p)

-- Reading after a write within bounds.
at-set :
    (rows : List (List ℕ)) (i j : ℕ) (row : List ℕ)
    → i < length rows
    → at (set rows i row) j ≡ (if j == i then row else at rows j)
at-set rows i j row lt = elim (Bool-cases (j == i)) [
  | inl e ↦
      rw e (ap (λ k. at (set rows i row) k) ((==_iff j i).0 e) ∙ get_or-set_self rows i row [] lt)
  | inr e ↦ rw e (get_or-set_ne rows i j row [] (λ same. ground (arith, e)))
]

-- 1 at one place, 0 elsewhere.
abbrev pub only_at : ℕ → ℕ → ℕ → ℕ → ℕ
only_at i val c v = if c == i && v == val then 1 else 0

only_at_swap : (i val c v : ℕ) → only_at i val c v ≡ only_at val i v c
only_at_swap i val c v = ground arith

added :
    (rows : List (List ℕ)) (i val c v : ℕ)
    → i < length rows
    → count v (at (set rows i (at rows i ++ val ∷ [])) c) ≡ count v (at rows c) + only_at i val c v
added rows i val c v lt = elim (Bool-cases (c == i)) [
  | inl e ↦
      let same : count v (at rows c) ≡ count v (at rows i) =
        ap (λ k. count v (at rows k)) ((==_iff c i).0 e) in
      rw (at-set rows i c (at rows i ++ val ∷ []) lt, e)
        (ground (arith, same, count-append v (at rows i) (val ∷ [])))
  | inr e ↦ rw (at-set rows i c (at rows i ++ val ∷ []) lt, e) (omega arith)
]

removed :
    (rows : List (List ℕ)) (i val c v : ℕ)
    → i < length rows
    → count v (at (set rows i (intvec_remove (at rows i) val).0) c)
      ≡ count v (at rows c) - only_at i val c v
removed rows i val c v lt = elim (Bool-cases (c == i)) [
  | inl e ↦
      let same : count v (at rows c) ≡ count v (at rows i) =
        ap (λ k. count v (at rows k)) ((==_iff c i).0 e) in
      rw (at-set rows i c (intvec_remove (at rows i) val).0 lt, e)
        (ground (arith, same, (count-intvec_remove v val (at rows i)).0))
  | inr e ↦ rw (at-set rows i c (intvec_remove (at rows i) val).0 lt, e) (omega arith)
]

elem_count : (v : ℕ) (xs : List ℕ) → elem v xs ≡ ltb 0 (count v xs)
elem_count v [] = refl
elem_count v (x ∷ xs) = ground (arith, elem_count v xs)

-- Both vectors have the edge, or none has.
removed_flag :
    (up down : List (List ℕ)) (lower upper : ℕ)
    → count upper (at up lower) ≡ count lower (at down upper)
    → (intvec_remove (at up lower) upper).1 || (intvec_remove (at down upper) lower).1
      ≡ ltb 0 (count upper (at up lower))
removed_flag up down lower upper same =
    let a = (count-intvec_remove upper upper (at up lower)).1 ∙ elem_count upper (at up lower) in
    let b =
      (count-intvec_remove lower lower (at down upper)).1 ∙ elem_count lower (at down upper) in
    rw (a, b, same) (ground arith)

-- `dyn_add_edge` between two ids keeps the arrays mirrored and adds one edge, the given one.
pub dyn_add_edge-IsMirrored :
    (dyn : DynOrder) (lower upper : ℕ)
    → IsMirrored dyn
    → lower < dyn.n
    → upper < dyn.n
    → IsMirrored (dyn_add_edge dyn lower upper)
      × ((c p : ℕ)
          → count p (at (dyn_add_edge dyn lower upper).upper c)
            ≡ count p (at dyn.upper c) + only_at lower upper c p)
unfolding dyn_add_edge
dyn_add_edge-IsMirrored dyn lower upper inv lt_lower lt_upper =
    let room_upper : lower < length dyn.upper = omega (arith, inv.upper_length, inv.room) in
    let room_lower : upper < length dyn.lower = omega (arith, inv.lower_length, inv.room) in
    (
      record {
        upper_length =
            length-set dyn.upper lower (at dyn.upper lower ++ upper ∷ []) ∙ inv.upper_length;
        lower_length =
            length-set dyn.lower upper (at dyn.lower upper ++ lower ∷ []) ∙ inv.lower_length;
        room = inv.room;
        mirror = λ c p.
            added dyn.upper lower upper c p room_upper
            ∙ ap (λ k. k + only_at lower upper c p) (inv.mirror c p)
            ∙ ap (λ k. count c (at dyn.lower p) + k) (only_at_swap lower upper c p)
            ∙ sym (added dyn.lower upper lower p c room_lower);
      },
      λ c p. added dyn.upper lower upper c p room_upper,
    )

-- `dyn_remove_edge` between two ids keeps the arrays mirrored, takes away one occurrence of the
-- given edge and nothing else, and returns whether the edge was there.
pub dyn_remove_edge-IsMirrored :
    (dyn : DynOrder) (lower upper : ℕ)
    → IsMirrored dyn
    → lower < dyn.n
    → upper < dyn.n
    → IsMirrored (dyn_remove_edge dyn lower upper).0
      × ((c p : ℕ)
          → count p (at ((dyn_remove_edge dyn lower upper).0).upper c)
            ≡ count p (at dyn.upper c) - only_at lower upper c p)
      × ((dyn_remove_edge dyn lower upper).1 ≡ ltb 0 (count upper (at dyn.upper lower)))
unfolding dyn_remove_edge
dyn_remove_edge-IsMirrored dyn lower upper inv lt_lower lt_upper =
    let room_upper : lower < length dyn.upper = omega (arith, inv.upper_length, inv.room) in
    let room_lower : upper < length dyn.lower = omega (arith, inv.lower_length, inv.room) in
    let fewer_up = (intvec_remove (at dyn.upper lower) upper).0 in
    let fewer_down = (intvec_remove (at dyn.lower upper) lower).0 in
    (
      record {
        upper_length = length-set dyn.upper lower fewer_up ∙ inv.upper_length;
        lower_length = length-set dyn.lower upper fewer_down ∙ inv.lower_length;
        room = inv.room;
        mirror = λ c p.
            removed dyn.upper lower upper c p room_upper
            ∙ ap (λ k. k - only_at lower upper c p) (inv.mirror c p)
            ∙ ap (λ k. count c (at dyn.lower p) - k) (only_at_swap lower upper c p)
            ∙ sym (removed dyn.lower upper lower p c room_lower);
      },
      λ c p. removed dyn.upper lower upper c p room_upper,
      removed_flag dyn.upper dyn.lower lower upper (inv.mirror lower upper),
    )
