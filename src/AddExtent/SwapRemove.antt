-- ===== src/AddExtent/SwapRemove.antt =====
-- algo/addextent.c: the list after `data[j] = data[len - 1]; len--`, and places in a list.
use fca4j_project.Base.{
  ℕ, zero, suc, ◌-◌, ◌≤◌, ◌<◌, ◌≡◌, refl, sym, ap, ◌∙◌, true, List, [], ◌∷◌, length, get_or, set,
  take, if◌then◌else◌, ◌==◌, elem, arith, length-set, get_or-set_self, get_or-set_ne, Bool-cases,
  inl, inr, ==_iff, ==_refl,
}
use fca4j_project.AddExtent.{swap_remove}

get_or-take : (n : ℕ) (xs : List ℕ) (i : ℕ) → i < n → get_or (take n xs) i 0 ≡ get_or xs i 0
get_or-take zero xs i h = absurd (omega arith)
get_or-take (suc n) [] i h = refl
get_or-take (suc n) (x ∷ xs) zero h = refl
get_or-take (suc n) (x ∷ xs) (suc i) h = get_or-take n xs i (omega arith)

length-take : (n : ℕ) (xs : List ℕ) → n ≤ length xs → length (take n xs) ≡ n
length-take zero xs h = refl
length-take (suc n) [] h = absurd (omega arith)
length-take (suc n) (x ∷ xs) h = omega (arith, length-take n xs (omega arith))

pub length-swap_remove :
    (l : List ℕ) (j : ℕ) → j < length l → length (swap_remove l j) ≡ length l - 1
unfolding swap_remove
length-swap_remove l j h =
    let last = get_or l (length l - 1) 0 in
    length-take (length l - 1) (set l j last) (omega (arith, length-set l j last))

-- The last element takes the place of the one removed.
pub get_or-swap_remove :
    (l : List ℕ) (j i : ℕ)
    → j < length l
    → i < length l - 1
    → get_or (swap_remove l j) i 0 ≡ get_or l (if i == j then length l - 1 else i) 0
unfolding swap_remove
get_or-swap_remove l j i hj hi =
    let last = get_or l (length l - 1) 0 in
    get_or-take (length l - 1) (set l j last) i hi ∙ elim (Bool-cases (i == j)) [
      | inl same ↦ rw same (
          ap (λ t. get_or (set l j last) t 0) ((==_iff i j).0 same) ∙ get_or-set_self l j last 0 hj)
      | inr other ↦ rw other (get_or-set_ne l j i last 0 (λ e. ground (arith, e, other)))
    ]

pub elem-position :
    (l : List ℕ) (c : ℕ) → elem c l ≡ true → (i : ℕ) × (i < length l) × (get_or l i 0 ≡ c)
elem-position [] c m = absurd (ground (arith, m))
elem-position (x ∷ l) c m = elim (Bool-cases (c == x)) [
  | inl same ↦ (0, omega arith, sym ((==_iff c x).0 same))
  | inr other ↦
      let (i, hi, e) = elem-position l c (ground (arith, m, other)) in (suc i, omega arith, e)
]

pub elem-get_or : (l : List ℕ) (i : ℕ) → i < length l → elem (get_or l i 0) l ≡ true
elem-get_or [] i h = absurd (omega arith)
elem-get_or (x ∷ l) zero h = ground (arith, ==_refl x)
elem-get_or (x ∷ l) (suc i) h = ground (arith, elem-get_or l i (omega arith))
