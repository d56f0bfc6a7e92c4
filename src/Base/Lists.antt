-- ===== src/Base/Lists.antt =====
-- Lists under native indices, and membership as a test.
use Prim.Native.Nat.{ℕ, zero, suc, ◌+◌, ◌<◌, ◌≤◌}
use mathlib.Core.Path.{◌≡◌, refl, ap}
use mathlib.Core.Logic.{◌≢◌, ◌⊎◌, inl, inr}
use mathlib.Core.Bool.{Bool, true, false, ◌||◌}
use mathlib.Core.List.{List, [], ◌∷◌, ◌++◌, map}
use native.Mathlib.Omega.{arith}
use fca4j_project.Base.Tests.{◌==◌, Bool-cases, ==_iff}

module _ {ℓ} {A : Type ℓ} where
  abbrev pub length : List A → ℕ
  length [] = 0
  length (x ∷ xs) = suc (length xs)

  abbrev pub get_or : List A → ℕ → A → A
  get_or [] i d = d
  get_or (x ∷ xs) zero d = x
  get_or (x ∷ xs) (suc i) d = get_or xs i d

  -- A write out of bounds changes nothing.
  abbrev pub set : List A → ℕ → A → List A
  set [] i v = []
  set (x ∷ xs) zero v = v ∷ xs
  set (x ∷ xs) (suc i) v = x ∷ set xs i v

  abbrev pub replicate : ℕ → A → List A
  replicate zero a = []
  replicate (suc n) a = a ∷ replicate n a

  abbrev pub take : ℕ → List A → List A
  take zero xs = []
  take (suc n) [] = []
  take (suc n) (x ∷ xs) = x ∷ take n xs

  pub length-append : (xs ys : List A) → length (xs ++ ys) ≡ length xs + length ys
  length-append [] ys = omega arith
  length-append (x ∷ xs) ys = omega (arith, length-append xs ys)

  pub length-set : (xs : List A) (i : ℕ) (v : A) → length (set xs i v) ≡ length xs
  length-set [] i v = refl
  length-set (x ∷ xs) zero v = refl
  length-set (x ∷ xs) (suc i) v = ap suc (length-set xs i v)

  pub length-replicate : (n : ℕ) (a : A) → length (replicate n a) ≡ n
  length-replicate zero a = refl
  length-replicate (suc n) a = ap suc (length-replicate n a)

  pub get_or-set_self :
      (xs : List A) (i : ℕ) (v d : A) → i < length xs → get_or (set xs i v) i d ≡ v
  get_or-set_self [] i v d h = absurd (omega arith)
  get_or-set_self (x ∷ xs) zero v d h = refl
  get_or-set_self (x ∷ xs) (suc i) v d h = get_or-set_self xs i v d (omega arith)

  pub get_or-set_ne :
      (xs : List A) (i j : ℕ) (v d : A) → i ≢ j → get_or (set xs i v) j d ≡ get_or xs j d
  get_or-set_ne [] i j v d ne = refl
  get_or-set_ne (x ∷ xs) zero zero v d ne = absurd (ne refl)
  get_or-set_ne (x ∷ xs) zero (suc j) v d ne = refl
  get_or-set_ne (x ∷ xs) (suc i) zero v d ne = refl
  get_or-set_ne (x ∷ xs) (suc i) (suc j) v d ne = get_or-set_ne xs i j v d (λ e. ne (ap suc e))

  pub get_or-replicate : (n i : ℕ) (a : A) → get_or (replicate n a) i a ≡ a
  get_or-replicate zero i a = refl
  get_or-replicate (suc n) zero a = refl
  get_or-replicate (suc n) (suc i) a = get_or-replicate n i a

  pub get_or-out : (xs : List A) (i : ℕ) (d : A) → length xs ≤ i → get_or xs i d ≡ d
  get_or-out [] i d h = refl
  get_or-out (x ∷ xs) zero d h = absurd (omega arith)
  get_or-out (x ∷ xs) (suc i) d h = get_or-out xs i d (omega arith)

  pub get_or-append_left :
      (xs ys : List A) (i : ℕ) (d : A) → i < length xs → get_or (xs ++ ys) i d ≡ get_or xs i d
  get_or-append_left [] ys i d h = absurd (omega arith)
  get_or-append_left (x ∷ xs) ys zero d h = refl
  get_or-append_left (x ∷ xs) ys (suc i) d h = get_or-append_left xs ys i d (omega arith)

  pub get_or-append_last : (xs : List A) (a d : A) → get_or (xs ++ a ∷ []) (length xs) d ≡ a
  get_or-append_last [] a d = refl
  get_or-append_last (x ∷ xs) a d = get_or-append_last xs a d

  pub List-cases : (xs : List A) → (xs ≡ []) ⊎ ((x : A) × (rest : List A) × (xs ≡ x ∷ rest))
  List-cases [] = inl refl
  List-cases (x ∷ xs) = inr (x, xs, refl)

pub length-map {ℓ κ} :
    {A : Type ℓ} {B : Type κ} (f : A → B) (xs : List A) → length (map f xs) ≡ length xs
length-map f [] = refl
length-map f (x ∷ xs) = ap suc (length-map f xs)

abbrev pub elem : ℕ → List ℕ → Bool
elem x [] = false
elem x (y ∷ ys) = x == y || elem x ys

-- Strictly ascending, all above the bound.
abbrev pub Above : ℕ → List ℕ → Type 0
Above m [] = Unit
Above m (x ∷ xs) = (m < x) × Above x xs

abbrev pub Ascending : List ℕ → Type 0
Ascending [] = Unit
Ascending (x ∷ xs) = Above x xs

pub elem-append : (x : ℕ) (xs ys : List ℕ) → elem x (xs ++ ys) ≡ elem x xs || elem x ys
elem-append x [] ys = refl
elem-append x (y ∷ xs) ys = ground (arith, elem-append x xs ys)

pub elem-cons_cases :
    (u w : ℕ) (ws : List ℕ) → elem u (w ∷ ws) ≡ true → (u ≡ w) ⊎ (elem u ws ≡ true)
elem-cons_cases u w ws h = elim (Bool-cases (u == w)) [
  | inl e ↦ inl ((==_iff u w).0 e)
  | inr e ↦ inr (ground arith)
]

pub elem-append_cases :
    (u : ℕ) (xs ys : List ℕ) → elem u (xs ++ ys) ≡ true → (elem u xs ≡ true) ⊎ (elem u ys ≡ true)
elem-append_cases u xs ys h = elim (Bool-cases (elem u xs)) [
  | inl e ↦ inl e
  | inr e ↦ inr (ground (arith, elem-append u xs ys))
]

pub elem-Above : (m x : ℕ) (xs : List ℕ) → Above m xs → elem x xs ≡ true → m < x
elem-Above m x [] h e = absurd (ground arith)
elem-Above m x (y ∷ xs) h e = ground (arith, elem-Above y x xs)

-- A list below `n`, followed by an ascending list from `n` on, is ascending.
abbrev pub AllBelow : ℕ → List ℕ → Type 0
AllBelow n [] = Unit
AllBelow n (x ∷ xs) = (x < n) × AllBelow n xs

abbrev pub AllFrom : ℕ → List ℕ → Type 0
AllFrom n [] = Unit
AllFrom n (x ∷ xs) = (n ≤ x) × AllFrom n xs

pub AllBelow-append :
    (n : ℕ) (xs ys : List ℕ) → AllBelow n xs → AllBelow n ys → AllBelow n (xs ++ ys)
AllBelow-append n [] ys p q = q
AllBelow-append n (x ∷ xs) ys p q = (p.0, AllBelow-append n xs ys p.1 q)

pub AllBelow-mono : (n m : ℕ) (xs : List ℕ) → n ≤ m → AllBelow n xs → AllBelow m xs
AllBelow-mono n m [] h p = tt
AllBelow-mono n m (x ∷ xs) h p = (omega arith, AllBelow-mono n m xs h p.1)

Above-append :
    (m n : ℕ) (xs ys : List ℕ)
    → Above m xs
    → AllBelow n xs
    → m < n
    → AllFrom n ys
    → Ascending ys
    → Above m (xs ++ ys)
Above-append m n [] [] a b h f c = tt
Above-append m n [] (y ∷ ys) a b h f c = (omega arith, c)
Above-append m n (x ∷ xs) ys a b h f c = (a.0, Above-append x n xs ys a.1 b.1 b.0 f c)

pub Ascending-append :
    (n : ℕ) (xs ys : List ℕ)
    → Ascending xs
    → AllBelow n xs
    → AllFrom n ys
    → Ascending ys
    → Ascending (xs ++ ys)
Ascending-append n [] ys a b f c = c
Ascending-append n (x ∷ xs) ys a b f c = Above-append x n xs ys a b.1 b.0 f c
