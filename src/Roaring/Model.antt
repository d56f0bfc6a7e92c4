-- ===== src/Roaring/Model.antt =====
-- A concrete set of indices that satisfies the interface: a list without order, sorted on
-- iteration. It shows that the assumptions can be met, and runs the tests.
use fca4j_project.Base.{
  ℕ, zero, suc, ◌+◌, ◌-◌, ◌^◌, ◌<◌, ◌≤◌, ◌≡◌, refl, ◌↔◌, ◌∙◌, Bool, true, false, not, ◌&&◌, ◌||◌,
  List, [], ◌∷◌, length, elem, ltb, leb, ◌==◌, Ascending, Above, if◌then◌else◌, arith, ==_refl,
  ==_iff, Bool-cases, inl, inr, Bool-ext, ap, sym, ◌++◌, elem-append,
}
use mathlib.Core.Path.{subst}
use fca4j_project.Roaring.{Roaring}

abbrev pub keep_if : (ℕ → Bool) → List ℕ → List ℕ
keep_if p [] = []
keep_if p (x ∷ xs) = if p x then x ∷ keep_if p xs else keep_if p xs

abbrev pub all_in : List ℕ → List ℕ → Bool
all_in [] ys = true
all_in (x ∷ xs) ys = elem x ys && all_in xs ys

abbrev pub range_from : ℕ → ℕ → List ℕ
range_from lo zero = []
range_from lo (suc k) = lo ∷ range_from (lo + 1) k

abbrev pub insert_sorted : ℕ → List ℕ → List ℕ
insert_sorted x [] = x ∷ []
insert_sorted x (y ∷ ys) =
    if ltb x y then x ∷ y ∷ ys else if x == y then y ∷ ys else y ∷ insert_sorted x ys

abbrev pub sorted : List ℕ → List ℕ
sorted [] = []
sorted (x ∷ xs) = insert_sorted x (sorted xs)

abbrev pub first : List ℕ → ℕ
first [] = 2 ^ 32 - 1
first (x ∷ xs) = x

abbrev pub is_nil : List ℕ → Bool
is_nil [] = true
is_nil (_ ∷ _) = false

pub elem-keep_if : (p : ℕ → Bool) (xs : List ℕ) (y : ℕ) → elem y (keep_if p xs) ≡ (p y && elem y xs)
elem-keep_if p [] y = ground arith
elem-keep_if p (x ∷ xs) y = elim (Bool-cases (y == x)) [
  | inl e ↦
      let e' : y ≡ x = (==_iff y x).0 e in
      subst (λ z. elem y (keep_if p (z ∷ xs)) ≡ (p y && elem y (z ∷ xs))) e'
        (ground (arith, elem-keep_if p xs y, ==_refl y))
  | inr e ↦ ground (arith, elem-keep_if p xs y)
]

pub all_in_iff :
    (xs ys : List ℕ) → (all_in xs ys ≡ true) ↔ ((y : ℕ) → elem y xs ≡ true → elem y ys ≡ true)
all_in_iff [] ys = (λ _ y e. absurd (ground arith), λ _. refl)
all_in_iff (x ∷ xs) ys = (
  λ h y e. elim (Bool-cases (y == x)) [
    | inl s ↦ subst (λ z. elem z ys ≡ true) (sym ((==_iff y x).0 s)) (ground arith)
    | inr o ↦ (all_in_iff xs ys).0 (ground arith) y (ground arith)
  ],
  λ h.
      ground
        (arith, h x (ground (arith, ==_refl x)), (all_in_iff xs ys).1 (λ y e. h y (ground arith))),
)

elem-range_from : (lo k y : ℕ) → elem y (range_from lo k) ≡ (leb lo y && ltb y (lo + k))
elem-range_from lo zero y = ground arith
elem-range_from lo (suc k) y = ground (arith, elem-range_from (lo + 1) k y)

elem-insert_sorted :
    (x : ℕ) (ys : List ℕ) (y : ℕ) → elem y (insert_sorted x ys) ≡ (y == x || elem y ys)
elem-insert_sorted x [] y = refl
elem-insert_sorted x (z ∷ ys) y = ground (arith, elem-insert_sorted x ys y)

pub elem-sorted : (xs : List ℕ) (y : ℕ) → elem y (sorted xs) ≡ elem y xs
elem-sorted [] y = refl
elem-sorted (x ∷ xs) y = ground (arith, elem-insert_sorted x (sorted xs) y, elem-sorted xs y)

Above-insert_sorted : (m x : ℕ) (ys : List ℕ) → m < x → Above m ys → Above m (insert_sorted x ys)
Above-insert_sorted m x [] h a = omega arith
Above-insert_sorted m x (y ∷ ys) h a = ground (arith, Above-insert_sorted y x ys)

Ascending-insert_sorted : (x : ℕ) (ys : List ℕ) → Ascending ys → Ascending (insert_sorted x ys)
Ascending-insert_sorted x [] a = tt
Ascending-insert_sorted x (y ∷ ys) a = ground (arith, Above-insert_sorted y x ys)

pub Ascending-sorted : (xs : List ℕ) → Ascending (sorted xs)
Ascending-sorted [] = tt
Ascending-sorted (x ∷ xs) = Ascending-insert_sorted x (sorted xs) (Ascending-sorted xs)

pub is_nil_iff : (xs : List ℕ) → (is_nil (sorted xs) ≡ true) ↔ (sorted xs ≡ [])
is_nil_iff xs = ground arith

pub equal_iff : (a b : List ℕ) → (all_in a b && all_in b a ≡ true) ↔ ((y : ℕ) → elem y a ≡ elem y b)
equal_iff a b = (
  λ h y.
      Bool-ext (elem y a) (elem y b) ((all_in_iff a b).0 (ground arith) y)
        ((all_in_iff b a).0 (ground arith) y),
  λ h.
      ground
        (arith, (all_in_iff a b).1 (λ y e. sym (h y) ∙ e), (all_in_iff b a).1 (λ y e. h y ∙ e)),
)

pub elem-add_range :
    (b : List ℕ) (lo hi y : ℕ)
    → elem y (range_from lo (hi - lo) ++ b) ≡ ((leb lo y && ltb y hi) || elem y b)
elem-add_range b lo hi y =
    ground (arith, elem-append y (range_from lo (hi - lo)) b, elem-range_from lo (hi - lo) y)

pub elem-or : (a b : List ℕ) (y : ℕ) → elem y (a ++ b) ≡ (elem y a || elem y b)
elem-or a b y = elem-append y a b

pub elem-andnot :
    (a b : List ℕ) (y : ℕ) → elem y (keep_if (λ z. not (elem z b)) a) ≡ (elem y a && not (elem y b))
elem-andnot a b y = ground (arith, elem-keep_if (λ z. not (elem z b)) a y)

abbrev pub largest : List ℕ → ℕ
largest [] = 0
largest (x ∷ xs) = if ltb x (largest xs) then largest xs else x

pub largest-le : (xs : List ℕ) (y : ℕ) → elem y xs ≡ true → y ≤ largest xs
largest-le [] y h = absurd (ground arith)
largest-le (x ∷ xs) y h = ground (arith, largest-le xs y)

instance abbrev pub list_roaring : Roaring (List ℕ)
list_roaring = record {
  create = [];
  contains = λ b x. elem x b;
  add = λ b x. x ∷ b;
  remove = λ b x. keep_if (λ y. not (y == x)) b;
  add_range = λ b lo hi. range_from lo (hi - lo) ++ b;
  and = λ a b. keep_if (λ y. elem y a) b;
  or = λ a b. a ++ b;
  andnot = λ a b. keep_if (λ y. not (elem y b)) a;
  is_subset = all_in;
  equals = λ a b. all_in a b && all_in b a;
  is_empty = λ a. is_nil (sorted a);
  to_list = sorted;
  cardinality = λ a. length (sorted a);
  minimum = λ a. first (sorted a);
  maximum = largest;
  add_many = λ a xs. xs ++ a;
  contains-create = λ x. refl;
  contains-add = λ b x y. refl;
  contains-remove = λ b x y. elem-keep_if (λ z. not (z == x)) b y;
  contains-add_range = elem-add_range;
  contains-and = λ a b y. elem-keep_if (λ z. elem z a) b y;
  contains-or = elem-or;
  contains-andnot = λ a b y. elem-andnot a b y;
  is_subset_iff = all_in_iff;
  equals_iff = equal_iff;
  is_empty_iff = is_nil_iff;
  elem-to_list = elem-sorted;
  to_list-Ascending = Ascending-sorted;
  cardinality_lem = λ a. refl;
  minimum-cons = λ a x xs e. ap first e;
  minimum-nil = λ a e. ap first e;
  maximum-le = largest-le;
  contains-add_many = λ a xs y. elem-append y xs a;
}
