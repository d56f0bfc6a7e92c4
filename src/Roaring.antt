-- ===== src/Roaring.antt =====
-- The interface of CRoaring (croaring/roaring.h), a third-party library that the code only calls.
-- A type `B` of bitmaps with its operations, and what its documentation says of them, read
-- through the membership test. An operation "in place" is the function that gives the new value;
-- a bitmap is the set of the indices that it holds, and every index the code stores is a
-- non-negative `int`, which the cast to `uint32_t` leaves as it is. `to_list` is what an iterator
-- visits, and what `roaring_bitmap_to_uint32_array` writes.
pub mod Sets
pub mod Model
pub mod Cardinal
use fca4j_project.Base.{
  ℕ, ◌-◌, ◌^◌, ◌≤◌, ◌≡◌, ◌↔◌, Bool, true, false, not, ◌&&◌, ◌||◌, List, [], ◌∷◌, length, elem, ltb,
  leb, ◌==◌, Ascending,
}

pub record Roaring (B : Type 0) : Type 0 where
  pub create : B
  pub contains : B → ℕ → Bool
  pub add : B → ℕ → B
  pub remove : B → ℕ → B
  -- `[lo, hi)`
  pub add_range : B → ℕ → ℕ → B
  pub and : B → B → B
  pub or : B → B → B
  pub andnot : B → B → B
  pub is_subset : B → B → Bool
  pub equals : B → B → Bool
  pub is_empty : B → Bool
  pub to_list : B → List ℕ
  pub cardinality : B → ℕ
  pub minimum : B → ℕ
  pub maximum : B → ℕ
  pub add_many : B → List ℕ → B
  pub contains-create : (x : ℕ) → contains create x ≡ false
  pub contains-add : (b : B) (x y : ℕ) → contains (add b x) y ≡ (y == x || contains b y)
  pub contains-remove : (b : B) (x y : ℕ) → contains (remove b x) y ≡ (not (y == x) && contains b y)
  pub contains-add_range :
      (b : B) (lo hi y : ℕ)
      → contains (add_range b lo hi) y ≡ ((leb lo y && ltb y hi) || contains b y)
  pub contains-and : (a b : B) (y : ℕ) → contains (and a b) y ≡ (contains a y && contains b y)
  pub contains-or : (a b : B) (y : ℕ) → contains (or a b) y ≡ (contains a y || contains b y)
  pub contains-andnot :
      (a b : B) (y : ℕ) → contains (andnot a b) y ≡ (contains a y && not (contains b y))
  pub is_subset_iff :
      (a b : B) → (is_subset a b ≡ true) ↔ ((y : ℕ) → contains a y ≡ true → contains b y ≡ true)
  pub equals_iff : (a b : B) → (equals a b ≡ true) ↔ ((y : ℕ) → contains a y ≡ contains b y)
  pub is_empty_iff : (a : B) → (is_empty a ≡ true) ↔ (to_list a ≡ [])
  pub elem-to_list : (a : B) (y : ℕ) → elem y (to_list a) ≡ contains a y
  pub to_list-Ascending : (a : B) → Ascending (to_list a)
  pub cardinality_lem : (a : B) → cardinality a ≡ length (to_list a)
  pub minimum-cons : (a : B) (x : ℕ) (xs : List ℕ) → to_list a ≡ x ∷ xs → minimum a ≡ x
  -- the minimum of the empty set is UINT32_MAX
  pub minimum-nil : (a : B) → to_list a ≡ [] → minimum a ≡ 2 ^ 32 - 1
  pub maximum-le : (a : B) (y : ℕ) → contains a y ≡ true → y ≤ maximum a
  pub contains-add_many :
      (a : B) (xs : List ℕ) (y : ℕ) → contains (add_many a xs) y ≡ (elem y xs || contains a y)
