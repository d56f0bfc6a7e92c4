-- ===== src/BitsetRoaring/RoundTrip.antt =====
-- core/bitset_roaring.h: a bitmap survives the way to a dense set and back.
use fca4j_project.Base.{
  ℕ, zero, suc, ◌*◌, ◌/◌, ◌<◌, ◌≤◌, ◌^◌, ◌%◌, ◌≡◌, refl, sym, ◌∙◌, ap, true, false, ◌&&◌, ◌||◌,
  List, [], ◌∷◌, ◌++◌, length, set, replicate, foldl, for_to, elem, ltb, arith, length-replicate,
  get_or-replicate, ==_refl,
}
use Prim.Native.Nat.{bit_or}
use native.Mathlib.Nat.{pow-le-pow_right}
use fca4j_project.Base.Bits.{bit, bit-zero, bit_or-lt}
use fca4j_project.Roaring.{Roaring}
use fca4j_project.Roaring.Sets.{Below, SameSet}
use fca4j_project.Bitset.{word, bs_zero, bs_set, bs_test, bs_foreach, word_items}
use fca4j_project.Bitset.Words.{length-bs_set, IsWords, bs_test_lem, length-loop}
use fca4j_project.Bitset.Ops.{test-set_clear, test-to}
use fca4j_project.Bitset.Items.{bs_foreach_lem}
use fca4j_project.BitsetRoaring.{
  bs_from_roaring_into, bs_from_roaring, bs_add_to_roaring, bs_to_roaring,
}

pub set-IsWords : (a : List ℕ) (k new : ℕ) → IsWords a → new < 2 ^ 64 → IsWords (set a k new)
set-IsWords [] k new words bound j = words j
set-IsWords (x ∷ a) zero new words bound zero = bound
set-IsWords (x ∷ a) zero new words bound (suc j) = words (suc j)
set-IsWords (x ∷ a) (suc k) new words bound zero = words zero
set-IsWords (x ∷ a) (suc k) new words bound (suc j) =
    set-IsWords a k new (λ i. words (suc i)) bound j

pub bs_set-IsWords : (a : List ℕ) (i : ℕ) → IsWords a → IsWords (bs_set a i)
unfolding bs_set
bs_set-IsWords a i words j =
    let new = bit_or (word a (i / 64)) (2 ^ (i % 64)) in
    let small : 2 ^ (i % 64) ≤ 2 ^ 63 =
      pow-le-pow_right {n = 2} (omega arith) {i = i % 64} {j = 63} (omega arith) in
    let bound : new < 2 ^ 64 =
      bit_or-lt 64 (word a (i / 64)) (2 ^ (i % 64)) (words (i / 64)) (omega (arith, small)) in
    set-IsWords a (i / 64) new words bound j

-- What the bits are after the loop over the items of a bitmap.
test-set_all :
    (a xs : List ℕ) (j : ℕ)
    → ((x : ℕ) → elem x xs ≡ true → x < 64 * length a)
    → bs_test (foldl bs_set a xs) j ≡ (elem j xs || bs_test a j)
test-set_all a [] j small = refl
test-set_all a (x ∷ xs) j small =
    let here : x < 64 * length a = small x (ground (arith, ==_refl x)) in
    let rest =
      test-set_all (bs_set a x) xs j
        (λ y h. omega (arith, length-bs_set a x, small y (ground arith))) in
    let one = (test-set_clear a x j (omega arith)).0 in rw (rest, one) (ground arith)

set_all-IsWords : (a xs : List ℕ) → IsWords a → IsWords (foldl bs_set a xs)
set_all-IsWords a [] words = words
set_all-IsWords a (x ∷ xs) words = set_all-IsWords (bs_set a x) xs (bs_set-IsWords a x words)

zero-IsWords : (w : ℕ) → IsWords (replicate w 0)
zero-IsWords w i = omega (arith, get_or-replicate {A = ℕ} w i 0)

-- The buffer from calloc, zeroed again.
zeroed : ℕ → List ℕ
zeroed w = bs_zero (replicate w 0) w

length-zeroed : (w : ℕ) → length (zeroed w) ≡ w
unfolding zeroed bs_zero
length-zeroed w = length-loop (λ i x. 0) w (replicate w 0) ∙ length-replicate w 0

zeroed-IsWords : (w : ℕ) → IsWords (zeroed w)
unfolding zeroed bs_zero
zeroed-IsWords w = go w (replicate w 0) (zero-IsWords w)
  where
    go : (n : ℕ) (a : List ℕ) → IsWords a → IsWords (for_to n (λ i d. set d i 0) a)
    go zero a words = words
    go (suc n) a words =
        set-IsWords (for_to n (λ i d. set d i 0) a) n 0 (go n a words) (omega arith)

test-zeroed : (w j : ℕ) → bs_test (zeroed w) j ≡ false
unfolding zeroed
test-zeroed w j =
    let fits : w ≤ length (replicate {A = ℕ} w 0) = omega (arith, length-replicate {A = ℕ} w 0) in
    let empty : bs_test (replicate w 0) j ≡ false =
      bs_test_lem (replicate w 0) j
      ∙ ap (λ x. bit x (j % 64)) (get_or-replicate {A = ℕ} w (j / 64) 0)
      ∙ bit-zero (j % 64) in
    ground (arith, (test-to (replicate w 0) [] [] w j fits).0, empty)

module _ {B : Type 0} ⦃R : Roaring B⦄ where
  open R use {create, contains, add, to_list, contains-create, contains-add, elem-to_list}

  -- Adding the items of a list.
  contains-add_all :
      (b : B) (xs : List ℕ) (x : ℕ) → contains (foldl add b xs) x ≡ (elem x xs || contains b x)
  contains-add_all b [] x = refl
  contains-add_all b (y ∷ xs) x =
      rw (contains-add_all (add b y) xs x, contains-add b y x) (ground arith)

  foldl-append : (b : B) (xs ys : List ℕ) → foldl add b (xs ++ ys) ≡ foldl add (foldl add b xs) ys
  foldl-append b [] ys = refl
  foldl-append b (x ∷ xs) ys = foldl-append (add b x) xs ys

  -- The nested loops add the indices that BS_FOREACH visits.
  add_to_roaring-foreach :
      (a : List ℕ) (bm : B) (w : ℕ) → bs_add_to_roaring a bm w ≡ foldl add bm (bs_foreach a w)
  unfolding bs_add_to_roaring bs_foreach
  add_to_roaring-foreach a bm zero = refl
  add_to_roaring-foreach a bm (suc w) =
      ap (λ b. foldl add b (word_items 64 (w * 64) (word a w))) (add_to_roaring-foreach a bm w)
      ∙ sym (foldl-append bm (bs_foreach a w) (word_items 64 (w * 64) (word a w)))

  pub from_roaring-IsWords : (bm : B) (w : ℕ) → IsWords (bs_from_roaring bm w)
  unfolding bs_from_roaring bs_from_roaring_into zeroed
  from_roaring-IsWords bm w = set_all-IsWords (zeroed w) (to_list bm) (zeroed-IsWords w)

  pub test-from_roaring :
      (bm : B) (w : ℕ)
      → Below (64 * w) bm
      → (j : ℕ) → bs_test (bs_from_roaring bm w) j ≡ contains bm j
  unfolding bs_from_roaring bs_from_roaring_into zeroed
  test-from_roaring bm w below j =
      let len = length-zeroed w in
      let all =
        test-set_all (zeroed w) (to_list bm) j
          (λ x h. omega (arith, len, below x (sym (elem-to_list bm x) ∙ h))) in
      ground (arith, all, test-zeroed w j, elem-to_list bm j)

  to_roaring_lem :
      (bm : B) (w : ℕ)
      → Below (64 * w) bm
      → (x : ℕ)
      → elem x (bs_foreach (bs_from_roaring bm w) w)
        ≡ (ltb x (64 * w) && bs_test (bs_from_roaring bm w) x)
      → bs_test (bs_from_roaring bm w) x ≡ contains bm x
      → contains (bs_to_roaring (bs_from_roaring bm w) w) x ≡ contains bm x
  unfolding bs_to_roaring
  to_roaring_lem bm w below x items bits =
      rw
        (
          add_to_roaring-foreach (bs_from_roaring bm w) create w,
          contains-add_all create (bs_foreach (bs_from_roaring bm w) w) x,
        )
        (ground (arith, items, bits, contains-create x, below x))

  -- A bitmap whose elements fit in `w` words, converted to a dense set and back, is the same set;
  -- and the dense set has exactly its elements as bits.
  pub to_roaring-from_roaring :
      (bm : B) (w : ℕ)
      → Below (64 * w) bm
      → SameSet (bs_to_roaring (bs_from_roaring bm w) w) bm
        × ((j : ℕ) → bs_test (bs_from_roaring bm w) j ≡ contains bm j)
  to_roaring-from_roaring bm w below =
      let bits = test-from_roaring bm w below in
      (
        λ x.
            let items = (bs_foreach_lem (bs_from_roaring bm w) w (from_roaring-IsWords bm w)).0 x in
            to_roaring_lem bm w below x items (bits x),
        bits,
      )
