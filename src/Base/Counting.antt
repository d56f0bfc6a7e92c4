-- ===== src/Base/Counting.antt =====
-- The counting sort that the algorithms share: three loops on an array of buckets.
use Prim.Native.Nat.{ℕ, ◌+◌}
use mathlib.Core.List.{List, foldl}
use fca4j_project.Base.Lists.{get_or, set, replicate}
use fca4j_project.Base.Loops.{for_to}

-- bucket[k] += d
abbrev add_at : List ℕ → ℕ → ℕ → List ℕ
add_at bucket k d = set bucket k (get_or bucket k 0 + d)

module _ {ℓ} {A : Type ℓ} (key : A → ℕ) where
  -- bucket[key + 1]++ for each item, over m + 2 buckets
  unfoldable pub count_keys : ℕ → List A → List ℕ
  count_keys m xs = foldl (λ b x. add_at b (key x + 1) 1) (replicate (m + 2) 0) xs

  -- tmp[bucket[key]++] = item
  unfoldable pub place_items : List A → List A → List ℕ → List A × List ℕ
  place_items xs tmp bucket =
      foldl (λ s x. (set s.0 (get_or s.1 (key x) 0) x, add_at s.1 (key x) 1)) (tmp, bucket) xs

-- `for (k = 0; k <= m; k++) bucket[k + 1] += bucket[k]`
unfoldable pub sum_buckets : ℕ → List ℕ → List ℕ
sum_buckets m bucket = for_to (m + 1) (λ k b. add_at b (k + 1) (get_or b k 0)) bucket

-- The items sorted into `tmp` by their keys, which are at most `m`.
unfoldable pub counting_sort {ℓ} : {A : Type ℓ} → (A → ℕ) → ℕ → List A → List A → List A
counting_sort key m xs tmp = (place_items key xs tmp (sum_buckets m (count_keys key m xs))).0
