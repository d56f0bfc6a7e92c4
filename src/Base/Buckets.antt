-- ===== src/Base/Buckets.antt =====
-- The items of a key, how many have a smaller one, and the buckets of the counting sort.
use Prim.Native.Nat.{ℕ, suc, ◌+◌, ◌≤◌, ◌<◌}
use mathlib.Core.Path.{◌≡◌, refl, sym, ◌∙◌, ap, subst}
use mathlib.Core.Logic.{inl, inr}
use mathlib.Core.List.{List, [], ◌∷◌, ◌++◌, foldl}
use native.Mathlib.Omega.{arith}
use fca4j_project.Base.Tests.{if◌then◌else◌, ◌==◌, ltb, Bool-cases, ==_iff}
use fca4j_project.Base.Lists.{
  length, get_or, set, replicate, length-set, length-replicate, get_or-replicate, get_or-set_self,
  get_or-set_ne,
}
use fca4j_project.Base.Loops.{for_inv}
use fca4j_project.Base.Counting.{count_keys, sum_buckets}

module _ {ℓ} {A : Type ℓ} (key : A → ℕ) where
  -- The items of key `v`, in order.
  abbrev pub items_of : ℕ → List A → List A
  items_of v [] = []
  items_of v (x ∷ xs) = let rest = items_of v xs in if key x == v then x ∷ rest else rest

  -- How many items have a key below `v`.
  abbrev pub below : ℕ → List A → ℕ
  below v [] = 0
  below v (x ∷ xs) = (if ltb (key x) v then 1 else 0) + below v xs

  abbrev pub KeysUpTo : ℕ → List A → Type 0
  KeysUpTo m [] = Unit
  KeysUpTo m (x ∷ xs) = (key x ≤ m) × KeysUpTo m xs

  pub below_zero : (xs : List A) → below 0 xs ≡ 0
  below_zero [] = refl
  below_zero (x ∷ xs) = ground (arith, below_zero xs)

  pub below_suc : (v : ℕ) (xs : List A) → below (v + 1) xs ≡ below v xs + length (items_of v xs)
  below_suc v [] = refl
  below_suc v (x ∷ xs) = ground (arith, below_suc v xs)

  pub below_mono : (v w : ℕ) (xs : List A) → v ≤ w → below v xs ≤ below w xs
  below_mono v w [] h = omega arith
  below_mono v w (x ∷ xs) h = ground (arith, below_mono v w xs h)

  pub below-le : (v : ℕ) (xs : List A) → below v xs ≤ length xs
  below-le v [] = omega arith
  below-le v (x ∷ xs) = ground (arith, below-le v xs)

  pub items_of-append :
      (v : ℕ) (xs ys : List A) → items_of v (xs ++ ys) ≡ items_of v xs ++ items_of v ys
  items_of-append v [] ys = refl
  items_of-append v (x ∷ xs) ys = elim (Bool-cases (key x == v)) [
    | inl e ↦ rw (e, items_of) (ap (λ t. x ∷ t) (items_of-append v xs ys))
    | inr e ↦ rw (e, items_of) (items_of-append v xs ys)
  ]

  -- bucket[k + 1] counts the items of key k.
  count_keys-loop :
      (m : ℕ) (xs : List A) (b : List ℕ)
      → m + 2 ≤ length b
      → KeysUpTo m xs
      → (k : ℕ)
      → get_or (foldl (λ b x. set b (key x + 1) (get_or b (key x + 1) 0 + 1)) b xs) (k + 1) 0
        ≡ get_or b (k + 1) 0 + length (items_of k xs)
  count_keys-loop m [] b room keys k = omega arith
  count_keys-loop m (x ∷ xs) b room keys k =
      let b1 = set b (key x + 1) (get_or b (key x + 1) 0 + 1) in
      let rest =
        count_keys-loop m xs b1
          (omega (arith, length-set b (key x + 1) (get_or b (key x + 1) 0 + 1))) keys.1 k in
      elim (Bool-cases (key x == k)) [
        | inl e ↦
            let here : get_or b1 (k + 1) 0 ≡ get_or b (k + 1) 0 + 1 =
              subst (λ t. get_or b1 (t + 1) 0 ≡ get_or b (t + 1) 0 + 1) ((==_iff (key x) k).0 e)
                (get_or-set_self b (key x + 1) (get_or b (key x + 1) 0 + 1) 0 (omega arith)) in
            rest ∙ ground (arith, e, here)
        | inr e ↦
            rest
            ∙ ground (
              arith,
              e,
              get_or-set_ne b (key x + 1) (k + 1) (get_or b (key x + 1) 0 + 1) 0
                  (λ h. ground (arith, h)),
            )
      ]

  count_keys-zero :
      (xs : List A) (b : List ℕ)
      → (get_or (foldl (λ b x. set b (key x + 1) (get_or b (key x + 1) 0 + 1)) b xs) 0 0
          ≡ get_or b 0 0)
        × (length (foldl (λ b x. set b (key x + 1) (get_or b (key x + 1) 0 + 1)) b xs) ≡ length b)
  count_keys-zero [] b = (refl, refl)
  count_keys-zero (x ∷ xs) b =
      let v = get_or b (key x + 1) 0 + 1 in
      let rest = count_keys-zero xs (set b (key x + 1) v) in
      (
        rest.0 ∙ get_or-set_ne b (key x + 1) 0 v 0 (λ e. omega (arith, e)),
        rest.1 ∙ length-set b (key x + 1) v,
      )

  -- The buckets after `i` rounds of the sums: the first `i + 1` hold the starts.
  pub record Summed (m : ℕ) (xs : List A) (i : ℕ) (b : List ℕ) : Type 0 where
    pub room : length b ≡ m + 2
    pub summed : (k : ℕ) → k ≤ i → get_or b k 0 ≡ below k xs
    counted : (k : ℕ) → i ≤ k → get_or b (k + 1) 0 ≡ length (items_of k xs)

  Summed-step :
      (m : ℕ) (xs : List A) (i : ℕ) (b : List ℕ)
      → i < m + 1
      → Summed m xs i b
      → Summed m xs (suc i) (set b (i + 1) (get_or b (i + 1) 0 + get_or b i 0))
  Summed-step m xs i b l s =
      let v = get_or b (i + 1) 0 + get_or b i 0 in
      record {
        room = length-set b (i + 1) v ∙ s.room;
        summed = λ k le. elim (Bool-cases (k == i + 1)) [
          | inl e ↦
              subst (λ t. get_or (set b (i + 1) v) t 0 ≡ below t xs) (sym ((==_iff k (i + 1)).0 e))
                (get_or-set_self b (i + 1) v 0 (omega (arith, s.room))
                  ∙ omega
                      (arith, s.counted i (omega arith), s.summed i (omega arith), below_suc i xs))
          | inr e ↦
              get_or-set_ne b (i + 1) k v 0 (λ h. ground (arith, e, h))
              ∙ s.summed k (ground (arith, e))
        ];
        counted = λ k le.
            get_or-set_ne b (i + 1) (k + 1) v 0 (λ h. omega (arith, h, le))
            ∙ s.counted k (omega arith);
      }

  pub sum_buckets-Summed :
      (m : ℕ) (xs : List A)
      → KeysUpTo m xs
      → Summed m xs (m + 1) (sum_buckets m (count_keys key m xs))
  unfolding sum_buckets count_keys
  sum_buckets-Summed m xs keys =
      let zeros : List ℕ = replicate (m + 2) 0 in
      let long : length zeros ≡ m + 2 = length-replicate {A = ℕ} (m + 2) 0 in
      let first = count_keys-zero xs zeros in
      for_inv (λ i b. Summed m xs i b) (λ k b. set b (k + 1) (get_or b (k + 1) 0 + get_or b k 0))
        (m + 1) _ (λ i b l s. Summed-step m xs i b l s)
        (record {
          room = first.1 ∙ long;
          summed = λ k le.
              let e : k ≡ 0 = omega arith in
              subst (λ t. get_or (count_keys key m xs) t 0 ≡ below t xs) (sym e)
                (first.0 ∙ get_or-replicate {A = ℕ} (m + 2) 0 0 ∙ sym (below_zero xs));
          counted = λ k le. omega (
            arith,
            count_keys-loop m xs zeros (omega (arith, long)) keys k,
            get_or-replicate {A = ℕ} (m + 2) (k + 1) 0,
          );
        })
