-- ===== src/Base/Stable.antt =====
-- The counting sort puts the j-th item of each key behind the items of smaller keys and the j
-- items before it.
use Prim.Native.Nat.{ℕ, ◌+◌, ◌≤◌, ◌<◌}
use mathlib.Core.Path.{◌≡◌, refl, sym, ◌∙◌, ap, subst}
use mathlib.Core.Logic.{◌≢◌, inl, inr}
use mathlib.Core.Bool.{false}
use mathlib.Core.List.{List, [], ◌∷◌, ◌++◌, append-nil, append_assoc}
use native.Mathlib.Omega.{arith}
use fca4j_project.Base.Tests.{◌==◌, ltb, Bool-cases, ==_iff, ==_refl}
use fca4j_project.Base.Lists.{
  length, get_or, set, length-append, length-set, get_or-set_self, get_or-set_ne,
  get_or-append_left, get_or-append_last,
}
use fca4j_project.Base.Counting.{count_keys, sum_buckets, place_items, counting_sort}
use fca4j_project.Base.Buckets.{
  items_of, below, KeysUpTo, below_suc, below_mono, below-le, items_of-append, sum_buckets-Summed,
}

module _ {ℓ} {A : Type ℓ} (key : A → ℕ) where
  -- The loop that places, once it has placed the items `done` of `xs`.
  record Placed (m : ℕ) (xs done tmp : List A) (b : List ℕ) : Type ℓ where
    pub long : length tmp ≡ length xs
    room : length b ≡ m + 2
    next : (v : ℕ) → v ≤ m → get_or b v 0 ≡ below key v xs + length (items_of key v done)
    pub put :
        (v j : ℕ) (d : A)
        → v ≤ m
        → j < length (items_of key v done)
        → get_or tmp (below key v xs + j) d ≡ get_or (items_of key v done) j d

  items_of-snoc_same :
      (done : List A) (x : A)
      → items_of key (key x) (done ++ x ∷ []) ≡ items_of key (key x) done ++ x ∷ []
  items_of-snoc_same done x =
      let t = ==_refl (key x) in items_of-append key (key x) done (x ∷ []) ∙ rw t refl

  items_of-snoc_other :
      (v : ℕ) (done : List A) (x : A)
      → (key x == v) ≡ false
      → items_of key v (done ++ x ∷ []) ≡ items_of key v done
  items_of-snoc_other v done x ne =
      items_of-append key v done (x ∷ []) ∙ rw ne (append-nil (items_of key v done))

  module _ (m : ℕ) (xs done rest : List A) (x : A) (split : xs ≡ done ++ x ∷ rest)
      (small : key x ≤ m) (tmp : List A) (b : List ℕ) (p : Placed m xs done tmp b) where
    abbrev spot : ℕ
    spot = get_or b (key x) 0

    -- Among the items of its key, `x` is not the last of `done`.
    more : length (items_of key (key x) done) < length (items_of key (key x) xs)
    more = ground (
      arith,
      ap (λ t. length (items_of key (key x) t)) split,
      ap length (items_of-append key (key x) done (x ∷ rest)),
      length-append (items_of key (key x) done) (items_of key (key x) (x ∷ rest)),
      ==_refl (key x),
    )

    fewer : (v : ℕ) → length (items_of key v done) ≤ length (items_of key v xs)
    fewer v = omega (
      arith,
      ap (λ t. length (items_of key v t)) split,
      ap length (items_of-append key v done (x ∷ rest)),
      length-append (items_of key v done) (items_of key v (x ∷ rest)),
    )

    spot_in : spot < length tmp
    spot_in = omega (
      arith,
      p.next (key x) small,
      more,
      below_suc key (key x) xs,
      below-le key (key x + 1) xs,
      p.long,
    )

    -- The items of another key stand elsewhere.
    spot_ne :
        (v j : ℕ)
        → (key x == v) ≡ false
        → j < length (items_of key v done)
        → spot ≢ (below key v xs + j)
    spot_ne v j ne l e = elim (Bool-cases (ltb v (key x))) [
      | inl lower ↦
          let lt : v + 1 ≤ key x = ground arith in
          omega (
            arith,
            e,
            p.next (key x) small,
            fewer v,
            below_suc key v xs,
            below_mono key (v + 1) (key x) xs lt,
          )
      | inr upper ↦
          let lt : key x + 1 ≤ v = ground arith in
          omega (
            arith,
            e,
            p.next (key x) small,
            more,
            below_suc key (key x) xs,
            below_mono key (key x + 1) v xs lt,
          )
    ]

    put_same :
        (j : ℕ) (d : A)
        → j < length (items_of key (key x) done ++ x ∷ [])
        → get_or (set tmp spot x) (below key (key x) xs + j) d
          ≡ get_or (items_of key (key x) done ++ x ∷ []) j d
    put_same j d l = elim (Bool-cases (j == length (items_of key (key x) done))) [
      | inl last ↦
          let e = (==_iff j (length (items_of key (key x) done))).0 last in
          let here : below key (key x) xs + j ≡ spot = omega (arith, e, p.next (key x) small) in
          rw (here, e)
            (get_or-set_self tmp spot x d spot_in
              ∙ sym (get_or-append_last (items_of key (key x) done) x d))
      | inr earlier ↦
          let before : j < length (items_of key (key x) done) =
            ground (arith, earlier, length-append (items_of key (key x) done) (x ∷ [])) in
          get_or-set_ne tmp spot (below key (key x) xs + j) x d
            (λ h. omega (arith, h, p.next (key x) small))
          ∙ p.put (key x) j d small before
          ∙ sym (get_or-append_left (items_of key (key x) done) (x ∷ []) j d before)
    ]

    next_same :
        get_or (set b (key x) (spot + 1)) (key x) 0
        ≡ below key (key x) xs + length (items_of key (key x) (done ++ x ∷ []))
    next_same =
        get_or-set_self b (key x) (spot + 1) 0 (omega (arith, p.room))
        ∙ omega (
          arith,
          p.next (key x) small,
          ap length (items_of-snoc_same done x),
          length-append (items_of key (key x) done) (x ∷ []),
        )

    Placed-step : Placed m xs (done ++ x ∷ []) (set tmp spot x) (set b (key x) (spot + 1))
    Placed-step = record {
      long = length-set tmp spot x ∙ p.long;
      room = length-set b (key x) (spot + 1) ∙ p.room;
      next = λ v le. elim (Bool-cases (key x == v)) [
        | inl e ↦
            subst
              (λ k.
                get_or (set b (key x) (spot + 1)) k 0
                ≡ below key k xs + length (items_of key k (done ++ x ∷ [])))
              ((==_iff (key x) v).0 e) next_same
        | inr e ↦
            get_or-set_ne b (key x) v (spot + 1) 0 (λ h. ground (arith, e, h))
            ∙ p.next v le
            ∙ ap (λ t. below key v xs + length t) (sym (items_of-snoc_other v done x e))
      ];
      put = λ v j d le l. elim (Bool-cases (key x == v)) [
        | inl e ↦
            let here : key x ≡ v = (==_iff (key x) v).0 e in
            subst
              (λ k.
                j < length (items_of key k (done ++ x ∷ []))
                → get_or (set tmp spot x) (below key k xs + j) d
                  ≡ get_or (items_of key k (done ++ x ∷ [])) j d)
              here
              (λ h.
                rw (items_of-snoc_same done x) (put_same j d (rw (items_of-snoc_same done x) at h)))
              l
        | inr e ↦
            let old : j < length (items_of key v done) = rw (items_of-snoc_other v done x e) at l in
            get_or-set_ne tmp spot (below key v xs + j) x d (spot_ne v j e old)
            ∙ p.put v j d le old
            ∙ ap (λ t. get_or t j d) (sym (items_of-snoc_other v done x e))
      ];
    }

  place_items-Placed :
      (m : ℕ) (xs done rest tmp : List A) (b : List ℕ)
      → xs ≡ done ++ rest
      → KeysUpTo key m rest
      → Placed m xs done tmp b
      → Placed m xs xs (place_items key rest tmp b).0 (place_items key rest tmp b).1
  unfolding place_items
  place_items-Placed m xs done [] tmp b split keys p =
      subst (λ t. Placed m xs t tmp b) (sym (split ∙ append-nil done)) p
  place_items-Placed m xs done (x ∷ rest) tmp b split keys p =
      place_items-Placed m xs (done ++ x ∷ []) rest (set tmp (get_or b (key x) 0) x)
        (set b (key x) (get_or b (key x) 0 + 1)) (split ∙ sym (append_assoc done (x ∷ []) rest))
        keys.1 (Placed-step m xs done rest x split keys.0 tmp b p)

  -- What a stable sort of `xs` by keys of at most `m` is: item j of key `v` stands behind the items
  -- of smaller keys and the j items of its own key before it.
  pub record IsStable (m : ℕ) (xs sorted : List A) : Type ℓ where
    pub same_length : length sorted ≡ length xs
    pub stands :
        (v j : ℕ) (d : A)
        → v ≤ m
        → j < length (items_of key v xs)
        → get_or sorted (below key v xs + j) d ≡ get_or (items_of key v xs) j d

  pub counting_sort-IsStable :
      (m : ℕ) (xs tmp : List A)
      → length tmp ≡ length xs
      → KeysUpTo key m xs
      → IsStable m xs (counting_sort key m xs tmp)
  unfolding counting_sort
  counting_sort-IsStable m xs tmp long keys =
      let sums = sum_buckets-Summed key m xs keys in
      let p =
        place_items-Placed m xs [] xs tmp (sum_buckets m (count_keys key m xs)) refl keys (record {
          long = long;
          room = sums.room;
          next = λ v le. omega (arith, sums.summed v (omega arith));
          put = λ v j d le l. absurd (omega arith);
        }) in
      record { same_length = p.long; stands = p.put }
