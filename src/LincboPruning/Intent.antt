-- ===== src/LincboPruning/Intent.antt =====
-- algo/lincbo_pruning.c: the intent on the dense rows.
use fca4j_project.Base.{
  ℕ, zero, suc, ◌-◌, ◌*◌, ◌/◌, ◌%◌, ◌^◌, ◌≤◌, ◌<◌, ◌≡◌, ◌↔◌, refl, sym, ◌∙◌, ap, ◌&&◌, not, true,
  false, List, [], ◌∷◌, length, set, ltb, ◌==◌, elem, arith, Bool-cases, inl, inr, ==_iff, ==_refl,
  for_to, get_or-set_self, get_or-set_ne,
}
use mathlib.Core.Path.{subst}
use Prim.Native.Nat.{bit_and}
use native.Mathlib.Nat.{one-le-pow, pow-suc}
use fca4j_project.Base.Bits.{bit, bit-zero, bit-and, bit-not}
use fca4j_project.Roaring.{Roaring}
use fca4j_project.Roaring.Sets.{Has}
use fca4j_project.Context.{row}
use fca4j_project.Bitset.{aw_n, word, bs_and, bs_test, bs_empty}
use fca4j_project.Bitset.Words.{length-bs_and, bs_test_lem, all_words_iff, length-loop, word-loop}
use fca4j_project.Bitset.Ops.{test-or_and_andnot}
use fca4j_project.DynOrder.{at}
use fca4j_project.LincboPruning.{LincboState, bs_fill_universe}
use fca4j_project.LincboPruning.Closure.{and_rows}
use fca4j_project.LincboPruning.Extent.{IsDense}

pub bs_empty-none : (a : List ℕ) (w j : ℕ) → bs_empty a w ≡ true → j < 64 * w → bs_test a j ≡ false
unfolding bs_empty
bs_empty-none a w j e l =
    let blank = (all_words_iff (λ i. word a i == 0) w 0).0 e (j / 64) (omega arith) (omega arith) in
    bs_test_lem a j
    ∙ ap (λ x. bit x (j % 64)) ((==_iff (word a (j / 64)) 0).0 blank)
    ∙ bit-zero (j % 64)

bit-full : (i : ℕ) → i < 64 → bit (2 ^ 64 - 1) i ≡ true
bit-full i l = ground (arith, bit-not 64 i 0 (omega arith) l, bit-zero i)

bit-low : (r i : ℕ) → i < 64 → bit (bit_and (2 ^ 64 - 1) (2 ^ r - 1)) i ≡ bit (2 ^ r - 1) i
bit-low r i l = ground (arith, bit-and i (2 ^ 64 - 1) (2 ^ r - 1), bit-full i l)

bit-high : (w i x : ℕ) → x < 2 ^ w → w ≤ i → bit x i ≡ false
bit-high zero i x h l = let e : x ≡ 0 = omega arith in rw (e, bit-zero i) refl
bit-high (suc w) zero x h l = absurd (omega arith)
bit-high (suc w) (suc i) x h l = bit-high w i (x / 2) (omega (arith, pow-suc 2 w)) (omega arith)

bit-mask : (r i : ℕ) → bit (2 ^ r - 1) i ≡ ltb i r
bit-mask r i = elim (Bool-cases (ltb i r)) [
  | inl e ↦ ground (arith, e, bit-not r i 0 (one-le-pow r 2 (omega arith)), bit-zero i)
  | inr e ↦ ground (
    arith,
    e,
    bit-high r i (2 ^ r - 1) (omega (arith, one-le-pow r 2 (omega arith))) (ground (arith, e)),
  )
]

-- The universe has the bits below `n`.
pub test-fill_universe :
    (a : List ℕ) (w n j : ℕ)
    → w ≡ aw_n n
    → w ≤ length a
    → j < 64 * w
    → bs_test (bs_fill_universe a w n) j ≡ ltb j n
unfolding bs_fill_universe aw_n
test-fill_universe a w n j size room l =
    let full = for_to w (λ k d. set d k (2 ^ 64 - 1)) a in
    let filled : word full (j / 64) ≡ 2 ^ 64 - 1 =
      ground (arith, word-loop (λ i x. 2 ^ 64 - 1) w a (j / 64) room) in
    let bit_j = bit-full (j % 64) (omega arith) in
    elim (Bool-cases (not (n % 64 == 0) && ltb 0 w)) [
      | inr e ↦
          rw e (
            bs_test_lem full j
            ∙ ap (λ x. bit x (j % 64)) filled
            ∙ ground (arith, bit_j, e, size, l))
      | inl e ↦
          let masked = bit_and (word full (w - 1)) (2 ^ (n % 64) - 1) in
          rw e (elim (Bool-cases (j / 64 == w - 1)) [
            | inl top ↦
                let at_top = (==_iff (j / 64) (w - 1)).0 top in
                let top_full : word full (w - 1) ≡ 2 ^ 64 - 1 =
                  ap (λ t. word full t) (sym at_top) ∙ filled in
                bs_test_lem (set full (w - 1) masked) j
                ∙ ap (λ t. bit (word (set full (w - 1) masked) t) (j % 64)) at_top
                ∙ ap (λ x. bit x (j % 64))
                    (get_or-set_self full (w - 1) masked 0
                      (ground (arith, e, length-loop (λ i x. 2 ^ 64 - 1) w a, room)))
                ∙ ap (λ x. bit (bit_and x (2 ^ (n % 64) - 1)) (j % 64)) top_full
                ∙ bit-low (n % 64) (j % 64) (omega arith)
                ∙ bit-mask (n % 64) (j % 64)
                ∙ ground (arith, at_top, e, size, l)
            | inr lower ↦
                bs_test_lem (set full (w - 1) masked) j
                ∙ ap (λ x. bit x (j % 64))
                    (get_or-set_ne full (w - 1) (j / 64) masked 0 (λ h. ground (arith, h, lower)))
                ∙ ap (λ x. bit x (j % 64)) filled
                ∙ ground (arith, bit_j, lower, e, size, l)
          ])
    ]

module _ {B : Type 0} ⦃R : Roaring B⦄ where
  open R use {
    contains, elem-to_list, is_subset, is_subset_iff, to_list, cardinality, cardinality_lem,
  }

  pub length-and_rows :
      (st : LincboState B) (objects intent : List ℕ)
      → length (and_rows st objects intent) ≡ length intent
  unfolding and_rows
  length-and_rows st [] intent = refl
  length-and_rows st (o ∷ objects) intent = elim (Bool-cases (bs_empty intent st.w)) [
    | inl e ↦ rw (e, and_rows) refl
    | inr e ↦
        rw (e, and_rows)
          (length-and_rows st objects (bs_and intent (at st.dense_rows o) st.w)
            ∙ length-bs_and intent (at st.dense_rows o) st.w)
  ]

  -- The rows of the objects are intersected; to stop on an empty intent loses nothing.
  pub and_rows_iff :
      (st : LincboState B) (objects intent : List ℕ) (a : ℕ)
      → IsDense st
      → st.w ≤ length intent
      → a < 64 * st.w
      → ((o : ℕ) → elem o objects ≡ true → o < st.ctx.nb_objects)
      → (bs_test (and_rows st objects intent) a ≡ true)
        ↔ ((bs_test intent a ≡ true) × ((o : ℕ) → elem o objects ≡ true → Has (row st.ctx o) a))
  unfolding and_rows
  and_rows_iff st [] intent a d room l inside = (λ h. (h, λ o e. absurd (ground arith)), λ h. h.0)
  and_rows_iff st (o ∷ objects) intent a d room l inside =
      elim (Bool-cases (bs_empty intent st.w)) [
        | inl e ↦
            let none = bs_empty-none intent st.w a e l in
            rw (e, and_rows) (λ h. absurd (ground (arith, h, none)), λ h. h.0)
        | inr e ↦
            let lo : o < st.ctx.nb_objects = inside o (ground (arith, ==_refl o)) in
            let both =
              (test-or_and_andnot intent (at st.dense_rows o) st.w a room (d.rows.words o lo)).1 in
            let bits = d.rows.bits o a lo in
            let ih =
              and_rows_iff st objects (bs_and intent (at st.dense_rows o) st.w) a d
                (omega (arith, room, length-bs_and intent (at st.dense_rows o) st.w)) l
                (λ q m. inside q (ground arith)) in
            rw (e, and_rows)
              (
                λ h.
                    let (first, rest) = ih.0 h in
                    (
                      ground (arith, first, both, l),
                      λ q m. elim (Bool-cases (q == o)) [
                        | inl same ↦
                            subst (λ t. Has (row st.ctx t) a) (sym ((==_iff q o).0 same))
                              (ground (arith, first, both, l, bits))
                        | inr other ↦ rest q (ground (arith, m, other))
                      ],
                    ),
                λ h.
                    let here : Has (row st.ctx o) a = h.1 o (ground (arith, ==_refl o)) in
                    ih.1
                      (ground (arith, both, l, bits, here, h.0), λ q m. h.1 q (ground (arith, m))),
              )
      ]
