-- ===== src/LincboPruning/Ways.antt =====
-- algo/lincbo_pruning.c, dense_compute_intent_into: its three ways give the same intent.
use fca4j_project.Base.{
  ℕ, zero, suc, ◌-◌, ◌*◌, ◌%◌, ◌^◌, not, ◌≤◌, ◌<◌, ◌≡◌, ◌↔◌, sym, ◌∙◌, ap, ◌&&◌, true, false, List,
  [], ◌∷◌, length, set, if◌then◌else◌, ltb, ◌==◌, elem, arith, Bool-cases, inl, inr, ==_iff,
  ==_refl, for_to, length-set, List-cases,
}
use mathlib.Core.Path.{subst}
use Prim.Native.Nat.{bit_and}
use fca4j_project.Roaring.{Roaring}
use fca4j_project.Roaring.Sets.{Has}
use fca4j_project.Context.{row, col}
use fca4j_project.Bitset.{aw_n, word, bs_zero, bs_copy, bs_set, bs_test}
use fca4j_project.Bitset.Words.{length-bs_set, length-bs_copy, length-bs_zero, length-loop}
use fca4j_project.Bitset.Ops.{test-set_clear, test-to}
use fca4j_project.DynOrder.{at}
use fca4j_project.LincboPruning.{LincboState, bs_fill_universe}
use fca4j_project.LincboPruning.Closure.{intent_of_objects, dense_compute_intent_into}
use fca4j_project.LincboPruning.Extent.{IsDense}
use fca4j_project.LincboPruning.Intent.{test-fill_universe, length-and_rows, and_rows_iff}

length-bs_fill_universe : (a : List ℕ) (w n : ℕ) → length (bs_fill_universe a w n) ≡ length a
unfolding bs_fill_universe
length-bs_fill_universe a w n =
    let full = for_to w (λ k d. set d k (2 ^ 64 - 1)) a in
    let kept = length-loop (λ i x. 2 ^ 64 - 1) w a in
    elim (Bool-cases (not (n % 64 == 0) && ltb 0 w)) [
      | inl e ↦
          rw e (length-set full (w - 1) (bit_and (word full (w - 1)) (2 ^ (n % 64) - 1)) ∙ kept)
      | inr e ↦ rw e kept
    ]

module _ {B : Type 0} ⦃R : Roaring B⦄ where
  open R use {
    contains, or, elem-to_list, is_subset, is_subset_iff, to_list, cardinality, cardinality_lem,
    contains-or,
  }

  -- The bits that the dense intent is meant to have.
  abbrev pub InIntent : LincboState B → B → ℕ → Type 0
  InIntent st extent a = (a < st.n) × ((o : ℕ) → Has extent o → Has (row st.ctx o) a)

  abbrev column_loop : LincboState B → B → List ℕ → ℕ → List ℕ
  column_loop st extent out k =
      for_to k (λ a intent. if is_subset extent (col st.ctx a) then bs_set intent a else intent)
        (bs_zero out st.w)

  length-column_loop :
      (st : LincboState B) (extent : B) (out : List ℕ) (k : ℕ)
      → length (column_loop st extent out k) ≡ length out
  length-column_loop st extent out zero = length-bs_zero out st.w
  length-column_loop st extent out (suc k) = elim (Bool-cases (is_subset extent (col st.ctx k))) [
    | inl e ↦
        rw e (length-bs_set (column_loop st extent out k) k ∙ length-column_loop st extent out k)
    | inr e ↦ rw e (length-column_loop st extent out k)
  ]

  test-column_loop :
      (st : LincboState B) (extent : B) (out : List ℕ) (k a : ℕ)
      → st.w ≤ length out
      → k ≤ 64 * st.w
      → a < 64 * st.w
      → bs_test (column_loop st extent out k) a ≡ (ltb a k && is_subset extent (col st.ctx a))
  test-column_loop st extent out zero a room fits l =
      (test-to out [] [] st.w a room).0 ∙ ground (arith, l)
  test-column_loop st extent out (suc k) a room fits l =
      let before = column_loop st extent out k in
      let ih = test-column_loop st extent out k a room (omega arith) l in
      let written =
        (test-set_clear before k a
          (omega (arith, length-column_loop st extent out k, room, fits))).0 in
      elim (Bool-cases (is_subset extent (col st.ctx k))) [
        | inl e ↦ rw e (
            written ∙ elim (Bool-cases (a == k)) [
              | inl same ↦
                  let at_k = (==_iff a k).0 same in
                  let sub : is_subset extent (col st.ctx a) ≡ true =
                    subst (λ t. is_subset extent (col st.ctx t) ≡ true) (sym at_k) e in
                  ground (arith, same, at_k, sub)
              | inr other ↦ ground (arith, other, ih)
            ])
        | inr e ↦ rw e (
            ih ∙ elim (Bool-cases (a == k)) [
              | inl same ↦
                  let at_k = (==_iff a k).0 same in
                  let sub : is_subset extent (col st.ctx a) ≡ false =
                    subst (λ t. is_subset extent (col st.ctx t) ≡ false) (sym at_k) e in
                  ground (arith, sub)
              | inr other ↦ ground (arith, other)
            ])
      ]

  -- What the intent functions give: as many words, and the bits meant.
  pub record IntentOf (st : LincboState B) (extent : B) (out intent : List ℕ) : Type 0 where
    pub same_length : length intent ≡ length out
    pub bits : (a : ℕ) → a < 64 * st.w → (bs_test intent a ≡ true) ↔ InIntent st extent a

  module _ (st : LincboState B) (extent : B) (out : List ℕ) (d : IsDense st)
      (room : st.w ≤ length out) (inside : (o : ℕ) → Has extent o → o < st.ctx.nb_objects) where
    IntentOf-empty :
        cardinality extent ≡ 0 → IntentOf st extent out (bs_fill_universe out st.w st.n)
    IntentOf-empty none =
        let blank : to_list extent ≡ [] = elim (List-cases (to_list extent)) [
          | inl e ↦ e
          | inr (x, rest, e) ↦
              absurd (ground (arith, sym none ∙ cardinality_lem extent ∙ ap length e))
        ] in
        record {
          same_length = length-bs_fill_universe out st.w st.n;
          bits = λ a l.
              let test = test-fill_universe out st.w st.n a d.width room l in
              (
                λ h. (
                  ground (arith, h, test),
                  λ o ho. absurd (
                      ground
                        (arith, sym ho ∙ sym (elem-to_list extent o) ∙ ap (λ t. elem o t) blank)),
                ),
                λ h. ground (arith, test, h.0),
              );
        }

    IntentOf-objects :
        (o0 : ℕ) (rest : List ℕ)
        → to_list extent ≡ o0 ∷ rest
        → IntentOf st extent out (intent_of_objects st (o0 ∷ rest) out)
    unfolding intent_of_objects
    IntentOf-objects o0 rest e =
        let start = bs_copy out (at st.dense_rows o0) st.w in
        let member = λ (o : ℕ). (sym (elem-to_list extent o) ∙ ap (λ t. elem o t) e) in
        let l0 : o0 < st.ctx.nb_objects = inside o0 (member o0 ∙ ground (arith, ==_refl o0)) in
        record {
          same_length =
              length-and_rows st rest start ∙ length-bs_copy out (at st.dense_rows o0) st.w;
          bits = λ a l.
              let copied = (test-to out (at st.dense_rows o0) [] st.w a room).1 in
              let rows =
                and_rows_iff st rest start a d
                  (omega (arith, room, length-bs_copy out (at st.dense_rows o0) st.w)) l
                  (λ o m. inside o (member o ∙ ground (arith, m))) in
              let bits0 = d.rows.bits o0 a l0 in
              (
                λ h.
                    let (first, others) = rows.0 h in
                    let here : Has (row st.ctx o0) a = ground (arith, first, copied, l, bits0) in
                    (
                      omega (arith, d.size, d.wf.row_below o0 a here),
                      λ o ho. elim (Bool-cases (o == o0)) [
                        | inl same ↦
                            subst (λ t. Has (row st.ctx t) a) (sym ((==_iff o o0).0 same)) here
                        | inr other ↦ others o (ground (arith, sym (member o) ∙ ho, other))
                      ],
                    ),
                λ h. rows.1 (
                  ground (arith, copied, l, bits0, h.1 o0 (member o0 ∙ ground (arith, ==_refl o0))),
                  λ o m. h.1 o (member o ∙ ground (arith, m)),
                ),
              );
        }

    IntentOf-columns : IntentOf st extent out (column_loop st extent out st.n)
    unfolding aw_n
    IntentOf-columns = record {
      same_length = length-column_loop st extent out st.n;
      bits = λ a l.
          let test = test-column_loop st extent out st.n a room (omega (arith, d.width)) l in
          let subset = is_subset_iff extent (col st.ctx a) in
          (
            λ h. (
              ground (arith, h, test),
              λ o ho. d.wf.agree o a ∙ subset.0 (ground (arith, h, test)) o ho,
            ),
            λ h. ground (arith, test, h.0, subset.1 (λ o ho. sym (d.wf.agree o a) ∙ h.1 o ho)),
          );
    }

    pub dense_compute_intent_into-IntentOf :
        IntentOf st extent out (dense_compute_intent_into st extent out)
    unfolding dense_compute_intent_into
    dense_compute_intent_into-IntentOf = elim (Bool-cases (cardinality extent == 0)) [
      | inl e ↦ rw e (IntentOf-empty ((==_iff (cardinality extent) 0).0 e))
      | inr e ↦ elim (Bool-cases (ltb (cardinality extent) st.n)) [
        | inr many ↦ rw (e, many) IntentOf-columns
        | inl few ↦ elim (List-cases (to_list extent)) [
          | inl nil ↦ absurd (ground (arith, e, cardinality_lem extent ∙ ap length nil))
          | inr (o0, rest, cons) ↦ rw (e, few, cons) (IntentOf-objects o0 rest cons)
        ]
      ]
    ]
