-- ===== src/Ceres/Dense.antt =====
-- algo/ceres.c, ceres_ctx_from_matrix: the dense rows, columns and cardinalities of the matrix.
use fca4j_project.Base.{
  ℕ, zero, suc, ◌*◌, ◌/◌, ◌%◌, ◌≤◌, ◌<◌, ◌≡◌, refl, sym, ◌∙◌, ap, ◌&&◌, ◌||◌, Bool, true, false,
  List, [], Option, none, some, length, get_or, set, replicate, if◌then◌else◌, ◌==◌, ltb, arith,
  Bool-cases, inl, inr, ==_iff, ==_refl, for_to, for_inv, length-set, length-replicate,
  get_or-replicate, get_or-set_self, get_or-set_ne,
}
use mathlib.Core.Path.{subst}
use fca4j_project.Base.Bits.{bit-zero}
use fca4j_project.Base.Count.{count_to}
use fca4j_project.Context.Matrix.{marked}
use fca4j_project.Bitset.{aw_n, bs_set, bs_test}
use fca4j_project.Bitset.Words.{length-bs_set, bs_test_lem}
use fca4j_project.Bitset.Ops.{test-set_clear}
use fca4j_project.DynOrder.{at}
use fca4j_project.Ceres.{
  CeresContext, ceres_wo, ceres_wa, ceres_ctx_empty, ceres_ctx_alloc, ceres_cell, ceres_matrix_row,
  ceres_ctx_from_matrix,
}

-- `n` rows of at least `m` bits, whose bits are `inc`.
pub record Grid (n m : ℕ) (inc : ℕ → ℕ → Bool) (rows : List (List ℕ)) : Type 0 where
  pub tall : n ≤ length rows
  pub wide : (p : ℕ) → p < n → m ≤ 64 * length (at rows p)
  pub cells : (p b : ℕ) → p < n → b < m → bs_test (at rows p) b ≡ inc p b

Grid-ext :
    (n m : ℕ) (inc inc' : ℕ → ℕ → Bool) (rows : List (List ℕ))
    → ((p b : ℕ) → inc p b ≡ inc' p b)
    → Grid n m inc rows
    → Grid n m inc' rows
Grid-ext n m inc inc' rows e g = record {
  tall = g.tall;
  wide = g.wide;
  cells = λ p b lp lb. g.cells p b lp lb ∙ e p b;
}

-- One bit is set.
abbrev with_cell : (ℕ → ℕ → Bool) → ℕ → ℕ → ℕ → ℕ → Bool
with_cell inc o a p b = (p == o && b == a) || inc p b

Grid-set :
    (n m : ℕ) (inc : ℕ → ℕ → Bool) (rows : List (List ℕ)) (o a : ℕ)
    → o < n
    → a < m
    → Grid n m inc rows
    → Grid n m (with_cell inc o a) (set rows o (bs_set (at rows o) a))
Grid-set n m inc rows o a ho ha g = record {
  tall = omega (arith, g.tall, length-set rows o (bs_set (at rows o) a));
  wide = λ p lp. elim (Bool-cases (p == o)) [
    | inl e ↦ subst (λ k. m ≤ 64 * length (at written k)) (sym ((==_iff p o).0 e)) wide_here
    | inr e ↦ rw (other p e) (g.wide p lp)
  ];
  cells = λ p b lp lb. elim (Bool-cases (p == o)) [
    | inl e ↦
        subst (λ k. bs_test (at written k) b ≡ with_cell inc o a k b) (sym ((==_iff p o).0 e))
          (cell_here b lb)
    | inr e ↦ rw (other p e, e) (g.cells p b lp lb)
  ];
}
  where
    written : List (List ℕ)
    written = set rows o (bs_set (at rows o) a)

    here : at written o ≡ bs_set (at rows o) a
    here = get_or-set_self rows o (bs_set (at rows o) a) [] (omega (arith, g.tall))

    other : (p : ℕ) → (p == o) ≡ false → at written p ≡ at rows p
    other p e = get_or-set_ne rows o p (bs_set (at rows o) a) [] (λ same. ground arith)

    wide_here : m ≤ 64 * length (at written o)
    wide_here = rw (here, length-bs_set) (g.wide o ho)

    cell_here : (b : ℕ) → b < m → bs_test (at written o) b ≡ with_cell inc o a o b
    cell_here b lb =
        rw (here, ==_refl)
          ((test-set_clear (at rows o) a b (omega (arith, g.wide o ho))).0
            ∙ ap (λ t. b == a || t) (g.cells o b ho lb))

test-blank : (w j : ℕ) → bs_test (replicate w 0) j ≡ false
test-blank w j =
    bs_test_lem (replicate w 0) j ∙ rw (get_or-replicate {A = ℕ} w (j / 64) 0) (bit-zero (j % 64))

at-blank : (h w p : ℕ) → p < h → at (replicate h (replicate w 0)) p ≡ replicate w 0
at-blank zero w p l = absurd (omega arith)
at-blank (suc h) w zero l = refl
at-blank (suc h) w (suc p) l = at-blank h w p (omega arith)

-- Blank rows, of which there is one at least, and which have one word at least.
Grid-blank :
    (n m h w : ℕ) → n ≤ h → m ≤ 64 * w → Grid n m (λ _ _. false) (replicate h (replicate w 0))
Grid-blank n m h w tall wide = record {
  tall = omega (arith, length-replicate {A = List ℕ} h (replicate w 0));
  wide = λ p lp. rw (at-blank h w p (omega arith), length-replicate {A = ℕ} w 0) wide;
  cells = λ p b lp lb. rw (at-blank h w p (omega arith)) (test-blank w b);
}

-- The dense context of a matrix, as far as it is built: the incidence `inc`, and the cardinalities
-- of the first `k` objects.
pub record IsDense (n m : ℕ) (matrix : List ℕ) (k : ℕ) (inc : ℕ → ℕ → Bool) (cx : CeresContext)
    : Type 0 where
  pub objects : cx.nb_obj ≡ n
  pub attributes : cx.nb_attr ≡ m
  pub intents : Grid n m inc cx.obj_intent
  pub extents : Grid m n (λ a o. inc o a) cx.attr_extent
  pub cards_length : n ≤ length cx.obj_intent_card
  pub cards : (o : ℕ) → o < k → get_or cx.obj_intent_card o 0 ≡ count_to m (marked m matrix o)

module _ (n m : ℕ) (matrix : List ℕ) where
  IsDense-ext :
      (k : ℕ) (inc inc' : ℕ → ℕ → Bool) (cx : CeresContext)
      → ((p b : ℕ) → inc p b ≡ inc' p b)
      → IsDense n m matrix k inc cx
      → IsDense n m matrix k inc' cx
  IsDense-ext k inc inc' cx e d = record {
    objects = d.objects;
    attributes = d.attributes;
    intents = Grid-ext n m inc inc' cx.obj_intent e d.intents;
    extents = Grid-ext m n _ _ cx.attr_extent (λ a o. e o a) d.extents;
    cards_length = d.cards_length;
    cards = d.cards;
  }

  -- After attribute `i - 1` of object `o`.
  abbrev row_part : (ℕ → ℕ → Bool) → ℕ → ℕ → ℕ → ℕ → Bool
  row_part before o i p b = before p b || (p == o && (ltb b i && marked m matrix o b))

  abbrev CellsDone : ℕ → (ℕ → ℕ → Bool) → ℕ → ℕ → CeresContext × ℕ → Type 0
  CellsDone k before o i s =
      IsDense n m matrix k (row_part before o i) (s.0) × (s.1 ≡ count_to i (marked m matrix o))

  cell_value :
      (o a b : ℕ) → marked m matrix o a ≡ true → (b == a) ≡ true → marked m matrix o b ≡ true
  cell_value o a b h e = subst (λ k. marked m matrix o k ≡ true) (sym ((==_iff b a).0 e)) h

  with_cell-row :
      (before : ℕ → ℕ → Bool) (o i : ℕ)
      → marked m matrix o i ≡ true
      → (p b : ℕ) → with_cell (row_part before o i) o i p b ≡ row_part before o (suc i) p b
  with_cell-row before o i e p b = elim (Bool-cases (b == i)) [
    | inl here ↦
        let at_b = cell_value o i b e here in
        let t : ltb b i ≡ false = ground arith in
        let t' : ltb b (suc i) ≡ true = ground arith in ground (arith, at_b, here, t, t')
    | inr other ↦ let t : ltb b (suc i) ≡ ltb b i = ground arith in ground (arith, other, t)
  ]

  with_cell-col :
      (before : ℕ → ℕ → Bool) (o i : ℕ)
      → marked m matrix o i ≡ true
      → (p a : ℕ)
      → with_cell (λ b q. row_part before o i q b) i o a p ≡ row_part before o (suc i) p a
  with_cell-col before o i e p a = ground (arith, with_cell-row before o i e p a)

  row_part-keep :
      (before : ℕ → ℕ → Bool) (o i : ℕ)
      → marked m matrix o i ≡ false
      → (p b : ℕ) → row_part before o i p b ≡ row_part before o (suc i) p b
  row_part-keep before o i e p b = elim (Bool-cases (b == i)) [
    | inl here ↦
        let blank = subst (λ k. marked m matrix o k ≡ false) (sym ((==_iff b i).0 here)) e in
        ground (arith, blank)
    | inr other ↦ let t : ltb b (suc i) ≡ ltb b i = ground arith in ground (arith, t)
  ]

  ceres_cell-CellsDone :
      (k o i : ℕ) (before : ℕ → ℕ → Bool) (s : CeresContext × ℕ)
      → o < n
      → i < m
      → CellsDone k before o i s
      → CellsDone k before o (suc i) (ceres_cell matrix o i s)
  unfolding ceres_cell
  ceres_cell-CellsDone k o i before s ho hi (d, c) =
      let same : marked (s.0).nb_attr matrix o i ≡ marked m matrix o i =
        ap (λ t. marked t matrix o i) d.attributes in
      elim (Bool-cases (marked m matrix o i)) [
        | inl e ↦
            rw (same, e, ceres_cell)
              (
                record {
                  objects = d.objects;
                  attributes = d.attributes;
                  intents =
                      Grid-ext n m _ _ _ (with_cell-row before o i e)
                        (Grid-set n m (row_part before o i) (s.0).obj_intent o i ho hi d.intents);
                  extents =
                      Grid-ext m n _ _ _ (λ a p. with_cell-col before o i e p a)
                        (Grid-set m n (λ a p. row_part before o i p a) (s.0).attr_extent i o hi ho
                          d.extents);
                  cards_length = d.cards_length;
                  cards = d.cards;
                },
                omega (arith, c),
              )
        | inr e ↦
            rw (same, e, ceres_cell)
              (
                IsDense-ext k (row_part before o i) (row_part before o (suc i)) (s.0)
                    (row_part-keep before o i e) d,
                omega (arith, c),
              )
      ]

  ceres_matrix_row-IsDense :
      (o : ℕ) (before : ℕ → ℕ → Bool) (cx : CeresContext)
      → o < n
      → IsDense n m matrix o before cx
      → IsDense n m matrix (suc o) (row_part before o m) (ceres_matrix_row matrix o cx)
  unfolding ceres_matrix_row
  ceres_matrix_row-IsDense o before cx ho d =
      let filled = for_to cx.nb_attr (λ a s. ceres_cell matrix o a s) (cx, 0) in
      let done : CellsDone o before o cx.nb_attr filled =
        for_inv (λ i s. CellsDone o before o i s) (λ a s. ceres_cell matrix o a s) cx.nb_attr
          (cx, 0)
          (λ i s hi h. ceres_cell-CellsDone o o i before s ho (omega (arith, d.attributes)) h)
          (IsDense-ext o before (row_part before o 0) cx (λ p b. ground arith) d, refl) in
      let f : IsDense n m matrix o (row_part before o m) (filled.0) =
        IsDense-ext o (row_part before o cx.nb_attr) (row_part before o m) (filled.0)
          (λ p b. ap (λ t. row_part before o t p b) d.attributes) done.0 in
      let c = done.1 ∙ ap (λ t. count_to t (marked m matrix o)) d.attributes in
      record {
        objects = f.objects;
        attributes = f.attributes;
        intents = f.intents;
        extents = f.extents;
        cards_length =
            omega (arith, f.cards_length, length-set filled.0.obj_intent_card o filled.1);
        cards = λ p lp. elim (Bool-cases (p == o)) [
          | inl e ↦
              subst
                (λ k.
                  get_or (set filled.0.obj_intent_card o filled.1) k 0
                  ≡ count_to m (marked m matrix k))
                (sym ((==_iff p o).0 e))
                (get_or-set_self filled.0.obj_intent_card o filled.1 0
                    (omega (arith, f.cards_length))
                  ∙ c)
          | inr e ↦
              get_or-set_ne filled.0.obj_intent_card o p filled.1 0 (λ same. ground arith)
              ∙ f.cards p (ground arith)
        ];
      }

  ceres_ctx_empty-IsDense : IsDense n m matrix 0 (λ _ _. false) (ceres_ctx_empty n m)
  unfolding ceres_ctx_empty ceres_wo ceres_wa aw_n
  ceres_ctx_empty-IsDense = record {
    objects = refl;
    attributes = refl;
    intents = Grid-blank n m (if ltb 0 n then n else 1) (ceres_wa m) (ground arith) (ground arith);
    extents = Grid-blank m n (if ltb 0 m then m else 1) (ceres_wo n) (ground arith) (ground arith);
    cards_length = ground (arith, length-replicate {A = ℕ} (if ltb 0 n then n else 1) 0);
    cards = λ o l. absurd (omega arith);
  }

-- What `ceres_ctx_from_matrix` returns on a matrix of `n` rows and `m` columns.
abbrev pub DenseOf : ℕ → ℕ → List ℕ → Option CeresContext → Type 0
DenseOf n m matrix none = ⊥
DenseOf n m matrix (some cx) =
    IsDense n m matrix n (λ o a. ltb o n && (ltb a m && marked m matrix o a)) cx

-- Where the memory is there, `ceres_ctx_from_matrix` returns the dense context of the matrix: bit
-- `a` of row `o` and bit `o` of column `a` both say whether byte o * m + a is not zero, and the
-- cardinality of object `o` is the number of its attributes.
pub ceres_ctx_from_matrix-DenseOf :
    (n m : ℕ) (matrix : List ℕ) → DenseOf n m matrix (ceres_ctx_from_matrix true n m matrix)
unfolding ceres_ctx_from_matrix ceres_ctx_alloc
ceres_ctx_from_matrix-DenseOf n m matrix =
    for_inv (λ k c. IsDense n m matrix k (λ o a. ltb o k && (ltb a m && marked m matrix o a)) c)
      (λ o c. ceres_matrix_row matrix o c) n (ceres_ctx_empty n m)
      (λ o c ho h.
        IsDense-ext n m matrix (suc o) _ _ (ceres_matrix_row matrix o c) (λ p a. ground arith)
          (ceres_matrix_row-IsDense n m matrix o _ c ho h))
      (IsDense-ext n m matrix 0 (λ _ _. false) _ (ceres_ctx_empty n m) (λ p a. ground arith)
        (ceres_ctx_empty-IsDense n m matrix))
