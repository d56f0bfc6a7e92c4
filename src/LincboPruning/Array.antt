-- ===== src/LincboPruning/Array.antt =====
-- algo/lincbo_pruning.c, run_lincbo_pruning_flat: a reader of the array, and what is in it.
use fca4j_project.Base.{
  ℕ, zero, suc, ◌+◌, ◌≡◌, refl, sym, ◌∙◌, ap, List, [], ◌∷◌, ◌++◌, length, map, get_or, for_to,
  for_to-shift, arith, length-append,
}
use mathlib.Core.List.{append_assoc, append-nil}
use fca4j_project.Roaring.{Roaring}
use fca4j_project.Implication.{CImplication}
use fca4j_project.LincboPruning.Output.{implication, flat_implication, flat_basis, basis_total}

-- `n` numbers, and what stands behind them.
abbrev pub split_at : ℕ → List ℕ → List ℕ × List ℕ
split_at zero xs = ([], xs)
split_at (suc n) [] = ([], [])
split_at (suc n) (x ∷ xs) = let rest = split_at n xs in (x ∷ rest.0, rest.1)

-- A set: its size, then its elements.
abbrev pub read_set : List ℕ → List ℕ × List ℕ
read_set [] = ([], [])
read_set (n ∷ xs) = split_at n xs

abbrev pub read_items : ℕ → List ℕ → List (List ℕ × List ℕ × ℕ)
read_items zero xs = []
read_items (suc m) xs =
    let premise = read_set xs in
    let conclusion = read_set premise.1 in
    let support = split_at 1 conclusion.1 in
    (premise.0, conclusion.0, get_or support.0 0 0) ∷ read_items m support.1

-- The reader of the format: the number of implications, then each of them.
abbrev pub read_basis : List ℕ → List (List ℕ × List ℕ × ℕ)
read_basis [] = []
read_basis (m ∷ xs) = read_items m xs

split_at-append : (xs ys : List ℕ) → split_at (length xs) (xs ++ ys) ≡ (xs, ys)
split_at-append [] ys = refl
split_at-append (x ∷ xs) ys = rw (split_at-append xs ys) refl

module _ {B : Type 0} ⦃R : Roaring B⦄ where
  open R use {to_list, cardinality, cardinality_lem}

  -- The elements and the support of an implication.
  abbrev pub listed : CImplication B → List ℕ × List ℕ × ℕ
  listed imp = (to_list imp.premise, to_list imp.conclusion, imp.support_size)

  all_flat : List (CImplication B) → List ℕ
  all_flat [] = []
  all_flat (imp ∷ rest) = flat_implication imp ++ all_flat rest

  counted : B → List ℕ
  counted s = cardinality s ∷ to_list s

  -- One set in front of a text.
  read_set_lem : (s : B) (ys : List ℕ) → read_set (counted s ++ ys) ≡ (to_list s, ys)
  unfolding counted
  read_set_lem s ys = rw (cardinality_lem s) (split_at-append (to_list s) ys)

  flat_implication-append :
      (imp : CImplication B) (ys : List ℕ)
      → flat_implication imp ++ ys
        ≡ counted imp.premise ++ (counted imp.conclusion ++ (imp.support_size ∷ ys))
  unfolding flat_implication counted
  flat_implication-append imp ys =
      append_assoc (counted imp.premise ++ counted imp.conclusion) (imp.support_size ∷ []) ys
      ∙ append_assoc (counted imp.premise) (counted imp.conclusion) (imp.support_size ∷ ys)

  read_items-all_flat :
      (result : List (CImplication B))
      → read_items (length result) (all_flat result) ≡ map listed result
  unfolding all_flat
  read_items-all_flat [] = refl
  read_items-all_flat (imp ∷ rest) =
      let behind : List ℕ = imp.support_size ∷ all_flat rest in
      rw
        (
          flat_implication-append imp (all_flat rest),
          read_set_lem imp.premise (counted imp.conclusion ++ behind),
          read_set_lem imp.conclusion behind,
          read_items-all_flat rest,
        )
        refl

  write-loop :
      (result : List (CImplication B)) (buf : List ℕ)
      → for_to (length result) (λ i flat. flat ++ flat_implication (implication result i)) buf
        ≡ buf ++ all_flat result
  unfolding all_flat
  write-loop [] buf = sym (append-nil buf)
  write-loop (imp ∷ rest) buf =
      for_to-shift (length rest) (λ i flat. flat ++ flat_implication (implication (imp ∷ rest) i))
        buf
      ∙ write-loop rest (buf ++ flat_implication imp)
      ∙ append_assoc buf (flat_implication imp) (all_flat rest)

  length-flat_implication :
      (imp : CImplication B)
      → length (flat_implication imp) ≡ cardinality imp.premise + cardinality imp.conclusion + 3
  unfolding flat_implication
  length-flat_implication imp =
      let premise = cardinality imp.premise ∷ to_list imp.premise in
      let conclusion = cardinality imp.conclusion ∷ to_list imp.conclusion in
      omega (
        arith,
        cardinality_lem imp.premise,
        cardinality_lem imp.conclusion,
        length-append (premise ++ conclusion) (imp.support_size ∷ []),
        length-append premise conclusion,
      )

  size-loop :
      (result : List (CImplication B)) (start : ℕ)
      → for_to
          (length result)
          (λ i total.
            let imp = implication result i in
            total + (cardinality imp.premise + cardinality imp.conclusion + 3))
          start
        ≡ start + length (all_flat result)
  unfolding all_flat
  size-loop [] start = omega arith
  size-loop (imp ∷ rest) start =
      let first = cardinality imp.premise + cardinality imp.conclusion + 3 in
      for_to-shift (length rest)
        (λ i total.
          let imp = implication (imp ∷ rest) i in
          total + (cardinality imp.premise + cardinality imp.conclusion + 3))
        start
      ∙ size-loop rest (start + first)
      ∙ omega
          (arith, length-append (flat_implication imp) (all_flat rest), length-flat_implication imp)

  -- The array of any basis fills the allocated size exactly, and the reader of the format gets back
  -- the premises, the conclusions and the supports of the implications, in their order.
  pub read_basis-flat_basis :
      (result : List (CImplication B))
      → (read_basis (flat_basis result) ≡ map listed result)
        × (length (flat_basis result) ≡ basis_total result)
  unfolding flat_basis basis_total
  read_basis-flat_basis result =
      let written = write-loop result (length result ∷ []) in
      (
        ap read_basis written ∙ read_items-all_flat result,
        omega (arith, ap length written, size-loop result 1),
      )
