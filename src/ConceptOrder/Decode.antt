-- ===== src/ConceptOrder/Decode.antt =====
-- A reader of the flat format, written from the description above `co_to_flat_array`, and that it
-- undoes a writer of lists.
use fca4j_project.Base.{
  ℕ, zero, suc, ◌+◌, ◌*◌, ◌≡◌, refl, ap, sym, ◌∙◌, List, [], ◌∷◌, ◌++◌, Option, none, some, foldl,
  length, arith, length-append, map,
}
use mathlib.Core.List.{append_assoc, append-nil}
use fca4j_project.ConceptOrder.Flat.{push}

infixl 5 ◌>>=◌
abbrev pub ◌>>=◌ {ℓ κ} : {A : Type ℓ} {B : Type κ} → Option A → (A → Option B) → Option B
none >>= f = none
some a >>= f = f a

-- `n` integers.
abbrev pub read_ints : ℕ → List ℕ → Option (List ℕ × List ℕ)
read_ints zero xs = some ([], xs)
read_ints (suc n) [] = none
read_ints (suc n) (x ∷ xs) = read_ints n xs >>= λ (ys, rest). some (x ∷ ys, rest)

-- A set: its cardinality and its elements.
abbrev pub read_set : List ℕ → Option (List ℕ × List ℕ)
read_set [] = none
read_set (n ∷ xs) = read_ints n xs

-- `n` pairs (child, parent).
abbrev pub read_pairs : ℕ → List ℕ → Option (List (ℕ × ℕ) × List ℕ)
read_pairs zero xs = some ([], xs)
read_pairs (suc n) [] = none
read_pairs (suc n) (x ∷ []) = none
read_pairs (suc n) (x ∷ y ∷ xs) = read_pairs n xs >>= λ (ps, rest). some ((x, y) ∷ ps, rest)

-- `n` concepts: a reduced extent and a reduced intent.
abbrev pub read_concepts : ℕ → List ℕ → Option (List (List ℕ × List ℕ) × List ℕ)
read_concepts zero xs = some ([], xs)
read_concepts (suc n) xs = read_set xs >>= λ (re, xs1).
    read_set xs1 >>= λ (ri, xs2). read_concepts n xs2 >>= λ (cs, rest). some ((re, ri) ∷ cs, rest)

abbrev pub all_read :
    List (ℕ × ℕ)
    → Option (List (List ℕ × List ℕ) × List ℕ)
    → Option (List (ℕ × ℕ) × List (List ℕ × List ℕ))
all_read es none = none
all_read es (some (cs, [])) = some (es, cs)
all_read es (some (cs, _ ∷ _)) = none

abbrev pub decode : List ℕ → Option (List (ℕ × ℕ) × List (List ℕ × List ℕ))
decode [] = none
decode (n ∷ []) = none
decode (n ∷ e ∷ xs) = read_pairs e xs >>= λ (es, rest). all_read es (read_concepts n rest)

-- An edge (child, parent).
abbrev pub edge : ℕ → ℕ → ℕ × ℕ
edge c p = (c, p)

-- The writers, as functions of what they write.
abbrev pub pairs_ints : List (ℕ × ℕ) → List ℕ
pairs_ints [] = []
pairs_ints ((x, y) ∷ ps) = x ∷ y ∷ pairs_ints ps

abbrev pub set_ints : List ℕ → List ℕ
set_ints xs = length xs ∷ xs

abbrev pub concepts_ints : List (List ℕ × List ℕ) → List ℕ
concepts_ints [] = []
concepts_ints ((re, ri) ∷ cs) = set_ints re ++ (set_ints ri ++ concepts_ints cs)

pub read-ints : (xs rest : List ℕ) → read_ints (length xs) (xs ++ rest) ≡ some (xs, rest)
read-ints [] rest = refl
read-ints (x ∷ xs) rest = rw (read-ints xs rest)

pub read-pairs :
    (ps : List (ℕ × ℕ)) (rest : List ℕ)
    → read_pairs (length ps) (pairs_ints ps ++ rest) ≡ some (ps, rest)
read-pairs [] rest = refl
read-pairs ((x, y) ∷ ps) rest = rw (read-pairs ps rest)

read-concepts :
    (cs : List (List ℕ × List ℕ)) (rest : List ℕ)
    → read_concepts (length cs) (concepts_ints cs ++ rest) ≡ some (cs, rest)
read-concepts [] rest = refl
read-concepts ((re, ri) ∷ cs) rest = rw (
  append_assoc re (set_ints ri ++ concepts_ints cs) rest,
  read-ints re (length ri ∷ ((ri ++ concepts_ints cs) ++ rest)),
  append_assoc ri (concepts_ints cs) rest,
  read-ints ri (concepts_ints cs ++ rest),
  read-concepts cs rest,
)

pub decode-ints :
    (ps : List (ℕ × ℕ)) (cs : List (List ℕ × List ℕ))
    → decode (length cs ∷ length ps ∷ (pairs_ints ps ++ concepts_ints cs)) ≡ some (ps, cs)
decode-ints ps cs =
    let all_of : read_concepts (length cs) (concepts_ints cs) ≡ some (cs, []) =
      ap (read_concepts (length cs)) (sym (append-nil (concepts_ints cs))) ∙ read-concepts cs [] in
    rw (read-pairs ps (concepts_ints cs), all_of)

pub pairs_ints-append :
    (ps qs : List (ℕ × ℕ)) → pairs_ints (ps ++ qs) ≡ pairs_ints ps ++ pairs_ints qs
pairs_ints-append [] qs = refl
pairs_ints-append ((x, y) ∷ ps) qs = rw (pairs_ints-append ps qs)

pub concepts_ints-append :
    (cs ds : List (List ℕ × List ℕ))
    → concepts_ints (cs ++ ds) ≡ concepts_ints cs ++ concepts_ints ds
concepts_ints-append [] ds = refl
concepts_ints-append ((re, ri) ∷ cs) ds = simp (concepts_ints-append cs ds, append_assoc)

pub length-pairs_ints : (ps : List (ℕ × ℕ)) → length (pairs_ints ps) ≡ 2 * length ps
length-pairs_ints [] = refl
length-pairs_ints ((x, y) ∷ ps) = omega (arith, length-pairs_ints ps)

pub foldl-push : (buf xs : List ℕ) → foldl push buf xs ≡ buf ++ xs
foldl-push buf [] = sym (append-nil buf)
foldl-push buf (x ∷ xs) = foldl-push (push buf x) xs ∙ append_assoc buf (x ∷ []) xs

pub foldl-pairs :
    (c : ℕ) (buf ps : List ℕ)
    → foldl (λ b parent. push (push b c) parent) buf ps ≡ buf ++ pairs_ints (map (edge c) ps)
foldl-pairs c buf [] = sym (append-nil buf)
foldl-pairs c buf (p ∷ ps) = foldl-pairs c (push (push buf c) p) ps ∙ simp append_assoc

pub length-concepts_ints :
    (cs : List (List ℕ × List ℕ)) (re ri : List ℕ)
    → length (concepts_ints (cs ++ (re, ri) ∷ []))
      ≡ length (concepts_ints cs) + (1 + length re) + (1 + length ri)
length-concepts_ints [] re ri =
    omega (arith, length-append re (set_ints ri ++ []), length-append ri [])
length-concepts_ints ((re', ri') ∷ cs) re ri = omega (
  arith,
  length-concepts_ints cs re ri,
  length-append re' (set_ints ri' ++ concepts_ints (cs ++ (re, ri) ∷ [])),
  length-append ri' (concepts_ints (cs ++ (re, ri) ∷ [])),
  length-append re' (set_ints ri' ++ concepts_ints cs),
  length-append ri' (concepts_ints cs),
)
