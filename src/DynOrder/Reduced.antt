-- ===== src/DynOrder/Reduced.antt =====
-- core/dynorder.c: `dyn_reduced_extent` keeps the objects that no child has.
use fca4j_project.Base.{
  ℕ, ◌*◌, ◌<◌, ◌≤◌, ◌≡◌, ◌↔◌, refl, ◌∙◌, true, false, List, [], ◌∷◌, length, elem, foldl, arith,
}
use Prim.Native.Nat.{bit_and}
use fca4j_project.Roaring.Sets.{all_visited}
use fca4j_project.Bitset.{bs_test, bs_andnot, bs_copy, word, aw_not}
use fca4j_project.Bitset.Words.{IsWords, length-loop}
use fca4j_project.Bitset.Ops.{test-or_and_andnot, test-to}
use fca4j_project.DynOrder.{DynOrder, at, dyn_reduced_extent}

length-andnot : (dst src : List ℕ) (w : ℕ) → length (bs_andnot dst src w) ≡ length dst
unfolding bs_andnot
length-andnot dst src w = length-loop (λ i x. bit_and x (aw_not (word src i))) w dst

length-copy : (dst src : List ℕ) (w : ℕ) → length (bs_copy dst src w) ≡ length dst
unfolding bs_copy
length-copy dst src w = length-loop (λ i x. word src i) w dst

length-andnots :
    (src : ℕ → List ℕ) (w : ℕ) (children dst : List ℕ)
    → length (foldl (λ r child. bs_andnot r (src child) w) dst children) ≡ length dst
length-andnots src w [] dst = refl
length-andnots src w (child ∷ children) dst =
    length-andnots src w children (bs_andnot dst (src child) w) ∙ length-andnot dst (src child) w

-- Bit `j` of a set that has all its words.
abbrev HasBit : ℕ → ℕ → List ℕ → Type 0
HasBit w j s = (w ≤ length s) × (bs_test s j ≡ true)

andnot-HasBit :
    (w j : ℕ) (s src : List ℕ)
    → j < 64 * w
    → IsWords src
    → HasBit w j (bs_andnot s src w) ↔ (HasBit w j s × (bs_test src j ≡ false))
andnot-HasBit w j s src lt words =
    let len : length (bs_andnot s src w) ≡ length s = length-andnot s src w in
    (
      λ h.
          let fits : w ≤ length s = omega (arith, len, h.0) in
          let bits = (test-or_and_andnot s src w j fits words).2 in
          ((fits, ground (arith, bits, h.1, lt)), ground (arith, bits, h.1, lt)),
      λ h.
          let bits = (test-or_and_andnot s src w j h.0.0 words).2 in
          (omega (arith, len, h.0.0), ground (arith, bits, h.0.1, h.1, lt)),
    )

-- When the output has room for `wo` words and the extents hold words, an object is in the
-- computed set exactly when it is in the extent of `c` and in that of no child; and the number
-- returned is that of the children.
pub dyn_reduced_extent_iff :
    (dyn : DynOrder) (c : ℕ) (rext_out : List ℕ) (j : ℕ)
    → dyn.wo ≤ length rext_out
    → ((v : ℕ) → IsWords (at dyn.ext v))
    → j < 64 * dyn.wo
    → ((bs_test (dyn_reduced_extent dyn c rext_out).0 j ≡ true) ↔ (
        (bs_test (at dyn.ext c) j ≡ true)
        × ((child : ℕ)
            → elem child (at dyn.lower c) ≡ true
            → bs_test (at dyn.ext child) j ≡ false)))
      × ((dyn_reduced_extent dyn c rext_out).1 ≡ length (at dyn.lower c))
unfolding dyn_reduced_extent
dyn_reduced_extent_iff dyn c rext_out j room words lt =
    let start = bs_copy rext_out (at dyn.ext c) dyn.wo in
    let copied = (test-to rext_out (at dyn.ext c) (at dyn.ext c) dyn.wo j room).1 in
    let fits : dyn.wo ≤ length start =
      omega (arith, length-copy rext_out (at dyn.ext c) dyn.wo, room) in
    let visited =
      all_visited (HasBit dyn.wo j) (λ child. bs_test (at dyn.ext child) j ≡ false)
        (λ r child. bs_andnot r (at dyn.ext child) dyn.wo)
        (λ s child. andnot-HasBit dyn.wo j s (at dyn.ext child) lt (words child)) (at dyn.lower c)
        start in
    (
      (
        λ h.
            let (s, out) =
              visited.0 (
                omega (arith, fits, length-andnots (at dyn.ext) dyn.wo (at dyn.lower c) start),
                h,
              ) in
            (ground (arith, copied, s.1, lt), out),
        λ h. (visited.1 ((fits, ground (arith, copied, h.0, lt)), h.1)).1,
      ),
      refl,
    )
