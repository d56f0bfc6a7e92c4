-- ===== src/BitsetRoaring.antt =====
-- core/bitset_roaring.h: conversions between dense bitsets and bitmaps.
pub mod RoundTrip
pub mod Examples
use fca4j_project.Base.{ℕ, ◌*◌, List, replicate, foldl, for_to}
use fca4j_project.Roaring.{Roaring}
use fca4j_project.Bitset.{word, bs_zero, bs_set, word_items}

module _ {B : Type 0} ⦃R : Roaring B⦄ where
  open R use {create, add, to_list}

  -- dst[o >> 6] |= 1 << (o & 63) is what `bs_set` does.
  unfoldable pub bs_from_roaring_into : B → List ℕ → ℕ → List ℕ
  bs_from_roaring_into bm dst w = foldl bs_set (bs_zero dst w) (to_list bm)

  unfoldable pub bs_from_roaring : B → ℕ → List ℕ
  bs_from_roaring bm w = bs_from_roaring_into bm (replicate w 0) w

  unfoldable pub bs_add_to_roaring : List ℕ → B → ℕ → B
  bs_add_to_roaring a bm w = for_to w (λ wi b. foldl add b (word_items 64 (wi * 64) (word a wi))) bm

  unfoldable pub bs_to_roaring : List ℕ → ℕ → B
  bs_to_roaring a w = bs_add_to_roaring a create w
