-- ===== src/Hermes.antt =====
-- algo/hermes.c: the AOC-poset by Hermes. The sets with their references, and the hash of the
-- values.
pub mod Clarify
pub mod Table
pub mod Groups
pub mod Merge
pub mod Block
pub mod Hasse
pub mod Run
pub mod Examples
use fca4j_project.Base.{ℕ, ◌+◌, ◌*◌, ◌%◌, ◌^◌, List, [], ◌∷◌, get_or, foldl}
use Prim.Native.Nat.{bit_xor}
use fca4j_project.Roaring.{Roaring}
use fca4j_project.Bitset.{bs_fmix64}

pub record RefSet (B : Type 0) : Type 0 where
  pub refs : B
  pub values : B

pub record HconceptSet (B : Type 0) : Type 0 where
  pub intent : B
  pub extent : B
  pub values : B

module _ {B : Type 0} ⦃R : Roaring B⦄ where
  open R use {create, add, to_list}

  unfoldable pub refset_create : RefSet B
  refset_create = record { refs = create; values = create }

  unfoldable pub refset_create_with_ref : ℕ → RefSet B
  refset_create_with_ref ref = record { refs = add create ref; values = create }

  unfoldable pub refset_create_with_ref_and_values : ℕ → B → RefSet B
  refset_create_with_ref_and_values ref values = record { refs = add create ref; values = values }

  unfoldable pub refset_create_from_refs : B → RefSet B
  refset_create_from_refs refs = record { refs = refs; values = create }

  -- setToClarify->data[i]; a read out of bounds gives the empty sets.
  abbrev pub refset : List (RefSet B) → ℕ → RefSet B
  refset sets i = get_or sets i (record { refs = create; values = create })

  -- FNV-1a over the elements, and the finaliser, which is that of bitset.h.
  unfoldable pub hermes_hash_values : B → ℕ
  hermes_hash_values bm =
      bs_fmix64
        (foldl (λ h x. (bit_xor h x * 1099511628211) % 2 ^ 64) 1469598103934665603 (to_list bm))
