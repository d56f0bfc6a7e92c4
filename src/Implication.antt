-- ===== src/Implication.antt =====
-- core/implication.h and core/implication.c: implications between attribute sets.
pub mod Laws
pub mod Examples
use fca4j_project.Base.{ℕ, Option, none, some}
use fca4j_project.Roaring.{Roaring}

pub record CImplication (B : Type 0) : Type 0 where
  pub premise : B
  pub conclusion : B
  -- `none` is NULL
  pub support : Option B
  pub support_size : ℕ

module _ {B : Type 0} ⦃R : Roaring B⦄ where
  open R use {andnot, cardinality}

  unfoldable pub impl_create : B → B → ℕ → CImplication B
  impl_create premise conclusion support_size = record {
    premise = premise;
    conclusion = andnot conclusion premise;
    support = none;
    support_size = support_size;
  }

  -- support ? cardinality : 0
  abbrev pub size_of : Option B → ℕ
  size_of none = 0
  size_of (some s) = cardinality s

  unfoldable pub impl_create_with_support : B → B → Option B → CImplication B
  impl_create_with_support premise conclusion support = record {
    premise = premise;
    conclusion = andnot conclusion premise;
    support = support;
    support_size = size_of support;
  }
