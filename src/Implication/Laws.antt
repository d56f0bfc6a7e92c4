-- ===== src/Implication/Laws.antt =====
-- The conclusion of an implication never repeats its premise.
use fca4j_project.Base.{ℕ, ◌≡◌, false, ◌&&◌, ◌||◌, Option, arith}
use fca4j_project.Roaring.{Roaring}
use fca4j_project.Implication.{impl_create, impl_create_with_support}

module _ {B : Type 0} ⦃R : Roaring B⦄ where
  open R use {contains, or, contains-andnot, contains-or}

  -- Both constructors store a conclusion disjoint from the premise, and together with the premise
  -- it is the given conclusion and the premise.
  pub impl_create-split :
      (premise conclusion : B) (support : Option B) (n a : ℕ)
      → let i = impl_create premise conclusion n in
        let j = impl_create_with_support premise conclusion support in
        ((contains i.premise a && contains i.conclusion a) ≡ false)
        × ((contains i.premise a || contains i.conclusion a)
            ≡ (contains premise a || contains conclusion a))
        × ((contains j.premise a && contains j.conclusion a) ≡ false)
        × ((contains j.premise a || contains j.conclusion a)
            ≡ (contains premise a || contains conclusion a))
  unfolding impl_create impl_create_with_support
  impl_create-split premise conclusion support n a =
      ground (arith, contains-andnot conclusion premise a)
