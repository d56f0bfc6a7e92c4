-- ===== src/Clarification/Outer.antt =====
-- core/clarification.c: the outer loop of `clarify_context`.
use fca4j_project.Base.{
  ℕ, zero, suc, ◌+◌, ◌<◌, ◌≤◌, ◌≡◌, ◌↔◌, refl, sym, ◌∙◌, ap, true, false, ◌&&◌, List, Option, none,
  some, length, get_or, set, if◌then◌else◌, ltb, ◌==◌, for_to, Bool-cases, inl, inr, arith, ==_iff,
  lt_iff, get_or-set_ne, length-set,
}
use mathlib.Core.Path.{subst}
use fca4j_project.Roaring.{Roaring}
use fca4j_project.Context.{BinaryContext, col}
use fca4j_project.Clarification.{Classes, classified, join_class}
use fca4j_project.Clarification.Partition.{
  is_class, is_some, in_class, in_class-set, classified-set, classified_cell, same_column, Joining,
  join_class-Joining,
}

-- A cell that is set, if at all, to `cls`.
cell_only :
    (o : Option ℕ) (cls c : ℕ)
    → is_some o ≡ is_class o cls
    → is_class o c ≡ (is_class o cls && cls == c)
cell_only none cls c e = refl
cell_only (some d) cls c e = ground arith

unset_cell : (o : Option ℕ) (c : ℕ) → is_some o ≡ false → is_class o c ≡ false
unset_cell none c e = refl
unset_cell (some d) c e = ground arith

pub unclassified :
    (class_of : List (Option ℕ)) (x c : ℕ)
    → classified class_of x ≡ false
    → in_class class_of x c ≡ false
unclassified class_of x c e =
    unset_cell (get_or class_of x none) c (sym (classified_cell class_of x) ∙ e)

pub set_cell : (o : Option ℕ) (c : ℕ) → is_class o c ≡ true → is_some o ≡ true
set_cell none c e = ground arith
set_cell (some d) c e = refl

module _ {B : Type 0} ⦃R : Roaring B⦄ where
  open R use {create, contains, add, equals, contains-create, contains-add, equals_iff}

  pub same_refl : (ctx : BinaryContext B) (a : ℕ) → same_column ctx a a ≡ true
  same_refl ctx a = (equals_iff (col ctx a) (col ctx a)).1 (λ y. refl)

  pub same_sym :
      (ctx : BinaryContext B) (a b : ℕ) → same_column ctx a b ≡ true → same_column ctx b a ≡ true
  same_sym ctx a b e =
      (equals_iff (col ctx b) (col ctx a)).1 (λ y. sym ((equals_iff (col ctx a) (col ctx b)).0 e y))

  pub same_trans :
      (ctx : BinaryContext B) (a b c : ℕ)
      → same_column ctx a b ≡ true
      → same_column ctx b c ≡ true
      → same_column ctx a c ≡ true
  same_trans ctx a b c p q =
      (equals_iff (col ctx a) (col ctx c)).1 (λ y.
        (equals_iff (col ctx a) (col ctx b)).0 p y ∙ (equals_iff (col ctx b) (col ctx c)).0 q y)

  -- After the rounds of the attributes below `n`: the class sets agree with `class_of`, classified
  -- attributes are in one class exactly when their columns are equal, and an attribute that is not
  -- classified has the column of no class.
  pub record IsPartition (ctx : BinaryContext B) (n : ℕ) (s : Classes B) : Type 0 where
    pub length_of : length s.class_of ≡ ctx.nb_attributes
    pub members :
        (x c : ℕ)
        → c < length s.classes
        → contains (get_or s.classes c create) x ≡ in_class s.class_of x c
    pub in_range : (x c : ℕ) → in_class s.class_of x c ≡ true → c < length s.classes
    pub columns :
        (x y c d : ℕ)
        → in_class s.class_of x c ≡ true
        → in_class s.class_of y d ≡ true
        → (same_column ctx x y ≡ true) ↔ (c ≡ d)
    pub free :
        (x y c : ℕ)
        → in_class s.class_of x c ≡ true
        → classified s.class_of y ≡ false
        → y < ctx.nb_attributes
        → same_column ctx x y ≡ false
    pub done : (x : ℕ) → x < n → classified s.class_of x ≡ true

  pub none_yet :
      (ctx : BinaryContext B) (n : ℕ) (s : Classes B)
      → IsPartition ctx n s
      → (x : ℕ) → in_class s.class_of x (length s.classes) ≡ false
  none_yet ctx n s p x = elim (Bool-cases (in_class s.class_of x (length s.classes))) [
    | inl e ↦ absurd (omega (arith, p.in_range x (length s.classes) e))
    | inr e ↦ e
  ]

  pub start-Joining :
      (ctx : BinaryContext B) (a : ℕ) (s : Classes B)
      → a < ctx.nb_attributes
      → IsPartition ctx a s
      → classified s.class_of a ≡ false
      → Joining ctx a
          (length s.classes)
          s.class_of
          (a + 1)
          (add create a, set s.class_of a (some (length s.classes)))
  start-Joining ctx a s lt p e =
      let cls = length s.classes in
      let room : a < length s.class_of = omega (arith, p.length_of) in
      let none_old = none_yet ctx a s p in
      record {
        same_length = length-set s.class_of a (some cls);
        kept = λ x h.
            get_or-set_ne s.class_of a x (some cls) none
              (λ same. cc (h, e, ap (classified s.class_of) same));
        members = λ x. ground (
          arith,
          contains-add create a x,
          contains-create x,
          in_class-set s.class_of a cls x room,
          none_old x,
        );
        fresh = λ x h. elim (Bool-cases (x == a)) [
          | inl here ↦
              let self : same_column ctx a x ≡ true =
                ap (same_column ctx a) ((==_iff x a).0 here) ∙ same_refl ctx a in
              ground (arith, in_class-set s.class_of a cls x room, here, self)
          | inr other ↦ elim (Bool-cases (ltb x a)) [
            | inl before ↦ absurd (cc (h, p.done x ((lt_iff x a).0 before)))
            | inr after ↦
                ground (arith, in_class-set s.class_of a cls x room, none_old x, other, after)
          ]
        ];
        only = λ x h. ground (
          arith,
          classified-set s.class_of a cls x room,
          in_class-set s.class_of a cls x room,
          none_old x,
        );
      }

  -- The inner loop as a whole.
  pub joined-Joining :
      (ctx : BinaryContext B) (a cls : ℕ) (old : List (Option ℕ)) (s : B × List (Option ℕ)) (k : ℕ)
      → length old ≡ ctx.nb_attributes
      → a + 1 + k ≤ ctx.nb_attributes
      → ((x : ℕ) → in_class old x cls ≡ false)
      → Joining ctx a cls old (a + 1) s
      → Joining ctx a cls old (a + 1 + k) (for_to k (λ i t. join_class ctx a cls (a + 1 + i) t) s)
  joined-Joining ctx a cls old s zero len fits free j =
      subst (λ b. Joining ctx a cls old b s) (omega arith) j
  joined-Joining ctx a cls old s (suc k) len fits free j =
      subst
        (λ b.
          Joining ctx a cls old b (for_to (suc k) (λ i t. join_class ctx a cls (a + 1 + i) t) s))
        (omega arith)
        (join_class-Joining ctx a cls old (a + 1 + k)
          (for_to k (λ i t. join_class ctx a cls (a + 1 + i) t) s) (omega arith) free
          (joined-Joining ctx a cls old s k len (omega arith) free j))

  -- The cells after the inner loop, from those before.
  pub new_class :
      (ctx : BinaryContext B) (a cls : ℕ) (old : List (Option ℕ)) (n : ℕ) (s : B × List (Option ℕ))
      (x c : ℕ)
      → Joining ctx a cls old n s
      → in_class s.1 x c ≡ (
          if classified old x
          then in_class old x c
          else (ltb x n && same_column ctx a x) && cls == c)
  new_class ctx a cls old n s x c j = elim (Bool-cases (classified old x)) [
    | inl e ↦ rw e (ap (λ o. is_class o c) (j.kept x e))
    | inr e ↦ rw e (
        cell_only (get_or s.1 x none) cls c (sym (classified_cell s.1 x) ∙ j.only x e)
        ∙ ap (λ b. b && cls == c) (j.fresh x e))
  ]
