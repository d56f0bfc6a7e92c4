-- ===== src/Clarification/Round.antt =====
-- core/clarification.c: one round of the outer loop keeps the partition.
use fca4j_project.Base.{
  ℕ, suc, ◌+◌, ◌-◌, ◌<◌, ◌≡◌, ◌↔◌, sym, ◌∙◌, ap, true, false, ◌⊎◌, List, [], ◌∷◌, ◌++◌, Option,
  some, length, get_or, set, ltb, for_to, Bool-cases, inl, inr, arith, lt_iff, length-append,
  get_or-append_left, get_or-append_last,
}
use mathlib.Core.Path.{subst}
use fca4j_project.Roaring.{Roaring}
use fca4j_project.Context.{BinaryContext}
use fca4j_project.Clarification.{Classes, classified, join_class, classify}
use fca4j_project.Clarification.Partition.{is_some, in_class, classified_cell, same_column, Joining}
use fca4j_project.Clarification.Outer.{
  unclassified, same_refl, same_sym, same_trans, IsPartition, none_yet, start-Joining,
  joined-Joining, new_class,
}

module _ {B : Type 0} ⦃R : Roaring B⦄ where
  open R use {create, contains, add, equals}

  module _ (ctx : BinaryContext B) (a : ℕ) (s : Classes B) (t : B × List (Option ℕ))
      (lt : a < ctx.nb_attributes) (p : IsPartition ctx a s)
      (j : Joining ctx a (length s.classes) s.class_of ctx.nb_attributes t) where
    -- A member after the round: an old one of an old class, or a new one of the new class.
    member_cases :
        (x c : ℕ)
        → in_class t.1 x c ≡ true
        → ((classified s.class_of x ≡ true) × (in_class s.class_of x c ≡ true))
          ⊎ ((classified s.class_of x ≡ false)
              × (x < ctx.nb_attributes)
              × (same_column ctx a x ≡ true)
              × (c ≡ length s.classes))
    member_cases x c h =
        let cells = new_class ctx a (length s.classes) s.class_of ctx.nb_attributes t x c j in
        elim (Bool-cases (classified s.class_of x)) [
          | inl e ↦ inl (e, ground (arith, cells, e, h))
          | inr e ↦ inr (
            e,
            ground (arith, cells, e, h),
            ground (arith, cells, e, h),
            ground (arith, cells, e, h),
          )
        ]

    new_columns :
        (x y c d : ℕ)
        → in_class t.1 x c ≡ true
        → in_class t.1 y d ≡ true
        → (same_column ctx x y ≡ true) ↔ (c ≡ d)
    new_columns x y c d hx hy = elim (member_cases x c hx) [
      | inl (ox, ix) ↦ elim (member_cases y d hy) [
        | inl (oy, iy) ↦ p.columns x y c d ix iy
        | inr (oy, ly, sy, dy) ↦ (
          λ same. cc (same, p.free x y c ix oy ly),
          λ e. absurd (omega (arith, p.in_range x c ix, e, dy)),
        )
      ]
      | inr (ox, lx, sx, cx) ↦ elim (member_cases y d hy) [
        | inl (oy, iy) ↦ (
          λ same. cc (same_sym ctx x y same, p.free y x d iy ox lx),
          λ e. absurd (omega (arith, p.in_range y d iy, e, cx)),
        )
        | inr (oy, ly, sy, dy) ↦
            (λ same. cx ∙ sym dy, λ e. same_trans ctx x a y (same_sym ctx a x sx) sy)
      ]
    ]

    -- What is not classified after the round was not before, and has another column than `a`.
    still_free :
        (y : ℕ)
        → classified t.1 y ≡ false
        → y < ctx.nb_attributes
        → (classified s.class_of y ≡ false) × (same_column ctx a y ≡ false)
    still_free y h ly = elim (Bool-cases (classified s.class_of y)) [
      | inl e ↦ absurd (
          cc (
            h,
            classified_cell t.1 y
                ∙ ap is_some (j.kept y e)
                ∙ sym (classified_cell s.class_of y)
                ∙ e,
          ))
      | inr e ↦ (e, ground (arith, j.only y e, j.fresh y e, h, ly))
    ]

    new_free :
        (x y c : ℕ)
        → in_class t.1 x c ≡ true
        → classified t.1 y ≡ false
        → y < ctx.nb_attributes
        → same_column ctx x y ≡ false
    new_free x y c hx hy ly =
        let (oy, differs) = still_free y hy ly in
        elim (member_cases x c hx) [
          | inl (ox, ix) ↦ p.free x y c ix oy ly
          | inr (ox, lx, sx, cx) ↦ elim (Bool-cases (same_column ctx x y)) [
            | inl same ↦ absurd (cc (differs, same_trans ctx a x y sx same))
            | inr e ↦ e
          ]
        ]

    new_done : (x : ℕ) → x < suc a → classified t.1 x ≡ true
    new_done x h = elim (Bool-cases (classified s.class_of x)) [
      | inl e ↦
          classified_cell t.1 x ∙ ap is_some (j.kept x e) ∙ sym (classified_cell s.class_of x) ∙ e
      | inr e ↦ elim (Bool-cases (ltb x a)) [
        | inl before ↦ absurd (cc (e, p.done x ((lt_iff x a).0 before)))
        | inr after ↦
            let here : a ≡ x = ground (arith, after, h) in
            let self : same_column ctx a x ≡ true =
              ap (same_column ctx a) (sym here) ∙ same_refl ctx a in
            ground (arith, j.only x e, j.fresh x e, self, here, lt)
      ]
    ]

    new_in_range : (x c : ℕ) → in_class t.1 x c ≡ true → c < length (s.classes ++ t.0 ∷ [])
    new_in_range x c h = elim (member_cases x c h) [
      | inl (o, i) ↦ omega (arith, length-append s.classes (t.0 ∷ []), p.in_range x c i)
      | inr (o, l, e, last) ↦ omega (arith, length-append s.classes (t.0 ∷ []), last)
    ]

    new_members :
        (x c : ℕ)
        → c < length (s.classes ++ t.0 ∷ [])
        → contains (get_or (s.classes ++ t.0 ∷ []) c create) x ≡ in_class t.1 x c
    new_members x c h = elim (Bool-cases (ltb c (length s.classes))) [
      | inl old ↦
          let lt_c : c < length s.classes = (lt_iff c (length s.classes)).0 old in
          ap (λ (b : B). contains b x) (get_or-append_left s.classes (t.0 ∷ []) c create lt_c)
          ∙ p.members x c lt_c
          ∙ old_class x c lt_c
      | inr new ↦
          let last : length s.classes ≡ c =
            ground (arith, new, h, length-append s.classes (t.0 ∷ [])) in
          subst (λ k. contains (get_or (s.classes ++ t.0 ∷ []) k create) x ≡ in_class t.1 x k) last
            (ap (λ (b : B). contains b x) (get_or-append_last s.classes t.0 create) ∙ j.members x)
    ]
      where
        old_class : (x c : ℕ) → c < length s.classes → in_class s.class_of x c ≡ in_class t.1 x c
        old_class x c lt_c =
            let cells = new_class ctx a (length s.classes) s.class_of ctx.nb_attributes t x c j in
            elim (Bool-cases (classified s.class_of x)) [
              | inl e ↦ ground (arith, cells, e)
              | inr e ↦ ground (arith, cells, e, unclassified s.class_of x c e)
            ]

  pub classify-IsPartition :
      (ctx : BinaryContext B) (a : ℕ) (s : Classes B)
      → a < ctx.nb_attributes
      → IsPartition ctx a s
      → IsPartition ctx (suc a) (classify ctx a s)
  unfolding classify
  classify-IsPartition ctx a s lt p = elim (Bool-cases (classified s.class_of a)) [
    | inl e ↦
        rw (e, classify)
          (record {
            length_of = p.length_of;
            members = p.members;
            in_range = p.in_range;
            columns = p.columns;
            free = p.free;
            done = λ x h. elim (Bool-cases (ltb x a)) [
              | inl before ↦ p.done x ((lt_iff x a).0 before)
              | inr after ↦
                  let here : a ≡ x = ground (arith, after, h) in
                  ap (classified s.class_of) (sym here) ∙ e
            ];
          })
    | inr e ↦
        let cls = length s.classes in
        let start : B × List (Option ℕ) = (add create a, set s.class_of a (some cls)) in
        let t =
          for_to (ctx.nb_attributes - (a + 1)) (λ k r. join_class ctx a cls (a + 1 + k) r) start in
        let j : Joining ctx a cls s.class_of ctx.nb_attributes t =
          subst (λ b. Joining ctx a cls s.class_of b t) (omega arith)
            (joined-Joining ctx a cls s.class_of start (ctx.nb_attributes - (a + 1)) p.length_of
              (omega arith) (none_yet ctx a s p) (start-Joining ctx a s lt p e)) in
        rw (e, classify)
          (record {
            length_of = j.same_length ∙ p.length_of;
            members = new_members ctx a s t lt p j;
            in_range = new_in_range ctx a s t lt p j;
            columns = new_columns ctx a s t lt p j;
            free = new_free ctx a s t lt p j;
            done = new_done ctx a s t lt p j;
          })
  ]
