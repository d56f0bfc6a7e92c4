-- ===== src/Clarification/Partition.antt =====
-- core/clarification.c: the classes partition the attributes by equal columns.
use fca4j_project.Base.{
  ℕ, suc, ◌<◌, ◌≡◌, refl, sym, ◌∙◌, ap, Bool, true, false, ◌&&◌, ◌||◌, List, Option, none, some,
  length, get_or, set, ltb, ◌==◌, Bool-cases, inl, inr, arith, ==_refl, ==_iff, get_or-set_self,
  get_or-set_ne, length-set,
}
use fca4j_project.Roaring.{Roaring}
use fca4j_project.Context.{BinaryContext, col}
use fca4j_project.Clarification.{classified, join_class}

-- class_of[x] is `c`.
abbrev pub is_class : Option ℕ → ℕ → Bool
is_class none c = false
is_class (some d) c = d == c

abbrev pub in_class : List (Option ℕ) → ℕ → ℕ → Bool
in_class class_of x c = is_class (get_or class_of x none) c

abbrev pub is_some : Option ℕ → Bool
is_some none = false
is_some (some d) = true

pub classified_cell :
    (class_of : List (Option ℕ)) (x : ℕ) → classified class_of x ≡ is_some (get_or class_of x none)
classified_cell class_of x = go (get_or class_of x none)
  where
    go : (o : Option ℕ) → (elim o [ none ↦ false | some c ↦ true ]) ≡ is_some o
    go none = refl
    go (some c) = refl

-- Attribute `b` put into class `c`.
pub in_class-set :
    (class_of : List (Option ℕ)) (b c x : ℕ)
    → b < length class_of
    → in_class (set class_of b (some c)) x c ≡ (x == b || in_class class_of x c)
in_class-set class_of b c x lt = elim (Bool-cases (x == b)) [
  | inl e ↦
      let cell : get_or (set class_of b (some c)) x none ≡ some c =
        ap (λ k. get_or (set class_of b (some c)) k none) ((==_iff x b).0 e)
        ∙ get_or-set_self class_of b (some c) none lt in
      ground (arith, ap (λ o. is_class o c) cell, e, ==_refl c)
  | inr e ↦
      let cell = get_or-set_ne class_of b x (some c) none (λ same. ground (arith, e)) in
      ground (arith, ap (λ o. is_class o c) cell, e)
]

pub classified-set :
    (class_of : List (Option ℕ)) (b c x : ℕ)
    → b < length class_of
    → classified (set class_of b (some c)) x ≡ (x == b || classified class_of x)
classified-set class_of b c x lt = elim (Bool-cases (x == b)) [
  | inl e ↦
      let cell : get_or (set class_of b (some c)) x none ≡ some c =
        ap (λ k. get_or (set class_of b (some c)) k none) ((==_iff x b).0 e)
        ∙ get_or-set_self class_of b (some c) none lt in
      ground (
        arith,
        classified_cell (set class_of b (some c)) x,
        classified_cell class_of x,
        ap is_some cell,
        e,
      )
  | inr e ↦
      let cell = get_or-set_ne class_of b x (some c) none (λ same. ground (arith, e)) in
      ground (
        arith,
        classified_cell (set class_of b (some c)) x,
        classified_cell class_of x,
        ap is_some cell,
        e,
      )
]

module _ {B : Type 0} ⦃R : Roaring B⦄ where
  open R use {create, contains, add, equals, contains-create, contains-add, equals_iff}

  abbrev pub same_column : BinaryContext B → ℕ → ℕ → Bool
  same_column ctx a b = equals (col ctx a) (col ctx b)

  -- The inner loop before the rounds of the attributes from `b` on: the class set holds the
  -- attributes of class `cls`; those below `b` with the column of `a` are classified.
  pub record Joining (ctx : BinaryContext B) (a cls : ℕ) (old : List (Option ℕ)) (b : ℕ)
      (s : B × List (Option ℕ)) : Type 0 where
    pub same_length : length s.1 ≡ length old
    pub kept : (x : ℕ) → classified old x ≡ true → get_or s.1 x none ≡ get_or old x none
    pub members : (x : ℕ) → contains s.0 x ≡ in_class s.1 x cls
    pub fresh :
        (x : ℕ) → classified old x ≡ false → in_class s.1 x cls ≡ (ltb x b && same_column ctx a x)
    pub only : (x : ℕ) → classified old x ≡ false → classified s.1 x ≡ in_class s.1 x cls

  -- An attribute that was free is not taken before its round.
  later_than_taken :
      (ctx : BinaryContext B) (a cls : ℕ) (old : List (Option ℕ)) (b : ℕ) (s : B × List (Option ℕ))
      (x : ℕ)
      → Joining ctx a cls old b s
      → classified old x ≡ false
      → x == b ≡ true
      → ¬ (classified s.1 b ≡ true)
  later_than_taken ctx a cls old b s x j h here e =
      let there : classified s.1 x ≡ true = ap (classified s.1) ((==_iff x b).0 here) ∙ e in
      ground (arith, j.only x h, j.fresh x h, there, here)

  pub join_class-Joining :
      (ctx : BinaryContext B) (a cls : ℕ) (old : List (Option ℕ)) (b : ℕ) (s : B × List (Option ℕ))
      → b < length old
      → ((x : ℕ) → in_class old x cls ≡ false)
      → Joining ctx a cls old b s
      → Joining ctx a cls old (suc b) (join_class ctx a cls b s)
  unfolding join_class
  join_class-Joining ctx a cls old b s lt none_yet j =
      let room : b < length s.1 = omega (arith, j.same_length) in
      elim (Bool-cases (classified s.1 b)) [
        | inl e ↦
            rw (e, join_class)
              (record {
                same_length = j.same_length;
                kept = j.kept;
                members = j.members;
                fresh = λ x h. elim (Bool-cases (x == b)) [
                  | inl here ↦ absurd (later_than_taken ctx a cls old b s x j h here e)
                  | inr other ↦ ground (arith, j.fresh x h, other)
                ];
                only = j.only;
              })
        | inr e ↦ elim (Bool-cases (same_column ctx a b)) [
          | inr e' ↦
              rw (e, e', join_class)
                (record {
                  same_length = j.same_length;
                  kept = j.kept;
                  members = j.members;
                  fresh = λ x h. elim (Bool-cases (x == b)) [
                    | inl here ↦
                        let differs : same_column ctx a x ≡ false =
                          ap (same_column ctx a) ((==_iff x b).0 here) ∙ e' in
                        ground (arith, j.fresh x h, here, differs)
                    | inr other ↦ ground (arith, j.fresh x h, other)
                  ];
                  only = j.only;
                })
          | inl e' ↦
              rw (e, e', join_class)
                (record {
                  same_length = length-set s.1 b (some cls) ∙ j.same_length;
                  kept = λ x h. elim (Bool-cases (x == b)) [
                    | inl here ↦
                        let taken : classified s.1 x ≡ true =
                          classified_cell s.1 x
                          ∙ ap is_some (j.kept x h)
                          ∙ sym (classified_cell old x)
                          ∙ h in
                        absurd (cc (e, sym taken ∙ ap (classified s.1) ((==_iff x b).0 here)))
                    | inr other ↦
                        get_or-set_ne s.1 b x (some cls) none (λ same. ground (arith, other))
                        ∙ j.kept x h
                  ];
                  members = λ x.
                      ground
                        (arith, contains-add s.0 b x, in_class-set s.1 b cls x room, j.members x);
                  fresh = λ x h. elim (Bool-cases (x == b)) [
                    | inl here ↦
                        let agrees : same_column ctx a x ≡ true =
                          ap (same_column ctx a) ((==_iff x b).0 here) ∙ e' in
                        ground (arith, in_class-set s.1 b cls x room, here, agrees)
                    | inr other ↦ ground (arith, in_class-set s.1 b cls x room, j.fresh x h, other)
                  ];
                  only = λ x h. ground (
                    arith,
                    classified-set s.1 b cls x room,
                    in_class-set s.1 b cls x room,
                    j.only x h,
                  );
                })
        ]
      ]
