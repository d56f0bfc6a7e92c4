-- ===== src/LincboPruning/Lifo.antt =====
-- algo/lincbo_pruning.c: the stack of the LIFO pruning, while a frame is treated.
use fca4j_project.Base.{
  ℕ, ◌≡◌, ◌⊎◌, refl, sym, ◌∙◌, ap, true, false, List, [], ◌∷◌, ◌++◌, Option, none, some, length,
  set, get_or, if◌then◌else◌, ltb, ◌==◌, elem, arith, Bool-cases, inl, inr, ==_iff, ==_refl, ◌≢◌,
  length-append, length-set, get_or-set_self, get_or-set_ne, get_or-out,
}
use mathlib.Core.Path.{subst}
use fca4j_project.LincboPruning.{
  LincboState, prune_lifo, lifo_unwind, pruning_snapshot, pruning_unwind, pruning_after_child,
  pruning_should_skip, add_implication,
}

-- A rule is as before, or was dropped.
abbrev pub Kept : Option ℕ → Option ℕ → Type 0
Kept before after = (after ≡ before) ⊎ (after ≡ none)

Kept-trans : (x y z : Option ℕ) → Kept x y → Kept y z → Kept x z
Kept-trans x y z (inl e) (inl h) = inl (h ∙ e)
Kept-trans x y z (inr e) (inl h) = inr (h ∙ e)
Kept-trans x y z a (inr h) = inr h

get_or-cleared :
    (rules : List (Option ℕ)) (v j : ℕ)
    → get_or (set rules v none) j none ≡ (if j == v then none else get_or rules j none)
get_or-cleared rules v j = elim (Bool-cases (j == v)) [
  | inr other ↦ rw other (get_or-set_ne rules v j none none (λ e. ground (arith, e, other)))
  | inl same ↦ rw same (
      ap (λ t. get_or (set rules v none) t none) ((==_iff j v).0 same)
      ∙ elim (Bool-cases (ltb v (length rules))) [
        | inl inside ↦ get_or-set_self rules v none none (ground (arith, inside))
        | inr outside ↦
            get_or-out (set rules v none) v none (ground (arith, outside, length-set rules v none))
      ])
]

-- What was pushed is popped, and its rules are dropped.
lifo_unwind_lem :
    (pushed stack : List ℕ) (rules : List (Option ℕ))
    → ((lifo_unwind (length stack) rules (pushed ++ stack)).1 ≡ stack)
      × ((j : ℕ)
          → get_or ((lifo_unwind (length stack) rules (pushed ++ stack)).0) j none
            ≡ (if elem j pushed then none else get_or rules j none))
unfolding lifo_unwind
lifo_unwind_lem [] [] rules = (refl, λ j. refl)
lifo_unwind_lem [] (x ∷ stack) rules =
    let e : ltb (length (x ∷ stack)) (length (x ∷ stack)) ≡ false = ground arith in
    rw (e, lifo_unwind) (refl, λ j. refl)
lifo_unwind_lem (v ∷ pushed) stack rules =
    let e : ltb (length stack) (length (v ∷ (pushed ++ stack))) ≡ true =
      ground (arith, length-append pushed stack) in
    let ih = lifo_unwind_lem pushed stack (set rules v none) in
    rw (e, lifo_unwind)
      (
        ih.0,
        λ j. ih.1 j ∙ elim (Bool-cases (elem j pushed)) [
          | inl later ↦ ground (arith, later)
          | inr first ↦ ground (arith, first, get_or-cleared rules v j)
        ],
      )

module _ {B : Type 0} where
  -- What happens to the state while a frame is treated: its children are recorded, rules are asked
  -- for, implications are added, and the frame of a child is treated and unwound.
  pub data Treats : LincboState B → LincboState B → Type 0 where
    begins : {st : LincboState B} → Treats st st
    records :
        {st st' : LincboState B} (i : ℕ) (r : Option ℕ) (snapshot : ℕ)
        → Treats st st'
        → Treats st (pruning_after_child st' i r snapshot)
    asks :
        {st st' : LincboState B} (i : ℕ) (bp : List ℕ) (snapshot : ℕ)
        → Treats st st'
        → Treats st ((pruning_should_skip st' i bp snapshot).0)
    adds :
        {st st' : LincboState B} (premise bclosure : List ℕ) (support : B)
        → Treats st st'
        → Treats st (add_implication st' premise bclosure support)
    unwinds :
        {st st' st'' : LincboState B}
        → Treats st st'
        → Treats st' st''
        → Treats st (pruning_unwind st'' (pruning_snapshot st'))

  -- The stack has grown, and only the rules of what was pushed are new.
  record Grown (st st' : LincboState B) : Type 0 where
    mode : st'.mode ≡ prune_lifo
    pushed : List ℕ
    stack : st'.pruning_stack ≡ pushed ++ st.pruning_stack
    rules :
        (j : ℕ) → elem j pushed ≡ false → Kept (get_or st.rules j none) (get_or st'.rules j none)

  -- In the LIFO mode.
  unwound :
      (st : LincboState B) (k : ℕ)
      → st.mode ≡ prune_lifo
      → pruning_unwind st k ≡ record st {
        rules = (lifo_unwind k st.rules st.pruning_stack).0;
        pruning_stack = (lifo_unwind k st.rules st.pruning_stack).1;
      }
  unfolding pruning_unwind
  unwound st k e = simp (e, pruning_unwind)

  recorded :
      (st : LincboState B) (i r k : ℕ)
      → st.mode ≡ prune_lifo
      → pruning_after_child st i (some r) k ≡ (
          if ltb r i
          then record st { rules = set st.rules i (some r); pruning_stack = i ∷ st.pruning_stack }
          else st)
  unfolding pruning_after_child
  recorded st i r k e = simp (e, pruning_after_child)

  asked :
      (st : LincboState B) (i : ℕ) (bp : List ℕ) (k : ℕ)
      → st.mode ≡ prune_lifo
      → (pruning_should_skip st i bp k).0 ≡ st
  unfolding pruning_should_skip
  asked st i bp k e = simp (e, pruning_should_skip)

  snapshot_lem :
      (st : LincboState B) → st.mode ≡ prune_lifo → pruning_snapshot st ≡ length st.pruning_stack
  unfolding pruning_snapshot
  snapshot_lem st e = simp (e, pruning_snapshot)

  Grown-pushed :
      (st st' : LincboState B) (i r : ℕ)
      → Grown st st'
      → Grown st
          (record st' { rules = set st'.rules i (some r); pruning_stack = i ∷ st'.pruning_stack })
  Grown-pushed st st' i r g = record {
    mode = g.mode;
    pushed = i ∷ g.pushed;
    stack = ap (λ t. i ∷ t) g.stack;
    rules = λ j e.
        let other : i ≢ j = λ same. ground (arith, e, same, ==_refl j) in
        subst (Kept (get_or st.rules j none))
          (sym (get_or-set_ne st'.rules i j (some r) none other)) (g.rules j (ground (arith, e)));
  }

  Grown-recorded :
      (st st' : LincboState B) (i : ℕ) (r : Option ℕ) (k : ℕ)
      → Grown st st'
      → Grown st (pruning_after_child st' i r k)
  unfolding pruning_after_child
  Grown-recorded st st' i none k g = g
  Grown-recorded st st' i (some r) k g =
      subst (Grown st) (sym (recorded st' i r k g.mode)) (elim (Bool-cases (ltb r i)) [
        | inl e ↦ subst (Grown st) (sym (simp e)) (Grown-pushed st st' i r g)
        | inr e ↦ subst (Grown st) (sym (simp e)) g
      ])

  -- After a frame: the stack is the one before it.
  unwound-Kept :
      (st st' : LincboState B)
      → st.mode ≡ prune_lifo
      → Grown st st'
      → ((pruning_unwind st' (pruning_snapshot st)).mode ≡ prune_lifo)
        × ((pruning_unwind st' (pruning_snapshot st)).pruning_stack ≡ st.pruning_stack)
        × ((j : ℕ)
            → Kept
                (get_or st.rules j none)
                (get_or (pruning_unwind st' (pruning_snapshot st)).rules j none))
  unwound-Kept st st' e g =
      let popped = lifo_unwind_lem g.pushed st.pruning_stack st'.rules in
      subst
        (λ k.
          ((pruning_unwind st' k).mode ≡ prune_lifo)
          × ((pruning_unwind st' k).pruning_stack ≡ st.pruning_stack)
          × ((j : ℕ) → Kept (get_or st.rules j none) (get_or (pruning_unwind st' k).rules j none)))
        (sym (snapshot_lem st e))
        (subst
          (λ u.
            (u.mode ≡ prune_lifo)
            × (u.pruning_stack ≡ st.pruning_stack)
            × ((j : ℕ) → Kept (get_or st.rules j none) (get_or u.rules j none)))
          (sym (unwound st' (length st.pruning_stack) g.mode))
          (
            g.mode,
            ap (λ t. (lifo_unwind (length st.pruning_stack) st'.rules t).1) g.stack ∙ popped.0,
            λ j.
                let at_j =
                  ap (λ t. get_or ((lifo_unwind (length st.pruning_stack) st'.rules t).0) j none)
                    g.stack
                  ∙ popped.1 j in
                elim (Bool-cases (elem j g.pushed)) [
                  | inl new ↦ inr (at_j ∙ simp new)
                  | inr old ↦
                      subst (Kept (get_or st.rules j none)) (sym (at_j ∙ simp old)) (g.rules j old)
                ],
          ))

  Treats-Grown : {st st' : LincboState B} → Treats st st' → st.mode ≡ prune_lifo → Grown st st'
  unfolding add_implication
  Treats-Grown {st} begins e = record {
    mode = e;
    pushed = [];
    stack = refl;
    rules = λ j h. inl refl;
  }
  Treats-Grown {st} (records {st' = st'} i r k t) e = Grown-recorded st st' i r k (Treats-Grown t e)
  Treats-Grown {st} (asks {st' = st'} i bp k t) e =
      let g = Treats-Grown t e in subst (Grown st) (sym (asked st' i bp k g.mode)) g
  Treats-Grown (adds p c s t) e =
      let g = Treats-Grown t e in
      record { mode = g.mode; pushed = g.pushed; stack = g.stack; rules = g.rules }
  Treats-Grown {st} (unwinds {st' = st'} {st'' = st''} t child) e =
      let g = Treats-Grown t e in
      let (mode, stack, rules) = unwound-Kept st' st'' g.mode (Treats-Grown child g.mode) in
      record {
        mode = mode;
        pushed = g.pushed;
        stack = stack ∙ g.stack;
        rules = λ j h. Kept-trans _ _ _ (g.rules j h) (rules j);
      }

  -- In the LIFO mode, whatever a frame does (its children recorded, rules asked for, implications added,
  -- the frames of children treated and unwound, in any order and to any depth), the unwinding at
  -- its end leaves the stack of its beginning, and the rule of each attribute is the one of its
  -- beginning or is dropped: no rule that was found in the frame outlives it.
  pub pruning_unwind-Kept :
      {st st' : LincboState B}
      → Treats st st'
      → st.mode ≡ prune_lifo
      → ((pruning_unwind st' (pruning_snapshot st)).pruning_stack ≡ st.pruning_stack)
        × ((j : ℕ)
            → Kept
                (get_or st.rules j none)
                (get_or (pruning_unwind st' (pruning_snapshot st)).rules j none))
  pruning_unwind-Kept {st} {st'} t e =
      let (mode, stack, rules) = unwound-Kept st st' e (Treats-Grown t e) in (stack, rules)
