-- ===== src/LinCbo/Total.antt =====
-- algo/lincbo.c: the loop of `lincbo_lin_closure_rc` ends. The attributes of `D` outside `Zwork`
-- are settled; each round settles one more, and there are at most `nb_attributes`.
use fca4j_project.Base.{
  ℕ, zero, suc, ◌+◌, ◌-◌, ◌<◌, ◌≡◌, sym, ◌∙◌, false, List, [], ◌∷◌, Option, none, some, length,
  get_or, set, leb, ltb, ◌==◌, elem, Bool-cases, inl, inr, arith, List-cases, ==_refl, ◌&&◌, ap,
}
use fca4j_project.Roaring.{Roaring}
use fca4j_project.Roaring.Sets.{Has, Subset, Below}
use fca4j_project.Roaring.Cardinal.{cardinality-lt, cardinality-le}
use fca4j_project.LinCbo.{
  LinCbOState,
  Closed,
  Closed.{failed, out_of_fuel, closed},
  bm_min,
  implication_at,
  with_default,
  fire,
  scan,
  drain,
  init_count,
  lincbo_lin_closure_rc,
}

module _ {B : Type 0} ⦃R : Roaring B⦄ where
  open R use {
    contains, remove, or, andnot, is_empty, to_list, cardinality, minimum, contains-or,
    contains-andnot, contains-remove, is_empty_iff, elem-to_list, minimum-cons,
  }

  -- The conclusions, that of the empty premise too, are sets of attributes.
  abbrev pub ConclusionsBelow : ℕ → LinCbOState B → Type 0
  ConclusionsBelow n st = (i : ℕ) → Below n (implication_at st i).conclusion

  -- What grows in a round: `d'` extends `d`, and the settled attributes stay settled.
  abbrev Progress : ℕ → B → B → B → B → Type 0
  Progress n d z d' z' =
      Subset d d' × Below n d' × Subset z' d' × Subset (andnot d z) (andnot d' z')

  Progress-refl : (n : ℕ) (d z : B) → Below n d → Subset z d → Progress n d z d z
  Progress-refl n d z below sub = (λ x h. h, below, sub, λ x h. h)

  Progress-trans :
      (n : ℕ) (d z d1 z1 d2 z2 : B)
      → Progress n d z d1 z1
      → Progress n d1 z1 d2 z2
      → Progress n d z d2 z2
  Progress-trans n d z d1 z1 d2 z2 p q = (λ x h. q.0 x (p.0 x h), q.1, q.2, λ x h. q.3 x (p.3 x h))

  add-Progress :
      (n : ℕ) (new d z : B)
      → Below n new
      → Below n d
      → Subset z d
      → Progress n d z (or d (andnot new d)) (or z (andnot new d))
  add-Progress n new d z small below sub = (
    λ x h. ground (arith, contains-or d (andnot new d) x),
    λ x h.
        ground (arith, contains-or d (andnot new d) x, contains-andnot new d x, small x, below x),
    λ x h. ground (arith, contains-or d (andnot new d) x, contains-or z (andnot new d) x, sub x),
    λ x h. ground (
      arith,
      contains-andnot (or d (andnot new d)) (or z (andnot new d)) x,
      contains-andnot d z x,
      contains-andnot new d x,
      contains-or d (andnot new d) x,
      contains-or z (andnot new d) x,
    ),
  )

  abbrev FireProgress : ℕ → B → B → Option (B × B) → Type 0
  FireProgress n d z none = Unit
  FireProgress n d z (some fired) = Progress n d z fired.0 fired.1

  fire-Progress :
      (from n : ℕ) (conclusion d z : B)
      → Below n conclusion
      → Below n d
      → Subset z d
      → FireProgress n d z (fire from conclusion d z)
  unfolding fire
  fire-Progress from n conclusion d z small below sub =
      elim (Bool-cases (ltb (bm_min conclusion + 1) from && leb from (bm_min d + 1))) [
        | inl e ↦ rw (e, fire) tt
        | inr e ↦ elim (Bool-cases (ltb (bm_min (andnot conclusion d) + 1) from)) [
          | inl e' ↦ rw (e, e', fire) tt
          | inr e' ↦ rw (e, e', fire) (add-Progress n conclusion d z small below sub)
        ]
      ]

  abbrev ScanProgress : ℕ → B → B → Option (B × B × List ℕ) → Type 0
  ScanProgress n d z none = Unit
  ScanProgress n d z (some next) = Progress n d z next.0 next.1

  later :
      (n : ℕ) (d z d1 z1 : B) (result : Option (B × B × List ℕ))
      → Progress n d z d1 z1
      → ScanProgress n d1 z1 result
      → ScanProgress n d z result
  later n d z d1 z1 none p q = tt
  later n d z d1 z1 (some next) p q = Progress-trans n d z d1 z1 next.0 next.1 p q

  -- A scan that goes on after an implication fired.
  after_fire :
      (n : ℕ) (d z : B) (result : Option (B × B)) (go_on : B × B → Option (B × B × List ℕ))
      → FireProgress n d z result
      → ((f : B × B) → Below n f.0 → Subset f.1 f.0 → ScanProgress n f.0 f.1 (go_on f))
      → ScanProgress n d z (elim result [ none ↦ none | some f ↦ go_on f ])
  after_fire n d z none go_on p q = tt
  after_fire n d z (some f) go_on p q = later n d z f.0 f.1 (go_on f) p (q f p.1 p.2)

  scan-Progress :
      (st : LinCbOState B) (from nimp n : ℕ) (nums : List ℕ) (d z : B) (count : List ℕ)
      → ConclusionsBelow n st
      → Below n d
      → Subset z d
      → ScanProgress n d z (scan st from nimp nums d z count)
  unfolding scan
  scan-Progress st from nimp n [] d z count small below sub = Progress-refl n d z below sub
  scan-Progress st from nimp n (num ∷ rest) d z count small below sub =
      elim (Bool-cases (leb nimp num)) [
        | inl e ↦ rw (e, scan) (scan-Progress st from nimp n rest d z count small below sub)
        | inr e ↦ elim (Bool-cases (get_or count num 0 == 1)) [
          | inr e' ↦
              rw (e, e', scan)
                (scan-Progress st from nimp n rest d z (set count num (get_or count num 0 - 1))
                  small below sub)
          | inl e' ↦
              rw (e, e', scan)
                (after_fire n d z (fire from (implication_at st num).conclusion d z)
                  (λ f. scan st from nimp rest f.0 f.1 (set count num 0))
                  (fire-Progress from n (implication_at st num).conclusion d z (small num) below
                    sub)
                  (λ f. scan-Progress st from nimp n rest f.0 f.1 (set count num 0) small))
        ]
      ]

  -- The result is not for want of fuel, and a closure extends `d` within the attributes.
  abbrev pub IsClosureOf : ℕ → B → Closed B → Type 0
  IsClosureOf n d failed = Unit
  IsClosureOf n d out_of_fuel = ⊥
  IsClosureOf n d (closed d' count) = Subset d d' × Below n d'

  minimum-Has : (z : B) → is_empty z ≡ false → Has z (minimum z)
  minimum-Has z e = elim (List-cases (to_list z)) [
    | inl nothing ↦ ground (arith, e, (is_empty_iff z).1 nothing)
    | inr (x, rest, cons) ↦
        rw (minimum-cons z x rest cons)
          (sym (elem-to_list z x) ∙ ap (elem x) cons ∙ ground (arith, ==_refl x))
  ]

  -- Taking the minimum out of Zwork settles it, and what the scan does keeps it settled.
  settle :
      (n : ℕ) (d z d' z' : B) (m : ℕ)
      → Subset z d
      → Has z m
      → Progress n d (remove z m) d' z'
      → cardinality (andnot d z) < cardinality (andnot d' z')
  settle n d z d' z' m sub has p =
      let grows : Subset (andnot d z) (andnot d (remove z m)) = λ x h.
        ground
          (arith, contains-andnot d z x, contains-andnot d (remove z m) x, contains-remove z m x) in
      let settled : Has (andnot d (remove z m)) m =
        ground
          (arith, contains-andnot d (remove z m) m, contains-remove z m m, sub m has, ==_refl m) in
      cardinality-lt (andnot d z) (andnot d' z') (λ x h. p.3 x (grows x h))
        (λ back. ground (arith, back m (p.3 m settled), contains-andnot d z m, has))

  with_default-Subset : (b : B) (d : Option B) → Subset b (with_default b d)
  with_default-Subset b none x h = h
  with_default-Subset b (some d) x h = ground (arith, contains-or b d x)

  weaken : (n : ℕ) (d d' : B) (r : Closed B) → Subset d d' → IsClosureOf n d' r → IsClosureOf n d r
  weaken n d d' failed sub c = tt
  weaken n d d' out_of_fuel sub c = c
  weaken n d d' (closed e count) sub c = (λ x h. c.0 x (sub x h), c.1)

  after_scan :
      (n : ℕ) (d z : B) (result : Option (B × B × List ℕ)) (go_on : B × B × List ℕ → Closed B)
      → ScanProgress n d z result
      → ((next : B × B × List ℕ) → Progress n d z next.0 next.1 → IsClosureOf n next.0 (go_on next))
      → IsClosureOf n d (elim result [ none ↦ failed | some next ↦ go_on next ])
  after_scan n d z none go_on p q = tt
  after_scan n d z (some next) go_on p q = weaken n d next.0 (go_on next) p.0 (q next p)

  drain-IsClosureOf :
      (fuel : ℕ) (st : LinCbOState B) (from nimp n : ℕ) (d z : B) (count : List ℕ)
      → ConclusionsBelow n st
      → Below n d
      → Subset z d
      → n < fuel + cardinality (andnot d z)
      → IsClosureOf n d (drain fuel st from nimp d z count)
  unfolding drain
  drain-IsClosureOf zero st from nimp n d z count small below sub enough = absurd (
      omega (
        arith,
        enough,
        cardinality-le n (andnot d z) (λ x h. below x (ground (arith, contains-andnot d z x))),
      ))
  drain-IsClosureOf (suc fuel) st from nimp n d z count small below sub enough =
      elim (Bool-cases (is_empty z)) [
        | inl e ↦ rw (e, drain) (λ x h. h, below)
        | inr e ↦
            let nums = get_or st.list (minimum z) [] in
            let kept : Subset (remove z (minimum z)) d =
              λ x h. sub x (ground (arith, contains-remove z (minimum z) x)) in
            rw (e, drain)
              (after_scan n d (remove z (minimum z))
                (scan st from nimp nums d (remove z (minimum z)) count)
                (λ next. drain fuel st from nimp next.0 next.1 next.2)
                (scan-Progress st from nimp n nums d (remove z (minimum z)) count small below kept)
                (λ next p.
                  drain-IsClosureOf fuel st from nimp n next.0 next.1 next.2 small p.1 p.2 (
                    omega (
                      arith,
                      enough,
                      settle n d z next.0 next.1 (minimum z) sub (minimum-Has z e) p,
                    ))))
      ]

  -- When the conclusions known, the given set `b` and its new part `z` hold only attributes of
  -- the context, one more round than there are attributes is enough for the linear closure:
  -- it either gives up or returns a set of attributes that includes `b`.
  pub lin_closure-total :
      (st : LinCbOState B) (b z : B) (from n : ℕ) (prev_count : List ℕ)
      → ConclusionsBelow n st
      → Below n (with_default b st.default_conclusion)
      → Below n b
      → Subset z b
      → IsClosureOf n b (lincbo_lin_closure_rc (n + 1) st b from z prev_count)
  unfolding lincbo_lin_closure_rc
  lin_closure-total st b z from n prev_count small below_default below sub =
      let start = with_default b st.default_conclusion in
      let grows = with_default-Subset b st.default_conclusion in
      weaken n b start
        (drain (n + 1) st from (length st.implications) start z (init_count st b prev_count)) grows
        (drain-IsClosureOf (n + 1) st from (length st.implications) n start z
          (init_count st b prev_count) small below_default (λ x h. grows x (sub x h)) (omega arith))
