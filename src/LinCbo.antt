-- ===== src/LinCbo.antt =====
-- algo/lincbo.c: the attribute implications of a context by LinCbO. The attribute `y`, which
-- starts at -1, is given as `from`, one more: `v > y` is `from <= v`. The two recursions take
-- fuel; what is `none`, or `out_of_fuel`, ran out of it.
pub mod Output
pub mod Prefix
pub mod Total
pub mod Sound
pub mod Run
pub mod Examples
use fca4j_project.Base.{
  ℕ, zero, suc, ◌+◌, ◌-◌, ◌^◌, Bool, true, false, not, ◌&&◌, ◌||◌, List, [], ◌∷◌, ◌++◌, Option,
  none, some, length, get_or, set, replicate, if◌then◌else◌, leb, ltb, ◌==◌, foldl, for_to, map,
}
use fca4j_project.Roaring.{Roaring}
use fca4j_project.Context.{BinaryContext}
use fca4j_project.Closure.{compute_extent, compute_intent}
use fca4j_project.Implication.{CImplication, impl_create_with_support}

pub record LinCbOState (B : Type 0) : Type 0 where
  pub ctx : BinaryContext B
  pub implications : List (CImplication B)
  pub default_conclusion : Option B
  -- for each attribute, the implications with the attribute in their premise
  pub list : List (List ℕ)

-- What lincbo_lin_closure_rc gives: `return false`, or the closure with the counts.
pub data Closed (B : Type 0) : Type 0 where
  failed : Closed B
  out_of_fuel : Closed B
  closed : B → List ℕ → Closed B

-- The last loop: `idx` is pushed on the list of each attribute of the premise.
unfoldable pub register : ℕ → List ℕ → List (List ℕ) → List (List ℕ)
register idx premise list = foldl (λ l a. set l a (get_or l a [] ++ idx ∷ [])) list premise

-- The two iterators, as the lists that they have left.
unfoldable pub equals_until : ℕ → List ℕ → List ℕ → Bool
equals_until from [] [] = true
equals_until from [] (v2 ∷ i2) = leb from v2
equals_until from (v1 ∷ i1) [] = leb from v1
equals_until from (v1 ∷ i1) (v2 ∷ i2) = elim (v1 == v2) [
  | true ↦ equals_until from i1 i2
  | false ↦ leb from v1 && leb from v2
]

module _ {B : Type 0} ⦃R : Roaring B⦄ where
  open R use {
    create, contains, add, remove, or, andnot, equals, is_empty, to_list, cardinality, minimum,
  }

  unfoldable pub lincbo_init : BinaryContext B → LinCbOState B
  lincbo_init ctx = record {
    ctx = ctx;
    implications = [];
    default_conclusion = none;
    list = replicate ctx.nb_attributes [];
  }

  abbrev pub no_implication : CImplication B
  no_implication = record {
    premise = create;
    conclusion = create;
    support = none;
    support_size = 0;
  }

  -- st->implications.data[i]
  abbrev pub implication_at : LinCbOState B → ℕ → CImplication B
  implication_at st i = get_or st.implications i no_implication

  abbrev pub with_default : B → Option B → B
  with_default d none = d
  with_default d (some conclusion) = or d conclusion

  abbrev pub default_of : Option B → B
  default_of none = create
  default_of (some d) = d

  unfoldable pub lincbo_add_implication : LinCbOState B → B → B → B → LinCbOState B
  lincbo_add_implication st premise closure_set support =
      let imp = impl_create_with_support premise closure_set (some support) in
      record st {
        implications = st.implications ++ imp ∷ [];
        default_conclusion =
            if is_empty premise
            then some (or (default_of st.default_conclusion) imp.conclusion)
            else st.default_conclusion;
        list = register (length st.implications) (to_list premise) st.list;
      }

  unfoldable pub lincbo_equals_until : B → B → ℕ → Bool
  lincbo_equals_until s1 s2 from = equals_until from (to_list s1) (to_list s2)

  -- 0x7FFFFFFF for the empty set
  unfoldable pub bm_min : B → ℕ
  bm_min bm = if is_empty bm then 2 ^ 31 - 1 else minimum bm

  -- The counts: those given, then one computed for each newer implication.
  unfoldable pub init_count : LinCbOState B → B → List ℕ → List ℕ
  init_count st b prev_count =
      for_to (length st.implications)
        (λ i count.
          count
          ++ (if ltb i (length prev_count)
              then get_or prev_count i 0
              else cardinality (andnot (implication_at st i).premise b))
            ∷ [])
        []

  -- `imp` fires: `none` is the early `return false`.
  unfoldable pub fire : ℕ → B → B → B → Option (B × B)
  fire from conclusion d z =
      if ltb (bm_min conclusion + 1) from && leb from (bm_min d + 1)
      then none
      else if ltb (bm_min (andnot conclusion d) + 1) from
      then none
      else some (or d (andnot conclusion d), or z (andnot conclusion d))

  -- The loop over list[m]. A count that is 0 or less never fires again, so that it can stay 0.
  unfoldable pub scan : LinCbOState B → ℕ → ℕ → List ℕ → B → B → List ℕ → Option (B × B × List ℕ)
  scan st from nimp [] d z count = some (d, z, count)
  scan st from nimp (num ∷ rest) d z count = elim (leb nimp num) [
    | true ↦ scan st from nimp rest d z count
    | false ↦ elim (get_or count num 0 == 1) [
      | true ↦ elim (fire from (implication_at st num).conclusion d z) [
        | none ↦ none
        | some fired ↦ scan st from nimp rest fired.0 fired.1 (set count num 0)
      ]
      | false ↦ scan st from nimp rest d z (set count num (get_or count num 0 - 1))
    ]
  ]

  -- The loop on Zwork.
  unfoldable pub drain : ℕ → LinCbOState B → ℕ → ℕ → B → B → List ℕ → Closed B
  drain zero st from nimp d z count = out_of_fuel
  drain (suc fuel) st from nimp d z count = elim (is_empty z) [
    | true ↦ closed d count
    | false ↦
        elim (scan st from nimp (get_or st.list (minimum z) []) d (remove z (minimum z)) count) [
          | none ↦ failed
          | some next ↦ drain fuel st from nimp next.0 next.1 next.2
        ]
  ]

  unfoldable pub lincbo_lin_closure_rc : ℕ → LinCbOState B → B → ℕ → B → List ℕ → Closed B
  lincbo_lin_closure_rc fuel st b from z prev_count =
      drain fuel st from (length st.implications) (with_default b st.default_conclusion) z
        (init_count st b prev_count)

  -- The loop `for (i = nb_attributes - 1; i > y; i--)` with `left` rounds left, on the attribute
  -- `from + left - 1` first; `rec` is the recursive call.
  unfoldable pub extend :
      (LinCbOState B → B → ℕ → B → List ℕ → Option (LinCbOState B))
      → ℕ
      → ℕ
      → B
      → List ℕ
      → LinCbOState B
      → Option (LinCbOState B)
  extend rec from zero bo count st = some st
  extend rec from (suc left) bo count st = elim (contains bo (from + left)) [
    | true ↦ extend rec from left bo count st
    | false ↦
        elim (rec st (add bo (from + left)) (from + left + 1) (add create (from + left)) count) [
          | none ↦ none
          | some next ↦ extend rec from left bo count next
        ]
  ]

  unfoldable pub lincbo_step : ℕ → LinCbOState B → B → ℕ → B → List ℕ → Option (LinCbOState B)
  lincbo_step zero st b from z prev_count = none
  lincbo_step (suc fuel) st b from z prev_count =
      elim (lincbo_lin_closure_rc (st.ctx.nb_attributes + 1) st b from z prev_count) [
        | failed ↦ some st
        | out_of_fuel ↦ none
        | closed bo count ↦
            let bclosure = or bo (compute_intent st.ctx (compute_extent st.ctx bo)) in
            let st' = lincbo_add_implication st bo bclosure (compute_extent st.ctx bo) in
            elim (equals bo bclosure) [
              | false ↦ elim (lincbo_equals_until bo bclosure from) [
                | true ↦ lincbo_step fuel st' bclosure from (andnot bclosure bo) count
                | false ↦ some st'
              ]
              | true ↦ extend (lincbo_step fuel) from (st.ctx.nb_attributes - from) bo count st
            ]
      ]
