-- ===== src/LincboPruning.antt =====
-- algo/lincbo_pruning.c: the Duquenne-Guigues basis by an iterative LinCbO with pruning. The state, the
-- implications and the two pruning stacks. A -1 and an INT_MAX are `none`; the head of a stack is its
-- top; the arrays of a mode that is not in use (NULL) are empty.
pub mod Closure
pub mod Extent
pub mod Intent
pub mod Ways
pub mod Agree
pub mod Linear
pub mod Engine
pub mod Output
pub mod Array
pub mod Lifo
pub mod Examples
use fca4j_project.Base.{
  ℕ, zero, suc, ◌+◌, ◌-◌, ◌*◌, ◌%◌, ◌^◌, Bool, true, false, not, ◌&&◌, List, [], ◌∷◌, ◌++◌, Option,
  none, some, length, get_or, set, replicate, if◌then◌else◌, ltb, leb, ◌==◌, foldl, for_to,
}
use Prim.Native.Nat.{bit_and}
use fca4j_project.Roaring.{Roaring}
use fca4j_project.Context.{BinaryContext, row}
use fca4j_project.Bitset.{aw_n, aw_ctz, word, bs_copy, bs_card, bs_or, bs_test, bs_foreach}
use fca4j_project.BitsetRoaring.{bs_from_roaring_into}
use fca4j_project.DynOrder.{at}

-- The index of the first bit from word `k` on, in `left` words.
unfoldable pub find_first_from : ℕ → List ℕ → ℕ → Option ℕ
find_first_from zero a k = none
find_first_from (suc left) a k = elim (word a k == 0) [
  | true ↦ find_first_from left a (k + 1)
  | false ↦ some (k * 64 + aw_ctz (word a k))
]

unfoldable pub bs_find_first_lt : List ℕ → ℕ → Option ℕ
bs_find_first_lt a w = find_first_from w a 0

unfoldable pub bs_fill_universe : List ℕ → ℕ → ℕ → List ℕ
bs_fill_universe a w n =
    let full = for_to w (λ k d. set d k (2 ^ 64 - 1)) a in
    if not (n % 64 == 0) && ltb 0 w
    then set full (w - 1) (bit_and (word full (w - 1)) (2 ^ (n % 64) - 1))
    else full

pub data LincboPruneMode : Type 0 where
  prune_none : LincboPruneMode
  prune_lifo : LincboPruneMode
  prune_lcm : LincboPruneMode

pub record DenseImpl (B : Type 0) : Type 0 where
  pub premise : List ℕ
  pub closure : List ℕ
  pub premise_card : ℕ
  pub closure_min : Option ℕ
  pub support : Option B

pub record LincboState (B : Type 0) : Type 0 where
  pub ctx : BinaryContext B
  pub n : ℕ
  pub w : ℕ
  pub mode : LincboPruneMode
  pub dense_rows : List (List ℕ)
  pub impls : List (DenseImpl B)
  pub list : List (List ℕ)
  pub counts_template : List ℕ
  -- default_conclusion, where has_default_conclusion holds
  pub default_conclusion : Option (List ℕ)
  pub rules : List (Option ℕ)
  pub pruning_stack : List ℕ
  pub pruning_data : List (Option ℕ)
  pub pruning_stack_lcm : List ℕ

pub record Frame : Type 0 where
  pub y : Option ℕ
  pub closed : List ℕ
  pub count : List ℕ
  pub i : ℕ
  pub stack_snapshot : ℕ

-- data[top] >= att, and data[x] <= adds, where -1 is `none`
unfoldable pub at_least : Option ℕ → Option ℕ → Bool
at_least d none = true
at_least none (some att) = false
at_least (some x) (some att) = leb att x

unfoldable pub at_most : Option ℕ → ℕ → Bool
at_most none adds = true
at_most (some x) adds = leb x adds

-- The loop of `lcm_pruning_del`: the data and the stack.
unfoldable pub lcm_del : Option ℕ → ℕ → List (Option ℕ) → List ℕ → List (Option ℕ) × List ℕ
lcm_del att prev_size pruning_data [] = (pruning_data, [])
lcm_del att prev_size pruning_data (top ∷ stack) =
    elim (ltb prev_size (length (top ∷ stack)) && at_least (get_or pruning_data top none) att) [
      | true ↦ lcm_del att prev_size (set pruning_data top none) stack
      | false ↦ (pruning_data, top ∷ stack)
    ]

-- The loop of `lcm_pruning_set`: the insertion, not below `prev_size`.
unfoldable pub lcm_insert : List (Option ℕ) → ℕ → ℕ → ℕ → List ℕ → List ℕ
lcm_insert pruning_data att adds prev_size [] = att ∷ []
lcm_insert pruning_data att adds prev_size (top ∷ stack) =
    let deeper = lcm_insert pruning_data att adds prev_size stack in
    if ltb prev_size (length (top ∷ stack)) && not (at_most (get_or pruning_data top none) adds)
    then top ∷ deeper
    else att ∷ top ∷ stack

-- The loop of `pruning_unwind` in the LIFO mode: the rules and the stack.
unfoldable pub lifo_unwind : ℕ → List (Option ℕ) → List ℕ → List (Option ℕ) × List ℕ
lifo_unwind snapshot rules [] = (rules, [])
lifo_unwind snapshot rules (val ∷ stack) = elim (ltb snapshot (length (val ∷ stack))) [
  | true ↦ lifo_unwind snapshot (set rules val none) stack
  | false ↦ (rules, val ∷ stack)
]

module _ {B : Type 0} where
  unfoldable pub pruning_snapshot : LincboState B → ℕ
  pruning_snapshot st = elim st.mode [
    | prune_lcm ↦ length st.pruning_stack_lcm
    | prune_none ↦ length st.pruning_stack
    | prune_lifo ↦ length st.pruning_stack
  ]

  unfoldable pub lcm_pruning_del : LincboState B → Option ℕ → ℕ → LincboState B
  lcm_pruning_del st att prev_size =
      let after = lcm_del att prev_size st.pruning_data st.pruning_stack_lcm in
      record st { pruning_data = after.0; pruning_stack_lcm = after.1 }

  unfoldable pub lcm_pruning_set : LincboState B → ℕ → ℕ → ℕ → LincboState B
  lcm_pruning_set st att adds prev_size = record st {
    pruning_stack_lcm = lcm_insert st.pruning_data att adds prev_size st.pruning_stack_lcm;
    pruning_data = set st.pruning_data att (some adds);
  }

  unfoldable pub pruning_unwind : LincboState B → ℕ → LincboState B
  pruning_unwind st snapshot = elim st.mode [
    | prune_none ↦ st
    | prune_lifo ↦
        let after = lifo_unwind snapshot st.rules st.pruning_stack in
        record st { rules = after.0; pruning_stack = after.1 }
    | prune_lcm ↦ lcm_pruning_del st none snapshot
  ]

  -- `result` is `none` for -1.
  unfoldable pub pruning_after_child : LincboState B → ℕ → Option ℕ → ℕ → LincboState B
  pruning_after_child st i none frame_snapshot = st
  pruning_after_child st i (some result) frame_snapshot = elim st.mode [
    | prune_none ↦ st
    | prune_lifo ↦
        if ltb result i
        then record st {
          rules = set st.rules i (some result);
          pruning_stack = i ∷ st.pruning_stack;
        }
        else st
    | prune_lcm ↦ lcm_pruning_set st i result frame_snapshot
  ]

  -- The LCM mode purges its stack before the answer.
  unfoldable pub pruning_should_skip : LincboState B → ℕ → List ℕ → ℕ → LincboState B × Bool
  pruning_should_skip st i bp frame_snapshot = elim st.mode [
    | prune_none ↦ (st, false)
    | prune_lifo ↦ (
      st,
      elim (get_or st.rules i none) as (λ _. Bool) [ none ↦ false | some r ↦ not (bs_test bp r) ],
    )
    | prune_lcm ↦
        let st' = lcm_pruning_del st (some i) frame_snapshot in
        (st', elim (get_or st'.pruning_data i none) as (λ _. Bool) [ none ↦ false | some _ ↦ true ])
  ]

  unfoldable pub add_implication : LincboState B → List ℕ → List ℕ → B → LincboState B
  add_implication st premise bclosure support =
      let w = st.w in
      let p = bs_copy (replicate w 0) premise w in
      let c = bs_copy (replicate w 0) bclosure w in
      let card = bs_card p w in
      let idx = length st.impls in
      record st {
        impls =
            st.impls
            ++ record {
              premise = p;
              closure = c;
              premise_card = card;
              closure_min = bs_find_first_lt c w;
              support = some support;
            }
              ∷ [];
        counts_template = st.counts_template ++ card ∷ [];
        default_conclusion =
            if card == 0
            then (elim st.default_conclusion [
              | none ↦ some (bs_or (replicate w 0) c w)
              | some d ↦ some (bs_or d c w)
            ])
            else st.default_conclusion;
        list = foldl (λ l a. set l a (at l a ++ idx ∷ [])) st.list (bs_foreach premise w);
      }

module _ {B : Type 0} ⦃R : Roaring B⦄ where
  unfoldable pub lincbo_state_create : BinaryContext B → LincboPruneMode → LincboState B
  lincbo_state_create ctx mode =
      let n = ctx.nb_attributes in
      let w = aw_n n in
      record {
        ctx = ctx;
        n = n;
        w = w;
        mode = mode;
        dense_rows =
            for_to ctx.nb_objects
              (λ o rows. rows ++ bs_from_roaring_into (row ctx o) (replicate w 0) w ∷ []) [];
        impls = [];
        list = replicate (if ltb 0 n then n else 1) [];
        counts_template = [];
        default_conclusion = none;
        rules = elim mode [
          | prune_lifo ↦ replicate (if ltb 0 n then n else 1) none
          | prune_none ↦ []
          | prune_lcm ↦ []
        ];
        pruning_stack = [];
        pruning_data = elim mode [
          | prune_lcm ↦ replicate (if ltb 0 n then n else 1) none
          | prune_none ↦ []
          | prune_lifo ↦ []
        ];
        pruning_stack_lcm = [];
      }
