-- ===== src/LincboPruning/Linear.antt =====
-- algo/lincbo_pruning.c, lin_closure_rc: the linear closure by counters on dense sets. A counter stops at
-- 0 where that of the code goes below it: the code only asks whether it was 1. The loop takes fuel.
use fca4j_project.Base.{
  ℕ, zero, suc, ◌+◌, ◌-◌, ◌*◌, ◌&&◌, not, Bool, true, false, List, [], ◌∷◌, ◌++◌, Option, none,
  some, length, get_or, set, replicate, if◌then◌else◌, ltb, leb, ◌==◌, for_to,
}
use Prim.Native.Nat.{bit_and, bit_or}
use fca4j_project.Bitset.{word, aw_not, aw_ctz, aw_popcount, bs_copy, bs_or, bs_clear, bs_card}
use fca4j_project.DynOrder.{at}
use fca4j_project.LincboPruning.{
  DenseImpl, LincboState, prune_none, prune_lifo, prune_lcm, bs_find_first_lt,
}

-- `m < y`, where `none` is INT_MAX on the left and -1 on the right.
unfoldable pub before_y : Option ℕ → Option ℕ → Bool
before_y none y = false
before_y (some m) none = false
before_y (some m) (some y) = ltb m y

-- The closure and the counters, or the attribute of the early cut.
pub data LinResult : Type 0 where
  reached : List ℕ → List ℕ → LinResult
  cut : Option ℕ → LinResult

-- D, Z and the counters.
abbrev pub LinVars : Type 0
LinVars = List ℕ × List ℕ × List ℕ

-- The loop on the words: the new bits enter D and Z; the lowest of them is kept.
unfoldable pub spread_words : ℕ → List ℕ → List ℕ → List ℕ → List ℕ × List ℕ × Option ℕ
spread_words w closure d z =
    for_to w
      (λ k s.
        let new = bit_and (word closure k) (aw_not (word s.0 k)) in
        if new == 0 then s else (
          set s.0 k (bit_or (word s.0 k) new),
          set s.1 k (bit_or (word s.1 k) new),
          elim s.2 [ none ↦ some (k * 64 + aw_ctz new) | some m ↦ some m ],
        ))
      (d, z, none)

module _ {B : Type 0} where
  -- data[impId]
  abbrev pub dense_impl : LincboState B → ℕ → DenseImpl B
  dense_impl st k =
      get_or st.impls k (record {
        premise = [];
        closure = [];
        premise_card = 0;
        closure_min = none;
        support = none;
      })

  abbrev pub extra_check : LincboState B → Bool
  extra_check st = elim st.mode [ prune_none ↦ true | prune_lifo ↦ false | prune_lcm ↦ false ]

  -- An implication whose counter has reached 0.
  unfoldable pub fire_dense : LincboState B → Option ℕ → ℕ → LinVars → LinVars × Option (Option ℕ)
  fire_dense st y k vars =
      let imp = dense_impl st k in
      if extra_check st
        && before_y imp.closure_min y
        && not (before_y (bs_find_first_lt vars.0 st.w) y)
      then (vars, some imp.closure_min)
      else let spread = spread_words st.w imp.closure vars.0 vars.1 in
        ((spread.0, spread.1, vars.2), if before_y spread.2 y then some (spread.2) else none)

  -- The loop on the list of an attribute; the second part is the cut, if there is one.
  unfoldable pub scan_dense :
      LincboState B → Option ℕ → ℕ → List ℕ → LinVars → LinVars × Option (Option ℕ)
  scan_dense st y nimp [] vars = (vars, none)
  scan_dense st y nimp (k ∷ ks) vars = elim (leb nimp k) [
    | true ↦ scan_dense st y nimp ks vars
    | false ↦
        let c = get_or vars.2 k 0 in
        let counted : LinVars = (vars.0, vars.1, set vars.2 k (c - 1)) in
        elim (c == 1) [
          | false ↦ scan_dense st y nimp ks counted
          | true ↦
              let fired = fire_dense st y k counted in
              elim fired.1 [ some fail ↦ fired | none ↦ scan_dense st y nimp ks fired.0 ]
        ]
  ]

  -- `for (;;)`
  unfoldable pub lin_loop : ℕ → LincboState B → Option ℕ → ℕ → LinVars → Option LinResult
  lin_loop zero st y nimp vars = none
  lin_loop (suc fuel) st y nimp vars = elim (bs_find_first_lt vars.1 st.w) [
    | none ↦ some (reached vars.0 vars.2)
    | some m ↦ elim (leb st.n m) [
      | true ↦ some (reached vars.0 vars.2)
      | false ↦
          let scanned = scan_dense st y nimp (at st.list m) (vars.0, bs_clear vars.1 m, vars.2) in
          elim scanned.1 [
            | some fail ↦ some (cut fail)
            | none ↦ elim (bs_card scanned.0.0 st.w == st.n) [
              | true ↦ some (reached scanned.0.0 [])
              | false ↦ lin_loop fuel st y nimp (scanned.0)
            ]
          ]
    ]
  ]

  -- count[i]: copied from the counters given, or counted on the premise.
  unfoldable pub start_counts : LincboState B → List ℕ → List ℕ → List ℕ
  start_counts st b prev_count =
      for_to (length st.impls)
        (λ i count.
          if ltb i (length prev_count)
          then count ++ get_or prev_count i 0 ∷ []
          else count
            ++ for_to st.w
                (λ k c.
                  c + aw_popcount (bit_and (word (dense_impl st i).premise k) (aw_not (word b k))))
                0
              ∷ [])
        []

  unfoldable pub lin_closure_rc :
      ℕ → LincboState B → List ℕ → Option ℕ → List ℕ → List ℕ → Option LinResult
  lin_closure_rc fuel st b y z prev_count =
      let copied = bs_copy (replicate st.w 0) b st.w in
      let d : List ℕ = elim st.default_conclusion [
        | none ↦ copied
        | some conclusion ↦ bs_or copied conclusion st.w
      ] in
      lin_loop fuel st y (length st.impls) (d, z, start_counts st b prev_count)
