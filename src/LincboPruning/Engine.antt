-- ===== src/LincboPruning/Engine.antt =====
-- algo/lincbo_pruning.c, run_engine: the recursion as a loop over an explicit stack of frames. A frame
-- is pushed for a closed set only; the set that is not closed is extended in place. Both loops
-- take fuel, and `none` means that it ran out.
use fca4j_project.Base.{
  ℕ, zero, suc, ◌+◌, ◌*◌, Bool, true, false, List, [], ◌∷◌, Option, none, some, set, replicate,
  if◌then◌else◌, ltb, ◌==◌, for_to,
}
use Prim.Native.Nat.{bit_and}
use fca4j_project.Roaring.{Roaring}
use fca4j_project.Bitset.{word, aw_not, aw_ctz, bs_copy, bs_set, bs_test, bs_equal, bs_card}
use fca4j_project.AddExtent.{◌>>=◌}
use fca4j_project.LincboPruning.{
  LincboState, Frame, add_implication, pruning_snapshot, pruning_after_child, pruning_should_skip,
  pruning_unwind,
}
use fca4j_project.LincboPruning.Closure.{real_closure_dense}
use fca4j_project.LincboPruning.Linear.{reached, cut, lin_closure_rc}

-- A call: cur_B, cur_y, cur_Z and cur_prev_count.
pub record Call : Type 0 where
  pub b : List ℕ
  pub y : Option ℕ
  pub z : List ℕ
  pub prev_count : List ℕ

-- How the extension loop ends: a frame is pushed, or a result goes to the frame on top.
pub data Entered : Type 0 where
  pushed : Frame → Entered
  returned : Option ℕ → Entered

-- What the main loop does next: enter a call, or resume the frame on top, with the result of a
-- child (none is -1) if there is one.
pub data Next : Type 0 where
  enter : Call → Next
  resume : Option (Option ℕ) → Next

-- Zp = bclosure & ~D, and its lowest bit.
unfoldable pub difference : ℕ → List ℕ → List ℕ → List ℕ × Option ℕ
difference w bclosure d =
    for_to w
      (λ k s.
        let new = bit_and (word bclosure k) (aw_not (word d k)) in
        (
          set s.0 k new,
          if new == 0
              then s.1
              else (elim s.1 [ none ↦ some (k * 64 + aw_ctz new) | some m ↦ some m ]),
        ))
      (replicate w 0, none)

-- minZp != INT_MAX && minZp > cur_y
unfoldable pub after_y : Option ℕ → Option ℕ → Bool
after_y none y = false
after_y (some m) none = true
after_y (some m) (some y) = ltb y m

-- f->y + 1
abbrev pub low_end : Option ℕ → ℕ
low_end none = 0
low_end (some y) = y + 1

module _ {B : Type 0} ⦃R : Roaring B⦄ where
  -- The extension loop.
  unfoldable pub enter_call : ℕ → ℕ → LincboState B → Call → Option (LincboState B × Entered)
  enter_call zero lin_fuel st call = none
  enter_call (suc fuel) lin_fuel st call =
      lin_closure_rc lin_fuel st call.b call.y call.z call.prev_count >>= λ result. elim result [
        | cut fail ↦ some (st, returned fail)
        | reached d count ↦
            let real = real_closure_dense st d (replicate st.w 0) in
            elim (bs_equal d real.0 st.w) [
              | true ↦ some (
                st,
                pushed (record {
                  y = call.y;
                  closed = real.0;
                  count = count;
                  i = st.n;
                  stack_snapshot = pruning_snapshot st;
                }),
              )
              | false ↦
                  let added = add_implication st d real.0 real.1 in
                  let zp = difference st.w real.0 d in
                  elim (after_y zp.1 call.y) [
                    | true ↦
                        enter_call fuel lin_fuel added
                          (record { b = real.0; y = call.y; z = zp.0; prev_count = count })
                    | false ↦ some (added, returned none)
                  ]
            ]
      ]

  -- The call for attribute `i` of a frame.
  unfoldable pub child_call : LincboState B → Frame → ℕ → List ℕ → Call
  child_call st f i bp = record {
    b = bp;
    y = some i;
    z = bs_set (replicate st.w 0) i;
    prev_count = if bs_card bp st.w == 1 then st.counts_template else f.count;
  }

  -- `while (f->i > f->y + 1)`: the state, the frame, and the call of the next attribute.
  unfoldable pub next_child : ℕ → LincboState B → Frame → LincboState B × Frame × Option Call
  next_child zero st f = (st, record f { i = 0 }, none)
  next_child (suc i) st f = elim (ltb (low_end f.y) (suc i)) [
    | false ↦ (st, record f { i = suc i }, none)
    | true ↦ elim (bs_test f.closed i) [
      | true ↦ next_child i st f
      | false ↦
          let bp = bs_set (bs_copy (replicate st.w 0) f.closed st.w) i in
          let asked = pruning_should_skip st i bp f.stack_snapshot in
          elim asked.1 [
            | true ↦ next_child i (asked.0) f
            | false ↦ (asked.0, record f { i = i }, some (child_call (asked.0) f i bp))
          ]
    ]
  ]

  unfoldable pub engine_loop : ℕ → ℕ → LincboState B → List Frame → Next → Option (LincboState B)
  engine_loop zero inner st stack next = none
  engine_loop (suc fuel) inner st stack (enter call) = enter_call inner inner st call >>= λ entered.
      elim entered.1 [
        | pushed f ↦ engine_loop fuel inner entered.0 (f ∷ stack) (resume none)
        | returned result ↦ engine_loop fuel inner entered.0 stack (resume (some result))
      ]
  engine_loop (suc fuel) inner st [] (resume result) = some st
  engine_loop (suc fuel) inner st (f ∷ stack) (resume result) =
      let applied = elim result as (λ _. LincboState B) [
        | none ↦ st
        | some r ↦ pruning_after_child st f.i r f.stack_snapshot
      ] in
      let found = next_child f.i applied f in
      elim found.2 [
        | some call ↦ engine_loop fuel inner found.0 (found.1 ∷ stack) (enter call)
        | none ↦
            engine_loop fuel inner (pruning_unwind (found.0) (found.1).stack_snapshot) stack
              (resume (some none))
      ]

  unfoldable pub run_engine : ℕ → ℕ → LincboState B → Option (LincboState B)
  run_engine fuel inner st =
      engine_loop fuel inner st []
        (enter (record { b = replicate st.w 0; y = none; z = replicate st.w 0; prev_count = [] }))
