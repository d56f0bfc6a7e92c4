-- ===== src/DynOrder/Traverse.antt =====
-- core/dynorder.c: the traversals with time-stamped marks.
use fca4j_project.Base.{
  ℕ, zero, suc, ◌+◌, ◌-◌, Bool, true, false, List, [], ◌∷◌, ◌++◌, Option, none, some, get_or, set,
  if◌then◌else◌, ◌==◌,
}
use fca4j_project.DynOrder.{DynOrder, at}

-- marks[v] == epoch
abbrev pub marked : List ℕ → ℕ → ℕ → Bool
marked marks epoch v = get_or marks v 0 == epoch

-- The inner loop over the covers: mark and push what is not marked yet.
unfoldable pub push_new : ℕ → List ℕ → List ℕ → List ℕ → List ℕ × List ℕ
push_new epoch [] marks stack = (marks, stack)
push_new epoch (w ∷ ws) marks stack = elim (marked marks epoch w) [
  | true ↦ push_new epoch ws marks stack
  | false ↦ push_new epoch ws (set marks w epoch) (w ∷ stack)
]

-- `while (sp > 0)` along `covers`.
unfoldable pub descend : ℕ → List (List ℕ) → ℕ → List ℕ → List ℕ → Option (List ℕ)
descend fuel covers epoch marks [] = some marks
descend zero covers epoch marks (v ∷ stack) = none
descend (suc fuel) covers epoch marks (v ∷ stack) =
    let next = push_new epoch (at covers v) marks stack in descend fuel covers epoch next.0 next.1

-- The loop that starts from the covers of each listed concept.
unfoldable pub push_covers : List (List ℕ) → ℕ → List ℕ → List ℕ → List ℕ → List ℕ × List ℕ
push_covers covers epoch [] marks stack = (marks, stack)
push_covers covers epoch (v ∷ vs) marks stack =
    let next = push_new epoch (at covers v) marks stack in push_covers covers epoch vs next.0 next.1

-- The strict descendants of the listed concepts, marked.
unfoldable pub mark_below : ℕ → List (List ℕ) → ℕ → List ℕ → List ℕ → Option (List ℕ)
mark_below fuel covers epoch vs marks =
    let start = push_covers covers epoch vs marks [] in descend fuel covers epoch start.0 start.1

-- The concepts of the list that are not marked.
unfoldable pub unmarked : List ℕ → ℕ → List ℕ → List ℕ
unmarked marks epoch [] = []
unmarked marks epoch (v ∷ vs) =
    let rest = unmarked marks epoch vs in if marked marks epoch v then rest else v ∷ rest

unfoldable pub dyn_maximal_of : ℕ → DynOrder → List ℕ → Option DynOrder
dyn_maximal_of fuel dyn [] = some (record dyn { sel = [] })
dyn_maximal_of fuel dyn (v ∷ []) = some (record dyn { sel = v ∷ []; epoch_b = dyn.epoch_b + 1 })
dyn_maximal_of fuel dyn (v ∷ w ∷ vs) =
    let epoch = dyn.epoch_b + 1 in
    elim (mark_below fuel dyn.lower epoch (v ∷ w ∷ vs) dyn.mark_b) [
      | none ↦ none
      | some marks ↦
          some (record dyn {
            sel = unmarked marks epoch (v ∷ w ∷ vs);
            mark_b = marks;
            epoch_b = epoch;
          })
    ]

-- The first descent: the selected concepts are collected in the order of the visit.
unfoldable pub collect :
    ℕ → List (List ℕ) → List Bool → ℕ → List ℕ → List ℕ → List ℕ → Option (List ℕ × List ℕ)
collect fuel covers flags epoch marks [] sel = some (marks, sel)
collect zero covers flags epoch marks (v ∷ stack) sel = none
collect (suc fuel) covers flags epoch marks (v ∷ stack) sel =
    let next = push_new epoch (at covers v) marks stack in
    collect fuel covers flags epoch next.0 next.1
      (if get_or flags v false then sel ++ v ∷ [] else sel)

unfoldable pub dyn_maximal_selected_descendants : ℕ → DynOrder → ℕ → List Bool → Option DynOrder
dyn_maximal_selected_descendants fuel dyn c sel_flags =
    let epoch = dyn.epoch_a + 1 in
    elim (collect fuel dyn.lower sel_flags epoch (set dyn.mark_a c epoch) (c ∷ []) []) [
      | none ↦ none
      | some first ↦ elim (mark_below fuel dyn.lower (dyn.epoch_b + 1) first.1 dyn.mark_b) [
        | none ↦ none
        | some marks ↦ some (record dyn {
          mark_a = first.0;
          epoch_a = epoch;
          sel = first.1;
          mark_b = marks;
          epoch_b = dyn.epoch_b + 1;
        })
      ]
    ]

unfoldable pub dyn_dominated : DynOrder → ℕ → Bool
dyn_dominated dyn v = marked dyn.mark_b dyn.epoch_b v

unfoldable pub dyn_reached : DynOrder → ℕ → Bool
dyn_reached dyn v = marked dyn.mark_a dyn.epoch_a v

-- The targets, marked once each, and their number.
unfoldable pub mark_targets : ℕ → List ℕ → List ℕ → ℕ → List ℕ × ℕ
mark_targets epoch [] marks remaining = (marks, remaining)
mark_targets epoch (t ∷ ts) marks remaining = elim (marked marks epoch t) [
  | true ↦ mark_targets epoch ts marks remaining
  | false ↦ mark_targets epoch ts (set marks t epoch) (remaining + 1)
]

-- The inner loop upwards, which also counts the targets left to meet.
unfoldable pub push_up : ℕ → (ℕ → Bool) → List ℕ → List ℕ → List ℕ → ℕ → List ℕ × List ℕ × ℕ
push_up epoch target [] marks stack remaining = (marks, stack, remaining)
push_up epoch target (p ∷ ps) marks stack remaining = elim (marked marks epoch p) [
  | true ↦ push_up epoch target ps marks stack remaining
  | false ↦
      push_up epoch target ps (set marks p epoch) (p ∷ stack)
        (if target p then remaining - 1 else remaining)
]

-- `while (sp > 0 && remaining > 0)`
unfoldable pub climb : ℕ → List (List ℕ) → ℕ → (ℕ → Bool) → List ℕ → List ℕ → ℕ → Option (List ℕ)
climb fuel covers epoch target marks [] remaining = some marks
climb fuel covers epoch target marks (v ∷ stack) zero = some marks
climb zero covers epoch target marks (v ∷ stack) (suc remaining) = none
climb (suc fuel) covers epoch target marks (v ∷ stack) (suc remaining) =
    let next = push_up epoch target (at covers v) marks stack (suc remaining) in
    climb fuel covers epoch target next.0 next.1 next.2

unfoldable pub dyn_mark_reachable_up : ℕ → DynOrder → ℕ → List ℕ → Option DynOrder
dyn_mark_reachable_up fuel dyn src targets =
    let epoch_b = dyn.epoch_b + 1 in
    let wanted = mark_targets epoch_b targets dyn.mark_b 0 in
    let epoch = dyn.epoch_a + 1 in
    let remaining = if marked wanted.0 epoch_b src then wanted.1 - 1 else wanted.1 in
    elim (climb fuel dyn.upper epoch (marked wanted.0 epoch_b) (set dyn.mark_a src epoch) (src ∷ [])
      remaining) [
        | none ↦ none
        | some marks ↦
            some
              (record dyn { mark_a = marks; mark_b = wanted.0; epoch_a = epoch; epoch_b = epoch_b })
      ]
