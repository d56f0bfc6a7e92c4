-- ===== src/Ares.antt =====
-- algo/ares.c: the AOC-poset by Ares. The flags per concept are lists that grow on demand
-- (st_ensure_flags), which `set_flag` does in one go; a flag that is not there is unset. The
-- intermediate sets (inter, red, ec, tmp) are values, and `ca` is `none` until it is defined. The
-- traversals take fuel; `none` means that it ran out.
pub mod Visit
pub mod Run
use fca4j_project.Base.{
  ℕ, zero, suc, ◌+◌, ◌-◌, Bool, true, false, not, ◌&&◌, ◌||◌, List, [], ◌∷◌, ◌++◌, Option, none,
  some, length, get_or, set, replicate, if◌then◌else◌, leb, ltb, foldl,
}
use fca4j_project.Context.{BinaryContext}
use fca4j_project.DynOrder.{DynOrder, at}
use fca4j_project.DynOrder.Traverse.{marked}

pub record AresState : Type 0 where
  pub dyn : DynOrder
  pub wo : ℕ
  pub wa : ℕ
  pub has_all_a : Bool
  pub has_all_o : Bool
  -- extA, extentOfA
  pub ext_a : List ℕ
  pub extent_of_a : List ℕ
  pub a : ℕ
  pub card_a : ℕ
  pub in_sub : List Bool
  pub sub_list : List ℕ
  pub non_intro : List Bool
  pub non_intro_list : List ℕ
  pub do_not_check : List Bool
  -- is_ca_defined and ca
  pub ca : Option ℕ

-- flags[c]
abbrev pub flag : List Bool → ℕ → Bool
flag flags c = get_or flags c false

-- flags[c] = 1, after st_ensure_flags
unfoldable pub set_flag : List Bool → ℕ → List Bool
set_flag flags c =
    set (if ltb c (length flags) then flags else flags ++ replicate (c + 1 - length flags) false) c
      true

unfoldable pub st_add_sub : AresState → ℕ → AresState
st_add_sub st c =
    if flag st.in_sub c
    then st
    else record st { in_sub = set_flag st.in_sub c; sub_list = st.sub_list ++ c ∷ [] }

unfoldable pub st_add_non_intro : AresState → ℕ → AresState
st_add_non_intro st c = if flag st.non_intro c then st else record st {
  non_intro = set_flag st.non_intro c;
  non_intro_list = st.non_intro_list ++ c ∷ [];
}

-- The inner loop of the climb: what is not marked is marked, flagged and pushed.
unfoldable pub push_ancestors :
    ℕ → List ℕ → List ℕ → List Bool → List ℕ → List ℕ × List Bool × List ℕ
push_ancestors epoch [] marks flags stack = (marks, flags, stack)
push_ancestors epoch (p ∷ ps) marks flags stack = elim (marked marks epoch p) [
  | true ↦ push_ancestors epoch ps marks flags stack
  | false ↦ push_ancestors epoch ps (set marks p epoch) (set_flag flags p) (p ∷ stack)
]

unfoldable pub climb_ancestors :
    ℕ → List (List ℕ) → ℕ → List ℕ → List Bool → List ℕ → Option (List ℕ × List Bool)
climb_ancestors fuel upper epoch marks flags [] = some (marks, flags)
climb_ancestors zero upper epoch marks flags (v ∷ stack) = none
climb_ancestors (suc fuel) upper epoch marks flags (v ∷ stack) =
    let next = push_ancestors epoch (at upper v) marks flags stack in
    climb_ancestors fuel upper epoch next.0 next.1 next.2

unfoldable pub mark_ancestors_do_not_check : ℕ → AresState → ℕ → Option AresState
mark_ancestors_do_not_check fuel st c =
    let epoch = st.dyn.epoch_a + 1 in
    elim (climb_ancestors fuel st.dyn.upper epoch (set st.dyn.mark_a c epoch)
      (set_flag st.do_not_check c) (c ∷ [])) [
        | none ↦ none
        | some found ↦ some (record st {
          dyn = record st.dyn { mark_a = found.0; epoch_a = epoch };
          do_not_check = found.1;
        })
      ]
