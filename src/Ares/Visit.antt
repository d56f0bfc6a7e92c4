-- ===== src/Ares/Visit.antt =====
-- algo/ares.c, ares_visit: the four cases of a concept against the column of the attribute.
use fca4j_project.Base.{
  ℕ, Bool, true, false, not, ◌&&◌, ◌||◌, List, [], ◌∷◌, Option, none, some, set, if◌then◌else◌,
  ◌==◌, foldl,
}
use fca4j_project.Bitset.{
  bs_copy, bs_set, bs_or, bs_andnot, bs_and_to, bs_card, bs_empty, bs_intersects,
}
use fca4j_project.AddExtent.{◌>>=◌}
use fca4j_project.DynOrder.{
  DynOrder, at, dyn_new_concept, dyn_add_edge, dyn_remove_edge, dyn_reduced_extent,
}
use fca4j_project.DynOrder.Traverse.{
  dyn_maximal_of, dyn_maximal_selected_descendants, dyn_dominated,
}
use fca4j_project.Ares.{AresState, flag, st_add_sub, st_add_non_intro, mark_ancestors_do_not_check}

-- dyn_reduced_extent into a scratch set of `wo` words
abbrev pub red_of : DynOrder → ℕ → List ℕ
red_of dyn c = (dyn_reduced_extent dyn c (at dyn.ext c)).0

-- Each of `lowers` goes from under `c` to under `target`.
unfoldable pub move_edges : List ℕ → ℕ → ℕ → DynOrder → DynOrder
move_edges lowers target c dyn =
    foldl (λ d m. (dyn_remove_edge (dyn_add_edge d m target) m c).0) dyn lowers

-- The edges from the lower covers of `from`, in the order `dyn` has, to `c` are removed.
unfoldable pub drop_edges : ℕ → ℕ → DynOrder → DynOrder
drop_edges from c dyn = foldl (λ d m. (dyn_remove_edge d m c).0) dyn (at dyn.lower from)

abbrev pub set_row : List (List ℕ) → ℕ → (List ℕ → List ℕ) → List (List ℕ)
set_row rows c f = set rows c (f (at rows c))

-- Case 2: `c` below g(a).
unfoldable pub visit_below : AresState → ℕ → AresState
visit_below st c =
    let st' = st_add_sub st c in
    record st' { extent_of_a = bs_andnot st'.extent_of_a (red_of st'.dyn c) st'.wo }

-- Case 3, `if (!st->is_ca_defined)`: the new concept, its extent and intent.
unfoldable pub create_ca : AresState → DynOrder × ℕ
create_ca st =
    let (dyn, ca) = dyn_new_concept st.dyn in
    (
      record dyn {
        rint = set_row dyn.rint ca (λ r. bs_set r st.a);
        ext = set_row dyn.ext ca (λ e. bs_or e st.ext_a st.wo);
      },
      ca,
    )

-- The reduced extent of `c` gives the objects of `ec` away; `c` may stop being an introducer.
unfoldable pub give_away : AresState → ℕ → AresState
give_away st c =
    let red = red_of st.dyn c in
    let filled = record st.dyn { rext = set_row st.dyn.rext c (λ r. bs_or r red st.wo) } in
    let reduced = record filled {
      rext = set_row filled.rext c (λ r. bs_andnot r st.ext_a st.wo);
    } in
    let no_rintent = bs_empty (at reduced.rint c) st.wa || not st.has_all_a in
    let no_rextent = bs_empty (at reduced.rext c) st.wo || not st.has_all_o in
    if bs_intersects red st.ext_a st.wo
    then if no_rintent && no_rextent
      then st_add_non_intro (record st { dyn = reduced }) c
      else record st { dyn = reduced }
    else record st { dyn = filled }

-- A1, and the reduced extent of the new concept.
unfoldable pub define_ca : ℕ → AresState → ℕ → Option (AresState × ℕ)
define_ca fuel st c =
    let (dyn, ca) = create_ca st in
    let st' = give_away (record st { dyn = dyn; ca = some ca }) c in
    dyn_maximal_of fuel st'.dyn st'.sub_list >>= λ selected.
    let moved = move_edges selected.sel ca c selected in
    some (
      record st' {
        dyn = record moved {
          rext = set_row moved.rext ca (λ r. bs_copy r (red_of moved ca) st'.wo);
        };
      },
      ca,
    )

-- Case 3: `c` above g(a).
unfoldable pub visit_above : ℕ → AresState → ℕ → Option AresState
visit_above fuel st c =
    (elim st.ca [ none ↦ define_ca fuel st c | some ca ↦ some (st, ca) ]) >>= λ ready.
    let linked = drop_edges ready.1 c (dyn_add_edge ready.0.dyn ready.1 c) in
    mark_ancestors_do_not_check fuel (record (ready.0) { dyn = linked }) c

-- A4: the maximal selected descendants, the dominated ones left out.
unfoldable pub not_dominated : DynOrder → List ℕ → List ℕ
not_dominated dyn [] = []
not_dominated dyn (c3 ∷ rest) =
    let later = not_dominated dyn rest in if dyn_dominated dyn c3 then later else c3 ∷ later

-- Case 4 with `ec` not empty.
unfoldable pub split_concept : ℕ → AresState → ℕ → List ℕ → List ℕ → Option AresState
split_concept fuel st c inter red =
    let ec = bs_and_to red red st.ext_a st.wo in
    let filled = record st.dyn { rext = set_row st.dyn.rext c (λ r. bs_or r red st.wo) } in
    let (dyn, c2) = dyn_new_concept filled in
    let created = record dyn {
      ext = set_row dyn.ext c2 (λ e. bs_copy e inter st.wo);
      rext = set_row dyn.rext c2 (λ r. bs_copy r ec st.wo);
    } in
    dyn_maximal_selected_descendants fuel (dyn_add_edge created c2 c) c st.in_sub >>= λ selected.
    let moved = move_edges (not_dominated selected selected.sel) c2 c selected in
    let st' = st_add_sub (record st { dyn = moved }) c2 in
    let dropped = drop_edges c2 c st'.dyn in
    let reduced = record dropped { rext = set_row dropped.rext c (λ r. bs_andnot r ec st.wo) } in
    let st'' = record st' { dyn = reduced; extent_of_a = bs_andnot st'.extent_of_a ec st.wo } in
    let no_rintent = bs_empty (at reduced.rint c) st.wa || not st.has_all_a in
    some
      (if no_rintent && bs_empty (at reduced.rext c) st.wo then st_add_non_intro st'' c else st'')

-- Case 4: `c` and g(a) incomparable.
unfoldable pub visit_across : ℕ → AresState → ℕ → List ℕ → Option AresState
visit_across fuel st c inter =
    let red = red_of st.dyn c in
    elim (st.has_all_o && bs_intersects red st.ext_a st.wo) [
      | true ↦ split_concept fuel st c inter red
      | false ↦ some st
    ]

-- The state, and whether the step goes on: `false` for an extent equal to g(a).
unfoldable pub ares_visit : ℕ → AresState → ℕ → Option (AresState × Bool)
ares_visit fuel st c =
    let ext_c = at st.dyn.ext c in
    let card_c = bs_card ext_c st.wo in
    let inter = bs_and_to ext_c ext_c st.ext_a st.wo in
    let c_in_a = bs_card inter st.wo == card_c in
    let a_in_c = bs_card inter st.wo == st.card_a in
    let apart =
      not (card_c == 0) && not (st.card_a == 0) && not (bs_intersects ext_c st.ext_a st.wo) in
    elim (flag st.non_intro c || flag st.do_not_check c || apart) [
      | true ↦ some (st, true)
      | false ↦ elim c_in_a [
        | true ↦ elim a_in_c [
          | true ↦ some (
            record st { dyn = record st.dyn { rint = set_row st.dyn.rint c (λ r. bs_set r st.a) } },
            false,
          )
          | false ↦ some (visit_below st c, true)
        ]
        | false ↦ elim a_in_c [
          | true ↦ visit_above fuel st c >>= λ st'. some (st', true)
          | false ↦ visit_across fuel st c inter >>= λ st'. some (st', true)
        ]
      ]
    ]
