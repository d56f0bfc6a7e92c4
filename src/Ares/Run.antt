-- ===== src/Ares/Run.antt =====
-- algo/ares.c: the removal of the concepts that introduce nothing, one step, and the run.
use fca4j_project.Base.{
  ℕ, Bool, true, false, not, ◌&&◌, ◌||◌, List, [], ◌∷◌, Option, none, some, length, set, replicate,
  take, if◌then◌else◌, foldl, for_to,
}
use fca4j_project.Roaring.{Roaring}
use fca4j_project.Context.{BinaryContext, col}
use fca4j_project.Bitset.{bs_zero, bs_copy, bs_set, bs_or, bs_card, bs_empty}
use fca4j_project.AddExtent.{◌>>=◌}
use fca4j_project.DynOrder.{
  DynOrder, at, dyn_create, dyn_new_concept, dyn_add_edge, dyn_remove_edge, dyn_remove_concept,
}
use fca4j_project.DynOrder.Traverse.{dyn_maximal_of, dyn_mark_reachable_up, dyn_reached}
use fca4j_project.DynOrder.Serial.{dyn_sort_by_extent, dyn_to_flat, is_alive}
use fca4j_project.Ares.{AresState, st_add_non_intro}
use fca4j_project.Ares.Visit.{set_row, ares_visit}

-- The reduced intent goes down to the lower covers.
unfoldable pub hand_down : ℕ → DynOrder → ℕ → DynOrder
hand_down wa dyn c =
    if not (bs_empty (at dyn.rint c) wa)
    then foldl (λ d m. record d { rint = set_row d.rint m (λ r. bs_or r (at d.rint c) wa) }) dyn
        (at dyn.lower c)
    else dyn

-- All edges of `c`, to the parents and from the children given.
unfoldable pub isolate : DynOrder → ℕ → List ℕ → List ℕ → DynOrder
isolate dyn c parents children =
    foldl (λ d m. (dyn_remove_edge d m c).0) (foldl (λ d p. (dyn_remove_edge d c p).0) dyn parents)
      children

-- `child` goes under each parent that is not reachable already.
unfoldable pub link_child : ℕ → List ℕ → ℕ → DynOrder → Option DynOrder
link_child fuel parents child dyn = dyn_mark_reachable_up fuel dyn child parents >>= λ reach.
    some (foldl (λ d p. if dyn_reached d p then d else dyn_add_edge d child p) reach parents)

unfoldable pub link_children : ℕ → List ℕ → List ℕ → DynOrder → Option DynOrder
link_children fuel parents [] dyn = some dyn
link_children fuel parents (child ∷ children) dyn =
    link_child fuel parents child dyn >>= λ d. link_children fuel parents children d

-- The body of the loop on the non-introducers.
unfoldable pub remove_one : ℕ → ℕ → DynOrder → ℕ → Option DynOrder
remove_one fuel wa dyn c = elim (is_alive dyn c) [
  | false ↦ some dyn
  | true ↦
      let handed = hand_down wa dyn c in
      let parents = at handed.upper c in
      let children = at handed.lower c in
      link_children fuel parents children (isolate handed c parents children) >>= λ d.
      some (dyn_remove_concept d c)
]

unfoldable pub ares_remove_non_introducers : ℕ → ℕ → List ℕ → DynOrder → Option DynOrder
ares_remove_non_introducers fuel wa [] dyn = some dyn
ares_remove_non_introducers fuel wa (c ∷ rest) dyn =
    remove_one fuel wa dyn c >>= λ d. ares_remove_non_introducers fuel wa rest d

-- The loop over the snapshot; the flag says whether the step goes on.
unfoldable pub visit_all : ℕ → List ℕ → AresState → Option (AresState × Bool)
visit_all fuel [] st = some (st, true)
visit_all fuel (c ∷ rest) st = elim (is_alive st.dyn c) [
  | false ↦ visit_all fuel rest st
  | true ↦ ares_visit fuel st c >>= λ next. elim (next.1) [
    | true ↦ visit_all fuel rest (next.0)
    | false ↦ some next
  ]
]

-- After the loop: the concept of the attribute, where no visit has created it.
unfoldable pub finish_ca : ℕ → AresState → Option AresState
finish_ca fuel st = elim st.ca [
  | none ↦ elim (st.has_all_a || not (bs_empty st.extent_of_a st.wo)) [
    | false ↦ some st
    | true ↦
        let (dyn, ca) = dyn_new_concept st.dyn in
        let created = record dyn {
          ext = set_row dyn.ext ca (λ e. bs_copy e st.ext_a st.wo);
          rint = set_row dyn.rint ca (λ r. bs_set r st.a);
        } in
        dyn_maximal_of fuel created st.sub_list >>= λ selected.
        some (record st {
          dyn = foldl (λ d m. dyn_add_edge d m ca) selected selected.sel;
          ca = some ca;
        })
  ]
  | some ca ↦
      some
        (if not st.has_all_a && bs_empty st.extent_of_a st.wo then st_add_non_intro st ca else st)
]

-- flags[c] = 0 for the concepts listed
unfoldable pub clear_flags : List ℕ → List Bool → List Bool
clear_flags cs flags = foldl (λ f c. set f c false) flags cs

module _ {B : Type 0} ⦃R : Roaring B⦄ where
  open R use {to_list}

  -- The start of a step: the flags cleared, g(a) as a dense set.
  unfoldable pub begin_step : BinaryContext B → AresState → ℕ → AresState
  begin_step ctx st a =
      let ext = foldl bs_set (bs_zero st.ext_a st.wo) (to_list (col ctx a)) in
      record st {
        a = a;
        ca = none;
        in_sub = clear_flags st.sub_list st.in_sub;
        non_intro = clear_flags st.non_intro_list st.non_intro;
        sub_list = [];
        non_intro_list = [];
        do_not_check = replicate (length st.do_not_check) false;
        ext_a = ext;
        card_a = bs_card ext st.wo;
        extent_of_a = bs_copy st.extent_of_a ext st.wo;
      }

  unfoldable pub ares_step : ℕ → BinaryContext B → AresState → ℕ → Option AresState
  ares_step fuel ctx st a =
      let begun = begin_step ctx st a in
      let (sorted, count) = dyn_sort_by_extent begun.dyn in
      visit_all fuel (take count sorted.sort_buf) (record begun { dyn = sorted }) >>= λ visited.
      elim (visited.1) [
        | false ↦ some (visited.0)
        | true ↦ finish_ca fuel (visited.0) >>= λ st'.
            ares_remove_non_introducers fuel st'.wa st'.non_intro_list st'.dyn >>= λ d.
            some (record st' { dyn = d })
      ]

  -- The order with the top concept alone, which has all objects.
  unfoldable pub ares_start : BinaryContext B → AresState
  ares_start ctx =
      let (dyn, top) = dyn_new_concept (dyn_create ctx.nb_objects ctx.nb_attributes) in
      record {
        dyn =
            for_to ctx.nb_objects
              (λ o d. record d {
                ext = set_row d.ext top (λ e. bs_set e o);
                rext = set_row d.rext top (λ r. bs_set r o);
              })
              dyn;
        wo = dyn.wo;
        wa = dyn.wa;
        has_all_a = true;
        has_all_o = true;
        ext_a = replicate dyn.wo 0;
        extent_of_a = replicate dyn.wo 0;
        a = 0;
        card_a = 0;
        in_sub = replicate 256 false;
        sub_list = [];
        non_intro = replicate 256 false;
        non_intro_list = [];
        do_not_check = replicate 256 false;
        ca = none;
      }

  unfoldable pub run_ares_flat : ℕ → Bool → BinaryContext B → Option (Option (List ℕ))
  run_ares_flat fuel allocated ctx =
      for_to ctx.nb_attributes (λ a s. s >>= λ st. ares_step fuel ctx st a) (some (ares_start ctx))
      >>= λ st. some (dyn_to_flat allocated st.dyn)
