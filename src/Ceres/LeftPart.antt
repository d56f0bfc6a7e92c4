-- ===== src/Ceres/LeftPart.antt =====
-- algo/ceres.c, wolp (WorkOnLeftPart2): the object concepts that an attribute concept gives rise to.
use fca4j_project.Base.{
  ℕ, zero, suc, not, ◌&&◌, ◌||◌, Bool, true, false, List, [], ◌∷◌, ◌++◌, Option, none, some, length,
  get_or, replicate, take, if◌then◌else◌, ◌==◌, map, for_to,
}
use fca4j_project.Base.Counting.{counting_sort}
use fca4j_project.Bitset.{bs_copy, bs_set, bs_test, bs_equal, bs_subset}
use fca4j_project.AddExtent.{◌>>=◌}
use fca4j_project.Ceres.{Ceres, CeresContext, PreConcept, intent_of}
use fca4j_project.Ceres.Classify.{classify}

-- wolpRaw: the objects of the extent that are not in the reduced extent.
unfoldable pub wolp_raw : ℕ → PreConcept → List ℕ
wolp_raw nb_obj p =
    for_to nb_obj (λ o l. if bs_test p.ext o && not (bs_test p.rext o) then l ++ o ∷ [] else l) []

-- wolpObjs: sorted by the cardinality of the intent.
unfoldable pub wolp_sorted : CeresContext → List ℕ → List ℕ
wolp_sorted cx raw =
    take (length raw)
      (counting_sort (λ o. get_or cx.obj_intent_card o 0) cx.nb_attr raw (replicate cx.nb_obj 0))

-- The body of the loop on `j`: the object with its flag `consumed`, the extent and the reduced one.
unfoldable pub absorb_one : Ceres → List ℕ → ℕ → ℕ × Bool → List ℕ → List ℕ → Bool × List ℕ × List ℕ
absorb_one ce assoc card item ext rext =
    let fj = intent_of ce item.0 in
    if item.1
    then (true, ext, rext)
    else if get_or ce.cx.obj_intent_card item.0 0 == card
    then if bs_equal fj assoc ce.wa
      then (true, bs_set ext item.0, bs_set rext item.0)
      else (false, ext, rext)
    else if bs_subset assoc fj ce.wa
    then (false, bs_set ext item.0, rext)
    else (false, ext, rext)

-- The loop on `j`: the flags of the later objects, the extent and the reduced extent.
unfoldable pub absorb :
    Ceres → List ℕ → ℕ → List (ℕ × Bool) → List ℕ → List ℕ → List (ℕ × Bool) × List ℕ × List ℕ
absorb ce assoc card [] ext rext = ([], ext, rext)
absorb ce assoc card (item ∷ items) ext rext =
    let one = absorb_one ce assoc card item ext rext in
    let rest = absorb ce assoc card items one.1 one.2 in ((item.0, one.0) ∷ rest.0, rest.1, rest.2)

-- The object concept of `oi`, and the flags of the later objects.
unfoldable pub object_concept : Ceres → ℕ → List (ℕ × Bool) → PreConcept × List (ℕ × Bool)
object_concept ce oi later =
    let assoc = bs_copy (replicate ce.wa 0) (intent_of ce oi) ce.wa in
    let (items, ext, rext) =
      absorb ce assoc (get_or ce.cx.obj_intent_card oi 0) later (bs_set (replicate ce.wo 0) oi)
        (bs_set (replicate ce.wo 0) oi) in
    (
      record { ext = ext; intent = assoc; rext = rext; rint = replicate ce.wa 0; ext_card = 0 },
      items,
    )

-- The loop on `i`, with one round for each object.
unfoldable pub wolp_loop : ℕ → ℕ → Ceres → List ℕ → List (ℕ × Bool) → Option Ceres
wolp_loop left fuel ce covered [] = some ce
wolp_loop zero fuel ce covered (item ∷ later) = none
wolp_loop (suc left) fuel ce covered (item ∷ later) =
    elim (item.1 || not (bs_subset (intent_of ce item.0) covered ce.wa)) [
      | true ↦ wolp_loop left fuel ce covered later
      | false ↦
          let (np, items) = object_concept ce item.0 later in
          classify fuel ce np false >>= λ done. wolp_loop left fuel done.0 covered items
    ]

unfoldable pub wolp : ℕ → Ceres → PreConcept → List ℕ → Option Ceres
wolp fuel ce p covered =
    let objs = wolp_sorted ce.cx (wolp_raw ce.cx.nb_obj p) in
    wolp_loop (length objs) fuel ce covered (map (λ o. (o, false)) objs)
