-- ===== src/Ceres/Classify.antt =====
-- algo/ceres.c, classify: the descent from the top, which examines a concept once all its parents
-- have been treated. A counter of parents stops at 0 where that of the code goes below it: the
-- code only asks whether it has just reached 0. The traversal takes fuel; `none` means that it
-- ran out.
use fca4j_project.Base.{
  ℕ, zero, suc, ◌+◌, ◌-◌, ◌&&◌, Bool, true, false, List, [], ◌∷◌, ◌++◌, Option, none, some, length,
  get_or, set, if◌then◌else◌, ◌==◌, foldl,
}
use fca4j_project.Bitset.{bs_copy, bs_or, bs_nonzero_words, bs_subset_sparse}
use fca4j_project.DynOrder.{DynOrder, at, dyn_new_concept, dyn_add_edge}
use fca4j_project.DynOrder.Traverse.{marked}
use fca4j_project.Ceres.{Ceres, PreConcept}

-- What the traversal changes. `seen` is the part of the queue before the head.
pub record Walk : Type 0 where
  pub marks : List ℕ
  pub mark_epoch : List ℕ
  pub puc : List ℕ
  pub intent : List ℕ
  pub seen : List ℕ

-- The counters, with that of `p` started in this epoch from the number of parents.
unfoldable pub start_counter : List (List ℕ) → ℕ → List ℕ → List ℕ → ℕ → List ℕ
start_counter upper epoch marks mark_epoch p =
    if marked mark_epoch epoch p then marks else set marks p (length (at upper p))

-- The loop on the lower covers: the marks, their epochs and the part of the queue that waits.
unfoldable pub offer_lower :
    DynOrder → List ℕ → List ℕ → ℕ → List ℕ → List ℕ → List ℕ → List ℕ → List ℕ × List ℕ × List ℕ
offer_lower ord ext active epoch [] marks mark_epoch queue = (marks, mark_epoch, queue)
offer_lower ord ext active epoch (p ∷ ps) marks mark_epoch queue =
    let started = start_counter ord.upper epoch marks mark_epoch p in
    let left = get_or started p 0 in
    let grown =
      if left == 1 && bs_subset_sparse ext (at ord.ext p) active then queue ++ p ∷ [] else queue in
    offer_lower ord ext active epoch ps (set started p (left - 1)) (set mark_epoch p epoch) grown

-- puc[up[i]] = 0
unfoldable pub clear_puc : List ℕ → List ℕ → List ℕ
clear_puc ups puc = foldl (λ b u. set b u 0) puc ups

unfoldable pub walk : ℕ → DynOrder → List ℕ → List ℕ → ℕ → Bool → ℕ → List ℕ → Walk → Option Walk
walk fuel ord ext active epoch is_attribute wa [] w = some w
walk zero ord ext active epoch is_attribute wa (cur ∷ queue) w = none
walk (suc fuel) ord ext active epoch is_attribute wa (cur ∷ queue) w =
    let next = offer_lower ord ext active epoch (at ord.lower cur) w.marks w.mark_epoch queue in
    walk fuel ord ext active epoch is_attribute wa next.2 (record {
      marks = next.0;
      mark_epoch = next.1;
      puc = clear_puc (at ord.upper cur) (set w.puc cur epoch);
      intent = if is_attribute then bs_or w.intent (at ord.rint cur) wa else w.intent;
      seen = w.seen ++ cur ∷ [];
    })

-- The loop on the queue: an edge to each concept that is still marked, whose mark is cleared.
unfoldable pub link_parents : ℕ → ℕ → List ℕ → DynOrder → List ℕ → DynOrder × List ℕ
link_parents epoch c [] ord puc = (ord, puc)
link_parents epoch c (v ∷ vs) ord puc = elim (marked puc epoch v) [
  | true ↦ link_parents epoch c vs (dyn_add_edge ord c v) (set puc v 0)
  | false ↦ link_parents epoch c vs ord puc
]

-- dyn_new_concept, and the copies of the three sets.
unfoldable pub insert_concept : Ceres → PreConcept → DynOrder
insert_concept ce p =
    let (dyn, c) = dyn_new_concept ce.ord in
    record dyn {
      ext = set dyn.ext c (bs_copy (at dyn.ext c) p.ext ce.wo);
      rext = set dyn.rext c (bs_copy (at dyn.rext c) p.rext ce.wo);
      rint = set dyn.rint c (bs_copy (at dyn.rint c) p.rint ce.wa);
    }

-- The state and the pre-concept afterwards, and the new concept.
unfoldable pub classify : ℕ → Ceres → PreConcept → Bool → Option (Ceres × PreConcept × ℕ)
classify fuel ce p is_attribute =
    let epoch = ce.epoch + 1 in
    elim (walk fuel ce.ord p.ext (bs_nonzero_words p.ext ce.wo) epoch is_attribute ce.wa
      (ce.top ∷ [])
      (record {
        marks = ce.marks;
        mark_epoch = ce.mark_epoch;
        puc = ce.puc;
        intent = p.intent;
        seen = [];
      })) [
        | none ↦ none
        | some w ↦
            let linked = link_parents epoch ce.ord.n w.seen (insert_concept ce p) w.puc in
            some (
              record ce {
                ord = linked.0;
                marks = w.marks;
                mark_epoch = w.mark_epoch;
                epoch = epoch;
                puc = linked.1;
              },
              record p { intent = w.intent },
              ce.ord.n,
            )
      ]
