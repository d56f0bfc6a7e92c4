-- ===== src/Ceres/Run.antt =====
-- algo/ceres.c: the sort of the pre-concepts, the blocks of equal cardinality, and the run. Where an
-- attribute has all the objects, its pre-concept becomes a view of the sets of the top: `view_top`
-- reads them, and what the code then writes through the view goes to the top.
use fca4j_project.Base.{
  ℕ, zero, suc, ◌+◌, ◌-◌, not, ◌&&◌, Bool, true, false, List, [], ◌∷◌, ◌++◌, Option, none, some,
  length, get_or, set, replicate, if◌then◌else◌, ltb, ◌==◌, for_to,
}
use fca4j_project.Base.Counting.{counting_sort}
use fca4j_project.Roaring.{Roaring}
use fca4j_project.Context.{BinaryContext}
use fca4j_project.Bitset.{bs_copy, bs_set, bs_test, bs_equal, bs_or, bs_card}
use fca4j_project.AddExtent.{◌>>=◌}
use fca4j_project.DynOrder.{
  DynOrder, at, dyn_create, dyn_new_concept, dyn_remove_edge, dyn_remove_concept,
}
use fca4j_project.DynOrder.Serial.{dyn_to_flat}
use fca4j_project.Ceres.{Ceres, CeresContext, PreConcept, intent_of, ceres_ctx_from_binary}
use fca4j_project.Ceres.Classify.{classify}
use fca4j_project.Ceres.LeftPart.{wolp}

-- A pre-concept that is not there.
abbrev pub no_preconcept : PreConcept
no_preconcept = record { ext = []; intent = []; rext = []; rint = []; ext_card = 0 }

-- tab[i]
abbrev pub pre : List PreConcept → ℕ → PreConcept
pre tab i = get_or tab i no_preconcept

-- tab[i] = tmp[k - 1 - i]
unfoldable pub copy_back : List PreConcept → List PreConcept → List PreConcept
copy_back tmp tab = for_to (length tab) (λ i t. set t i (pre tmp (length tab - 1 - i))) tab

unfoldable pub sort_preconcepts_desc : List PreConcept → ℕ → List PreConcept
sort_preconcepts_desc tab nb_obj =
    copy_back (counting_sort (λ p. p.ext_card) nb_obj tab (replicate (length tab) no_preconcept))
      tab

-- The pre-concept of one attribute.
unfoldable pub attribute_preconcept : CeresContext → ℕ → ℕ → ℕ → PreConcept
attribute_preconcept cx wo wa a =
    let ext = bs_copy (replicate wo 0) (at cx.attr_extent a) wo in
    record {
      ext = ext;
      intent = bs_set (replicate wa 0) a;
      rext = replicate wo 0;
      rint = bs_set (replicate wa 0) a;
      ext_card = bs_card ext wo;
    }

-- The state with the top alone: all objects, and those of an empty intent as its reduced extent.
unfoldable pub ceres_start : CeresContext → Ceres
ceres_start cx =
    let ord = dyn_create cx.nb_obj cx.nb_attr in
    let (dyn, top) = dyn_new_concept ord in
    let max_concepts = cx.nb_obj + cx.nb_attr + 2 in
    record {
      ord = record dyn {
        ext = set dyn.ext top (for_to cx.nb_obj (λ o e. bs_set e o) (at dyn.ext top));
        rext = set dyn.rext top (
            for_to cx.nb_obj (λ o r. if get_or cx.obj_intent_card o 0 == 0 then bs_set r o else r)
              (at dyn.rext top));
      };
      cx = cx;
      wo = ord.wo;
      wa = ord.wa;
      marks = replicate max_concepts 0;
      mark_epoch = replicate max_concepts 0;
      epoch = 0;
      puc = replicate max_concepts 0;
      top_intent = replicate ord.wa 0;
      top = top;
    }

-- The local variables of the loop on the blocks.
pub record Blocks : Type 0 where
  pub ce : Ceres
  pub tab : List PreConcept
  pub done : List Bool
  pub covered : List ℕ

-- tab[i] takes the intent of tab[e] in where the extents are equal.
unfoldable pub merge_into : ℕ → ℕ → Blocks → Blocks
merge_into e i b =
    let p = pre b.tab i in
    let q = pre b.tab e in
    if not (get_or b.done i false) && bs_equal p.ext q.ext b.ce.wo
    then record b {
      tab = set b.tab i (record p {
        intent = bs_or p.intent q.intent b.ce.wa;
        rint = bs_or p.rint q.intent b.ce.wa;
      });
      done = set b.done e true;
    }
    else b

-- The end of the block that begins at `start`, and the merges; `left` rounds.
unfoldable pub merge_block : ℕ → ℕ → ℕ → ℕ → Blocks → Blocks × ℕ
merge_block zero size start e b = (b, e)
merge_block (suc left) size start e b =
    elim (ltb e (length b.tab) && (pre b.tab e).ext_card == size) [
      | false ↦ (b, e)
      | true ↦
          merge_block left size start (e + 1)
            (for_to (e - start) (λ i s. merge_into e (start + i) s) b)
    ]

-- The extent covers all objects: the top takes the intents in.
unfoldable pub join_top : Ceres → PreConcept → Ceres
join_top ce p = record ce {
  top_intent = bs_or ce.top_intent p.intent ce.wa;
  ord = record ce.ord {
    rint = set ce.ord.rint ce.top (bs_or (at ce.ord.rint ce.top) p.rint ce.wa);
  };
}

unfoldable pub view_top : Ceres → PreConcept → PreConcept
view_top ce p = record p {
  ext = at ce.ord.ext ce.top;
  intent = ce.top_intent;
  rext = at ce.ord.rext ce.top;
  rint = at ce.ord.rint ce.top;
}

-- The objects of the extent whose intent is that of the concept enter the reduced extent.
unfoldable pub fill_rext : Ceres → PreConcept → PreConcept
fill_rext ce p = record p {
  rext =
      for_to ce.cx.nb_obj
        (λ o r.
          if bs_test p.ext o && bs_equal (intent_of ce o) p.intent ce.wa then bs_set r o else r)
        p.rext;
}

-- REXT(c) = rext
unfoldable pub store_rext : Ceres → ℕ → List ℕ → Ceres
store_rext ce c rext = record ce {
  ord = record ce.ord { rext = set ce.ord.rext c (bs_copy (at ce.ord.rext c) rext ce.wo) };
}

-- The branch `sizeToDo < nb_obj`.
unfoldable pub treat_below : ℕ → Ceres → PreConcept → List ℕ → Option (Ceres × PreConcept × List ℕ)
treat_below fuel ce p covered = classify fuel ce p true >>= λ placed.
    let covered' = bs_or covered (placed.1).rint ce.wa in
    let filled = fill_rext (placed.0) (placed.1) in
    wolp fuel (store_rext (placed.0) (placed.2) filled.rext) filled covered' >>= λ ce'.
    some (ce', filled, covered')

-- The branch of an extent with all the objects.
unfoldable pub treat_top : Ceres → PreConcept → List ℕ → Ceres × PreConcept × List ℕ
treat_top ce p covered =
    let joined = join_top ce p in
    let view = view_top joined p in
    let filled = fill_rext joined view in
    (
      record joined { ord = record joined.ord { rext = set joined.ord.rext ce.top filled.rext } },
      filled,
      bs_or covered view.rint ce.wa,
    )

-- One pre-concept of the block, which is not done.
unfoldable pub treat : ℕ → ℕ → ℕ → Blocks → Option Blocks
treat fuel size i b = elim (get_or b.done i false) [
  | true ↦ some b
  | false ↦
      (elim (ltb size b.ce.cx.nb_obj) [
        | true ↦ treat_below fuel b.ce (pre b.tab i) b.covered
        | false ↦ some (treat_top b.ce (pre b.tab i) b.covered)
      ])
      >>= λ next. some (record {
        ce = next.0;
        tab = set b.tab i next.1;
        done = set b.done i true;
        covered = next.2;
      })
]

-- The loop on the blocks; `left` rounds.
unfoldable pub block_loop : ℕ → ℕ → ℕ → ℕ → Blocks → Option Ceres
block_loop zero fuel start e b = if ltb start (length b.tab) then none else some b.ce
block_loop (suc left) fuel start e b = elim (ltb start (length b.tab)) [
  | false ↦ some b.ce
  | true ↦
      let size = (pre b.tab start).ext_card in
      let merged = merge_block (length b.tab) size start e b in
      let stop = merged.1 in
      for_to (stop - start) (λ i s. s >>= λ st. treat fuel size (start + i) st) (some (merged.0))
      >>= λ treated. block_loop left fuel stop (stop + 1) treated
]

-- `while (lo->len > 0)`, with `left` rounds.
unfoldable pub detach_children : ℕ → DynOrder → ℕ → DynOrder
detach_children zero dyn top = dyn
detach_children (suc left) dyn top = elim (at dyn.lower top) [
  | [] ↦ dyn
  | c ∷ _ ↦ detach_children left (dyn_remove_edge dyn c top).0 top
]

-- The top disappears if it reduces nothing.
unfoldable pub drop_top : Ceres → DynOrder
drop_top ce =
    if bs_card (at ce.ord.rext ce.top) ce.wo == 0 && bs_card (at ce.ord.rint ce.top) ce.wa == 0
    then dyn_remove_concept (detach_children (length (at ce.ord.lower ce.top)) ce.ord ce.top) ce.top
    else ce.ord

-- The table of the attributes' pre-concepts, in the order of the attributes.
unfoldable pub preconcepts : CeresContext → ℕ → ℕ → List PreConcept
preconcepts cx wo wa = for_to cx.nb_attr (λ a t. t ++ attribute_preconcept cx wo wa a ∷ []) []

-- The start of the loop: the sorted table, nothing done and nothing covered.
unfoldable pub first_blocks : Ceres → Blocks
first_blocks ce = record {
  ce = ce;
  tab = sort_preconcepts_desc (preconcepts ce.cx ce.wo ce.wa) ce.cx.nb_obj;
  done = replicate (if ltb 0 ce.cx.nb_attr then ce.cx.nb_attr else 1) false;
  covered = replicate ce.wa 0;
}

unfoldable pub run_ceres_dense : ℕ → Bool → Option CeresContext → Option (Option (List ℕ))
run_ceres_dense fuel allocated none = some none
run_ceres_dense fuel allocated (some cx) = elim (cx.nb_obj == 0) [
  | true ↦ some none
  | false ↦ block_loop cx.nb_attr fuel 0 1 (first_blocks (ceres_start cx)) >>= λ ce.
      some (dyn_to_flat allocated (drop_top ce))
]

module _ {B : Type 0} ⦃R : Roaring B⦄ where
  -- The two allocations are that of the dense context and that of the flat array.
  unfoldable pub run_ceres_flat : ℕ → Bool → Bool → BinaryContext B → Option (Option (List ℕ))
  run_ceres_flat fuel context_allocated flat_allocated ctx = elim (ctx.nb_objects == 0) [
    | true ↦ some none
    | false ↦ run_ceres_dense fuel flat_allocated (ceres_ctx_from_binary context_allocated ctx)
  ]
