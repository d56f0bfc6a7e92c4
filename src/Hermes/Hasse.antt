-- ===== src/Hermes/Hasse.antt =====
-- algo/hermes.c, hermes_compute_hasse: the concepts in descending order of their values, each
-- compared with those before it, and the edges in one go at the end. A minimum of -1 is `none`. The
-- traversal of the descendants takes fuel; `none` means that it ran out.
use fca4j_project.Base.{
  ℕ, zero, suc, ◌+◌, ◌-◌, Bool, true, false, not, List, [], ◌∷◌, ◌++◌, Option, none, some, length,
  get_or, set, replicate, if◌then◌else◌, ltb, ◌==◌, foldl, for_to,
}
use fca4j_project.Roaring.{Roaring}
use fca4j_project.Context.{BinaryContext, row}
use fca4j_project.DGraph.{bitmap_at, children_of, parents_of}
use fca4j_project.ConceptOrder.{ConceptOrder, co_add_concept}
use fca4j_project.Bitset.{aw_n, bs_set, bs_card, bs_subset}
use fca4j_project.AddExtent.{◌>>=◌}
use fca4j_project.DynOrder.{at}
use fca4j_project.Hermes.{HconceptSet}

-- `acc` in the loop that turns the counts into starts.
unfoldable pub bucket_starts : ℕ → List ℕ → List ℕ × ℕ
bucket_starts max_card bucket =
    for_to (max_card + 1) (λ k s. (set s.0 k s.1, s.1 + get_or s.0 k 0)) (bucket, 0)

-- The positions sorted by descending cardinality.
unfoldable pub order_by_card : List ℕ → List ℕ
order_by_card cards =
    let n = length cards in
    let max_card = for_to n (λ i m. if ltb m (get_or cards i 0) then get_or cards i 0 else m) 0 in
    let counts =
      for_to n
        (λ i b. set b (max_card - get_or cards i 0) (get_or b (max_card - get_or cards i 0) 0 + 1))
        (replicate (max_card + 2) 0) in
    let placed : List ℕ × List ℕ =
      for_to n
        (λ i s.
          let k = max_card - get_or cards i 0 in
          (set s.0 (get_or s.1 k 0) i, set s.1 k (get_or s.1 k 0 + 1)))
        (replicate n 0, (bucket_starts max_card counts).0) in
    placed.0

-- The arrays of the construction.
pub record Hasse (B : Type 0) : Type 0 where
  pub gsh : ConceptOrder B
  pub concept_ids : List ℕ
  pub rext_min : List (Option ℕ)
  pub visited : List Bool
  pub child_arr : List (List ℕ)

-- parentArr: the transposition of childArr.
unfoldable pub transpose : ℕ → List (List ℕ) → List (List ℕ)
transpose n child_arr =
    for_to n (λ c parents. foldl (λ ps ch. set ps ch (at ps ch ++ c ∷ [])) parents (at child_arr c))
      (replicate n [])

module _ {B : Type 0} ⦃R : Roaring B⦄ where
  open R use {create, contains, or, remove, is_empty, to_list, minimum, maximum, add_many}

  -- conceptSets->data[i]
  abbrev pub cset : List (HconceptSet B) → ℕ → HconceptSet B
  cset sets i = get_or sets i (record { intent = create; extent = create; values = create })

  -- maxVal + 1
  unfoldable pub value_bound : List (HconceptSet B) → ℕ
  value_bound sets =
      for_to (length sets)
        (λ i t.
          let values = (cset sets i).values in
          if not (is_empty values)
          then if ltb t (maximum values + 1) then maximum values + 1 else t
          else t)
        0

  unfoldable pub value_width : List (HconceptSet B) → ℕ
  value_width sets = aw_n (if ltb 0 (value_bound sets) then value_bound sets else 1)

  -- dvals
  unfoldable pub dense_values : List (HconceptSet B) → List (List ℕ)
  dense_values sets =
      for_to (length sets)
        (λ i d.
          d ++ foldl bs_set (replicate (value_width sets) 0) (to_list (cset sets i).values) ∷ [])
        []

  -- roaring_bitmap_or_inplace(bitmaps[c], b)
  abbrev pub or_at : List (Option B) → ℕ → B → List (Option B)
  or_at bitmaps c b = set bitmaps c (some (or (bitmap_at bitmaps c) b))

  -- The concept of a set, with its reduced sets.
  unfoldable pub create_concept : HconceptSet B → ConceptOrder B → ConceptOrder B × ℕ
  create_concept c_set gsh =
      let (co, concept_s) = co_add_concept gsh c_set.extent c_set.intent in
      (
        record co {
          rextents = or_at co.rextents concept_s c_set.extent;
          rintents = or_at co.rintents concept_s c_set.intent;
        },
        concept_s,
      )

  -- The loop on the children: those not visited are marked, inherit and are pushed.
  unfoldable pub visit_children : Bool → B → List ℕ → Hasse B → List ℕ → Hasse B × List ℕ
  visit_children full_sets s_rintent [] h stack = (h, stack)
  visit_children full_sets s_rintent (child ∷ ch) h stack = elim (get_or h.visited child false) [
    | true ↦ visit_children full_sets s_rintent ch h stack
    | false ↦
        visit_children full_sets s_rintent ch
          (record h {
            visited = set h.visited child true;
            gsh =
                if full_sets
                then record h.gsh { intents = or_at h.gsh.intents child s_rintent }
                else h.gsh;
          })
          (stack ++ child ∷ [])
  ]

  -- `while (head < stack.len)`
  unfoldable pub visit_descendants : ℕ → Bool → B → List ℕ → Hasse B → Option (Hasse B)
  visit_descendants fuel full_sets s_rintent [] h = some h
  visit_descendants zero full_sets s_rintent (cur ∷ stack) h = none
  visit_descendants (suc fuel) full_sets s_rintent (cur ∷ stack) h =
      let next = visit_children full_sets s_rintent (at h.child_arr cur) h stack in
      visit_descendants fuel full_sets s_rintent next.1 next.0

  -- What follows when the concept at `prev_pos` is below `concept_s`.
  unfoldable pub add_child : ℕ → Bool → ℕ → ℕ → B → Hasse B → Option (Hasse B)
  add_child fuel full_sets concept_s concept_t s_rintent h =
      let child_arr = set h.child_arr concept_s (at h.child_arr concept_s ++ concept_t ∷ []) in
      let gsh = h.gsh in
      let linked = record h {
        child_arr = child_arr;
        gsh =
            if full_sets
            then record gsh {
              extents = or_at gsh.extents concept_s (bitmap_at gsh.extents concept_t);
              intents = or_at gsh.intents concept_t s_rintent;
            }
            else gsh;
      } in
      let start = visit_children full_sets s_rintent (at child_arr concept_t) linked [] in
      visit_descendants fuel full_sets s_rintent start.1 start.0

  -- isParent
  unfoldable pub is_parent :
      BinaryContext B → ℕ → List ℕ → List (List ℕ) → List ℕ → Option ℕ → ℕ → Hasse B → ℕ → Bool
  is_parent ctx wv s_values dvals order s_obj s_attr h prev_pos =
      elim (get_or h.rext_min prev_pos none) as (λ _. Bool) [
        | none ↦ bs_subset s_values (at dvals (get_or order prev_pos 0)) wv
        | some t_obj_min ↦ elim s_obj [
          | none ↦ contains (row ctx t_obj_min) s_attr
          | some _ ↦ bs_subset s_values (at dvals (get_or order prev_pos 0)) wv
        ]
      ]

  -- The loop on prevPos, from `prev` - 1 down.
  unfoldable pub compare_previous :
      ℕ → Bool → ℕ → B → (Hasse B → ℕ → Bool) → ℕ → Hasse B → Option (Hasse B)
  compare_previous fuel full_sets concept_s s_rintent test zero h = some h
  compare_previous fuel full_sets concept_s s_rintent test (suc prev) h =
      let concept_t = get_or h.concept_ids prev 0 in
      elim (get_or h.visited concept_t false) [
        | true ↦
            compare_previous fuel full_sets concept_s s_rintent test prev
              (record h { visited = set h.visited concept_t false })
        | false ↦ elim (test h prev) [
          | false ↦ compare_previous fuel full_sets concept_s s_rintent test prev h
          | true ↦ add_child fuel full_sets concept_s concept_t s_rintent h >>= λ h'.
              compare_previous fuel full_sets concept_s s_rintent test prev h'
        ]
      ]

  -- The body of the loop on pos.
  unfoldable pub place_concept :
      ℕ
      → Bool
      → BinaryContext B
      → List (HconceptSet B)
      → List (List ℕ)
      → List ℕ
      → ℕ
      → Hasse B
      → Option (Hasse B)
  place_concept fuel full_sets ctx sets dvals order pos h =
      let idx = get_or order pos 0 in
      let (gsh, concept_s) = create_concept (cset sets idx) h.gsh in
      let rextent = bitmap_at gsh.rextents concept_s in
      let s_rintent = bitmap_at gsh.rintents concept_s in
      let s_obj : Option ℕ = if is_empty rextent then none else some (minimum rextent) in
      let s_attr : ℕ = elim s_obj [ none ↦ minimum s_rintent | some _ ↦ 0 ] in
      let wv = value_width sets in
      compare_previous fuel full_sets concept_s s_rintent
        (λ s prev. is_parent ctx wv (at dvals idx) dvals order s_obj s_attr s prev) pos
        (record h {
          gsh = gsh;
          concept_ids = h.concept_ids ++ concept_s ∷ [];
          rext_min = h.rext_min ++ s_obj ∷ [];
        })

  -- The edges of the mirror enter the graph; a concept with parents is not maximal, one with
  -- children is not minimal.
  unfoldable pub lay_edges : ℕ → List (List ℕ) → ConceptOrder B → ConceptOrder B
  lay_edges n child_arr gsh =
      let parent_arr = transpose n child_arr in
      for_to n
        (λ c co.
          let with_children : ConceptOrder B =
            if ltb 0 (length (at child_arr c))
            then record co {
              graph = record co.graph {
                children =
                    set co.graph.children c
                      (some (add_many (children_of co.graph c) (at child_arr c)));
              };
              minimals = remove co.minimals c;
            }
            else co in
          if ltb 0 (length (at parent_arr c))
          then record with_children {
            graph = record with_children.graph {
              parents =
                  set with_children.graph.parents c
                    (some (add_many (parents_of with_children.graph c) (at parent_arr c)));
            };
            maximals = remove with_children.maximals c;
          }
          else with_children)
        gsh

  unfoldable pub hermes_compute_hasse :
      ℕ → ConceptOrder B → BinaryContext B → List (HconceptSet B) → Bool → Option (ConceptOrder B)
  hermes_compute_hasse fuel gsh ctx sets full_sets =
      let n = length sets in
      let dvals = dense_values sets in
      let order =
        order_by_card (for_to n (λ i c. c ++ bs_card (at dvals i) (value_width sets) ∷ []) []) in
      let start : Hasse B = record {
        gsh = gsh;
        concept_ids = [];
        rext_min = [];
        visited = replicate n false;
        child_arr = replicate n [];
      } in
      if n == 0
      then some gsh
      else for_to n (λ pos s. s >>= λ h. place_concept fuel full_sets ctx sets dvals order pos h)
          (some start)
        >>= λ h. some (lay_edges n h.child_arr h.gsh)
