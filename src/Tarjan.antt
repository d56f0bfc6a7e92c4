-- ===== src/Tarjan.antt =====
-- core/tarjan.c: the strongly connected components of more than one attribute (D-cycles). The head
-- of the list `stack` is its top; an index of -1 is `none`. The recursion takes fuel.
use fca4j_project.Base.{
  ℕ, zero, suc, ◌+◌, Bool, true, false, List, [], ◌∷◌, ◌++◌, Option, none, some, get_or, set,
  replicate, if◌then◌else◌, leb, ltb, ◌==◌, foldl,
}
use fca4j_project.Roaring.{Roaring}
use fca4j_project.Implication.{CImplication}

pub record TarjanState (B : Type 0) : Type 0 where
  pub adj : List B
  pub index : List (Option ℕ)
  pub lowlink : List ℕ
  pub on_stack : List Bool
  pub stack : List ℕ
  pub current_index : ℕ
  pub sccs : List B

-- The `do … while` loop: the vertices down to `v`, and the stack below.
unfoldable pub pop_until : ℕ → List ℕ → List ℕ × List ℕ
pop_until v [] = ([], [])
pop_until v (w ∷ stack) = elim (w == v) [
  | true ↦ (w ∷ [], stack)
  | false ↦ let rest = pop_until v stack in (w ∷ rest.0, rest.1)
]

module _ {B : Type 0} ⦃R : Roaring B⦄ where
  open R use {create, add, to_list, cardinality, minimum}

  unfoldable pub enter_vertex : TarjanState B → ℕ → TarjanState B
  enter_vertex st v = record st {
    index = set st.index v (some st.current_index);
    lowlink = set st.lowlink v st.current_index;
    current_index = st.current_index + 1;
    stack = v ∷ st.stack;
    on_stack = set st.on_stack v true;
  }

  -- if (low < lowlink[v]) lowlink[v] = low
  unfoldable pub lower_link : TarjanState B → ℕ → ℕ → TarjanState B
  lower_link st v low =
      if ltb low (get_or st.lowlink v 0) then record st { lowlink = set st.lowlink v low } else st

  -- The loop over the successors; `rec` is the recursive call.
  unfoldable pub visit_edges :
      (TarjanState B → ℕ → Option (TarjanState B))
      → ℕ
      → List ℕ
      → TarjanState B
      → Option (TarjanState B)
  visit_edges rec v [] st = some st
  visit_edges rec v (w ∷ ws) st = elim (get_or st.index w none) [
    | none ↦ elim (rec st w) [
      | none ↦ none
      | some st' ↦ visit_edges rec v ws (lower_link st' v (get_or st'.lowlink w 0))
    ]
    | some i ↦ visit_edges rec v ws (if get_or st.on_stack w false then lower_link st v i else st)
  ]

  -- The component of `v`, kept when it has more than one vertex.
  unfoldable pub close_component : TarjanState B → ℕ → TarjanState B
  close_component st v =
      let popped = pop_until v st.stack in
      let scc = foldl add create popped.0 in
      record st {
        stack = popped.1;
        on_stack = foldl (λ o w. set o w false) st.on_stack popped.0;
        sccs = if ltb 1 (cardinality scc) then st.sccs ++ scc ∷ [] else st.sccs;
      }

  unfoldable pub tarjan_strongconnect : ℕ → TarjanState B → ℕ → Option (TarjanState B)
  tarjan_strongconnect zero st v = none
  tarjan_strongconnect (suc fuel) st v =
      elim (visit_edges (tarjan_strongconnect fuel) v (to_list (get_or st.adj v create))
        (enter_vertex st v)) [
          | none ↦ none
          | some st' ↦ some (elim (get_or st'.index v none) [
            | none ↦ st'
            | some i ↦ if get_or st'.lowlink v 0 == i then close_component st' v else st'
          ])
        ]

  -- The edges that one implication adds: from the minimum of the conclusion to the premise.
  unfoldable pub dependency : List B → CImplication B → List B
  dependency adj imp =
      if leb (cardinality imp.premise) 1
      then adj
      else let x = minimum imp.conclusion in
        foldl (λ l p. set l x (add (get_or l x create) p)) adj (to_list imp.premise)

  -- The loop over the vertices v, v + 1, …, with `left` of them left.
  unfoldable pub connect_from : ℕ → ℕ → ℕ → TarjanState B → Option (TarjanState B)
  connect_from fuel zero v st = some st
  connect_from fuel (suc left) v st = elim (get_or st.index v none) [
    | none ↦ elim (tarjan_strongconnect fuel st v) [
      | none ↦ none
      | some st' ↦ connect_from fuel left (v + 1) st'
    ]
    | some i ↦ connect_from fuel left (v + 1) st
  ]

  unfoldable pub find_dcycles : ℕ → List (CImplication B) → ℕ → Option (List B)
  find_dcycles fuel basis nb_attributes =
      elim (connect_from fuel nb_attributes 0 (record {
        adj = foldl dependency (replicate nb_attributes create) basis;
        index = replicate nb_attributes none;
        lowlink = replicate nb_attributes 0;
        on_stack = replicate nb_attributes false;
        stack = [];
        current_index = 0;
        sccs = [];
      })) [ none ↦ none | some st ↦ some st.sccs ]
