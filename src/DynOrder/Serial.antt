-- ===== src/DynOrder/Serial.antt =====
-- core/dynorder.c: the counting sort by the size of the extent, and the flat array with the
-- removed concepts squeezed out.
use fca4j_project.Base.{
  ℕ, ◌+◌, ◌*◌, ◌-◌, ◌^◌, Bool, false, List, [], ◌∷◌, ◌++◌, Option, none, some, length, get_or, set,
  replicate, if◌then◌else◌, foldl, for_to,
}
use fca4j_project.Bitset.{bs_card, bs_foreach}
use fca4j_project.DynOrder.{DynOrder, at}

abbrev pub is_alive : DynOrder → ℕ → Bool
is_alive dyn c = get_or dyn.alive c false

-- bs_card(DYN_EXT(dyn, c), dyn->wo)
abbrev pub ext_card : DynOrder → ℕ → ℕ
ext_card dyn c = bs_card (at dyn.ext c) dyn.wo

-- bucket[k] += d
abbrev pub bump : List ℕ → ℕ → ℕ → List ℕ
bump bucket k d = set bucket k (get_or bucket k 0 + d)

unfoldable pub count_cards : DynOrder → List ℕ
count_cards dyn =
    for_to dyn.n (λ c b. if is_alive dyn c then bump b (ext_card dyn c + 1) 1 else b)
      (replicate (dyn.nb_obj + 2) 0)

-- `for (k = 1; k <= maxcard + 1; k++)`
unfoldable pub prefix_sums : ℕ → List ℕ → List ℕ
prefix_sums maxcard bucket = for_to (maxcard + 1) (λ k b. bump b (k + 1) (get_or b k 0)) bucket

-- One round of the placement: the buffer, the buckets and the total.
unfoldable pub place : DynOrder → ℕ → List ℕ × List ℕ × ℕ → List ℕ × List ℕ × ℕ
place dyn c s =
    if is_alive dyn c
    then (set s.0 (get_or s.1 (ext_card dyn c) 0) c, bump s.1 (ext_card dyn c) 1, s.2 + 1)
    else s

-- The order with its buffer filled, and the number of concepts in it.
unfoldable pub dyn_sort_by_extent : DynOrder → DynOrder × ℕ
dyn_sort_by_extent dyn =
    let placed =
      for_to dyn.n (place dyn) (dyn.sort_buf, prefix_sums dyn.nb_obj (count_cards dyn), 0) in
    (record dyn { sort_buf = placed.0 }, placed.2)

-- newid, and the number of concepts alive; -1 is its 32-bit pattern.
unfoldable pub new_ids : DynOrder → List ℕ × ℕ
new_ids dyn =
    for_to dyn.n
      (λ c s.
        if is_alive dyn c then (s.0 ++ s.1 ∷ [], s.1 + 1) else (s.0 ++ (2 ^ 32 - 1) ∷ [], s.1))
      ([], 0)

unfoldable pub dyn_edge_count : DynOrder → ℕ
dyn_edge_count dyn =
    for_to dyn.n (λ c e. if is_alive dyn c then e + length (at dyn.upper c) else e) 0

unfoldable pub dyn_flat_total : DynOrder → ℕ
dyn_flat_total dyn =
    for_to dyn.n
      (λ c total.
        if is_alive dyn c
        then total + (1 + bs_card (at dyn.rext c) dyn.wo) + (1 + bs_card (at dyn.rint c) dyn.wa)
        else total)
      (2 + 2 * dyn_edge_count dyn)

unfoldable pub dyn_flat_edges : DynOrder → List ℕ → List ℕ → List ℕ
dyn_flat_edges dyn ids = for_to dyn.n (λ c buf.
    if is_alive dyn c
    then foldl (λ b p. b ++ get_or ids c 0 ∷ get_or ids p 0 ∷ []) buf (at dyn.upper c)
    else buf)

-- The cardinality, then the indices word by word.
unfoldable pub dyn_flat_set : List ℕ → ℕ → List ℕ → List ℕ
dyn_flat_set words w buf = buf ++ bs_card words w ∷ bs_foreach words w

unfoldable pub dyn_flat_concepts : DynOrder → List ℕ → List ℕ
dyn_flat_concepts dyn = for_to dyn.n (λ c buf.
    if is_alive dyn c
    then dyn_flat_set (at dyn.rint c) dyn.wa (dyn_flat_set (at dyn.rext c) dyn.wo buf)
    else buf)

-- The allocation of `dyn_flat_total dyn` numbers may fail: `none` is the NULL.
unfoldable pub dyn_to_flat : Bool → DynOrder → Option (List ℕ)
dyn_to_flat allocated dyn =
    let ids = new_ids dyn in
    if allocated
    then some (dyn_flat_concepts dyn (dyn_flat_edges dyn ids.0 (ids.1 ∷ dyn_edge_count dyn ∷ [])))
    else none
