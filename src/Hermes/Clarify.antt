-- ===== src/Hermes/Clarify.antt =====
-- algo/hermes.c, hermes_clarify and hermes_compute_dom_relation. `qsort` of the C library, under the
-- comparison of cmp_refset_card_desc, is an argument: the order in which it leaves sets of equal
-- cardinality is not specified. A slot that holds -1 is `none`. A probe takes as many rounds as there
-- are slots; a table without a free slot, on which the code would not end, gives `none`.
use fca4j_project.Base.{
  ℕ, zero, suc, ◌+◌, ◌-◌, ◌*◌, ◌&&◌, ◌||◌, Bool, true, false, not, List, [], ◌∷◌, ◌++◌, Option,
  none, some, length, get_or, set, replicate, if◌then◌else◌, ltb, ◌==◌, foldl, for_to,
}
use Prim.Native.Nat.{bit_and}
use fca4j_project.Roaring.{Roaring}
use fca4j_project.AddExtent.{◌>>=◌}
use fca4j_project.Hermes.{
  RefSet, refset, refset_create, refset_create_from_refs, hermes_hash_values,
}

-- The sets, the flags `dead`, and the open table with the hashes of its slots.
pub record Grouping (B : Type 0) : Type 0 where
  pub sets : List (RefSet B)
  pub dead : List Bool
  pub slot : List (Option ℕ)
  pub hsl : List ℕ

-- The end of a probe: a free slot, or the set with the same values.
pub data Probe : Type 0 where
  free : ℕ → Probe
  merged : ℕ → Probe

-- `while (cap < 2 * m) cap <<= 1`, with `left` rounds.
unfoldable pub table_size : ℕ → ℕ → ℕ → ℕ
table_size zero m cap = cap
table_size (suc left) m cap = elim (ltb cap (2 * m)) [
  | true ↦ table_size left m (cap * 2)
  | false ↦ cap
]

-- `while (blockEnd < n && card[blockEnd] == card[blockStart])`, with `left` rounds.
unfoldable pub block_end : ℕ → List ℕ → ℕ → ℕ → ℕ
block_end zero card start e = e
block_end (suc left) card start e =
    elim (ltb e (length card) && get_or card e 0 == get_or card start 0) [
      | true ↦ block_end left card start (e + 1)
      | false ↦ e
    ]

module _ {B : Type 0} ⦃R : Roaring B⦄ where
  open R use {add, or, equals, is_subset, to_list, cardinality}

  -- `while (slot[k] >= 0)`
  unfoldable pub probe : ℕ → Grouping B → ℕ → ℕ → B → ℕ → Option Probe
  probe zero g cap h values k = none
  probe (suc left) g cap h values k = elim (get_or g.slot k none) [
    | none ↦ some (free k)
    | some j ↦ elim (get_or g.hsl k 0 == h && equals (refset g.sets j).values values) [
      | true ↦ some (merged j)
      | false ↦ probe left g cap h values (bit_and (k + 1) (cap - 1))
    ]
  ]

  -- roaring_bitmap_or_inplace(data[j].refs, data[i].refs); dead[i] = 1, or the slot is filled.
  unfoldable pub settle : Grouping B → ℕ → ℕ → Probe → Grouping B
  settle g i h (free k) = record g { slot = set g.slot k (some i); hsl = set g.hsl k h }
  settle g i h (merged j) = record g {
    sets =
        set g.sets j
          (record (refset g.sets j) { refs = or (refset g.sets j).refs (refset g.sets i).refs });
    dead = set g.dead i true;
  }

  unfoldable pub group_one : ℕ → ℕ → Grouping B → Option (Grouping B)
  group_one cap i g =
      let values = (refset g.sets i).values in
      let h = hermes_hash_values values in
      probe cap g cap h values (bit_and h (cap - 1)) >>= λ found. some (settle g i h found)

  unfoldable pub group_block : ℕ → ℕ → List (RefSet B) → List Bool → Option (Grouping B)
  group_block start stop sets dead =
      let cap = table_size (stop - start) (stop - start) 4 in
      for_to (stop - start) (λ i s. s >>= λ g. group_one cap (start + i) g)
        (some
          (record { sets = sets; dead = dead; slot = replicate cap none; hsl = replicate cap 0 }))

  -- The loop on the blocks of equal cardinality, with `left` rounds.
  unfoldable pub group_blocks :
      ℕ → List ℕ → ℕ → List (RefSet B) → List Bool → Option (List (RefSet B) × List Bool)
  group_blocks zero card start sets dead =
      if ltb start (length card) then none else some (sets, dead)
  group_blocks (suc left) card start sets dead = elim (ltb start (length card)) [
    | false ↦ some (sets, dead)
    | true ↦
        let stop = block_end (length card) card start (start + 1) in
        elim (ltb 1 (stop - start)) [
          | true ↦
              group_block start stop sets dead >>= λ g. group_blocks left card stop g.sets g.dead
          | false ↦ group_blocks left card stop sets dead
        ]
  ]

  -- The compaction: the sets that are not dead, in order.
  unfoldable pub compact : List (RefSet B) → List Bool → List (RefSet B)
  compact sets dead =
      for_to (length sets) (λ i l. if not (get_or dead i false) then l ++ refset sets i ∷ [] else l)
        []

  -- The index of each class is added to the sets that its values name.
  unfoldable pub synchronize : List (RefSet B) → List (RefSet B) → List (RefSet B)
  synchronize clarified synchronized =
      for_to (length clarified)
        (λ i result.
          foldl
            (λ r idx.
              if ltb idx (length r)
              then set r idx (record (refset r idx) { values = add (refset r idx).values i })
              else r)
            result (to_list (refset clarified i).values))
        (for_to (length synchronized)
          (λ i r. r ++ refset_create_from_refs (refset synchronized i).refs ∷ []) [])

  -- The clarified sets, and the synchronised ones.
  unfoldable pub hermes_clarify :
      (List (RefSet B) → List (RefSet B))
      → List (RefSet B)
      → List (RefSet B)
      → Option (List (RefSet B) × List (RefSet B))
  hermes_clarify qsort to_clarify to_synchronize =
      let sorted = qsort to_clarify in
      let n = length sorted in
      let card = for_to n (λ i c. c ++ cardinality (refset sorted i).values ∷ []) [] in
      group_blocks n card 0 sorted (replicate n false) >>= λ grouped.
      let clarified = compact (grouped.0) (grouped.1) in
      some (clarified, synchronize clarified to_synchronize)

  -- The inner loop of the domination: the classes whose values contain those of class `i`.
  unfoldable pub dominating : List (RefSet B) → ℕ → RefSet B
  dominating attr_sets i =
      for_to (length attr_sets)
        (λ j s.
          if i == j || is_subset (refset attr_sets i).values (refset attr_sets j).values
          then record s { values = add s.values j }
          else s)
        (record (refset_create {B = B}) {
          refs = or (refset_create {B = B}).refs (refset attr_sets i).refs;
        })

  unfoldable pub hermes_compute_dom_relation : List (RefSet B) → List (RefSet B)
  hermes_compute_dom_relation attr_sets =
      for_to (length attr_sets) (λ i dom. dom ++ dominating attr_sets i ∷ []) []
