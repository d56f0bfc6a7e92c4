-- ===== src/Hermes/Block.antt =====
-- algo/hermes.c, hermes_clarify: a block of sets of equal cardinality, grouped from an empty table.
use fca4j_project.Base.{
  ℕ, zero, suc, ◌+◌, ◌-◌, ◌*◌, ◌^◌, ◌≤◌, ◌<◌, ◌≡◌, refl, sym, ◌∙◌, ap, Bool, true, false, List,
  Option, none, some, length, get_or, replicate, ltb, arith, Bool-cases, inl, inr, ==_refl,
  length-replicate, get_or-replicate, for_to, for_inv,
}
use mathlib.Core.Path.{subst}
use native.Mathlib.Nat.{pow-suc}
use fca4j_project.Base.Count.{count_to-none}
use fca4j_project.Roaring.{Roaring}
use fca4j_project.AddExtent.{◌>>=◌}
use fca4j_project.Hermes.{RefSet, refset, hermes_hash_values}
use fca4j_project.Hermes.Clarify.{
  Grouping, Probe, free, merged, probe, settle, group_one, group_block, table_size,
}
use fca4j_project.Hermes.Table.{
  slot_at, is_filled, Found, IsMerged, probe-Found, probe-IsMerged, way_out,
}
use fca4j_project.Hermes.Groups.{vals, home, Grouped, hash-same, home-lt, settle-free}
use fca4j_project.Hermes.Merge.{settle-merged}

-- The table has a power of two of slots, and twice as many as there are sets.
table_size-lem :
    (left m w : ℕ)
    → 4 ≤ 2 ^ w
    → 2 * m ≤ 2 ^ w + 4 * left
    → (v : ℕ) × (table_size left m (2 ^ w) ≡ 2 ^ v) × (4 ≤ 2 ^ v) × (2 * m ≤ 2 ^ v)
unfolding table_size
table_size-lem zero m w big enough = (w, refl, big, omega (arith, enough))
table_size-lem (suc left) m w big enough = elim (Bool-cases (ltb (2 ^ w) (2 * m))) [
  | inr e ↦ rw (e, table_size) (w, refl, big, ground (arith, e))
  | inl e ↦
      let doubled : 2 ^ suc w ≡ 2 ^ w * 2 = omega (arith, pow-suc 2 w) in
      rw (e, table_size)
        (rw doubled at (
          table_size-lem left m (suc w) (omega (arith, doubled, big))
            (omega (arith, doubled, big, enough))))
]

not_held : (j : ℕ) → ¬ (none ≡ some j)
not_held j e = cc e

module _ {B : Type 0} ⦃R : Roaring B⦄ where
  open R use {contains, equals}

  abbrev GroupedAfter : List (RefSet B) → ℕ → ℕ → ℕ → ℕ → Option (Grouping B) → Type 0
  GroupedAfter sets start stop w i none = ⊥
  GroupedAfter sets start stop w i (some g) = Grouped sets start stop w i g

  after_probe :
      (sets : List (RefSet B)) (start stop w i : ℕ) (g : Grouping B) (r : Option Probe)
      → Grouped sets start stop w i g
      → start ≤ i
      → i < stop
      → stop ≤ length sets
      → Found (2 ^ w) g (2 ^ w) (vals sets i) (home sets w i) r
      → ((j : ℕ)
          → start ≤ j
          → j < i
          → get_or g.dead j false ≡ false
          → equals (vals sets j) (vals sets i) ≡ true
          → IsMerged r)
      → GroupedAfter sets start stop w
          (suc i)
          (r >>= λ found. some (settle g i (hermes_hash_values (vals sets i)) found))
  after_probe sets start stop w i g none p from lt size found known = found
  after_probe sets start stop w i g (some (free e)) p from lt size (d, ld, route) known =
      settle-free sets start stop w i g p from lt size d e ld route (λ j a l alive.
        elim (Bool-cases (equals (vals sets j) (vals sets i))) [
          | inl same ↦ absurd (known j a l alive same)
          | inr other ↦ other
        ])
  after_probe sets start stop w i g (some (merged j)) p from lt size (k, at_k, same) known =
      let (start_j, j_i, alive, hashed) = p.held k j at_k in
      settle-merged sets start stop w i g j p from lt size start_j j_i alive
        (sym (ap (λ v. equals v (vals sets i)) (p.values j)) ∙ same)

  group_one-GroupedAfter :
      (sets : List (RefSet B)) (start stop w i : ℕ) (g : Grouping B)
      → Grouped sets start stop w i g
      → start ≤ i
      → i < stop
      → stop ≤ length sets
      → stop < 2 ^ w + start
      → GroupedAfter sets start stop w (suc i) (group_one (2 ^ w) i g)
  unfolding group_one
  group_one-GroupedAfter sets start stop w i g p from lt size room =
      let h = hermes_hash_values (vals sets i) in
      let inside = home-lt sets start stop w i g p from lt size in
      let (d, e, ld, route) =
        way_out w g.slot (home sets w i) inside (omega (arith, p.used, room, lt)) in
      let found = probe-Found (2 ^ w) d e g (2 ^ w) h (vals sets i) (home sets w i) ld route in
      rw (p.values i) (
        after_probe sets start stop w i g (probe (2 ^ w) g (2 ^ w) h (vals sets i) (home sets w i))
          p from lt size found
          (λ j a l alive same.
            let (dj, lj, route_j) = p.routed j a l alive in
            let one_hash = hash-same (vals sets j) (vals sets i) same in
            probe-IsMerged (2 ^ w) dj j g (2 ^ w) h (vals sets i) (home sets w i) lj
              (rw one_hash at route_j)
              (λ s at_s.
                rw (p.values j, same, (p.held s j at_s).3, one_hash) (ground (arith, ==_refl h)))))

  -- What a block comes to: the sets from `start` to `stop` that are alive have different values; the
  -- references of every set of the block are in an alive set of the same values, and an alive set
  -- has no other references.
  pub record IsGrouping (sets : List (RefSet B)) (start stop : ℕ) (g : Grouping B) : Type 0 where
    pub values : (j : ℕ) → vals g.sets j ≡ vals sets j
    pub distinct :
        (j q : ℕ)
        → start ≤ j
        → j < q
        → q < stop
        → get_or g.dead j false ≡ false
        → get_or g.dead q false ≡ false
        → equals (vals sets j) (vals sets q) ≡ false
    pub absorbed :
        (q : ℕ)
        → start ≤ q
        → q < stop
        → (j : ℕ) × (start ≤ j)
          × (j < stop)
          × (get_or g.dead j false ≡ false)
          × (equals (vals sets j) (vals sets q) ≡ true)
          × ((r : ℕ)
              → contains (refset sets q).refs r ≡ true
              → contains (refset g.sets j).refs r ≡ true)
    pub sound :
        (j r : ℕ)
        → start ≤ j
        → j < stop
        → contains (refset g.sets j).refs r ≡ true
        → (q : ℕ) × (start ≤ q)
          × (q < stop)
          × (equals (vals sets j) (vals sets q) ≡ true)
          × (contains (refset sets q).refs r ≡ true)

  abbrev pub GroupingOf : List (RefSet B) → ℕ → ℕ → Option (Grouping B) → Type 0
  GroupingOf sets start stop none = ⊥
  GroupingOf sets start stop (some g) = IsGrouping sets start stop g

  GroupingOf-Grouped :
      (sets : List (RefSet B)) (start stop w : ℕ) (r : Option (Grouping B))
      → GroupedAfter sets start stop w stop r
      → GroupingOf sets start stop r
  GroupingOf-Grouped sets start stop w none p = p
  GroupingOf-Grouped sets start stop w (some g) p = record {
    values = p.values;
    distinct = p.distinct;
    absorbed = p.absorbed;
    sound = p.sound;
  }

  group_next :
      (sets : List (RefSet B)) (start stop w i : ℕ) (s : Option (Grouping B))
      → start ≤ i
      → i < stop
      → stop ≤ length sets
      → stop < 2 ^ w + start
      → GroupedAfter sets start stop w i s
      → GroupedAfter sets start stop w (suc i) (s >>= λ g. group_one (2 ^ w) i g)
  group_next sets start stop w i none from lt size room p = p
  group_next sets start stop w i (some g) from lt size room p =
      group_one-GroupedAfter sets start stop w i g p from lt size room

  -- Before the first set: the table is empty.
  Grouped-start :
      (sets : List (RefSet B)) (dead : List Bool) (start stop w : ℕ)
      → length dead ≡ length sets
      → ((q : ℕ) → start ≤ q → q < stop → get_or dead q false ≡ false)
      → Grouped sets start stop w start (record {
        sets = sets;
        dead = dead;
        slot = replicate (2 ^ w) none;
        hsl = replicate (2 ^ w) 0;
      })
  Grouped-start sets dead start stop w same alive =
      let blank = λ (k : ℕ). get_or-replicate {A = Option ℕ} (2 ^ w) k none in
      record {
        sets_length = refl;
        dead_length = same;
        slot_length = length-replicate {A = Option ℕ} (2 ^ w) none;
        hsl_length = length-replicate {A = ℕ} (2 ^ w) 0;
        used =
            let empty =
              count_to-none (2 ^ w) (λ k. is_filled (slot_at (replicate (2 ^ w) none) k))
                (λ k. ap is_filled (blank k)) in
            omega (arith, empty);
        values = λ j. refl;
        held = λ k j s. absurd (not_held j (sym (blank k) ∙ s));
        routed = λ j a l d. absurd (omega arith);
        distinct = λ j q a l m d d'. absurd (omega arith);
        fresh = alive;
        later = λ q a. refl;
        absorbed = λ q a l. absurd (omega arith);
        sound = λ j r a l c. absurd (omega arith);
      }

  group_block-Grouped :
      (sets : List (RefSet B)) (dead : List Bool) (start stop w : ℕ)
      → start ≤ stop
      → stop ≤ length sets
      → stop < 2 ^ w + start
      → length dead ≡ length sets
      → ((q : ℕ) → start ≤ q → q < stop → get_or dead q false ≡ false)
      → GroupedAfter sets start stop w stop (
          for_to
            (stop - start)
            (λ i s. s >>= λ g. group_one (2 ^ w) (start + i) g)
            (some (record {
              sets = sets;
              dead = dead;
              slot = replicate (2 ^ w) none;
              hsl = replicate (2 ^ w) 0;
            })))
  group_block-Grouped sets dead start stop w le size room same alive =
      let n : start + (stop - start) ≡ stop = omega (arith, le) in
      let base : start + 0 ≡ start = omega arith in
      let empty : Grouping B = record {
        sets = sets;
        dead = dead;
        slot = replicate (2 ^ w) none;
        hsl = replicate (2 ^ w) 0;
      } in
      subst
        (λ t.
          GroupedAfter sets start stop w t (
            for_to (stop - start) (λ i s. s >>= λ g. group_one (2 ^ w) (start + i) g) (some empty)))
        n
        (for_inv (λ i s. GroupedAfter sets start stop w (start + i) s)
          (λ i s. s >>= λ g. group_one (2 ^ w) (start + i) g) (stop - start) (some empty)
          (λ i s l p.
            let next : suc (start + i) ≡ start + suc i = omega arith in
            subst
              (λ t. GroupedAfter sets start stop w t (s >>= λ g. group_one (2 ^ w) (start + i) g))
              next
              (group_next sets start stop w (start + i) s (omega arith) (omega (arith, l)) size room
                p))
          (rw base (Grouped-start sets dead start stop w same alive)))

  -- Where no set of the block is dead yet, `group_block` returns, whatever the hashes are: it leaves
  -- alive one set for each value that occurs in the block, with the references of all the sets
  -- that have this value and no others, and it changes no values.
  pub group_block-GroupingOf :
      (sets : List (RefSet B)) (dead : List Bool) (start stop : ℕ)
      → start ≤ stop
      → stop ≤ length sets
      → length dead ≡ length sets
      → ((q : ℕ) → start ≤ q → q < stop → get_or dead q false ≡ false)
      → GroupingOf sets start stop (group_block start stop sets dead)
  unfolding group_block
  group_block-GroupingOf sets dead start stop le size same alive =
      let (w, cap, big, twice) =
        table_size-lem (stop - start) (stop - start) 2 (omega arith) (omega arith) in
      rw cap (
        GroupingOf-Grouped sets start stop w _ (
          group_block-Grouped sets dead start stop w le size (omega (arith, big, twice, le)) same
            alive))
