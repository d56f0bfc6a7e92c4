-- ===== src/Ceres/Total.antt =====
-- algo/ceres.c: the invariant of a run that classify and wolp rely on, and that both return.
use fca4j_project.Base.{
  ℕ, zero, suc, ◌+◌, ◌≤◌, ◌<◌, ◌≡◌, ◌≢◌, refl, sym, ◌∙◌, ap, not, ◌||◌, Bool, false, List, [], ◌∷◌,
  ◌++◌, Option, none, some, length, get_or, set, replicate, leb, arith, Bool-cases, inl, inr,
  get_or-set_ne, get_or-replicate, map, length-map,
}
use mathlib.Core.Path.{subst}
use fca4j_project.Bitset.{bs_subset, bs_nonzero_words}
use fca4j_project.AddExtent.{◌>>=◌}
use fca4j_project.DynOrder.{DynOrder, at, dyn_add_edge, dyn_new_concept, dyn_fill, dyn_ensure_cap}
use fca4j_project.DynOrder.Traverse.{marked}
use fca4j_project.Ceres.{Ceres, CeresContext, PreConcept, intent_of}
use fca4j_project.Ceres.Classify.{Walk, offer_lower, walk, link_parents, insert_concept, classify}
use fca4j_project.Ceres.Queue.{Walked, walk-fits}
use fca4j_project.Ceres.LeftPart.{absorb, object_concept, wolp_loop, wolp, wolp_raw, wolp_sorted}

-- No stamp is above the epoch.
abbrev Stamped : ℕ → List ℕ → Type 0
Stamped epoch mark_epoch = (p : ℕ) → get_or mark_epoch p 0 ≤ epoch

Stamped-set : (epoch : ℕ) (xs : List ℕ) (q : ℕ) → Stamped epoch xs → Stamped epoch (set xs q epoch)
Stamped-set epoch [] q h p = h p
Stamped-set epoch (x ∷ xs) zero h zero = omega arith
Stamped-set epoch (x ∷ xs) zero h (suc p) = h (suc p)
Stamped-set epoch (x ∷ xs) (suc q) h zero = h zero
Stamped-set epoch (x ∷ xs) (suc q) h (suc p) = Stamped-set epoch xs q (λ i. h (suc i)) p

offer_lower-Stamped :
    (ord : DynOrder) (ext active : List ℕ) (epoch : ℕ) (ps marks mark_epoch queue : List ℕ)
    → Stamped epoch mark_epoch
    → Stamped epoch (offer_lower ord ext active epoch ps marks mark_epoch queue).1
unfolding offer_lower
offer_lower-Stamped ord ext active epoch [] marks mark_epoch queue h = h
offer_lower-Stamped ord ext active epoch (p ∷ ps) marks mark_epoch queue h =
    offer_lower-Stamped ord ext active epoch ps _ (set mark_epoch p epoch) _
      (Stamped-set epoch mark_epoch p h)

abbrev StampedAfter : ℕ → Option Walk → Type 0
StampedAfter epoch none = Unit
StampedAfter epoch (some w) = Stamped epoch w.mark_epoch

walk-Stamped :
    (fuel : ℕ) (ord : DynOrder) (ext active : List ℕ) (epoch : ℕ) (is_attribute : Bool) (wa : ℕ)
    (queue : List ℕ) (w : Walk)
    → Stamped epoch w.mark_epoch
    → StampedAfter epoch (walk fuel ord ext active epoch is_attribute wa queue w)
unfolding walk
walk-Stamped fuel ord ext active epoch is_attribute wa [] w h = h
walk-Stamped zero ord ext active epoch is_attribute wa (cur ∷ queue) w h = tt
walk-Stamped (suc fuel) ord ext active epoch is_attribute wa (cur ∷ queue) w h =
    walk-Stamped fuel ord ext active epoch is_attribute wa _ _
      (offer_lower-Stamped ord ext active epoch (at ord.lower cur) w.marks w.mark_epoch queue h)

-- The edges go up from `c`: no other concept gets a parent.
link_parents-upper :
    (epoch c : ℕ) (vs : List ℕ) (ord : DynOrder) (puc : List ℕ) (t : ℕ)
    → c ≢ t
    → (at (link_parents epoch c vs ord puc).0.upper t ≡ at ord.upper t)
      × ((link_parents epoch c vs ord puc).0.n ≡ ord.n)
unfolding link_parents dyn_add_edge
link_parents-upper epoch c [] ord puc t ne = (refl, refl)
link_parents-upper epoch c (v ∷ vs) ord puc t ne = elim (Bool-cases (marked puc epoch v)) [
  | inl e ↦
      let rest = link_parents-upper epoch c vs (dyn_add_edge ord c v) (set puc v 0) t ne in
      rw (e, link_parents) (rest.0 ∙ get_or-set_ne ord.upper c t _ [] ne, rest.1)
  | inr e ↦ rw (e, link_parents) (link_parents-upper epoch c vs ord puc t ne)
]

at-grown : (rows : List (List ℕ)) (k i : ℕ) → at (rows ++ replicate k []) i ≡ at rows i
at-grown [] k i = get_or-replicate k i []
at-grown (r ∷ rows) k zero = refl
at-grown (r ∷ rows) k (suc i) = at-grown rows k i

dyn_ensure_cap-upper :
    (dyn : DynOrder) (needed i : ℕ)
    → (at (dyn_ensure_cap dyn needed).upper i ≡ at dyn.upper i)
      × ((dyn_ensure_cap dyn needed).n ≡ dyn.n)
unfolding dyn_ensure_cap
dyn_ensure_cap-upper dyn needed i = elim (Bool-cases (leb needed dyn.cap)) [
  | inl e ↦ rw e (refl, refl)
  | inr e ↦ rw e (at-grown dyn.upper _ i, refl)
]

insert_concept-upper :
    (ce : Ceres) (p : PreConcept) (t : ℕ)
    → ce.ord.n ≢ t
    → (at (insert_concept ce p).upper t ≡ at ce.ord.upper t)
      × ((insert_concept ce p).n ≡ ce.ord.n + 1)
unfolding insert_concept dyn_new_concept dyn_fill
insert_concept-upper ce p t ne =
    let grown = dyn_ensure_cap-upper ce.ord (ce.ord.n + 1) t in
    (
      get_or-set_ne (dyn_ensure_cap ce.ord (ce.ord.n + 1)).upper _ t [] []
            (λ e. ne (sym grown.1 ∙ e))
          ∙ grown.0,
      ap (λ k. k + 1) grown.1,
    )

-- The arrays of counters have the size that the run gives them, no stamp is above the epoch, and
-- the top, concept 0, has no parent.
pub record IsRunning (ce : Ceres) : Type 0 where
  pub counters : length ce.marks ≡ ce.cx.nb_obj + ce.cx.nb_attr + 2
  pub stamps : length ce.mark_epoch ≡ length ce.marks
  pub stamped : (p : ℕ) → get_or ce.mark_epoch p 0 ≤ ce.epoch
  pub is_top : ce.top ≡ 0
  pub inhabited : 0 < ce.ord.n
  pub root : at ce.ord.upper 0 ≡ []

-- The fuel that is enough in a context.
abbrev pub enough : CeresContext → ℕ
enough cx = cx.nb_obj + cx.nb_attr + 2

-- A step returns a result, whose state goes on over the same context.
abbrev pub GoesOn : {A : Type 0} → (A → Ceres) → CeresContext → Option A → Type 0
GoesOn state cx none = ⊥
GoesOn state cx (some out) = IsRunning (state out) × ((state out).cx ≡ cx)

pub GoesOn-bind :
    {A B : Type 0} (state : A → Ceres) (state' : B → Ceres) (cx : CeresContext) (r : Option A)
    (k : A → Option B)
    → GoesOn state cx r
    → ((out : A) → IsRunning (state out) → (state out).cx ≡ cx → GoesOn state' cx (k out))
    → GoesOn state' cx (r >>= k)
GoesOn-bind state state' cx none k h rest = h
GoesOn-bind state state' cx (some out) k h rest = rest out h.0 h.1

-- The state after the descent `w`.
abbrev placed : Ceres → PreConcept → Walk → Ceres × PreConcept × ℕ
placed ce p w =
    let linked = link_parents (ce.epoch + 1) ce.ord.n w.seen (insert_concept ce p) w.puc in
    (
      record ce {
        ord = linked.0;
        marks = w.marks;
        mark_epoch = w.mark_epoch;
        epoch = ce.epoch + 1;
        puc = linked.1;
      },
      record p { intent = w.intent },
      ce.ord.n,
    )

after_walk :
    (ce : Ceres) (p : PreConcept) (r : Option Walk)
    → IsRunning ce
    → Walked ce.marks ce.mark_epoch (length ce.marks) r
    → StampedAfter (ce.epoch + 1) r
    → GoesOn (λ out. out.0) ce.cx (elim r [ none ↦ none | some w ↦ some (placed ce p w) ])
after_walk ce p none run walked stamped = walked
after_walk ce p (some w) run walked stamped =
    let ne : ce.ord.n ≢ 0 = λ e. omega (arith, run.inhabited) in
    let linked =
      link_parents-upper (ce.epoch + 1) ce.ord.n w.seen (insert_concept ce p) w.puc 0 ne in
    let inserted = insert_concept-upper ce p 0 ne in
    (
      record {
        counters = walked.0 ∙ run.counters;
        stamps = walked.1 ∙ run.stamps ∙ sym (walked.0);
        stamped = stamped;
        is_top = run.is_top;
        inhabited = omega (arith, linked.1, inserted.1);
        root = linked.0 ∙ inserted.0 ∙ run.root;
      },
      refl,
    )

pub classify-GoesOn :
    (fuel : ℕ) (ce : Ceres) (p : PreConcept) (is_attribute : Bool)
    → IsRunning ce
    → enough ce.cx ≤ fuel
    → GoesOn (λ out. out.0) ce.cx (classify fuel ce p is_attribute)
unfolding classify
classify-GoesOn fuel ce p is_attribute run fuel_enough =
    let active = bs_nonzero_words p.ext ce.wo in
    let epoch = ce.epoch + 1 in
    let fresh : marked ce.mark_epoch epoch ce.top ≡ false = ground (arith, run.stamped ce.top) in
    let start : Walk = record {
      marks = ce.marks;
      mark_epoch = ce.mark_epoch;
      puc = ce.puc;
      intent = p.intent;
      seen = [];
    } in
    after_walk ce p (walk fuel ce.ord p.ext active epoch is_attribute ce.wa (ce.top ∷ []) start) run
      (walk-fits fuel ce.ord p.ext active epoch is_attribute ce.wa ce.top ce.marks ce.mark_epoch
        ce.puc p.intent run.stamps (omega (arith, run.is_top, run.counters))
        (rw run.is_top run.root) fresh (omega (arith, run.counters)))
      (walk-Stamped fuel ce.ord p.ext active epoch is_attribute ce.wa (ce.top ∷ []) start
        (λ q. omega (arith, run.stamped q)))

-- Each of the later objects stays in the list.
length-absorb :
    (ce : Ceres) (assoc : List ℕ) (card : ℕ) (items : List (ℕ × Bool)) (ext rext : List ℕ)
    → length (absorb ce assoc card items ext rext).0 ≡ length items
unfolding absorb
length-absorb ce assoc card [] ext rext = refl
length-absorb ce assoc card (item ∷ items) ext rext = ap suc (length-absorb ce assoc card items _ _)

length-object_concept :
    (ce : Ceres) (oi : ℕ) (later : List (ℕ × Bool))
    → length (object_concept ce oi later).1 ≡ length later
unfolding object_concept
length-object_concept ce oi later = length-absorb ce _ _ later _ _

pub wolp_loop-GoesOn :
    (left fuel : ℕ) (ce : Ceres) (covered : List ℕ) (items : List (ℕ × Bool))
    → IsRunning ce
    → enough ce.cx ≤ fuel
    → length items ≤ left
    → GoesOn (λ out. out) ce.cx (wolp_loop left fuel ce covered items)
unfolding wolp_loop
wolp_loop-GoesOn left fuel ce covered [] run fuel_enough rounds = (run, refl)
wolp_loop-GoesOn zero fuel ce covered (item ∷ later) run fuel_enough rounds = absurd (omega arith)
wolp_loop-GoesOn (suc left) fuel ce covered (item ∷ later) run fuel_enough rounds =
    elim (Bool-cases (item.1 || not (bs_subset (intent_of ce item.0) covered ce.wa))) [
      | inl e ↦
          rw (e, wolp_loop)
            (wolp_loop-GoesOn left fuel ce covered later run fuel_enough (omega arith))
      | inr e ↦
          let made = object_concept ce item.0 later in
          rw (e, wolp_loop)
            (GoesOn-bind (λ out. out.0) (λ out. out) ce.cx (classify fuel ce made.0 false)
              (λ done. wolp_loop left fuel done.0 covered made.1)
              (classify-GoesOn fuel ce made.0 false run fuel_enough)
              (λ next goes same.
                subst (λ c. GoesOn (λ out. out) c (wolp_loop left fuel next.0 covered made.1)) same
                  (wolp_loop-GoesOn left fuel (next.0) covered made.1 goes
                    (subst (λ c. enough c ≤ fuel) (sym same) fuel_enough)
                    (omega (arith, length-object_concept ce item.0 later)))))
    ]

pub wolp-GoesOn :
    (fuel : ℕ) (ce : Ceres) (p : PreConcept) (covered : List ℕ)
    → IsRunning ce
    → enough ce.cx ≤ fuel
    → GoesOn (λ out. out) ce.cx (wolp fuel ce p covered)
unfolding wolp
wolp-GoesOn fuel ce p covered run fuel_enough =
    let objs = wolp_sorted ce.cx (wolp_raw ce.cx.nb_obj p) in
    wolp_loop-GoesOn (length objs) fuel ce covered (map (λ o. (o, false)) objs) run fuel_enough
      (omega (arith, length-map {B = ℕ × Bool} (λ o. (o, false)) objs))
