-- ===== src/Ceres/Queue.antt =====
-- algo/ceres.c, classify: the descent ends, and each concept enters its queue at most once.
use fca4j_project.Base.{
  ℕ, zero, suc, ◌+◌, ◌-◌, ◌≤◌, ◌<◌, ◌≡◌, refl, sym, ◌∙◌, ap, not, ◌&&◌, Bool, true, false, List, [],
  ◌∷◌, ◌++◌, Option, none, some, length, get_or, set, if◌then◌else◌, ◌==◌, ltb, arith, Bool-cases,
  inl, inr, ==_iff, ==_refl, length-set, length-append, get_or-set_self, get_or-set_ne, get_or-out,
}
use mathlib.Core.Path.{subst}
use fca4j_project.Base.Count.{count_to, count_to_mono, count_to-drop, count_to-le}
use fca4j_project.Bitset.{bs_or, bs_subset_sparse}
use fca4j_project.DynOrder.{DynOrder, at}
use fca4j_project.DynOrder.Traverse.{marked}
use fca4j_project.Ceres.Classify.{Walk, start_counter, offer_lower, clear_puc, walk}

-- The counter of `p` as the code would read it, and whether it can still reach 0.
abbrev counter : List (List ℕ) → ℕ → List ℕ → List ℕ → ℕ → ℕ
counter upper epoch marks mark_epoch p =
    if marked mark_epoch epoch p then get_or marks p 0 else length (at upper p)

abbrev open_test : List (List ℕ) → ℕ → List ℕ → List ℕ → ℕ → Bool
open_test upper epoch marks mark_epoch p = not (counter upper epoch marks mark_epoch p == 0)

-- The concepts that can still enter the queue.
abbrev pub waiting : List (List ℕ) → ℕ → List ℕ → List ℕ → ℕ
waiting upper epoch marks mark_epoch =
    count_to (length marks) (open_test upper epoch marks mark_epoch)

module _ (upper : List (List ℕ)) (epoch : ℕ) where
  module _ (marks mark_epoch : List ℕ) (p : ℕ) (same : length mark_epoch ≡ length marks) where
    abbrev started : List ℕ
    started = start_counter upper epoch marks mark_epoch p

    abbrev marks' : List ℕ
    marks' = set started p (get_or started p 0 - 1)

    abbrev epochs' : List ℕ
    epochs' = set mark_epoch p epoch

    length-started : length started ≡ length marks
    unfolding start_counter
    length-started = ground (arith, length-set marks p (length (at upper p)))

    length-marks' : length marks' ≡ length marks
    length-marks' = length-set started p _ ∙ length-started

    started_self : p < length marks → get_or started p 0 ≡ counter upper epoch marks mark_epoch p
    unfolding start_counter
    started_self l = ground (arith, get_or-set_self marks p (length (at upper p)) 0 l)

    started_other : (q : ℕ) → (q == p) ≡ false → get_or started q 0 ≡ get_or marks q 0
    unfolding start_counter
    started_other q ne =
        ground (arith, get_or-set_ne marks p q (length (at upper p)) 0 (λ e. ground arith))

    -- In bounds, the counter of `p` goes down by one.
    counter_self :
        p < length marks
        → counter upper epoch marks' epochs' p ≡ counter upper epoch marks mark_epoch p - 1
    counter_self l =
        rw (get_or-set_self mark_epoch p epoch 0 (omega (arith, same)), ==_refl epoch)
          (get_or-set_self started p _ 0 (omega (arith, length-started))
            ∙ ap (λ c. c - 1) (started_self l))

    counter_other :
        (q : ℕ)
        → (q == p) ≡ false
        → counter upper epoch marks' epochs' q ≡ counter upper epoch marks mark_epoch q
    counter_other q ne = ground (
      arith,
      started_other q ne,
      get_or-set_ne mark_epoch p q epoch 0 (λ e. ground arith),
      get_or-set_ne started p q (get_or started p 0 - 1) 0 (λ e. ground arith),
    )

    open_self :
        p < length marks
        → open_test upper epoch marks' epochs' p ≡ true
        → open_test upper epoch marks mark_epoch p ≡ true
    open_self l h = ground (arith, h, counter_self l)

    open_mono :
        (q : ℕ)
        → q < length marks
        → open_test upper epoch marks' epochs' q ≡ true
        → open_test upper epoch marks mark_epoch q ≡ true
    open_mono q l h = elim (Bool-cases (q == p)) [
      | inl e ↦
          subst
            (λ k.
              k < length marks
              → open_test upper epoch marks' epochs' k ≡ true
              → open_test upper epoch marks mark_epoch k ≡ true)
            (sym ((==_iff q p).0 e)) open_self l h
      | inr e ↦ ground (arith, h, counter_other q e)
    ]

    waiting_mono : waiting upper epoch marks' epochs' ≤ waiting upper epoch marks mark_epoch
    waiting_mono = rw length-marks' (
        count_to_mono (length marks) (open_test upper epoch marks' epochs')
          (open_test upper epoch marks mark_epoch) open_mono)

    -- A concept enters the queue only in bounds, when its counter reaches 0.
    waiting-drop :
        get_or started p 0 ≡ 1
        → waiting upper epoch marks' epochs' + 1 ≤ waiting upper epoch marks mark_epoch
    waiting-drop one =
        let l : p < length marks = elim (Bool-cases (ltb p (length marks))) [
          | inl e ↦ ground arith
          | inr e ↦ absurd (
              ground
                (arith, get_or-out started p 0 (ground (arith, length-started)), length-started))
        ] in
        rw length-marks' (
          count_to-drop (length marks) (open_test upper epoch marks' epochs')
            (open_test upper epoch marks mark_epoch) p open_mono l
            (ground (arith, counter_self l, started_self l, one))
            (ground (arith, started_self l, one)))

-- What a loop that offers concepts to the queue does: the counters keep their arrays, and what
-- enters the queue has been paid for.
record Spent (upper : List (List ℕ)) (epoch : ℕ)
    (marks mark_epoch queue marks' epochs' queue' : List ℕ) : Type 0 where
  marks_length : length marks' ≡ length marks
  epochs_length : length epochs' ≡ length mark_epoch
  paid :
      length queue' + waiting upper epoch marks' epochs'
      ≤ length queue + waiting upper epoch marks mark_epoch

offer_lower-Spent :
    (ord : DynOrder) (ext active : List ℕ) (epoch : ℕ) (ps marks mark_epoch queue : List ℕ)
    → length mark_epoch ≡ length marks
    → Spent ord.upper epoch marks mark_epoch queue
        (offer_lower ord ext active epoch ps marks mark_epoch queue).0
        (offer_lower ord ext active epoch ps marks mark_epoch queue).1
        (offer_lower ord ext active epoch ps marks mark_epoch queue).2
unfolding offer_lower
offer_lower-Spent ord ext active epoch [] marks mark_epoch queue same = record {
  marks_length = refl;
  epochs_length = refl;
  paid = omega arith;
}
offer_lower-Spent ord ext active epoch (p ∷ ps) marks mark_epoch queue same =
    let started = start_counter ord.upper epoch marks mark_epoch p in
    let marks1 = set started p (get_or started p 0 - 1) in
    let epochs1 = set mark_epoch p epoch in
    let test = get_or started p 0 == 1 && bs_subset_sparse ext (at ord.ext p) active in
    let queue1 = if test then queue ++ p ∷ [] else queue in
    let marks1_same = length-marks' ord.upper epoch marks mark_epoch p same in
    let epochs1_same = length-set mark_epoch p epoch in
    let rest =
      offer_lower-Spent ord ext active epoch ps marks1 epochs1 queue1
        (omega (arith, marks1_same, epochs1_same, same)) in
    let grown : length queue1 + waiting ord.upper epoch marks1 epochs1
        ≤ length queue + waiting ord.upper epoch marks mark_epoch =
      elim (Bool-cases test) [
        | inl e ↦ ground (
          arith,
          e,
          length-append queue (p ∷ []),
          waiting-drop ord.upper epoch marks mark_epoch p same
              ((==_iff (get_or started p 0) 1).0 (ground (arith, e))),
        )
        | inr e ↦ ground (arith, e, waiting_mono ord.upper epoch marks mark_epoch p same)
      ] in
    record {
      marks_length = rest.marks_length ∙ marks1_same;
      epochs_length = rest.epochs_length ∙ epochs1_same;
      paid = omega (arith, rest.paid, grown);
    }

-- What the descent returns: the counters keep their arrays, and no more concepts have been seen
-- than could enter the queue.
abbrev pub Walked : List ℕ → List ℕ → ℕ → Option Walk → Type 0
Walked marks mark_epoch bound none = ⊥
Walked marks mark_epoch bound (some w) =
    (length w.marks ≡ length marks)
    × (length w.mark_epoch ≡ length mark_epoch)
    × (length w.seen ≤ bound)

Walked-of :
    (marks mark_epoch marks1 epochs1 : List ℕ) (bound bound1 : ℕ) (r : Option Walk)
    → length marks1 ≡ length marks
    → length epochs1 ≡ length mark_epoch
    → bound1 ≤ bound
    → Walked marks1 epochs1 bound1 r
    → Walked marks mark_epoch bound r
Walked-of marks mark_epoch marks1 epochs1 bound bound1 none a b c h = h
Walked-of marks mark_epoch marks1 epochs1 bound bound1 (some w) a b c h =
    (h.0 ∙ a, h.1 ∙ b, omega (arith, h.2))

pub walk-Walked :
    (fuel : ℕ) (ord : DynOrder) (ext active : List ℕ) (epoch : ℕ) (is_attribute : Bool) (wa : ℕ)
    (queue : List ℕ) (w : Walk)
    → length w.mark_epoch ≡ length w.marks
    → length queue + waiting ord.upper epoch w.marks w.mark_epoch ≤ fuel
    → Walked w.marks w.mark_epoch
        (length w.seen + length queue + waiting ord.upper epoch w.marks w.mark_epoch)
        (walk fuel ord ext active epoch is_attribute wa queue w)
unfolding walk
walk-Walked fuel ord ext active epoch is_attribute wa [] w same enough = (refl, refl, omega arith)
walk-Walked zero ord ext active epoch is_attribute wa (cur ∷ queue) w same enough =
    absurd (omega arith)
walk-Walked (suc fuel) ord ext active epoch is_attribute wa (cur ∷ queue) w same enough =
    let next = offer_lower ord ext active epoch (at ord.lower cur) w.marks w.mark_epoch queue in
    let spent =
      offer_lower-Spent ord ext active epoch (at ord.lower cur) w.marks w.mark_epoch queue same in
    let w1 : Walk = record {
      marks = next.0;
      mark_epoch = next.1;
      puc = clear_puc (at ord.upper cur) (set w.puc cur epoch);
      intent = if is_attribute then bs_or w.intent (at ord.rint cur) wa else w.intent;
      seen = w.seen ++ cur ∷ [];
    } in
    Walked-of w.marks w.mark_epoch next.0 next.1 _ _ _ spent.marks_length spent.epochs_length
      (omega (arith, spent.paid, length-append w.seen (cur ∷ [])))
      (walk-Walked fuel ord ext active epoch is_attribute wa next.2 w1
        (omega (arith, spent.marks_length, spent.epochs_length, same)) (omega (arith, spent.paid)))

-- From a top without parents that is not marked in this epoch, and with as much fuel as there are
-- counters, the descent of classify ends, whatever the order is, and it has seen no more concepts
-- than there are counters, which is what its queue has room for.
pub walk-fits :
    (fuel : ℕ) (ord : DynOrder) (ext active : List ℕ) (epoch : ℕ) (is_attribute : Bool) (wa top : ℕ)
    (marks mark_epoch puc intent : List ℕ)
    → length mark_epoch ≡ length marks
    → top < length marks
    → at ord.upper top ≡ []
    → marked mark_epoch epoch top ≡ false
    → length marks ≤ fuel
    → Walked marks mark_epoch (length marks) (
        walk fuel ord ext active epoch is_attribute wa (top ∷ []) (record {
          marks = marks;
          mark_epoch = mark_epoch;
          puc = puc;
          intent = intent;
          seen = [];
        }))
walk-fits fuel ord ext active epoch is_attribute wa top marks mark_epoch puc intent same l root
      fresh enough =
    let w : Walk = record {
      marks = marks;
      mark_epoch = mark_epoch;
      puc = puc;
      intent = intent;
      seen = [];
    } in
    let shut : open_test ord.upper epoch marks mark_epoch top ≡ false = rw (fresh, root) refl in
    let room : waiting ord.upper epoch marks mark_epoch + 1 ≤ length marks = omega (
      arith,
      count_to-drop (length marks) (open_test ord.upper epoch marks mark_epoch) (λ _. true) top
          (λ i k h. refl) l shut refl,
      count_to-le (length marks) (λ _. true),
    ) in
    Walked-of marks mark_epoch marks mark_epoch _ _ _ refl refl (omega arith)
      (walk-Walked fuel ord ext active epoch is_attribute wa (top ∷ []) w same (omega arith))
