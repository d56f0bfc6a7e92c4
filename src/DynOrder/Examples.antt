-- ===== src/DynOrder/Examples.antt =====
-- The theorems on the mutable order applied to a small order.
use fca4j_project.Base.{
  ℕ, zero, suc, ap, sym, ◌∙◌, get_or-replicate, ◌-◌, ◌+◌, ◌<◌, ◌≡◌, ◌↔◌, refl, true, false, [], ◌∷◌,
  length, elem, replicate, ltb, arith,
}
use fca4j_project.Bitset.{bs_test}
use fca4j_project.Bitset.Words.{IsWords}
use fca4j_project.DynOrder.{DynOrder, at, dyn_add_edge, dyn_remove_edge, dyn_reduced_extent}
use fca4j_project.DynOrder.Edges.{
  IsMirrored, count, only_at, dyn_add_edge-IsMirrored, dyn_remove_edge-IsMirrored,
}
use fca4j_project.DynOrder.Reduced.{dyn_reduced_extent_iff}
use fca4j_project.DynOrder.Traverse.{dyn_maximal_of}
use fca4j_project.DynOrder.Maximal.{SelectsMaximal, dyn_maximal_of-SelectsMaximal}

-- Three concepts over two objects, without edges.
abbrev isolated : DynOrder
isolated = record {
  nb_obj = 2;
  nb_attr = 1;
  wo = 1;
  wa = 1;
  n = 3;
  cap = 3;
  ext = (0 ∷ []) ∷ (1 ∷ []) ∷ (3 ∷ []) ∷ [];
  rext = (0 ∷ []) ∷ (1 ∷ []) ∷ (2 ∷ []) ∷ [];
  rint = (0 ∷ []) ∷ (0 ∷ []) ∷ (0 ∷ []) ∷ [];
  lower = replicate 3 [];
  upper = replicate 3 [];
  alive = true ∷ true ∷ true ∷ [];
  nb_alive = 3;
  mark_a = 0 ∷ 0 ∷ 0 ∷ [];
  mark_b = replicate 3 0;
  epoch_a = 0;
  epoch_b = 0;
  sel = [];
  sort_buf = 0 ∷ 0 ∷ 0 ∷ [];
}

isolated-IsMirrored : IsMirrored isolated
isolated-IsMirrored = record {
  upper_length = refl;
  lower_length = refl;
  room = omega arith;
  mirror =
      λ c p. ap (count p) (get_or-replicate 3 c []) ∙ sym (ap (count c) (get_or-replicate 3 p []));
}

-- 0 below 1 below 2
abbrev linked : DynOrder
linked = dyn_add_edge (dyn_add_edge isolated 0 1) 1 2

dyn_add_edge-IsMirrored_example :
    IsMirrored (dyn_add_edge isolated 0 1)
    × ((c p : ℕ)
        → count p (at (dyn_add_edge isolated 0 1).upper c)
          ≡ count p (at isolated.upper c) + only_at 0 1 c p)
dyn_add_edge-IsMirrored_example =
    dyn_add_edge-IsMirrored isolated 0 1 isolated-IsMirrored (omega arith) (omega arith)

-- The ids stay below the number given out.
added_n : (dyn : DynOrder) (a b : ℕ) → (dyn_add_edge dyn a b).n ≡ dyn.n
unfolding dyn_add_edge
added_n dyn a b = refl

linked_n : linked.n ≡ 3
linked_n = added_n (dyn_add_edge isolated 0 1) 1 2 ∙ added_n isolated 0 1

first_edge : IsMirrored (dyn_add_edge isolated 0 1)
first_edge =
    (dyn_add_edge-IsMirrored isolated 0 1 isolated-IsMirrored (omega arith) (omega arith)).0

linked-IsMirrored : IsMirrored linked
linked-IsMirrored =
    (dyn_add_edge-IsMirrored (dyn_add_edge isolated 0 1) 1 2 first_edge
      (omega (arith, added_n isolated 0 1)) (omega (arith, added_n isolated 0 1))).0

dyn_remove_edge-IsMirrored_example :
    IsMirrored (dyn_remove_edge linked 1 2).0
    × ((c p : ℕ)
        → count p (at ((dyn_remove_edge linked 1 2).0).upper c)
          ≡ count p (at linked.upper c) - only_at 1 2 c p)
    × ((dyn_remove_edge linked 1 2).1 ≡ ltb 0 (count 2 (at linked.upper 1)))
dyn_remove_edge-IsMirrored_example =
    dyn_remove_edge-IsMirrored linked 1 2 linked-IsMirrored (omega (arith, linked_n))
      (omega (arith, linked_n))

-- The same order with its covers written out.
abbrev chain : DynOrder
chain = record isolated {
  lower = [] ∷ (0 ∷ []) ∷ (1 ∷ []) ∷ [];
  upper = (1 ∷ []) ∷ (2 ∷ []) ∷ [] ∷ [];
}

chain-IsWords : (v : ℕ) → IsWords (at chain.ext v)
chain-IsWords zero zero = omega arith
chain-IsWords zero (suc i) = omega arith
chain-IsWords (suc zero) zero = omega arith
chain-IsWords (suc zero) (suc i) = omega arith
chain-IsWords (suc (suc zero)) zero = omega arith
chain-IsWords (suc (suc zero)) (suc i) = omega arith
chain-IsWords (suc (suc (suc v))) i = omega arith

dyn_reduced_extent_iff_example :
    ((bs_test (dyn_reduced_extent chain 2 (0 ∷ [])).0 1 ≡ true) ↔ (
      (bs_test (at chain.ext 2) 1 ≡ true)
      × ((child : ℕ)
          → elem child (at chain.lower 2) ≡ true
          → bs_test (at chain.ext child) 1 ≡ false)))
    × ((dyn_reduced_extent chain 2 (0 ∷ [])).1 ≡ length (at chain.lower 2))
dyn_reduced_extent_iff_example =
    dyn_reduced_extent_iff chain 2 (0 ∷ []) 1 (omega arith) chain-IsWords (omega arith)

chain_small : (u w : ℕ) → elem w (at chain.lower u) ≡ true → w < 3
chain_small zero w h = absurd (ground arith)
chain_small (suc zero) w h = ground arith
chain_small (suc (suc zero)) w h = ground arith
chain_small (suc (suc (suc u))) w h = absurd (ground arith)

dyn_maximal_of-SelectsMaximal_example :
    SelectsMaximal chain (0 ∷ 1 ∷ []) (dyn_maximal_of 3 chain (0 ∷ 1 ∷ []))
dyn_maximal_of-SelectsMaximal_example =
    dyn_maximal_of-SelectsMaximal 3 chain 0 1 [] chain_small
      (λ u. omega (arith, get_or-replicate {A = ℕ} 3 u 0)) (omega arith)
