-- ===== src/Ceres/Returns.antt =====
-- algo/ceres.c: the run returns, and it returns NULL exactly where it means to.
use fca4j_project.Base.{
  ℕ, ◌+◌, ◌≤◌, ◌≡◌, ◌↔◌, ◌⊎◌, refl, ◌∙◌, ap, Bool, true, false, List, [], ◌∷◌, ◌++◌, Option, none,
  some, length, ◌==◌, arith, Bool-cases, inl, inr, ==_iff, for_to, for_inv, length-set,
  length-append, length-replicate, get_or-replicate,
}
use fca4j_project.Roaring.{Roaring}
use fca4j_project.Context.{BinaryContext}
use fca4j_project.AddExtent.{◌>>=◌}
use fca4j_project.DynOrder.{DynOrder, dyn_create, dyn_new_concept, dyn_fill, dyn_ensure_cap}
use fca4j_project.DynOrder.Serial.{dyn_to_flat}
use fca4j_project.Ceres.{
  Ceres, CeresContext, PreConcept, ceres_ctx_alloc, ceres_ctx_empty, ceres_ctx_from_binary,
  ceres_ctx_row, ceres_ctx_col,
}
use fca4j_project.Ceres.Total.{IsRunning, enough, GoesOn}
use fca4j_project.Ceres.Run.{
  attribute_preconcept, sort_preconcepts_desc, copy_back, ceres_start, block_loop, drop_top,
  preconcepts, first_blocks, run_ceres_dense, run_ceres_flat,
}
use fca4j_project.Ceres.Blocks.{block_loop-GoesOn}

ceres_start-IsRunning :
    (cx : CeresContext) → IsRunning (ceres_start cx) × ((ceres_start cx).cx ≡ cx)
unfolding ceres_start dyn_create dyn_new_concept dyn_fill dyn_ensure_cap
ceres_start-IsRunning cx = (
  record {
    counters = length-replicate (cx.nb_obj + cx.nb_attr + 2) 0;
    stamps = refl;
    stamped = λ p. ground (arith, get_or-replicate {A = ℕ} (cx.nb_obj + cx.nb_attr + 2) p 0);
    is_top = refl;
    inhabited = omega arith;
    root = refl;
  },
  refl,
)

length-preconcepts : (cx : CeresContext) (wo wa : ℕ) → length (preconcepts cx wo wa) ≡ cx.nb_attr
unfolding preconcepts
length-preconcepts cx wo wa =
    for_inv (λ a (t : List PreConcept). length t ≡ a)
      (λ a t. t ++ attribute_preconcept cx wo wa a ∷ []) cx.nb_attr []
      (λ a t l h. omega (arith, h, length-append t (attribute_preconcept cx wo wa a ∷ []))) refl

length-sort_preconcepts_desc :
    (tab : List PreConcept) (nb_obj : ℕ) → length (sort_preconcepts_desc tab nb_obj) ≡ length tab
unfolding sort_preconcepts_desc copy_back
length-sort_preconcepts_desc tab nb_obj =
    for_inv (λ i (t : List PreConcept). length t ≡ length tab) _ (length tab) tab
      (λ i t l h. length-set t i _ ∙ h) refl

-- The result of a run that returns: NULL exactly under the condition given.
abbrev pub Returned : Type 0 → Option (Option (List ℕ)) → Type 0
Returned fails none = ⊥
Returned fails (some r) = (r ≡ none) ↔ fails

dyn_to_flat-null :
    (allocated : Bool) (dyn : DynOrder) → (dyn_to_flat allocated dyn ≡ none) ↔ (allocated ≡ false)
unfolding dyn_to_flat
dyn_to_flat-null true dyn = (λ e. absurd (ground (arith, e)), λ e. absurd (ground (arith, e)))
dyn_to_flat-null false dyn = (λ e. refl, λ e. refl)

after_blocks :
    (allocated : Bool) (cx : CeresContext) (r : Option Ceres)
    → GoesOn (λ out. out) cx r
    → Returned (allocated ≡ false) (r >>= λ ce. some (dyn_to_flat allocated (drop_top ce)))
after_blocks allocated cx none h = h
after_blocks allocated cx (some ce) h = dyn_to_flat-null allocated (drop_top ce)

run_ceres_dense-Returned :
    (fuel : ℕ) (allocated : Bool) (cx : CeresContext)
    → (cx.nb_obj == 0) ≡ false
    → enough cx ≤ fuel
    → Returned (allocated ≡ false) (run_ceres_dense fuel allocated (some cx))
unfolding run_ceres_dense first_blocks
run_ceres_dense-Returned fuel allocated cx some_objects fuel_enough =
    let start = ceres_start cx in
    let run = ceres_start-IsRunning cx in
    let tab_length =
      length-sort_preconcepts_desc (preconcepts start.cx start.wo start.wa) start.cx.nb_obj
      ∙ length-preconcepts start.cx start.wo start.wa
      ∙ ap (λ c. c.nb_attr) run.1 in
    rw (some_objects, run_ceres_dense)
      (after_blocks allocated cx (block_loop cx.nb_attr fuel 0 1 (first_blocks start)) (
        block_loop-GoesOn cx.nb_attr fuel 0 1 cx.nb_attr cx (first_blocks start) fuel_enough
          (omega arith) (omega arith) (run.0, run.1, tab_length)))

Returned-iff :
    (P Q : Type 0) (r : Option (Option (List ℕ))) → (P → Q) → (Q → P) → Returned P r → Returned Q r
Returned-iff P Q none f g h = h
Returned-iff P Q (some r) f g h = (λ e. f (h.0 e), λ q. h.1 (g q))

module _ {B : Type 0} ⦃R : Roaring B⦄ where
  -- The dense context has the dimensions of the context.
  abbrev Sized : BinaryContext B → Option CeresContext → Type 0
  Sized ctx none = ⊥
  Sized ctx (some cx) = (cx.nb_obj ≡ ctx.nb_objects) × (cx.nb_attr ≡ ctx.nb_attributes)

  ceres_ctx_from_binary-Sized : (ctx : BinaryContext B) → Sized ctx (ceres_ctx_from_binary true ctx)
  unfolding ceres_ctx_from_binary ceres_ctx_alloc ceres_ctx_empty ceres_ctx_row ceres_ctx_col
  ceres_ctx_from_binary-Sized ctx =
      let cx = ceres_ctx_empty ctx.nb_objects ctx.nb_attributes in
      let rows = for_to ctx.nb_objects (λ o c. ceres_ctx_row ctx o c) cx in
      for_inv (λ i c. Sized ctx (some c)) (λ a c. ceres_ctx_col ctx a c) rows.nb_attr rows
        (λ i t l h. h)
        (for_inv (λ i c. Sized ctx (some c)) (λ o c. ceres_ctx_row ctx o c) ctx.nb_objects cx
          (λ i t l h. h) (refl, refl))

  after_context :
      (fuel : ℕ) (allocated : Bool) (ctx : BinaryContext B) (r : Option CeresContext)
      → (ctx.nb_objects == 0) ≡ false
      → ctx.nb_objects + ctx.nb_attributes + 2 ≤ fuel
      → Sized ctx r
      → Returned (allocated ≡ false) (run_ceres_dense fuel allocated r)
  after_context fuel allocated ctx none objects fuel_enough sized = absurd sized
  after_context fuel allocated ctx (some cx) objects fuel_enough sized =
      run_ceres_dense-Returned fuel allocated cx (ground (arith, sized.0))
        (omega (arith, sized.0, sized.1))

  -- With as much fuel as there are objects and attributes, and two more, Ceres returns; the result
  -- is NULL exactly when the context has no objects, or one of the two allocations fails.
  pub run_ceres_flat-Returned :
      (fuel : ℕ) (context_allocated flat_allocated : Bool) (ctx : BinaryContext B)
      → ctx.nb_objects + ctx.nb_attributes + 2 ≤ fuel
      → Returned
          ((ctx.nb_objects ≡ 0) ⊎ (context_allocated ≡ false) ⊎ (flat_allocated ≡ false))
          (run_ceres_flat fuel context_allocated flat_allocated ctx)
  unfolding run_ceres_flat ceres_ctx_from_binary ceres_ctx_alloc run_ceres_dense
  run_ceres_flat-Returned fuel context_allocated flat_allocated ctx fuel_enough =
      elim (Bool-cases (ctx.nb_objects == 0)) [
        | inl e ↦ rw (e, run_ceres_flat) (λ _. inl ((==_iff ctx.nb_objects 0).0 e), λ _. refl)
        | inr e ↦ elim (Bool-cases context_allocated) [
          | inr lost ↦ rw (e, lost, run_ceres_flat) (λ _. inr (inl refl), λ _. refl)
          | inl kept ↦
              rw (e, kept, run_ceres_flat)
                (Returned-iff (flat_allocated ≡ false) _ _ (λ h. inr (inr h))
                  (λ h. ground (arith, h, e))
                  (after_context fuel flat_allocated ctx (ceres_ctx_from_binary true ctx) e
                    fuel_enough (ceres_ctx_from_binary-Sized ctx)))
        ]
      ]
