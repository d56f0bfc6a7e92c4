-- ===== src/Closure/Laws.antt =====
-- The derivation operators are a Galois connection, and `closure` is a closure operator.
use fca4j_project.Base.{ℕ, ◌<◌, ◌↔◌, arith, Bool-cases, inl, inr}
use fca4j_project.Roaring.{Roaring}
use fca4j_project.Roaring.Sets.{Has, Subset, Below, SameSet, SameSet-of_subsets}
use fca4j_project.Context.{BinaryContext, row, IsContext}
use fca4j_project.Closure.{compute_extent, compute_intent, closure}
use fca4j_project.Closure.Derivation.{compute_extent_iff, compute_intent_iff}

module _ {B : Type 0} ⦃R : Roaring B⦄ where
  open R use {contains, or, contains-or}

  -- In a well-formed context, a set of attributes lies in the intent of a set of objects exactly
  -- when the objects lie in the extent of the attributes; both sets are within the dimensions.
  pub extent-intent_galois :
      (ctx : BinaryContext B) (objects attributes : B)
      → IsContext ctx
      → Below ctx.nb_objects objects
      → Below ctx.nb_attributes attributes
      → Subset attributes (compute_intent ctx objects)
        ↔ Subset objects (compute_extent ctx attributes)
  extent-intent_galois ctx objects attributes c bo ba = (
    λ h o ho.
        (compute_extent_iff ctx attributes o c).1
          (bo o ho, λ a ha. ((compute_intent_iff ctx objects a c).0 (h a ha)).1 o ho),
    λ h a ha.
        (compute_intent_iff ctx objects a c).1
          (ba a ha, λ o ho. ((compute_extent_iff ctx attributes o c).0 (h o ho)).1 a ha),
  )

  -- What `closure` adds to a set: the attributes common to the objects that have the set.
  pub closure_iff :
      (ctx : BinaryContext B) (attrs : B) (a : ℕ)
      → IsContext ctx
      → Below ctx.nb_attributes attrs
      → Has (closure ctx attrs) a ↔ (
          (a < ctx.nb_attributes)
          × ((o : ℕ) → Has (compute_extent ctx attrs) o → Has (row ctx o) a))
  unfolding closure
  closure_iff ctx attrs a c below =
      let intent = compute_intent ctx (compute_extent ctx attrs) in
      let common = compute_intent_iff ctx (compute_extent ctx attrs) a c in
      (
        λ h. elim (Bool-cases (contains attrs a)) [
          | inl given ↦ (below a given, λ o ho. ((compute_extent_iff ctx attrs o c).0 ho).1 a given)
          | inr new ↦ common.0 (ground (arith, contains-or intent attrs a))
        ],
        λ h. ground (arith, common.1 h, contains-or intent attrs a),
      )

  -- `closure` is extensive.
  pub closure_extensive : (ctx : BinaryContext B) (attrs : B) → Subset attrs (closure ctx attrs)
  unfolding closure
  closure_extensive ctx attrs a h =
      ground (arith, contains-or (compute_intent ctx (compute_extent ctx attrs)) attrs a)

  -- Closed sets stay within the dimensions.
  pub closure-Below :
      (ctx : BinaryContext B) (attrs : B)
      → IsContext ctx
      → Below ctx.nb_attributes attrs
      → Below ctx.nb_attributes (closure ctx attrs)
  closure-Below ctx attrs c below a h = ((closure_iff ctx attrs a c below).0 h).0

  -- More attributes have fewer objects in common.
  extent_antitone :
      (ctx : BinaryContext B) (x y : B)
      → IsContext ctx
      → Subset x y
      → Subset (compute_extent ctx y) (compute_extent ctx x)
  extent_antitone ctx x y c sub o ho =
      let (lt, all) = (compute_extent_iff ctx y o c).0 ho in
      (compute_extent_iff ctx x o c).1 (lt, λ a ha. all a (sub a ha))

  -- `closure` is monotone.
  pub closure_mono :
      (ctx : BinaryContext B) (x y : B)
      → IsContext ctx
      → Below ctx.nb_attributes x
      → Below ctx.nb_attributes y
      → Subset x y
      → Subset (closure ctx x) (closure ctx y)
  closure_mono ctx x y c bx by_y sub a h =
      let (lt, common) = (closure_iff ctx x a c bx).0 h in
      (closure_iff ctx y a c by_y).1 (lt, λ o ho. common o (extent_antitone ctx x y c sub o ho))

  -- A set and its closure have the same objects.
  pub extent-closure :
      (ctx : BinaryContext B) (attrs : B)
      → IsContext ctx
      → Below ctx.nb_attributes attrs
      → Subset (compute_extent ctx attrs) (compute_extent ctx (closure ctx attrs))
  extent-closure ctx attrs c below o ho = (compute_extent_iff ctx (closure ctx attrs) o c).1 (
    ((compute_extent_iff ctx attrs o c).0 ho).0,
    λ a ha. ((closure_iff ctx attrs a c below).0 ha).1 o ho,
  )

  -- On attribute sets x ⊆ y within the dimensions of a well-formed context, `closure` is
  -- extensive, monotone and, as a set, idempotent; and its result is within the dimensions.
  pub closure_operator :
      (ctx : BinaryContext B) (x y : B)
      → IsContext ctx
      → Below ctx.nb_attributes x
      → Below ctx.nb_attributes y
      → Subset x y
      → Subset x (closure ctx x)
        × Subset (closure ctx x) (closure ctx y)
        × SameSet (closure ctx (closure ctx x)) (closure ctx x)
        × Below ctx.nb_attributes (closure ctx x)
  closure_operator ctx x y c bx by_y sub = (
    closure_extensive ctx x,
    closure_mono ctx x y c bx by_y sub,
    SameSet-of_subsets (closure ctx (closure ctx x)) (closure ctx x)
        (λ a h.
          let (lt, common) = (closure_iff ctx (closure ctx x) a c (closure-Below ctx x c bx)).0 h in
          (closure_iff ctx x a c bx).1 (lt, λ o ho. common o (extent-closure ctx x c bx o ho)))
        (closure_extensive ctx (closure ctx x)),
    closure-Below ctx x c bx,
  )
