-- ===== src/Context/Matrix.antt =====
-- `ctx_from_matrix` builds exactly the incidence that the row-major matrix describes.
use fca4j_project.Base.{
  ℕ, suc, ◌+◌, ◌*◌, ◌<◌, ◌≡◌, refl, Bool, true, false, List, get_or, if◌then◌else◌, for_inv, not,
  ◌==◌, ◌&&◌, ◌||◌, ltb, arith,
}
use fca4j_project.Roaring.{Roaring}
use fca4j_project.Context.{
  BinaryContext, row, ctx_create, ctx_set, matrix_row, ctx_from_matrix, IsContext,
}
use fca4j_project.Context.Laws.{ctx_set-IsContext, ctx_set-nb, ctx_create-IsContext, row-ctx_create}

-- The matrix has a non-zero byte for the pair, at row `o` of `m` bytes.
abbrev pub marked : ℕ → List ℕ → ℕ → ℕ → Bool
marked m matrix o a = not (get_or matrix (o * m + a) 0 == 0)

-- After attribute `i - 1` of object `o`, over what was there `before`.
abbrev partial_row : ℕ → List ℕ → (ℕ → ℕ → Bool) → ℕ → ℕ → ℕ → ℕ → Bool
partial_row m matrix before o i p a = before p a || (p == o && (ltb a i && marked m matrix o a))

-- After object `k - 1`.
abbrev pub rows_done : ℕ → List ℕ → ℕ → ℕ → ℕ → Bool
rows_done m matrix k o a = ltb o k && (ltb a m && marked m matrix o a)

module _ {B : Type 0} ⦃R : Roaring B⦄ where
  open R use {contains}

  -- What `ctx_from_matrix` has built so far: `inc` says which pairs are incident.
  pub record Built (n m : ℕ) (inc : ℕ → ℕ → Bool) (ctx : BinaryContext B) : Type 0 where
    pub wf : IsContext ctx
    pub objects : ctx.nb_objects ≡ n
    pub attributes : ctx.nb_attributes ≡ m
    pub incidence : (o a : ℕ) → contains (row ctx o) a ≡ inc o a

  Built-ext :
      (n m : ℕ) (inc inc' : ℕ → ℕ → Bool) (ctx : BinaryContext B)
      → ((o a : ℕ) → inc o a ≡ inc' o a)
      → Built n m inc ctx
      → Built n m inc' ctx
  Built-ext n m inc inc' ctx e b = record {
    wf = b.wf;
    objects = b.objects;
    attributes = b.attributes;
    incidence = λ o a. ground (arith, e o a, b.incidence o a);
  }

  module _ (n m : ℕ) (matrix : List ℕ) where
    cell-Built :
        (o i : ℕ) (before : ℕ → ℕ → Bool) (ctx : BinaryContext B) (t : Bool)
        → marked m matrix o i ≡ t
        → o < n
        → i < m
        → Built n m (partial_row m matrix before o i) ctx
        → Built n m
            (partial_row m matrix before o (suc i))
            (if t then ctx_set ctx o i true else ctx)
    cell-Built o i before ctx true e ho hi b =
        let (wf, cells) =
          ctx_set-IsContext ctx o i true b.wf (omega (arith, b.objects))
            (omega (arith, b.attributes)) in
        let nb = ctx_set-nb ctx o i true in
        record {
          wf = wf;
          objects = omega (arith, nb, b.objects);
          attributes = omega (arith, nb, b.attributes);
          incidence = λ p a. ground (arith, cells p a, b.incidence p a);
        }
    cell-Built o i before ctx false e ho hi b =
        Built-ext n m (partial_row m matrix before o i) (partial_row m matrix before o (suc i)) ctx
          (λ p a. ground arith) b

    row-Built :
        (o : ℕ) (before : ℕ → ℕ → Bool) (ctx : BinaryContext B)
        → o < n
        → Built n m before ctx
        → Built n m (partial_row m matrix before o m) (matrix_row m matrix o m ctx)
    unfolding matrix_row
    row-Built o before ctx ho b =
        for_inv (λ i c. Built n m (partial_row m matrix before o i) c)
          (λ a c. if marked m matrix o a then ctx_set c o a true else c) m ctx
          (λ i c hi h. cell-Built o i before c (marked m matrix o i) refl ho hi h)
          (Built-ext n m before (partial_row m matrix before o 0) ctx (λ p a. ground arith) b)

    -- The context built from a matrix is well formed, has the given dimensions, and object `o`
    -- has attribute `a` exactly when both are within these and the byte o * m + a is not zero.
    pub ctx_from_matrix-Built :
        (name : List ℕ) → Built n m (rows_done m matrix n) (ctx_from_matrix {B = B} n m matrix name)
    unfolding ctx_from_matrix ctx_create
    ctx_from_matrix-Built name =
        for_inv (λ k c. Built n m (rows_done m matrix k) c) (λ o c. matrix_row m matrix o m c) n
          (ctx_create n m name)
          (λ o c ho h.
            Built-ext n m (partial_row m matrix (rows_done m matrix o) o m)
              (rows_done m matrix (suc o)) (matrix_row m matrix o m c) (λ p a. ground arith)
              (row-Built o (rows_done m matrix o) c ho h))
          (record {
            wf = ctx_create-IsContext (ctx_create {B = B} n m name) n m name refl;
            objects = refl;
            attributes = refl;
            incidence = λ o a.
                ground (arith, row-ctx_create (ctx_create {B = B} n m name) n m name refl o a);
          })
