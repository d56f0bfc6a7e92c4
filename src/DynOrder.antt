-- ===== src/DynOrder.antt =====
-- core/dynorder.h and core/dynorder.c: the mutable order of concepts of Ares and Ceres. The words of
-- concept `c`, DYN_EXT(dyn, c) and the like, are row `c` of a list of rows; words that are not
-- initialised yet read as 0. The vectors of covers, the stack and the selection are lists; their
-- reserved capacities (dyn_ensure_stack, dyn_ensure_sel) are not part of the model. The head of the
-- list `stack` is its top.
pub mod Traverse
pub mod Serial
pub mod Edges
pub mod Marks
pub mod Reach
pub mod Offered
pub mod Maximal
pub mod Examples
pub mod Reduced
use fca4j_project.Base.{
  ℕ, zero, suc, ◌+◌, ◌-◌, ◌*◌, Bool, true, false, not, ◌&&◌, ◌||◌, List, [], ◌∷◌, ◌++◌, Option,
  none, some, length, get_or, set, replicate, take, if◌then◌else◌, leb, ltb, ◌==◌, foldl, for_to,
}
use fca4j_project.Bitset.{aw_n, bs_zero, bs_copy, bs_andnot, bs_card}

pub record DynOrder : Type 0 where
  pub nb_obj : ℕ
  pub nb_attr : ℕ
  pub wo : ℕ
  pub wa : ℕ
  pub n : ℕ
  pub cap : ℕ
  pub ext : List (List ℕ)
  pub rext : List (List ℕ)
  pub rint : List (List ℕ)
  pub lower : List (List ℕ)
  pub upper : List (List ℕ)
  pub alive : List Bool
  pub nb_alive : ℕ
  pub mark_a : List ℕ
  pub mark_b : List ℕ
  pub epoch_a : ℕ
  pub epoch_b : ℕ
  pub sel : List ℕ
  pub sort_buf : List ℕ

-- DYN_EXT, DYN_REXT, DYN_RINT, and the vector of covers of a concept.
abbrev pub at : List (List ℕ) → ℕ → List ℕ
at rows c = get_or rows c []

unfoldable pub dyn_ensure_cap : DynOrder → ℕ → DynOrder
dyn_ensure_cap dyn needed =
    if leb needed dyn.cap
    then dyn
    else let newcap = if ltb (dyn.cap * 2) needed then needed else dyn.cap * 2 in
      let new = newcap - dyn.cap in
      record dyn {
        ext = dyn.ext ++ replicate new (replicate dyn.wo 0);
        rext = dyn.rext ++ replicate new (replicate dyn.wo 0);
        rint = dyn.rint ++ replicate new (replicate dyn.wa 0);
        lower = dyn.lower ++ replicate new [];
        upper = dyn.upper ++ replicate new [];
        alive = dyn.alive ++ replicate new false;
        mark_a = dyn.mark_a ++ replicate new 0;
        mark_b = dyn.mark_b ++ replicate new 0;
        sort_buf = dyn.sort_buf ++ replicate new 0;
        cap = newcap;
      }

unfoldable pub dyn_create : ℕ → ℕ → DynOrder
dyn_create nb_obj nb_attr =
    let wo = aw_n (if ltb 0 nb_obj then nb_obj else 1) in
    let wa = aw_n (if ltb 0 nb_attr then nb_attr else 1) in
    record {
      nb_obj = nb_obj;
      nb_attr = nb_attr;
      wo = wo;
      wa = wa;
      n = 0;
      cap = 256;
      ext = replicate 256 (replicate wo 0);
      rext = replicate 256 (replicate wo 0);
      rint = replicate 256 (replicate wa 0);
      lower = replicate 256 [];
      upper = replicate 256 [];
      alive = replicate 256 false;
      nb_alive = 0;
      mark_a = replicate 256 0;
      mark_b = replicate 256 0;
      epoch_a = 0;
      epoch_b = 0;
      sel = [];
      sort_buf = replicate 256 0;
    }

-- `dyn_new_concept` after the growth.
unfoldable pub dyn_fill : DynOrder → DynOrder
dyn_fill dyn =
    let c = dyn.n in
    record dyn {
      n = c + 1;
      ext = set dyn.ext c (bs_zero (at dyn.ext c) dyn.wo);
      rext = set dyn.rext c (bs_zero (at dyn.rext c) dyn.wo);
      rint = set dyn.rint c (bs_zero (at dyn.rint c) dyn.wa);
      lower = set dyn.lower c [];
      upper = set dyn.upper c [];
      alive = set dyn.alive c true;
      nb_alive = dyn.nb_alive + 1;
    }

unfoldable pub dyn_new_concept : DynOrder → DynOrder × ℕ
dyn_new_concept dyn = (dyn_fill (dyn_ensure_cap dyn (dyn.n + 1)), dyn.n)

unfoldable pub dyn_add_edge : DynOrder → ℕ → ℕ → DynOrder
dyn_add_edge dyn lower upper = record dyn {
  upper = set dyn.upper lower (at dyn.upper lower ++ upper ∷ []);
  lower = set dyn.lower upper (at dyn.lower upper ++ lower ∷ []);
}

-- data[i] = data[len - 1]; len--, where `rest` is the vector behind position `i`.
unfoldable pub fill_gap : List ℕ → List ℕ
fill_gap [] = []
fill_gap (x ∷ rest) = get_or (x ∷ rest) (length rest) 0 ∷ take (length rest) (x ∷ rest)

unfoldable pub intvec_remove : List ℕ → ℕ → List ℕ × Bool
unfolding fill_gap
intvec_remove [] val = ([], false)
intvec_remove (x ∷ rest) val =
    let later = intvec_remove rest val in
    if x == val then (fill_gap rest, true) else (x ∷ later.0, later.1)

unfoldable pub dyn_remove_edge : DynOrder → ℕ → ℕ → DynOrder × Bool
dyn_remove_edge dyn lower upper =
    let a = intvec_remove (at dyn.upper lower) upper in
    let b = intvec_remove (at dyn.lower upper) lower in
    (record dyn { upper = set dyn.upper lower a.0; lower = set dyn.lower upper b.0 }, a.1 || b.1)

unfoldable pub dyn_remove_concept : DynOrder → ℕ → DynOrder
dyn_remove_concept dyn c = if not (get_or dyn.alive c false) then dyn else record dyn {
  alive = set dyn.alive c false;
  nb_alive = dyn.nb_alive - 1;
  lower = set dyn.lower c [];
  upper = set dyn.upper c [];
}

-- The reduced extent, and the number of children.
unfoldable pub dyn_reduced_extent : DynOrder → ℕ → List ℕ → List ℕ × ℕ
dyn_reduced_extent dyn c rext_out = (
  foldl (λ r child. bs_andnot r (at dyn.ext child) dyn.wo) (bs_copy rext_out (at dyn.ext c) dyn.wo)
      (at dyn.lower c),
  length (at dyn.lower c),
)
