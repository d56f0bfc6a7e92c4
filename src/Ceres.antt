-- ===== src/Ceres.antt =====
-- algo/ceres.c: the AOC-poset by Ceres. The dense context, and the state of a run. The scratch
-- buffers (queue, activeWords, wolpRaw, wolpCard, wolpBucket, wolpAssoc) are values of the
-- functions that fill them. The rows of `objIntent` and the columns of `attrExtent` are lists.
pub mod Dense
pub mod Classify
pub mod Queue
pub mod LeftPart
pub mod Total
pub mod Run
pub mod Blocks
pub mod Returns
pub mod Sort
pub mod Examples
use fca4j_project.Base.{
  ℕ, ◌+◌, ◌*◌, Bool, true, false, not, List, [], ◌∷◌, Option, none, some, get_or, set, replicate,
  if◌then◌else◌, ltb, ◌==◌, foldl, for_to,
}
use fca4j_project.Roaring.{Roaring}
use fca4j_project.Context.{BinaryContext, row, col}
use fca4j_project.Bitset.{aw_n, bs_set, bs_card}
use fca4j_project.DynOrder.{DynOrder, at}

pub record PreConcept : Type 0 where
  pub ext : List ℕ
  pub intent : List ℕ
  pub rext : List ℕ
  pub rint : List ℕ
  pub ext_card : ℕ

unfoldable pub ceres_wo : ℕ → ℕ
ceres_wo nb_obj = aw_n (if ltb 0 nb_obj then nb_obj else 1)

unfoldable pub ceres_wa : ℕ → ℕ
ceres_wa nb_attr = aw_n (if ltb 0 nb_attr then nb_attr else 1)

pub record CeresContext : Type 0 where
  pub nb_obj : ℕ
  pub nb_attr : ℕ
  pub wo : ℕ
  pub wa : ℕ
  pub obj_intent : List (List ℕ)
  pub obj_intent_card : List ℕ
  pub attr_extent : List (List ℕ)

-- The context with every set empty.
unfoldable pub ceres_ctx_empty : ℕ → ℕ → CeresContext
unfolding ceres_wo ceres_wa
ceres_ctx_empty nb_obj nb_attr = record {
  nb_obj = nb_obj;
  nb_attr = nb_attr;
  wo = ceres_wo nb_obj;
  wa = ceres_wa nb_attr;
  obj_intent = replicate (if ltb 0 nb_obj then nb_obj else 1) (replicate (ceres_wa nb_attr) 0);
  obj_intent_card = replicate (if ltb 0 nb_obj then nb_obj else 1) 0;
  attr_extent = replicate (if ltb 0 nb_attr then nb_attr else 1) (replicate (ceres_wo nb_obj) 0);
}

-- One of the four allocations may fail: `none` is the NULL.
unfoldable pub ceres_ctx_alloc : Bool → ℕ → ℕ → Option CeresContext
ceres_ctx_alloc allocated nb_obj nb_attr =
    if allocated then some (ceres_ctx_empty nb_obj nb_attr) else none

-- `if (row[a])`, with the counter `card`.
unfoldable pub ceres_cell : List ℕ → ℕ → ℕ → CeresContext × ℕ → CeresContext × ℕ
ceres_cell matrix o a s =
    if not (get_or matrix (o * s.0.nb_attr + a) 0 == 0)
    then (
      record (s.0) {
        obj_intent = set s.0.obj_intent o (bs_set (at s.0.obj_intent o) a);
        attr_extent = set s.0.attr_extent a (bs_set (at s.0.attr_extent a) o);
      },
      s.1 + 1,
    )
    else s

-- The body of the loop on the objects.
unfoldable pub ceres_matrix_row : List ℕ → ℕ → CeresContext → CeresContext
ceres_matrix_row matrix o cx =
    let filled = for_to cx.nb_attr (λ a s. ceres_cell matrix o a s) (cx, 0) in
    record (filled.0) { obj_intent_card = set filled.0.obj_intent_card o filled.1 }

unfoldable pub ceres_ctx_from_matrix : Bool → ℕ → ℕ → List ℕ → Option CeresContext
ceres_ctx_from_matrix allocated nb_obj nb_attr matrix =
    elim (ceres_ctx_alloc allocated nb_obj nb_attr) [
      | none ↦ none
      | some cx ↦ some (for_to nb_obj (λ o c. ceres_matrix_row matrix o c) cx)
    ]

module _ {B : Type 0} ⦃R : Roaring B⦄ where
  open R use {to_list}

  unfoldable pub ceres_ctx_row : BinaryContext B → ℕ → CeresContext → CeresContext
  ceres_ctx_row ctx o cx =
      let filled = foldl bs_set (at cx.obj_intent o) (to_list (row ctx o)) in
      record cx {
        obj_intent = set cx.obj_intent o filled;
        obj_intent_card = set cx.obj_intent_card o (bs_card filled cx.wa);
      }

  unfoldable pub ceres_ctx_col : BinaryContext B → ℕ → CeresContext → CeresContext
  ceres_ctx_col ctx a cx = record cx {
    attr_extent = set cx.attr_extent a (foldl bs_set (at cx.attr_extent a) (to_list (col ctx a)));
  }

  unfoldable pub ceres_ctx_from_binary : Bool → BinaryContext B → Option CeresContext
  ceres_ctx_from_binary allocated ctx =
      elim (ceres_ctx_alloc allocated ctx.nb_objects ctx.nb_attributes) [
        | none ↦ none
        | some cx ↦
            let rows = for_to cx.nb_obj (λ o c. ceres_ctx_row ctx o c) cx in
            some (for_to rows.nb_attr (λ a c. ceres_ctx_col ctx a c) rows)
      ]

-- The state of a run. `wo` and `wa` are those of the order.
pub record Ceres : Type 0 where
  pub ord : DynOrder
  pub cx : CeresContext
  pub wo : ℕ
  pub wa : ℕ
  pub marks : List ℕ
  pub mark_epoch : List ℕ
  pub epoch : ℕ
  pub puc : List ℕ
  pub top_intent : List ℕ
  pub top : ℕ

-- ce->objIntent + o * wa
abbrev pub intent_of : Ceres → ℕ → List ℕ
intent_of ce o = at ce.cx.obj_intent o
