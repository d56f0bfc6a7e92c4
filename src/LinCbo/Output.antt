-- ===== src/LinCbo/Output.antt =====
-- algo/lincbo.c, run_lincbo_impl: the run from the empty set, and the basis as JSON text.
use fca4j_project.Base.{
  ℕ, true, List, [], ◌++◌, Option, none, some, length, if◌then◌else◌, ltb, for_to,
}
use fca4j_project.Roaring.{Roaring}
use fca4j_project.Context.{BinaryContext}
use fca4j_project.Implication.{CImplication}
use fca4j_project.StrBuf.{StrBuf, sb_new, sb_append, sb_printf, sb_append_json_str}
use fca4j_project.StrBuf.Arrays.{codes, decimal, sb_append_name, sb_append_items}
use fca4j_project.LinCbo.{LinCbOState, lincbo_init, lincbo_step, implication_at}

module _ {B : Type 0} ⦃R : Roaring B⦄ where
  open R use {create, to_list}

  -- One round of the loop over the basis.
  unfoldable pub implication_json : BinaryContext B → ℕ → CImplication B → StrBuf → StrBuf
  implication_json ctx i imp sb =
      let opened =
        sb_append (if ltb 0 i then sb_append sb (codes ",") else sb) (codes "{\"premise\":[") in
      let premise =
        sb_append_items (sb_append_name ctx.attr_names) true (to_list imp.premise) opened in
      let both =
        sb_append_items (sb_append_name ctx.attr_names) true (to_list imp.conclusion)
          (sb_append premise (codes "],\"conclusion\":[")) in
      sb_printf both (codes "],\"support\":" ++ decimal imp.support_size ++ codes "}")

  unfoldable pub lincbo_json : BinaryContext B → LinCbOState B → StrBuf
  lincbo_json ctx st =
      let head = sb_printf sb_new (
        codes "{\"algorithm\":\"LinCbO\",\"implications\":"
        ++ decimal (length st.implications)
        ++ codes ",\"context\":") in
      let named = sb_printf (sb_append_json_str head ctx.name) (
        codes ",\"objects\":"
        ++ decimal ctx.nb_objects
        ++ codes ",\"attributes\":"
        ++ decimal ctx.nb_attributes
        ++ codes ",\"basis\":[") in
      sb_append
        (for_to (length st.implications) (λ i sb. implication_json ctx i (implication_at st i) sb)
          named)
        (codes "]}")

  -- The recursion of `lincbo_step` takes `fuel`.
  unfoldable pub run_lincbo_impl : ℕ → BinaryContext B → Option (List ℕ)
  run_lincbo_impl fuel ctx = elim (lincbo_step fuel (lincbo_init ctx) create 0 create []) [
    | none ↦ none
    | some st ↦ some ((lincbo_json ctx st).text)
  ]
