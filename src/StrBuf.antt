-- ===== src/StrBuf.antt =====
-- core/strbuf.c: the growing text buffer. `text` is the bytes before the final NUL, so that `len` is
-- its length, and `cap` the size allocated.
pub mod Laws
pub mod Arrays
pub mod Json
pub mod Examples
use fca4j_project.Base.{
  ℕ, zero, suc, ◌+◌, ◌*◌, ◌/◌, ◌%◌, Bool, true, false, List, [], ◌∷◌, ◌++◌, length, take,
  if◌then◌else◌, leb, ◌==◌,
}

pub record StrBuf : Type 0 where
  pub text : List ℕ
  pub cap : ℕ

abbrev pub len : StrBuf → ℕ
len sb = length sb.text

unfoldable pub sb_new : StrBuf
sb_new = record { text = []; cap = 4096 }

-- The loop of `sb_ensure`: doubles `cap` while `needed >= cap`.
unfoldable pub grow_cap : ℕ → ℕ → ℕ → ℕ
grow_cap zero needed cap = cap
grow_cap (suc fuel) needed cap = elim (leb cap needed) [
  | true ↦ grow_cap fuel needed (cap * 2)
  | false ↦ cap
]

unfoldable pub sb_ensure : StrBuf → ℕ → StrBuf
unfolding grow_cap
sb_ensure sb extra = record sb { cap = grow_cap (len sb + extra + 2) (len sb + extra + 1) sb.cap }

unfoldable pub sb_append : StrBuf → List ℕ → StrBuf
sb_append sb s = let sb' = sb_ensure sb (length s) in record sb' { text = sb'.text ++ s }

-- vsnprintf into 512 bytes, one of them for the NUL: what is longer is cut.
unfoldable pub sb_printf : StrBuf → List ℕ → StrBuf
sb_printf sb formatted = sb_append sb (take 511 formatted)

-- One round of the loop of `sb_append_json_str`.
unfoldable pub sb_append_json_char : StrBuf → ℕ → StrBuf
sb_append_json_char sb c =
    if c == b'"'
    then sb_append sb (b'\\' ∷ b'"' ∷ [])
    else if c == b'\\'
    then sb_append sb (b'\\' ∷ b'\\' ∷ [])
    else if c == 10
    then sb_append sb (b'\\' ∷ b'n' ∷ [])
    else let sb' = sb_ensure sb 1 in record sb' { text = sb'.text ++ c ∷ [] }

unfoldable pub json_chars : StrBuf → List ℕ → StrBuf
json_chars sb [] = sb
json_chars sb (c ∷ s) = json_chars (sb_append_json_char sb c) s

unfoldable pub sb_append_json_str : StrBuf → List ℕ → StrBuf
sb_append_json_str sb s = sb_append (json_chars (sb_append sb (b'"' ∷ [])) s) (b'"' ∷ [])
