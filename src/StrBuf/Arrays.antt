-- ===== src/StrBuf/Arrays.antt =====
-- The texts that the serialisers hand to the buffer (co_to_json, run_lincbo_impl): literals, `%d`, and
-- the loop that writes a set of indices as an array of names.
use Prim.Native.Char.{code}
use Prim.Native.String.{String}
use fca4j_project.Base.{
  ℕ, zero, suc, ◌+◌, ◌/◌, ◌%◌, Bool, true, false, List, [], ◌∷◌, ◌++◌, length, get_or,
  if◌then◌else◌, ltb, ◌==◌,
}
use fca4j_project.StrBuf.{StrBuf, sb_append, sb_printf, sb_append_json_str}

-- The bytes of an ASCII literal.
abbrev pub codes : String → List ℕ
codes String.[] = []
codes (String.◌∷◌ c s) = code c ∷ codes s

-- The decimal digits of `n`, before `out`.
unfoldable pub digits : ℕ → ℕ → List ℕ → List ℕ
digits zero n out = out
digits (suc fuel) n out = elim (n == 0) [
  | true ↦ out
  | false ↦ digits fuel (n / 10) ((b'0' + n % 10) ∷ out)
]

-- What `%d` prints for a non-negative number.
unfoldable pub decimal : ℕ → List ℕ
decimal n = if n == 0 then b'0' ∷ [] else digits (n + 1) n []

-- The name of index `i`, or the index itself in quotes when it has no name.
unfoldable pub sb_append_name : List (List ℕ) → StrBuf → ℕ → StrBuf
sb_append_name names sb i =
    if ltb i (length names)
    then sb_append_json_str sb (get_or names i [])
    else sb_printf sb (codes "\"" ++ decimal i ++ codes "\"")

-- The loops over an iterator, with `first`.
unfoldable pub sb_append_items : (StrBuf → ℕ → StrBuf) → Bool → List ℕ → StrBuf → StrBuf
sb_append_items item first [] sb = sb
sb_append_items item first (i ∷ rest) sb =
    sb_append_items item false rest (item (if first then sb else sb_append sb (codes ",")) i)
