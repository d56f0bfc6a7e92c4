-- ===== src/StrBuf/Examples.antt =====
-- The theorems on the text buffer applied to a new buffer.
use fca4j_project.Base.{ℕ, ◌≡◌, refl, false, List, [], ◌∷◌, ◌++◌, some, arith}
use fca4j_project.StrBuf.{
  sb_new, sb_append, sb_append_json_str, json_chars, sb_append_json_char, sb_ensure,
}
use fca4j_project.StrBuf.Laws.{HasRoom, append_lem}
use fca4j_project.StrBuf.Json.{read_json, read-append_json_str}

abbrev hi : List ℕ
hi = b'h' ∷ b'"' ∷ b'i' ∷ []

new-HasRoom : HasRoom sb_new
unfolding sb_new
new-HasRoom = omega arith

hi_text : (sb_append_json_str sb_new hi).text ≡ b'"' ∷ b'h' ∷ b'\\' ∷ b'"' ∷ b'i' ∷ b'"' ∷ []
unfolding sb_new sb_append_json_str json_chars sb_append_json_char sb_append sb_ensure
hi_text = refl

append_lem_example :
    ((sb_append sb_new hi).text ≡ sb_new.text ++ hi) × HasRoom (sb_append sb_new hi)
append_lem_example = append_lem sb_new hi new-HasRoom

read-append_json_str_example :
    (body : List ℕ) × ((sb_append_json_str sb_new hi).text ≡ sb_new.text ++ b'"' ∷ body)
    × (read_json false (body ++ hi) ≡ some (hi, hi))
    × HasRoom (sb_append_json_str sb_new hi)
read-append_json_str_example = read-append_json_str sb_new hi hi new-HasRoom
