-- ===== src/StrBuf/Json.antt =====
-- `sb_append_json_str` writes a quoted text that a reader of JSON escapes takes back.
use fca4j_project.Base.{
  ℕ, ◌≡◌, refl, sym, ap, ◌∙◌, Bool, true, false, List, [], ◌∷◌, ◌++◌, Option, none, some,
  if◌then◌else◌, ◌==◌, arith, length-append,
}
use mathlib.Core.List.{append_assoc, append-nil}
use fca4j_project.StrBuf.{StrBuf, sb_append, sb_append_json_char, json_chars, sb_append_json_str}
use fca4j_project.StrBuf.Laws.{HasRoom, append_lem, ensure-room}

-- What is written for one byte, and for a text.
abbrev escape : ℕ → List ℕ
escape c =
    if c == b'"'
    then b'\\' ∷ b'"' ∷ []
    else if c == b'\\'
    then b'\\' ∷ b'\\' ∷ []
    else if c == 10
    then b'\\' ∷ b'n' ∷ []
    else c ∷ []

abbrev escapes : List ℕ → List ℕ
escapes [] = []
escapes (c ∷ s) = escape c ++ escapes s

-- A reader of what follows the opening quote: the text, and the rest after the closing quote.
-- The flag says that a backslash came before.
abbrev cons_read : ℕ → Option (List ℕ × List ℕ) → Option (List ℕ × List ℕ)
cons_read c none = none
cons_read c (some (s, rest)) = some (c ∷ s, rest)

abbrev pub read_json : Bool → List ℕ → Option (List ℕ × List ℕ)
read_json escaped [] = none
read_json true (c ∷ xs) = cons_read (if c == b'n' then 10 else c) (read_json false xs)
read_json false (c ∷ xs) =
    let plain = cons_read c (read_json false xs) in
    let after = read_json true xs in
    if c == b'"' then some ([], xs) else if c == b'\\' then after else plain

read-escapes : (s rest : List ℕ) → read_json false (escapes s ++ b'"' ∷ rest) ≡ some (s, rest)
read-escapes [] rest = refl
read-escapes (c ∷ s) rest = ground (arith, read-escapes s rest)

char_lem :
    (sb : StrBuf) (c : ℕ)
    → HasRoom sb
    → ((sb_append_json_char sb c).text ≡ sb.text ++ escape c) × HasRoom (sb_append_json_char sb c)
unfolding sb_append_json_char
char_lem sb c room =
    let (big, same) = ensure-room sb 1 room in
    ground (
      arith,
      append_lem sb (b'\\' ∷ b'"' ∷ []) room,
      append_lem sb (b'\\' ∷ b'\\' ∷ []) room,
      append_lem sb (b'\\' ∷ b'n' ∷ []) room,
      big,
      same,
      length-append sb.text (c ∷ []),
    )

chars_lem :
    (sb : StrBuf) (s : List ℕ)
    → HasRoom sb
    → ((json_chars sb s).text ≡ sb.text ++ escapes s) × HasRoom (json_chars sb s)
unfolding json_chars
chars_lem sb [] room = (sym (append-nil sb.text), room)
chars_lem sb (c ∷ s) room =
    let (text, room') = char_lem sb c room in
    let (texts, room'') = chars_lem (sb_append_json_char sb c) s room' in
    (texts ∙ ap (λ t. t ++ escapes s) text ∙ append_assoc sb.text (escape c) (escapes s), room'')

-- On a buffer with room, `sb_append_json_str` appends an opening quote and a text from which a
-- reader that undoes the escapes takes back exactly `s`, up to the closing quote and whatever
-- follows; and the buffer has room after it.
pub read-append_json_str :
    (sb : StrBuf) (s rest : List ℕ)
    → HasRoom sb
    → (body : List ℕ) × ((sb_append_json_str sb s).text ≡ sb.text ++ b'"' ∷ body)
      × (read_json false (body ++ rest) ≡ some (s, rest))
      × HasRoom (sb_append_json_str sb s)
unfolding sb_append_json_str
read-append_json_str sb s rest room =
    let quote = b'"' ∷ [] in
    let (t1, r1) = append_lem sb quote room in
    let (t2, r2) = chars_lem (sb_append sb quote) s r1 in
    let (t3, r3) = append_lem (json_chars (sb_append sb quote) s) quote r2 in
    (
      escapes s ++ quote,
      t3 ∙ ap (λ t. t ++ quote) (t2 ∙ ap (λ t. t ++ escapes s) t1) ∙ simp append_assoc,
      rw (append_assoc (escapes s) quote rest) (read-escapes s rest),
      r3,
    )
