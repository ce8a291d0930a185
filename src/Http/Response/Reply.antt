-- ===== src/Http/Response/Reply.antt =====
-- A client that reads the responses of http/http_response.cpp off its connection by RFC 9112: the
-- head up to its empty line, and a body of as many bytes as Content-Length announces.
use coroutine_http.Prelude.{
  ℕ, suc, ◌+◌, Bool, none, some, Option, List, [], ◌∷◌, length, take, drop, leb, if◌then◌else◌,
  Bytes, bytes, bytes_beq, bytes_eq, find, find_char,
}
use coroutine_http.Prelude.{ℤ, pos, negsuc}
use coroutine_http.Http.Text.{getlines, to_lower, stoi}
use coroutine_http.Http.Parser.{chop_lines, header_end}

pub record Reply : Type 0 where
  pub status_line : Bytes
  pub fields : List (Bytes × Bytes)
  pub body : Bytes

-- The name up to the colon, and the value behind the colon and a blank.
unfoldable pub read_field : Bytes → Bytes × Bytes
read_field line = elim (find_char b':' line) [
  | none ↦ (line, [])
  | some colon ↦ (take colon line, drop (suc (suc colon)) line)
]

unfoldable pub read_fields : List Bytes → List (Bytes × Bytes)
unfolding read_field
read_fields [] = []
read_fields (line ∷ lines) = read_field line ∷ read_fields lines

-- The name of a field counts in any spelling of upper and lower case.
abbrev pub is_length : Bytes → Bool
is_length name = bytes_beq (to_lower name) (bytes "content-length")

abbrev pub number_of : Option ℤ → Option ℕ
number_of none = none
number_of (some (pos n)) = some n
number_of (some (negsuc n)) = none

-- The number in the first Content-Length, if there is one.
unfoldable pub announced : List (Bytes × Bytes) → Option ℕ
unfolding stoi to_lower
announced [] = none
announced ((name, value) ∷ fields) =
    let later = announced fields in if is_length name then number_of (stoi value) else later

abbrev pub cut_body : Bytes → List (Bytes × Bytes) → Option ℕ → Bytes → Option (Reply × Bytes)
cut_body line fields none s = none
cut_body line fields (some n) s =
    if leb n (length s)
    then some (record { status_line = line; fields = fields; body = take n s }, drop n s)
    else none

-- A head: its first line, its fields, and what stands behind the empty line.
unfoldable pub head_of : List Bytes → Bytes → Option (Bytes × List (Bytes × Bytes) × Bytes)
unfolding read_fields
head_of [] s = none
head_of (line ∷ lines) s = some (line, read_fields lines, s)

unfoldable pub read_head : Bytes → Option (Bytes × List (Bytes × Bytes) × Bytes)
unfolding head_of
read_head s = elim (find header_end s) [
  | none ↦ none
  | some at ↦ head_of (chop_lines (getlines 10 (take at s))) (drop (at + 4) s)
]

-- The first response and what stands behind it.
unfoldable pub read_reply : Bytes → Option (Reply × Bytes)
unfolding announced read_head
read_reply s = elim (read_head s) [
  | none ↦ none
  | some (line, fields, rest) ↦ cut_body line fields (announced fields) rest
]
