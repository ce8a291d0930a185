-- ===== src/Http/Parser/Headers.antt =====
-- Header lines (`parse_header_line` of http/http_parser.cpp) as `HttpRequest::header` sees them.
use coroutine_http.Prelude.{
  ℕ, suc, ◌≡◌, refl, false, none, some, List, [], ◌∷◌, ◌++◌, length, drop, if◌then◌else◌,
  Option-cases, inl, inr, Bytes, bytes_beq, bytes_eq, is_empty, find_char, take-append_self, arith,
}
use coroutine_http.Prelude.Dict.{lookup-insert}
use coroutine_http.Http.Text.{trim, to_lower}
use coroutine_http.Http.Request.{HttpRequest, header}
use coroutine_http.Http.Parser.{parse_header_line}

pub find_char_first :
    (x : ℕ) (name value : Bytes)
    → find_char x name ≡ none
    → find_char x (name ++ x ∷ value) ≡ some (length name)
unfolding find_char
find_char_first x [] value h = ground arith
find_char_first x (c ∷ name) value h = elim (Option-cases (find_char x name)) [
  | inl missing ↦ ground (arith, find_char_first x name value missing)
  | inr (k, found) ↦ absurd (ground arith)
]

pub drop-suc {ℓ} :
    {A : Type ℓ} (xs : List A) (x : A) (ys : List A) → drop (suc (length xs)) (xs ++ x ∷ ys) ≡ ys
drop-suc [] x ys = refl
drop-suc (y ∷ xs) x ys = drop-suc xs x ys

-- A line `name: value` whose name is not blank sets the header: from then on it is found under its
-- name in any spelling of upper and lower case, with the blanks round the value gone, and every
-- other header is as before.
pub header-parse_header_line :
    (name value key default_val : Bytes) (req : HttpRequest)
    → find_char b':' name ≡ none
    → is_empty (to_lower (trim name)) ≡ false
    → header (parse_header_line (name ++ b':' ∷ value) req).1 key default_val ≡ (
        if bytes_beq (to_lower (trim name)) (to_lower key)
        then trim value
        else header req key default_val)
unfolding header parse_header_line
header-parse_header_line name value key default_val req plain named =
    rw
      (
        find_char_first b':' name value plain,
        parse_header_line,
        take-append_self name (b':' ∷ value),
        drop-suc name b':' value,
        named,
      )
      (ground (arith, lookup-insert (to_lower (trim name)) (to_lower key) (trim value) req.headers))
