-- ===== src/Http/Message/Fields.antt =====
-- The header lines of a request: what `parse_header_line` and the loop round it in
-- http/http_parser.cpp make of printed fields, and the Content-Length among them.
use coroutine_http.Prelude.{
  ℕ, zero, suc, ◌/◌, ◌^◌, ◌<◌, ◌≡◌, refl, ap, ◌∙◌, inl, inr, true, false, List, [], ◌∷◌, ◌++◌,
  take-append_self, ltb, ◌==◌, Bytes, bytes, bytes_eq, is_empty, All, All-map, Bool-cases, arith,
  pos,
}
use coroutine_http.Prelude.Dict.{Dict, insert, lookup-insert_self}
use coroutine_http.Http.Text.{
  is_blank, is_digit, to_lower, trim, trim_front, trim_back, to_string, digits_loop,
}
use coroutine_http.Http.Request.{HttpRequest, header, content_length}
use coroutine_http.Http.Response.Lengths.{stoi-to_string}
use coroutine_http.Http.Parser.{parse_header_line, parse_headers}
use coroutine_http.Http.Parser.Headers.{find_char_first, drop-suc}
use coroutine_http.Http.Message.{field_line, field_lines, set_fields, Avoids, IsField}
use coroutine_http.Http.Message.Scan.{append_cons-is_empty, find_char-Avoids, Avoids-append, IsLine}

-- The blank that is printed behind the colon is taken off.
trim_blank : (s : Bytes) → trim (b' ' ∷ s) ≡ trim s
unfolding trim trim_front
trim_blank s = refl

parse_header_line-field_line :
    (name value : Bytes) (req : HttpRequest)
    → IsField (name, value)
    → (parse_header_line (field_line (name, value)) req).1
      ≡ record req { headers = insert (to_lower (trim name)) (trim value) req.headers }
unfolding parse_header_line
parse_header_line-field_line name value req h =
    rw
      (
        parse_header_line,
        find_char_first b':' name (b' ' ∷ value) (find_char-Avoids b':' name h.0),
        take-append_self name (b':' ∷ b' ' ∷ value),
        drop-suc name b':' (b' ' ∷ value),
        trim_blank value,
      )
      (ground (arith, h.3))

-- The loop sets the fields one behind the other.
pub parse_headers-field_lines :
    (fields : List (Bytes × Bytes)) (req : HttpRequest)
    → All IsField fields
    → parse_headers (field_lines fields) req
      ≡ record req { headers = set_fields fields req.headers }
unfolding parse_headers
parse_headers-field_lines [] req h = refl
parse_headers-field_lines ((name, value) ∷ fields) req h =
    rw (append_cons-is_empty name (b' ' ∷ value) b':') (
      ap (parse_headers (field_lines fields)) (parse_header_line-field_line name value req h.0)
      ∙ parse_headers-field_lines fields
          (record req { headers = insert (to_lower (trim name)) (trim value) req.headers }) h.1)

pub field_lines-IsLine :
    (fields : List (Bytes × Bytes)) → All IsField fields → All IsLine (field_lines fields)
field_lines-IsLine [] h = tt
field_lines-IsLine ((name, value) ∷ fields) h = (
  (
    append_cons-is_empty name (b' ' ∷ value) b':',
    Avoids-append 13 name (b':' ∷ b' ' ∷ value) h.0.1 (refl, (refl, h.0.4)),
    Avoids-append 10 name (b':' ∷ b' ' ∷ value) h.0.2 (refl, (refl, h.0.5)),
  ),
  field_lines-IsLine fields h.1,
)

-- Digits.
abbrev pub IsDigits : Bytes → Type 0
IsDigits s = All (λ c. is_digit c ≡ true) s

digits_loop-IsDigits : (fuel n : ℕ) (acc : Bytes) → IsDigits acc → IsDigits (digits_loop fuel n acc)
unfolding digits_loop
digits_loop-IsDigits zero n acc h = h
digits_loop-IsDigits (suc fuel) n acc h = elim (Bool-cases (ltb n 10)) [
  | inl one ↦ rw one (ground arith, h)
  | inr more ↦ rw more (digits_loop-IsDigits fuel (n / 10) _ (ground arith, h))
]

pub to_string-IsDigits : (n : ℕ) → IsDigits (to_string n)
unfolding to_string
to_string-IsDigits n = digits_loop-IsDigits (suc n) n [] tt

digits_loop-is_empty :
    (fuel n : ℕ) (acc : Bytes) → is_empty acc ≡ false → is_empty (digits_loop fuel n acc) ≡ false
unfolding digits_loop
digits_loop-is_empty zero n acc h = h
digits_loop-is_empty (suc fuel) n acc h = elim (Bool-cases (ltb n 10)) [
  | inl one ↦ rw one refl
  | inr more ↦ rw more (digits_loop-is_empty fuel (n / 10) _ refl)
]

to_string-is_empty : (n : ℕ) → is_empty (to_string n) ≡ false
unfolding to_string digits_loop
to_string-is_empty n = elim (Bool-cases (ltb n 10)) [
  | inl one ↦ rw one refl
  | inr more ↦ rw more (digits_loop-is_empty n (n / 10) _ refl)
]

abbrev pub HasNoBlank : Bytes → Type 0
HasNoBlank s = All (λ c. is_blank c ≡ false) s

trim_front-HasNoBlank : (s : Bytes) → HasNoBlank s → trim_front s ≡ s
unfolding trim_front
trim_front-HasNoBlank [] h = refl
trim_front-HasNoBlank (c ∷ s) h = ground (arith, h.0)

trim_back-HasNoBlank : (s : Bytes) → HasNoBlank s → trim_back s ≡ s
unfolding trim_back
trim_back-HasNoBlank [] h = refl
trim_back-HasNoBlank (c ∷ s) h = ground (arith, h.0, trim_back-HasNoBlank s h.1)

pub trim-HasNoBlank : (s : Bytes) → HasNoBlank s → trim s ≡ s
unfolding trim
trim-HasNoBlank s h = ap trim_back (trim_front-HasNoBlank s h) ∙ trim_back-HasNoBlank s h

trim-IsDigits : (s : Bytes) → IsDigits s → trim s ≡ s
trim-IsDigits s h =
    trim-HasNoBlank s
      (All-map (λ c. is_digit c ≡ true) (λ c. is_blank c ≡ false) (λ c k. ground arith) s h)

set_fields-append :
    (fields more : List (Bytes × Bytes)) (headers : Dict Bytes Bytes)
    → set_fields (fields ++ more) headers ≡ set_fields more (set_fields fields headers)
set_fields-append [] more headers = refl
set_fields-append ((name, value) ∷ fields) more headers =
    set_fields-append fields more (insert (to_lower (trim name)) (trim value) headers)

pub digits-Avoids : (x : ℕ) (s : Bytes) → is_digit x ≡ false → IsDigits s → Avoids x s
digits-Avoids x s other h =
    All-map (λ c. is_digit c ≡ true) (λ c. (c == x) ≡ false) (λ c k. ground arith) s h

lower_length : to_lower (trim (bytes "Content-Length")) ≡ bytes "content-length"
unfolding to_lower trim trim_front trim_back
lower_length = refl

-- The field that announces the body.
pub length-IsField : (n : ℕ) → IsField (bytes "Content-Length", to_string n)
length-IsField n = (
  (
    refl,
    (
      refl,
      (
        refl,
        (refl, (refl, (refl, (refl, (refl, (refl, (refl, (refl, (refl, (refl, (refl, tt))))))))))),
      ),
    ),
  ),
  (
    refl,
    (
      refl,
      (
        refl,
        (refl, (refl, (refl, (refl, (refl, (refl, (refl, (refl, (refl, (refl, (refl, tt))))))))))),
      ),
    ),
  ),
  (
    refl,
    (
      refl,
      (
        refl,
        (refl, (refl, (refl, (refl, (refl, (refl, (refl, (refl, (refl, (refl, (refl, tt))))))))))),
      ),
    ),
  ),
  ap is_empty lower_length,
  digits-Avoids 13 (to_string n) refl (to_string-IsDigits n),
  digits-Avoids 10 (to_string n) refl (to_string-IsDigits n),
)

lower_key : to_lower (bytes "content-length") ≡ bytes "content-length"
unfolding to_lower
lower_key = refl

-- The last field decides what the body's length is.
pub content_length-set_fields :
    (fields : List (Bytes × Bytes)) (n : ℕ) (req : HttpRequest)
    → n < 2 ^ 31
    → req.headers ≡ set_fields (fields ++ (bytes "Content-Length", to_string n) ∷ []) []
    → content_length req ≡ pos n
unfolding content_length header
content_length-set_fields fields n req small e =
    let kept = set_fields-append fields ((bytes "Content-Length", to_string n) ∷ []) [] in
    rw
      (
        lower_key,
        e,
        kept,
        lower_length,
        lookup-insert_self (bytes "content-length") (trim (to_string n)) (set_fields fields []),
        trim-IsDigits (to_string n) (to_string-IsDigits n),
        to_string-is_empty n,
        stoi-to_string n small,
      )
      refl
