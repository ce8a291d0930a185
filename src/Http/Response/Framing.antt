-- ===== src/Http/Response/Framing.antt =====
-- What `text`, `json` and `html` of http/http_response.cpp send, as a client reads it.
use mathlib.Core.Path.{ap₂}
use coroutine_http.Prelude.{
  ℕ, suc, ◌+◌, ◌≡◌, refl, sym, ap, ◌∙◌, inl, inr, true, false, some, List, [], ◌∷◌, ◌++◌,
  append_assoc, length, length-append, take-append_self, drop, drop-append_self, leb, Bytes, bytes,
  bytes_eq, bytes_beq, bytes_beq_iff, find, find-append, All, All-map, Bool-cases, arith, pos,
}
use coroutine_http.Prelude.Dict.{Dict, lookup}
use coroutine_http.Http.Text.{to_string, to_lower, stoi}
use coroutine_http.Http.Parser.{header_end}
use coroutine_http.Http.Message.{field_line, field_lines, joined, Avoids}
use coroutine_http.Http.Message.Fields.{digits-Avoids, to_string-IsDigits}
use coroutine_http.Http.Message.Scan.{
  append_cons-is_empty, IsLine, find_char-Avoids, chop_lines-joined, find-joined, Avoids-append,
}
use coroutine_http.Http.Parser.Headers.{find_char_first}
use coroutine_http.Http.Response.{HttpResponse, status_text, header_lines, body_key, serialize}
use coroutine_http.Http.Response.Reply.{
  read_field, read_fields, is_length, number_of, announced, cut_body, head_of, read_head,
  read_reply,
}

-- A header on one line, with no colon in its name.
abbrev pub IsOneLine : Bytes × Bytes → Type 0
IsOneLine (key, value) =
    Avoids b':' key × Avoids 13 key × Avoids 10 key × Avoids 13 value × Avoids 10 value

-- A header that a handler may set: on one line, with no colon in its name, under no second spelling
-- of Content-Length, and not under the key that holds the body.
abbrev pub IsHeader : Bytes × Bytes → Type 0
IsHeader (key, value) =
    Avoids b':' key
    × Avoids 13 key
    × Avoids 10 key
    × Avoids 13 value
    × Avoids 10 value
    × (bytes_beq key body_key ≡ false)
    × (is_length key ≡ true → key ≡ bytes "Content-Length")

Header-IsOneLine : (m : List (Bytes × Bytes)) → All IsHeader m → All IsOneLine m
Header-IsOneLine m h = All-map IsHeader IsOneLine (λ p k. (k.0, k.1, k.2, k.3, k.4)) m h

read_field-field_line :
    (key value : Bytes) → Avoids b':' key → read_field (field_line (key, value)) ≡ (key, value)
unfolding read_field
read_field-field_line key value h =
    rw
      (
        read_field,
        find_char_first b':' key (b' ' ∷ value) (find_char-Avoids b':' key h),
        take-append_self key (b':' ∷ b' ' ∷ value),
      )
      (ap (λ v. (key, v)) (drop_two key))
  where
    drop_two : (key : Bytes) → drop (suc (suc (length key))) (key ++ b':' ∷ b' ' ∷ value) ≡ value
    drop_two [] = refl
    drop_two (c ∷ key) = drop_two key

read_fields-field_lines :
    (m : List (Bytes × Bytes)) → All IsOneLine m → read_fields (field_lines m) ≡ m
unfolding read_fields
read_fields-field_lines [] h = refl
read_fields-field_lines ((key, value) ∷ m) h =
    ap₂ (λ p ps. p ∷ ps) (read_field-field_line key value h.0.0) (read_fields-field_lines m h.1)

headers-IsLine : (m : List (Bytes × Bytes)) → All IsOneLine m → All IsLine (field_lines m)
headers-IsLine [] h = tt
headers-IsLine ((key, value) ∷ m) h = (
  (
    append_cons-is_empty key (b' ' ∷ value) b':',
    Avoids-append 13 key (b':' ∷ b' ' ∷ value) h.0.1 (refl, (refl, h.0.3)),
    Avoids-append 10 key (b':' ∷ b' ' ∷ value) h.0.2 (refl, (refl, h.0.4)),
  ),
  headers-IsLine m h.1,
)

lower_length : is_length (bytes "Content-Length") ≡ true
unfolding to_lower
lower_length = refl

-- The client finds the Content-Length that is looked up.
announced-lookup :
    (m : Dict Bytes Bytes) (cl : Bytes)
    → All IsHeader m
    → lookup (bytes "Content-Length") m ≡ some cl
    → announced m ≡ number_of (stoi cl)
unfolding announced lookup
announced-lookup [] cl h e = ground arith
announced-lookup ((key, value) ∷ m) cl h e = elim (Bool-cases (is_length key)) [
  | inl this ↦
      let same : bytes_beq key (bytes "Content-Length") ≡ true =
        (bytes_beq_iff key (bytes "Content-Length")).1 (h.0.6 this) in
      let value_eq : value ≡ cl = ground arith in rw (announced, this, value_eq) refl
  | inr other ↦ elim (Bool-cases (bytes_beq key (bytes "Content-Length"))) [
    | inl same ↦
        let lower =
          ap is_length ((bytes_beq_iff key (bytes "Content-Length")).0 same) ∙ lower_length in
        absurd (ground arith)
    | inr differs ↦
        let later : lookup (bytes "Content-Length") m ≡ some cl = ground arith in
        rw (announced, other) (announced-lookup m cl h.1 later)
  ]
]

-- The lines of a response, each with its end.
header_lines-joined :
    (line : Bytes) (m : Dict Bytes Bytes) (body : Bytes)
    → line ++ (bytes "\r\n" ++ (header_lines m ++ (bytes "\r\n" ++ body)))
      ≡ joined line (field_lines m) ++ (header_end ++ body)
unfolding header_lines
header_lines-joined line [] body = refl
header_lines-joined line ((key, value) ∷ m) body =
    ap (λ s. line ++ 13 ∷ 10 ∷ s)
      (sym (regroup key value (header_lines m) body)
        ∙ header_lines-joined (field_line (key, value)) m body)
    ∙ sym (
        append_assoc line (13 ∷ 10 ∷ joined (field_line (key, value)) (field_lines m))
          (header_end ++ body))
  where
    regroup :
        (key value lines body : Bytes)
        → field_line (key, value) ++ (bytes "\r\n" ++ (lines ++ (bytes "\r\n" ++ body)))
          ≡ (key ++ (bytes ": " ++ (value ++ (bytes "\r\n" ++ lines)))) ++ (bytes "\r\n" ++ body)
    regroup key value lines body = simp append_assoc

-- The first line of a response.
abbrev pub line_of : ℕ → Bytes
line_of code = bytes "HTTP/1.1 " ++ (to_string code ++ (bytes " " ++ status_text code))

abbrev pub status_line : HttpResponse → Bytes
status_line res = line_of res.status_code

status_text-Avoids_cr : (code : ℕ) → Avoids 13 (status_text code)
unfolding status_text
status_text-Avoids_cr code = ground arith

status_text-Avoids_lf : (code : ℕ) → Avoids 10 (status_text code)
unfolding status_text
status_text-Avoids_lf code = ground arith

status_line-IsLine : (res : HttpResponse) → IsLine (status_line res)
status_line-IsLine res = (
  refl,
  Avoids-append 13 (bytes "HTTP/1.1 ") _ (ground arith) (
      Avoids-append 13 (to_string res.status_code) _
        (digits-Avoids 13 _ refl (to_string-IsDigits res.status_code))
        (refl, status_text-Avoids_cr res.status_code)),
  Avoids-append 10 (bytes "HTTP/1.1 ") _ (ground arith) (
      Avoids-append 10 (to_string res.status_code) _
        (digits-Avoids 10 _ refl (to_string-IsDigits res.status_code))
        (refl, status_text-Avoids_lf res.status_code)),
)

serialize-joined :
    (res : HttpResponse) (body : Bytes)
    → serialize res body
      ≡ joined (status_line res) (field_lines res.headers) ++ (header_end ++ body)
unfolding serialize
serialize-joined res body =
    let line = status_line res in
    let rest = bytes "\r\n" ++ (header_lines res.headers ++ (bytes "\r\n" ++ body)) in
    let cut : bytes "HTTP/1.1 "
          ++ (to_string res.status_code ++ (bytes " " ++ (status_text res.status_code ++ rest)))
        ≡ line ++ rest =
      simp append_assoc in
    cut ∙ header_lines-joined line res.headers body

drop_head : (head s : Bytes) → drop (length head + 4) (head ++ (header_end ++ s)) ≡ s
drop_head [] s = refl
drop_head (c ∷ head) s =
    let more : length (c ∷ head) + 4 ≡ suc (length head + 4) = omega arith in
    ap (λ n. drop n (c ∷ head ++ (header_end ++ s))) more ∙ drop_head head s

cut_body_whole :
    (line : Bytes) (fields : List (Bytes × Bytes)) (body ys : Bytes)
    → cut_body line fields (some (length body)) (body ++ ys)
      ≡ some (record { status_line = line; fields = fields; body = body }, ys)
cut_body_whole line fields body ys =
    let size = length-append body ys in
    let long : leb (length body) (length (body ++ ys)) ≡ true = ground (arith, size) in
    rw (long, take-append_self body ys, drop-append_self body ys) refl

-- A client cuts a head into its lines.
pub read_head-joined :
    (line : Bytes) (m : List (Bytes × Bytes)) (s : Bytes)
    → IsLine line
    → All IsOneLine m
    → read_head (joined line (field_lines m) ++ (header_end ++ s)) ≡ some (line, m, s)
unfolding read_head head_of
read_head-joined line m s h k =
    let head = joined line (field_lines m) in
    let lines = headers-IsLine m k in
    let found : find header_end (head ++ (header_end ++ s)) ≡ some (length head) =
      ap (find header_end) (sym (append_assoc head header_end s))
      ∙ find-append header_end (head ++ header_end) s (length head)
          (find-joined line (field_lines m) h lines) in
    rw
      (
        read_head,
        found,
        take-append_self head (header_end ++ s),
        drop_head head s,
        chop_lines-joined line (field_lines m) h lines,
        head_of,
        read_fields-field_lines m k,
      )
      refl

-- A client reads one response with the body that its Content-Length announces, and no more.
pub read_reply-serialize :
    (res : HttpResponse) (cl body ys : Bytes)
    → All IsHeader res.headers
    → lookup (bytes "Content-Length") res.headers ≡ some cl
    → stoi cl ≡ some (pos (length body))
    → read_reply (serialize res body ++ ys)
      ≡ some (record { status_line = status_line res; fields = res.headers; body = body }, ys)
unfolding read_reply
read_reply-serialize res cl body ys h e number =
    let line = status_line res in
    let head = joined line (field_lines res.headers) in
    let whole : serialize res body ++ ys ≡ head ++ (header_end ++ (body ++ ys)) =
      ap (λ s. s ++ ys) (serialize-joined res body) ∙ append_assoc head (header_end ++ body) ys in
    let read =
      ap read_head whole
      ∙ read_head-joined line res.headers (body ++ ys) (status_line-IsLine res)
          (Header-IsOneLine res.headers h) in
    rw (read_reply, read)
      (ap (λ n. cut_body line res.headers n (body ++ ys))
          (announced-lookup res.headers cl h e ∙ ap number_of number)
        ∙ cut_body_whole line res.headers body ys)
