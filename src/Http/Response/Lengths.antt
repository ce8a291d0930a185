-- ===== src/Http/Response/Lengths.antt =====
-- The Content-Length of a response (http/http_response.cpp), printed and read back.
use coroutine_http.Prelude.{
  ℕ, zero, suc, ◌+◌, ◌/◌, ◌%◌, ◌^◌, ◌<◌, ◌≡◌, refl, ap, ◌∙◌, inl, inr, true, some, [], ◌∷◌, length,
  ltb, Bool-cases, Bytes, arith,
}
use coroutine_http.Prelude.{bytes, bytes_eq, bytes_beq_iff, bytes_less}
use coroutine_http.Prelude.Dict.{lookup, erase, lookup-put, lookup-erase_ne}
use coroutine_http.Http.Response.{
  HttpResponse, header, body_key, set_body, take_body, default_header, complete,
}
use coroutine_http.Http.Text.{decimal, starts_digit, stoi, digits_loop, to_string}
use coroutine_http.Prelude.{pos}

decimal-digits_loop :
    (fuel n : ℕ) (acc : Bytes) → n < fuel → decimal 0 (digits_loop fuel n acc) ≡ decimal n acc
unfolding decimal digits_loop
decimal-digits_loop zero n acc h = absurd (omega arith)
decimal-digits_loop (suc fuel) n acc h = elim (Bool-cases (ltb n 10)) [
  | inl one ↦ ground arith
  | inr more ↦
      rw more
        (decimal-digits_loop fuel (n / 10) ((b'0' + n % 10) ∷ acc) (ground arith) ∙ ground arith)
]

starts_digit-digits_loop :
    (fuel n : ℕ) (acc : Bytes) → n < fuel → starts_digit (digits_loop fuel n acc) ≡ true
unfolding digits_loop
starts_digit-digits_loop zero n acc h = absurd (omega arith)
starts_digit-digits_loop (suc fuel) n acc h = elim (Bool-cases (ltb n 10)) [
  | inl one ↦ ground arith
  | inr more ↦
      rw more (starts_digit-digits_loop fuel (n / 10) ((b'0' + n % 10) ∷ acc) (ground arith))
]

decimal_nil : (n : ℕ) → decimal n [] ≡ n
unfolding decimal
decimal_nil n = refl

stoi_of_digits :
    (s : Bytes) (n : ℕ)
    → starts_digit s ≡ true
    → decimal 0 s ≡ n
    → n < 2 ^ 31
    → stoi s ≡ some (pos n)
unfolding stoi
stoi_of_digits [] n h k small = ground arith
stoi_of_digits (c ∷ s) n h k small = ground arith

-- Every number that an `int` holds is read back as it was printed.
pub stoi-to_string : (n : ℕ) → n < 2 ^ 31 → stoi (to_string n) ≡ some (pos n)
unfolding to_string
stoi-to_string n small =
    stoi_of_digits (digits_loop (suc n) n []) n
      (starts_digit-digits_loop (suc n) n [] (omega arith))
      (decimal-digits_loop (suc n) n [] (omega arith) ∙ decimal_nil n) small

lookup-default_header :
    (key value j : Bytes) (res : HttpResponse) (v : Bytes)
    → lookup j res.headers ≡ some v
    → lookup j (default_header key value res).headers ≡ some v
unfolding default_header header
lookup-default_header key value j res v h =
    ground (arith, lookup-put bytes_less key j value res.headers, bytes_beq_iff key j)

module _ (content_type body : Bytes) (res : HttpResponse) where
  abbrev framed : HttpResponse
  framed = set_body content_type body res

  lookup-framed_length :
      lookup (bytes "Content-Length") framed.headers ≡ some (to_string (length body))
  unfolding set_body
  lookup-framed_length = simp lookup-put

  lookup-framed_body : lookup body_key framed.headers ≡ some body
  unfolding set_body
  lookup-framed_body = simp lookup-put

  take_body-framed :
      take_body framed ≡ (body, record framed { headers = erase body_key framed.headers })
  unfolding take_body
  take_body-framed = ground (arith, lookup-framed_body)

-- The response that `text`, `json` and `html` send carries the body that they were given, and a
-- Content-Length that reads back as the number of its bytes, whatever was set before.
pub complete-take_body-set_body :
    (content_type body : Bytes) (res : HttpResponse)
    → length body < 2 ^ 31
    → ((take_body (set_body content_type body res)).0 ≡ body)
      × ((cl : Bytes) × (lookup
              (bytes "Content-Length")
              (complete (take_body (set_body content_type body res)).1).headers
            ≡ some cl)
          × (stoi cl ≡ some (pos (length body))))
unfolding complete
complete-take_body-set_body content_type body res small = (
  ap (λ p. p.0) (take_body-framed content_type body res),
  (
    to_string (length body),
    lookup-default_header _ _ (bytes "Content-Length") _ _ (
        lookup-default_header _ _ (bytes "Content-Length") _ _ (
          ap (λ p. lookup (bytes "Content-Length") (p.1).headers)
            (take_body-framed content_type body res)
          ∙ lookup-erase_ne body_key (bytes "Content-Length") (framed content_type body res).headers
              refl
          ∙ lookup-framed_length content_type body res)),
    stoi-to_string (length body) small,
  ),
)
