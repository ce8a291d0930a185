-- ===== src/Http/Parser/Paths.antt =====
-- `url_decode` of http/http_parser.cpp against percent-encoding.
use coroutine_http.Prelude.{
  ℕ, ◌+◌, ◌-◌, ◌*◌, ◌/◌, ◌%◌, ◌^◌, ◌<◌, ◌≡◌, ◌≢◌, refl, ap, ◌∙◌, Bool, true, false, ◌||◌, [], ◌∷◌,
  ltb, ◌==◌, if◌then◌else◌, Bool-cases, inl, inr, Bytes, All, arith,
}
use mathlib.Core.Path.{ap₂}
use coroutine_http.Http.Text.{is_upper, is_lower, is_digit, is_xdigit, hex_value, url_decode}

-- RFC 3986: the bytes that stand for themselves.
abbrev pub is_unreserved : ℕ → Bool
is_unreserved c =
    (is_upper c || (is_lower c || is_digit c))
    || ((c == b'-' || c == b'.') || (c == b'_' || c == b'~'))

abbrev pub hex_digit : ℕ → ℕ
hex_digit d = if ltb d 10 then b'0' + d else b'A' + (d - 10)

-- The percent-encoding of a text, in which the `plain` bytes stand for themselves.
unfoldable pub percent_encode : (ℕ → Bool) → Bytes → Bytes
percent_encode plain [] = []
percent_encode plain (c ∷ s) =
    let rest = percent_encode plain s in
    if plain c then c ∷ rest else b'%' ∷ hex_digit (c / 16) ∷ hex_digit (c % 16) ∷ rest

-- It also keeps a blank from being written as `+`.
unfoldable pub url_encode : Bytes → Bytes
url_encode s = percent_encode is_unreserved s

hex_digit_lem : (d : ℕ) → d < 16 → (is_xdigit (hex_digit d) ≡ true) × (hex_value (hex_digit d) ≡ d)
unfolding hex_value
hex_digit_lem d h = ground arith

url_decode_nil : url_decode [] ≡ []
unfolding url_decode
url_decode_nil = refl

url_decode_plain : (c : ℕ) (s : Bytes) → c ≢ b'%' → c ≢ b'+' → url_decode (c ∷ s) ≡ c ∷ url_decode s
unfolding url_decode
url_decode_plain c [] h k = ground arith
url_decode_plain c (a ∷ []) h k = ground arith
url_decode_plain c (a ∷ b ∷ s) h k = ground arith

url_decode_escape :
    (hi lo : ℕ) (s : Bytes)
    → hi < 16
    → lo < 16
    → url_decode (b'%' ∷ hex_digit hi ∷ hex_digit lo ∷ s) ≡ (hi * 16 + lo) ∷ url_decode s
unfolding url_decode
url_decode_escape hi lo s h k =
    let p = hex_digit_lem hi h in let q = hex_digit_lem lo k in rw (p.0, q.0, p.1, q.1)

-- Where `%` and `+` do not stand for themselves, decoding gives the bytes back.
pub url_decode-percent_encode :
    (plain : ℕ → Bool) (s : Bytes)
    → plain b'%' ≡ false
    → plain b'+' ≡ false
    → All (λ c. c < 2 ^ 8) s
    → url_decode (percent_encode plain s) ≡ s
unfolding percent_encode
url_decode-percent_encode plain [] p q h = url_decode_nil
url_decode-percent_encode plain (c ∷ s) p q h = elim (Bool-cases (plain c)) [
  | inl kept ↦
      rw (kept, percent_encode)
        (url_decode_plain c (percent_encode plain s) (λ e. ground (arith, ap plain e))
            (λ e. ground (arith, ap plain e))
          ∙ ap (◌∷◌ c) (url_decode-percent_encode plain s p q h.1))
  | inr other ↦
      rw (other, percent_encode)
        (url_decode_escape (c / 16) (c % 16) (percent_encode plain s) (omega (arith, h.0))
            (omega arith)
          ∙ ap₂ (λ x y. x ∷ y) (omega arith) (url_decode-percent_encode plain s p q h.1))
]

-- Decoding the percent-encoding of any bytes gives them back.
pub url_decode-url_encode : (s : Bytes) → All (λ c. c < 2 ^ 8) s → url_decode (url_encode s) ≡ s
unfolding url_encode
url_decode-url_encode s h = url_decode-percent_encode is_unreserved s refl refl h

-- What the encoding is made of: plain bytes, `%`, and the sixteen digits.
pub percent_encode-All :
    (P : ℕ → Type 0) (plain : ℕ → Bool) (s : Bytes)
    → ((c : ℕ) → plain c ≡ true → P c)
    → P b'%'
    → ((d : ℕ) → d < 16 → P (hex_digit d))
    → All (λ c. c < 2 ^ 8) s
    → All P (percent_encode plain s)
unfolding percent_encode
percent_encode-All P plain [] own mark digit h = tt
percent_encode-All P plain (c ∷ s) own mark digit h = elim (Bool-cases (plain c)) [
  | inl kept ↦
      rw (kept, percent_encode) (own c kept, percent_encode-All P plain s own mark digit h.1)
  | inr other ↦
      rw (other, percent_encode)
        (
          mark,
          (
            digit (c / 16) (omega (arith, h.0)),
            (digit (c % 16) (omega arith), percent_encode-All P plain s own mark digit h.1),
          ),
        )
]
