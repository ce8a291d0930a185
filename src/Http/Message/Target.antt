-- ===== src/Http/Message/Target.antt =====
-- The first line of a request: what `parse_request_line` of http/http_parser.cpp makes of an
-- encoded path and query.
use coroutine_http.Prelude.{
  ℕ, ◌<◌, ◌≡◌, refl, ap, ◌∙◌, inl, inr, Bool, true, false, some, List, [], ◌∷◌, ◌++◌, append-nil,
  take-append_self, ◌==◌, Bytes, bytes, bytes_eq, is_empty, All, All-append, All-map, Bool-cases,
  arith,
}
use coroutine_http.Prelude.Dict.{Dict, insert}
use coroutine_http.Http.Text.{is_space, getlines, to_upper, url_decode}
use coroutine_http.Http.Request.{HttpRequest}
use coroutine_http.Http.Parser.{
  parse_pair, parse_pairs, parse_query_string, set_url, check_path, request_words,
  parse_request_line,
}
use coroutine_http.Http.Parser.Headers.{find_char_first, drop-suc}
use coroutine_http.Http.Parser.Paths.{
  is_unreserved, percent_encode, percent_encode-All, hex_digit, url_decode-percent_encode,
  url_encode, url_decode-url_encode,
}
use coroutine_http.Http.Message.{
  Message, is_path_byte, query_pair, query_text, query_part, target, request_line, set_pairs,
  IsText, Avoids, IsWord, IsSendable,
}
use coroutine_http.Http.Message.Scan.{
  append_cons-is_empty, find_char-Avoids, getlines-append, getlines_last, words-three,
  Avoids-append, IsLine,
}

-- Not a blank, and not a byte that cuts the target.
record IsInner (c : ℕ) : Type 0 where
  blank : is_space c ≡ false
  mark : (c == b'?') ≡ false
  amp : (c == b'&') ≡ false
  eq : (c == b'=') ≡ false

hex_digit-IsInner : (d : ℕ) → d < 16 → IsInner (hex_digit d)
hex_digit-IsInner d h = record {
  blank = ground arith;
  mark = ground arith;
  amp = ground arith;
  eq = ground arith;
}

is_path_byte-IsInner : (c : ℕ) → is_path_byte c ≡ true → IsInner c
is_path_byte-IsInner c h = record {
  blank = ground arith;
  mark = ground arith;
  amp = ground arith;
  eq = ground arith;
}

percent_encode-IsInner :
    (plain : ℕ → Bool) (s : Bytes)
    → ((c : ℕ) → plain c ≡ true → is_path_byte c ≡ true)
    → IsText s
    → All IsInner (percent_encode plain s)
percent_encode-IsInner plain s own h =
    percent_encode-All IsInner plain s (λ c k. is_path_byte-IsInner c (own c k))
      (record { blank = refl; mark = refl; amp = refl; eq = refl }) hex_digit-IsInner h

path-IsInner : (s : Bytes) → IsText s → All IsInner (percent_encode is_path_byte s)
path-IsInner s h = percent_encode-IsInner is_path_byte s (λ c k. k) h

text-IsInner : (s : Bytes) → IsText s → All IsInner (url_encode s)
unfolding url_encode
text-IsInner s h = percent_encode-IsInner is_unreserved s (λ c k. rw k refl) h

Inner-Avoids_mark : (s : Bytes) → All IsInner s → Avoids b'?' s
Inner-Avoids_mark s h = All-map IsInner (λ c. (c == b'?') ≡ false) (λ c k. k.mark) s h

Inner-Avoids_amp : (s : Bytes) → All IsInner s → Avoids b'&' s
Inner-Avoids_amp s h = All-map IsInner (λ c. (c == b'&') ≡ false) (λ c k. k.amp) s h

Inner-Avoids_eq : (s : Bytes) → All IsInner s → Avoids b'=' s
Inner-Avoids_eq s h = All-map IsInner (λ c. (c == b'=') ≡ false) (λ c k. k.eq) s h

abbrev IsTexts : Bytes × Bytes → Type 0
IsTexts p = IsText p.0 × IsText p.1

query_pair-Avoids : (p : Bytes × Bytes) → IsTexts p → Avoids b'&' (query_pair p)
query_pair-Avoids (key, val) h =
    Avoids-append b'&' (url_encode key) (b'=' ∷ url_encode val)
      (Inner-Avoids_amp _ (text-IsInner key h.0)) (refl, Inner-Avoids_amp _ (text-IsInner val h.1))

parse_pair-query_pair :
    (p : Bytes × Bytes) (query : Dict Bytes Bytes)
    → IsTexts p
    → parse_pair (query_pair p) query ≡ insert p.0 p.1 query
unfolding parse_pair
parse_pair-query_pair (key, val) query h =
    let cut =
      find_char_first b'=' (url_encode key) (url_encode val)
        (find_char-Avoids b'=' _ (Inner-Avoids_eq _ (text-IsInner key h.0))) in
    rw
      (
        append_cons-is_empty (url_encode key) (url_encode val) b'=',
        cut,
        take-append_self (url_encode key) (b'=' ∷ url_encode val),
        drop-suc (url_encode key) b'=' (url_encode val),
        url_decode-url_encode key h.0,
        url_decode-url_encode val h.1,
      )
      refl

parse_pairs-query_text :
    (p : Bytes × Bytes) (ps : List (Bytes × Bytes)) (query : Dict Bytes Bytes)
    → All IsTexts (p ∷ ps)
    → parse_pairs (getlines b'&' (query_text p ps)) query ≡ set_pairs (p ∷ ps) query
unfolding parse_pairs
parse_pairs-query_text p [] query h =
    rw
      (getlines_last b'&' (query_pair p) (query_pair-Avoids p h.0)
        (append_cons-is_empty (url_encode p.0) (url_encode p.1) b'='))
      (parse_pair-query_pair p query h.0)
parse_pairs-query_text p (q ∷ ps) query h =
    rw (getlines-append b'&' (query_pair p) (query_text q ps) (query_pair-Avoids p h.0)) (
      ap (parse_pairs (getlines b'&' (query_text q ps))) (parse_pair-query_pair p query h.0)
      ∙ parse_pairs-query_text q ps (insert p.0 p.1 query) h.1)

query_text-is_empty :
    (p : Bytes × Bytes) (ps : List (Bytes × Bytes)) → is_empty (query_text p ps) ≡ false
query_text-is_empty p [] = append_cons-is_empty (url_encode p.0) (url_encode p.1) b'='
query_text-is_empty p (q ∷ ps) = append_cons-is_empty (query_pair p) (query_text q ps) b'&'

module _ (path : Bytes) (is_text : IsText path) where
  abbrev encoded : Bytes
  encoded = percent_encode is_path_byte path

  encoded-Avoids : Avoids b'?' encoded
  encoded-Avoids = Inner-Avoids_mark encoded (path-IsInner path is_text)

  url_decode-encoded : url_decode encoded ≡ path
  url_decode-encoded = url_decode-percent_encode is_path_byte path refl refl is_text

  set_url-encoded :
      (query : List (Bytes × Bytes)) (req : HttpRequest)
      → All IsTexts query
      → set_url (encoded ++ query_part query) req
        ≡ record req { path = path; query = set_pairs query req.query }
  unfolding set_url parse_query_string
  set_url-encoded [] req h =
      ap (λ u. set_url u req) (append-nil encoded)
      ∙ rw (set_url, find_char-Avoids b'?' encoded encoded-Avoids, url_decode-encoded) refl
  set_url-encoded (p ∷ ps) req h =
      rw
        (
          set_url,
          find_char_first b'?' encoded (query_text p ps)
              (find_char-Avoids b'?' encoded encoded-Avoids),
          take-append_self encoded (query_part (p ∷ ps)),
          drop-suc encoded b'?' (query_text p ps),
          url_decode-encoded,
          query_text-is_empty p ps,
          parse_pairs-query_text p ps req.query h,
        )
        refl

Inner-IsNonBlank : (s : Bytes) → All IsInner s → All (λ c. is_space c ≡ false) s
Inner-IsNonBlank s h = All-map IsInner (λ c. is_space c ≡ false) (λ c k. k.blank) s h

query_pair-IsNonBlank :
    (p : Bytes × Bytes) → IsTexts p → All (λ c. is_space c ≡ false) (query_pair p)
query_pair-IsNonBlank (key, val) h =
    All-append (λ c. is_space c ≡ false) (url_encode key) (b'=' ∷ url_encode val)
      (Inner-IsNonBlank _ (text-IsInner key h.0)) (refl, Inner-IsNonBlank _ (text-IsInner val h.1))

query_text-IsNonBlank :
    (p : Bytes × Bytes) (ps : List (Bytes × Bytes))
    → All IsTexts (p ∷ ps)
    → All (λ c. is_space c ≡ false) (query_text p ps)
query_text-IsNonBlank p [] h = query_pair-IsNonBlank p h.0
query_text-IsNonBlank p (q ∷ ps) h =
    All-append (λ c. is_space c ≡ false) (query_pair p) (b'&' ∷ query_text q ps)
      (query_pair-IsNonBlank p h.0) (refl, query_text-IsNonBlank q ps h.1)

query_part-IsNonBlank :
    (query : List (Bytes × Bytes))
    → All IsTexts query
    → All (λ c. is_space c ≡ false) (query_part query)
query_part-IsNonBlank [] h = tt
query_part-IsNonBlank (p ∷ ps) h = (refl, query_text-IsNonBlank p ps h)

percent_encode-is_empty :
    (plain : ℕ → Bool) (s t : Bytes)
    → is_empty s ≡ false
    → is_empty (percent_encode plain s ++ t) ≡ false
unfolding percent_encode
percent_encode-is_empty plain [] t h = ground arith
percent_encode-is_empty plain (c ∷ s) t h = elim (Bool-cases (plain c)) [
  | inl kept ↦ rw (kept, percent_encode) refl
  | inr other ↦ rw (other, percent_encode) refl
]

version-IsWord : IsWord (bytes "HTTP/1.1")
version-IsWord = (refl, (refl, (refl, (refl, (refl, (refl, (refl, (refl, (refl, tt)))))))))

module _ (m : Message) (h : IsSendable m) where
  pub target-IsWord : IsWord (target m)
  target-IsWord = (
    percent_encode-is_empty is_path_byte m.path (query_part m.query) h.some_path,
    All-append (λ c. is_space c ≡ false) (percent_encode is_path_byte m.path) (query_part m.query)
        (Inner-IsNonBlank _ (path-IsInner m.path h.path)) (query_part-IsNonBlank m.query h.query),
  )

  -- The request line gives the method in upper case, the path, the version and the query.
  pub parse_request_line-request_line :
      (req : HttpRequest)
      → parse_request_line (request_line m) req
        ≡ some (record req {
          method = to_upper m.method;
          path = m.path;
          version = bytes "HTTP/1.1";
          query = set_pairs m.query req.query;
        })
  unfolding parse_request_line request_words check_path
  parse_request_line-request_line req =
      rw
        (
          words-three m.method (target m) (bytes "HTTP/1.1") h.method target-IsWord version-IsWord,
          request_words,
          set_url-encoded m.path h.path m.query
              (record req { method = to_upper m.method; version = bytes "HTTP/1.1" }) h.query,
          h.safe,
        )
        refl

  -- A word has no line end, which is white space.
  word-Avoids : (x : ℕ) (s : Bytes) → is_space x ≡ true → IsWord s → Avoids x s
  word-Avoids x s blank k =
      All-map (λ c. is_space c ≡ false) (λ c. (c == x) ≡ false) (λ c k. ground arith) s k.1

  request_line-Avoids :
      (x : ℕ) → is_space x ≡ true → (x == b' ') ≡ false → Avoids x (request_line m)
  request_line-Avoids x blank other =
      Avoids-append x m.method (b' ' ∷ (target m ++ b' ' ∷ bytes "HTTP/1.1"))
        (word-Avoids x m.method blank h.method)
        (
          ground arith,
          Avoids-append x (target m) (b' ' ∷ bytes "HTTP/1.1") (word-Avoids x _ blank target-IsWord)
              (ground arith, word-Avoids x (bytes "HTTP/1.1") blank version-IsWord),
        )

  pub request_line-IsLine : IsLine (request_line m)
  request_line-IsLine = (
    append_cons-is_empty m.method _ b' ',
    request_line-Avoids 13 refl refl,
    request_line-Avoids 10 refl refl,
  )
