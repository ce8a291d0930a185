-- ===== src/Http/Parser/Stages.antt =====
-- `HttpParser::parse` (http/http_parser.cpp) on any input.
use mathlib.Core.Path.{subst}
use mathlib.Core.Option.{some-injective}
use coroutine_http.Prelude.{
  ◌≤◌, ◌≡◌, refl, sym, ap, ◌∙◌, inl, inr, true, Option, none, some, Option-cases, List, [], ◌∷◌,
  length, ltb, Bytes, bytes, is_empty, find, arith,
}
use coroutine_http.Net.Run.{done, Ends, returns, Ends-bind, Ends-map, Ends-if}
use coroutine_http.Net.Connection.{Connection}
use coroutine_http.Net.Connection.Stream.{is_live, Used, Used-trans}
use coroutine_http.Net.Connection.Reading.{read_exact_correct, read_until_correct}
use coroutine_http.Http.Text.{words, to_upper}
use coroutine_http.Prelude.{ℤ, pos, negsuc}
use coroutine_http.Http.Request.{HttpRequest, new_request, content_length}
use coroutine_http.Http.Parser.{
  parse_query_string, parse_header_line, parse_headers, parse_request_line, request_words,
  check_path, set_url, parse_lines, parse_head, header_end, max_body, read_body, parse,
}

-- No way up in the directory tree.
abbrev pub IsSafePath : Bytes → Type 0
IsSafePath path = find (bytes "..") path ≡ none

check_path-IsSafePath : (req r : HttpRequest) → check_path req ≡ some r → IsSafePath r.path
unfolding check_path
check_path-IsSafePath req r h = elim (Option-cases (find (bytes "..") req.path)) [
  | inl clean ↦ ground arith
  | inr (n, found) ↦ absurd (ground arith)
]

set_url-body : (url : Bytes) (req : HttpRequest) → (set_url url req).body ≡ req.body
unfolding set_url parse_query_string
set_url-body url req = ground arith

-- What the request line and the headers leave: a safe path, and the body as it was.
pub record Headed (req r : HttpRequest) : Type 0 where
  pub safe : IsSafePath r.path
  pub body : r.body ≡ req.body

request_words-Headed :
    (ws : List Bytes) (req r : HttpRequest) → request_words ws req ≡ some r → Headed req r
unfolding request_words check_path
request_words-Headed [] req r h = ground arith
request_words-Headed (m ∷ []) req r h = ground arith
request_words-Headed (m ∷ u ∷ []) req r h = ground arith
request_words-Headed (m ∷ u ∷ v ∷ ws) req r h = record {
  safe = check_path-IsSafePath _ r h;
  body = ground (arith, set_url-body u (record req { method = to_upper m; version = v }));
}

parse_header_line-kept :
    (l : Bytes) (req : HttpRequest)
    → ((parse_header_line l req).1.path ≡ req.path) × ((parse_header_line l req).1.body ≡ req.body)
unfolding parse_header_line
parse_header_line-kept l req = ground arith

parse_headers-kept :
    (ls : List Bytes) (req : HttpRequest)
    → ((parse_headers ls req).path ≡ req.path) × ((parse_headers ls req).body ≡ req.body)
unfolding parse_headers
parse_headers-kept [] req = (refl, refl)
parse_headers-kept (l ∷ ls) req =
    ground (arith, parse_header_line-kept l req, parse_headers-kept ls (parse_header_line l req).1)

parse_lines-Headed :
    (ls : List Bytes) (req r : HttpRequest) → parse_lines ls req ≡ some r → Headed req r
unfolding parse_lines parse_request_line
parse_lines-Headed [] req r h = ground arith
parse_lines-Headed (l ∷ ls) req r h = elim (Option-cases (request_words (words l) req)) [
  | inl missing ↦ absurd (ground arith)
  | inr (first, e) ↦
      let p = request_words-Headed (words l) req first e in
      let same : parse_headers ls first ≡ r = ground arith in
      let kept = parse_headers-kept ls first in
      record {
        safe = subst IsSafePath (sym kept.0 ∙ ap (λ (q : HttpRequest). q.path) same) p.safe;
        body = ap (λ (q : HttpRequest). q.body) (sym same) ∙ kept.1 ∙ p.body;
      }
]

-- What a parsed request is known to be.
abbrev pub IsAcceptable : HttpRequest → Type 0
IsAcceptable r = IsSafePath r.path × (length r.body ≤ max_body)

abbrev pub Accepts : Connection → Option HttpRequest × Connection → Type 0
Accepts conn r = Used conn r.1 × ((q : HttpRequest) → r.0 ≡ some q → IsAcceptable q)

refuses : {conn d : Connection} → Used conn d → Accepts conn (none, d)
refuses u = (u, λ q e. absurd (ground arith))

accepts :
    {conn d : Connection} {r : HttpRequest}
    → Used conn d
    → IsAcceptable r
    → Accepts conn (some r, d)
accepts u a = (u, λ q e. subst IsAcceptable (some-injective _ _ e) a)

read_body-Accepts :
    (cl : ℤ) (r : HttpRequest) (conn d : Connection)
    → Used conn d
    → IsAcceptable r
    → Ends (is_live d ≡ true) (Accepts conn) (read_body cl r d)
unfolding read_body
read_body-Accepts (negsuc n) r conn d u a = returns (accepts u a)
read_body-Accepts (pos cl) r conn d u a =
    Ends-if (ltb 0 cl)
      (λ _.
        Ends-if (ltb max_body cl) (λ _. returns (refuses u))
          (λ fits.
            Ends-bind (read_exact_correct cl d) (λ w. w.0)
              λ b p. returns (
                accepts
                  (Used-trans u (record { used = b.0; conserved = p.conserved; kept = p.kept }))
                  (a.0, ground (arith, p.outcome)))))
      (λ _. returns (accepts u a))

pub parse_head-Headed :
    (block : Bytes) (req r : HttpRequest) → parse_head block req ≡ some r → Headed req r
unfolding parse_head
parse_head-Headed block req r h = parse_lines-Headed _ req r h

pub after_head :
    (o : Option HttpRequest) (req : HttpRequest) (conn d : Connection)
    → ((r : HttpRequest) → o ≡ some r → Headed req r)
    → length req.body ≤ max_body
    → Used conn d
    → Ends
        (is_live d ≡ true)
        (Accepts conn)
        (elim o [ none ↦ done (none, d) | some r ↦ read_body (content_length r) r d ])
after_head none req conn d k h u = returns (refuses u)
after_head (some r) req conn d k h u =
    let p = k r refl in
    read_body-Accepts (content_length r) r conn d u (p.safe, omega (arith, ap length p.body))

-- On any connection and any input, `parse` of an empty request returns, unless the connection
-- lives and its input stops short. It only takes bytes off the front of the stream. A request that
-- it accepts has no ".." in its decoded path, and a body of at most 10 MB.
pub parse_safe :
    (conn : Connection)
    → Ends
        (is_live conn ≡ true)
        (λ r.
          Used conn r.1
          × ((q : HttpRequest)
              → r.0 ≡ some q
              → (find (bytes "..") q.path ≡ none) × (length q.body ≤ max_body)))
        (parse conn new_request)
unfolding parse
parse_safe conn =
    Ends-bind (read_until_correct header_end conn) (λ w. w.0)
      λ r p.
        let u : Used conn r.1 = record { used = r.0; conserved = p.conserved; kept = p.kept } in
        Ends-if (is_empty r.0) (λ _. returns (refuses u))
          (λ _.
            Ends-map
              (after_head (parse_head r.0 new_request) new_request conn r.1
                (parse_head-Headed r.0 new_request) (omega arith) u)
              (λ w. ground (arith, p.outcome, w)) (λ s q. q))
