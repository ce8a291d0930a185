-- ===== src/Http/Response/Client.antt =====
-- What a handler of http/http_response.cpp sends (`text`, `json` and `html`, which call `set_body`
-- and `flush`), at the client.
use coroutine_http.Prelude.{
  ◌^◌, ◌<◌, ◌≡◌, refl, ap, ◌∙◌, inl, inr, false, Option, none, some, Option-cases, ◌++◌, length,
  if◌then◌else◌, Bytes, bytes, bytes_eq, bytes_beq, bytes_beq_iff, bytes_less, All, All-map, arith,
}
use coroutine_http.Prelude.Dict.{Dict, lookup, put, lookup-put, erase-put, All-put}
use coroutine_http.Net.Run.{Ends, Ends-bind, returns}
use coroutine_http.Net.Connection.{Connection, Written}
use coroutine_http.Net.Connection.Writing.{Writes, room, write_correct}
use coroutine_http.Http.Text.{to_string, to_lower}
use coroutine_http.Http.Message.{Avoids}
use coroutine_http.Http.Message.Fields.{digits-Avoids, to_string-IsDigits}
use coroutine_http.Http.Response.{
  HttpResponse, header, body_key, set_body, take_body, default_header, serialize, complete, flush,
}
use coroutine_http.Http.Response.Lengths.{stoi-to_string}
use coroutine_http.Http.Response.Reply.{Reply, read_reply}
use coroutine_http.Http.Response.Framing.{IsHeader, line_of, status_line, read_reply-serialize}

-- A header's value, or the default that `flush` fills in.
abbrev pub with_default : Bytes → Bytes → Bytes → Option Bytes → Option Bytes
with_default key value j none = if bytes_beq key j then some value else none
with_default key value j (some v) = some v

lookup-default_header :
    (key value j : Bytes) (res : HttpResponse)
    → lookup j (default_header key value res).headers
      ≡ with_default key value j (lookup j res.headers)
unfolding default_header header
lookup-default_header key value j res = elim (Option-cases (lookup key res.headers)) [
  | inl missing ↦ elim (Option-cases (lookup j res.headers)) [
    | inl absent ↦ ground (arith, lookup-put bytes_less key j value res.headers)
    | inr (v, found) ↦
        ground (arith, lookup-put bytes_less key j value res.headers, bytes_beq_iff key j)
  ]
  | inr (w, present) ↦ elim (Option-cases (lookup j res.headers)) [
    | inl absent ↦ ground (arith, bytes_beq_iff key j)
    | inr (v, found) ↦ ground arith
  ]
]

default_header-All :
    (key value : Bytes) (res : HttpResponse)
    → IsHeader (key, value)
    → All IsHeader res.headers
    → All IsHeader (default_header key value res).headers
unfolding default_header header
default_header-All key value res p h = elim (Option-cases (lookup key res.headers)) [
  | inl missing ↦
      rw (missing, default_header) (All-put bytes_less IsHeader key value res.headers p h)
  | inr (w, present) ↦ rw (present, default_header) h
]

default_header-status :
    (key value : Bytes) (res : HttpResponse)
    → (default_header key value res).status_code ≡ res.status_code
unfolding default_header header
default_header-status key value res = elim (Option-cases (lookup key res.headers)) [
  | inl missing ↦ rw (missing, default_header) refl
  | inr (w, present) ↦ rw (present, default_header) refl
]

complete-status : (res : HttpResponse) → (complete res).status_code ≡ res.status_code
unfolding complete
complete-status res =
    default_header-status (bytes "Connection") (bytes "keep-alive") _
    ∙ default_header-status (bytes "Server") (bytes "coroutine-http/1.0") res

module _ (content_type body : Bytes) (res : HttpResponse) where
  -- The headers behind `set_body`, without the body.
  abbrev pub described : Dict Bytes Bytes
  described =
      put bytes_less (bytes "Content-Length") (to_string (length body))
        (put bytes_less (bytes "Content-Type") content_type res.headers)

  abbrev pub sent_headers : Dict Bytes Bytes
  unfolding complete
  sent_headers = (complete (record res { headers = described })).headers

  -- The bytes that `flush` gives to `write` behind `set_body`.
  abbrev pub response_bytes : Bytes
  unfolding set_body take_body complete serialize
  response_bytes =
      let taken = take_body (set_body content_type body res) in serialize (complete taken.1) taken.0

  -- What the client is to find under a name.
  abbrev pub value_of : Bytes → Option Bytes
  value_of key = with_default (bytes "Connection") (bytes "keep-alive") key (
      with_default (bytes "Server") (bytes "coroutine-http/1.0") key (
        if bytes_beq (bytes "Content-Length") key
        then some (to_string (length body))
        else (if bytes_beq (bytes "Content-Type") key
            then some content_type
            else lookup key res.headers)))

  lookup-sent_headers : (key : Bytes) → lookup key sent_headers ≡ value_of key
  unfolding complete sent_headers
  lookup-sent_headers key =
      lookup-default_header (bytes "Connection") (bytes "keep-alive") key _
      ∙ ap (with_default (bytes "Connection") (bytes "keep-alive") key) (
          lookup-default_header (bytes "Server") (bytes "coroutine-http/1.0") key _
          ∙ ap (with_default (bytes "Server") (bytes "coroutine-http/1.0") key) (
              lookup-put bytes_less (bytes "Content-Length") key _ _
              ∙ ap
                  (λ o.
                    if bytes_beq (bytes "Content-Length") key
                    then some (to_string (length body))
                    else o)
                  (lookup-put bytes_less (bytes "Content-Type") key _ res.headers)))

  module _ (plain : All IsHeader res.headers)
      (one_line : Avoids 13 content_type × Avoids 10 content_type) where
    described-All : All IsHeader described
    unfolding to_lower
    described-All =
        All-put bytes_less IsHeader (bytes "Content-Length") (to_string (length body)) _
          (
            ground arith,
            ground arith,
            ground arith,
            digits-Avoids 13 _ refl (to_string-IsDigits (length body)),
            digits-Avoids 10 _ refl (to_string-IsDigits (length body)),
            refl,
            λ e. refl,
          )
          (All-put bytes_less IsHeader (bytes "Content-Type") content_type res.headers
            (
              ground arith,
              ground arith,
              ground arith,
              one_line.0,
              one_line.1,
              refl,
              λ e. ground arith,
            )
            plain)

    sent_headers-All : All IsHeader sent_headers
    unfolding complete sent_headers to_lower
    sent_headers-All =
        default_header-All (bytes "Connection") (bytes "keep-alive") _
          (
            ground arith,
            ground arith,
            ground arith,
            ground arith,
            ground arith,
            refl,
            λ e. ground arith,
          )
          (default_header-All (bytes "Server") (bytes "coroutine-http/1.0") _
            (
              ground arith,
              ground arith,
              ground arith,
              ground arith,
              ground arith,
              refl,
              λ e. ground arith,
            )
            described-All)

    take_body-set_body :
        take_body (set_body content_type body res) ≡ (body, record res { headers = described })
    unfolding take_body set_body header
    take_body-set_body =
        let fresh : All (λ p. bytes_beq p.0 body_key ≡ false) described =
          All-map IsHeader (λ p. bytes_beq p.0 body_key ≡ false) (λ p k. k.5) described
            described-All in
        let found = lookup-put bytes_less body_key body_key body described in
        rw
          (
            take_body,
            set_body,
            lookup-put bytes_less body_key body_key body described,
            erase-put bytes_less body_key body described fresh,
          )
          refl

-- What `flush` sends of a response whose body was set, of fewer than 2^31 bytes, with a
-- Content-Type on one line and headers on one line each, no name of which holds a colon or is the
-- body's key or another spelling of Content-Length: a client gets from it, whatever is sent behind
-- it, the status line, the body, and under each name the value that was set, the Content-Length and
-- Content-Type of the body, or the default, and goes on at the first byte behind the body. On the
-- wire `flush` puts just these bytes, or a prefix with the connection then closed; it waits for
-- ever only on an open connection whose socket never takes them all.
pub flush-read_reply :
    (content_type body ys key : Bytes) (res : HttpResponse) (conn : Connection)
    → All IsHeader res.headers
    → Avoids 13 content_type × Avoids 10 content_type
    → length body < 2 ^ 31
    → (rep : Reply) × (read_reply (response_bytes content_type body res ++ ys) ≡ some (rep, ys))
      × (rep.status_line ≡ status_line res)
      × (rep.body ≡ body)
      × (lookup key rep.fields ≡ value_of content_type body res key)
      × Ends
          ((conn.closed ≡ false)
            × (room conn.outgoing < length (response_bytes content_type body res)))
          (λ r. (w : Written) × Writes (response_bytes content_type body res) conn w r.1)
          (flush (set_body content_type body res) conn)
unfolding flush complete response_bytes sent_headers
flush-read_reply content_type body ys key res conn plain one_line small =
    let taken = take_body-set_body content_type body res plain one_line in
    let sent = complete (record res { headers = described content_type body res }) in
    (
      record {
        status_line = status_line res;
        fields = sent_headers content_type body res;
        body = body;
      },
      ap (λ p. read_reply (serialize (complete p.1) p.0 ++ ys)) taken
          ∙ read_reply-serialize sent (to_string (length body)) body ys
              (sent_headers-All content_type body res plain one_line)
              (lookup-sent_headers content_type body res (bytes "Content-Length") ∙ refl)
              (stoi-to_string (length body) small)
          ∙ ap
              (λ code. some (
                record {
                  status_line = line_of code;
                  fields = sent_headers content_type body res;
                  body = body;
                },
                ys,
              ))
              (complete-status (record res { headers = described content_type body res })),
      refl,
      refl,
      lookup-sent_headers content_type body res key,
      Ends-bind (write_correct (response_bytes content_type body res) conn) (λ w. w)
          (λ r w. returns (r.0, w)),
    )
