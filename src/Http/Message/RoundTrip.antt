-- ===== src/Http/Message/RoundTrip.antt =====
-- `parse` of http/http_parser.cpp on what a client sends.
use coroutine_http.Prelude.{
  ◌≡◌, refl, sym, ap, true, some, [], ◌∷◌, ◌++◌, length, length-append, Bytes, bytes, All,
  All-append, arith,
}
use coroutine_http.Net.Run.{done}
use coroutine_http.Net.Connection.{Connection}
use coroutine_http.Net.Connection.Stream.{stream, is_live}
use coroutine_http.Net.Connection.Live.{Delivered}
use coroutine_http.Http.Text.{to_string}
use coroutine_http.Http.Request.{new_request}
use coroutine_http.Http.Parser.{header_end, parse_lines, parse_head, parse}
use coroutine_http.Http.Parser.Framing.{body_length, parse_frames}
use coroutine_http.Http.Server.Pipeline.{IsRequest}
use coroutine_http.Http.Message.{
  Message, field_lines, all_fields, request_line, head, joined, bare, request_of, IsField,
  IsSendable,
}
use coroutine_http.Http.Message.Scan.{IsLine, chop_lines-joined, cut_end-append, find-joined}
use coroutine_http.Http.Message.Target.{request_line-IsLine, parse_request_line-request_line}
use coroutine_http.Http.Message.Fields.{
  parse_headers-field_lines, field_lines-IsLine, length-IsField, content_length-set_fields,
}

module _ (m : Message) (h : IsSendable m) where
  fields-IsField : All IsField (all_fields m)
  fields-IsField =
      All-append IsField m.fields ((bytes "Content-Length", to_string (length m.body)) ∷ [])
        h.fields (length-IsField (length m.body), tt)

  lines-IsLine : All IsLine (field_lines (all_fields m))
  lines-IsLine = field_lines-IsLine (all_fields m) fields-IsField

  parse_head-head : parse_head (head m) new_request ≡ some (bare m)
  unfolding parse_head parse_lines
  parse_head-head =
      rw
        (
          cut_end-append (joined (request_line m) (field_lines (all_fields m))),
          chop_lines-joined (request_line m) (field_lines (all_fields m)) (request_line-IsLine m h)
              lines-IsLine,
          parse_lines,
          parse_request_line-request_line m h new_request,
          parse_headers-field_lines (all_fields m) _ fields-IsField,
        )
        refl

  pub head-IsRequest : IsRequest (head m) m.body (bare m)
  head-IsRequest =
      let lines = joined (request_line m) (field_lines (all_fields m)) in
      record {
        at = length lines;
        found =
            find-joined (request_line m) (field_lines (all_fields m)) (request_line-IsLine m h)
              lines-IsLine;
        size = length-append lines header_end;
        head = parse_head-head;
        announced = sym (
            ap body_length (
              content_length-set_fields m.fields (length m.body) (bare m) (omega (arith, h.body))
                refl));
        small = h.body;
      }

  -- What a client sends is what the server reads: where the stream of an open connection begins
  -- with the bytes of a message (its method a word; its path not empty, without `..`, of any other
  -- bytes; its query of any bytes; its fields without line ends, their names without colons and not
  -- blank; its body within the limit), `parse` returns its request, with the method in upper case,
  -- the path and the query as they were before percent-encoding, each field under its name in lower
  -- case, the last of a name counting, and the body whole, and leaves the stream behind it.
  pub parse-request_of :
      (ys : Bytes) (conn : Connection)
      → is_live conn ≡ true
      → stream conn ≡ head m ++ (m.body ++ ys)
      → (d : Connection) × (parse conn new_request ≡ done (some (request_of m), d))
        × Delivered ys conn d
  parse-request_of ys conn live e =
      let q = head-IsRequest in
      parse_frames (head m) m.body ys q.at (bare m) conn q.found q.size q.head q.announced q.small
        live e
