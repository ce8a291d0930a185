-- ===== src/Http/Message.antt =====
-- What a client sends: a request as the bytes of HTTP/1.1, against which http/http_parser.cpp is
-- checked, and the request that the server is to make of it.
pub mod Scan
pub mod Target
pub mod Fields
pub mod RoundTrip
pub mod Conversation
use coroutine_http.Prelude.{
  ℕ, ◌<◌, ◌≤◌, ◌≡◌, ◌^◌, Bool, true, false, ◌||◌, none, List, [], ◌∷◌, ◌++◌, length, ◌==◌,
  if◌then◌else◌, Bytes, bytes, bytes_eq, is_empty, find, All,
}
use coroutine_http.Prelude.Dict.{Dict, insert}
use coroutine_http.Http.Text.{is_space, to_lower, to_upper, trim, to_string}
use coroutine_http.Http.Request.{HttpRequest}
use coroutine_http.Http.Parser.{header_end, max_body}
use coroutine_http.Http.Parser.Paths.{is_unreserved, percent_encode, url_encode}

pub record Message : Type 0 where
  pub method : Bytes
  pub path : Bytes
  pub query : List (Bytes × Bytes)
  pub fields : List (Bytes × Bytes)
  pub body : Bytes

-- A path keeps its slashes.
abbrev pub is_path_byte : ℕ → Bool
is_path_byte c = is_unreserved c || c == b'/'

abbrev pub query_pair : Bytes × Bytes → Bytes
query_pair (key, val) = url_encode key ++ b'=' ∷ url_encode val

-- The pairs with `&` between them.
abbrev pub query_text : Bytes × Bytes → List (Bytes × Bytes) → Bytes
query_text pair [] = query_pair pair
query_text pair (next ∷ pairs) = query_pair pair ++ b'&' ∷ query_text next pairs

abbrev pub query_part : List (Bytes × Bytes) → Bytes
query_part [] = []
query_part (pair ∷ pairs) = b'?' ∷ query_text pair pairs

abbrev pub target : Message → Bytes
target m = percent_encode is_path_byte m.path ++ query_part m.query

abbrev pub request_line : Message → Bytes
request_line m = m.method ++ b' ' ∷ (target m ++ b' ' ∷ bytes "HTTP/1.1")

abbrev pub field_line : Bytes × Bytes → Bytes
field_line (name, value) = name ++ b':' ∷ b' ' ∷ value

abbrev pub field_lines : List (Bytes × Bytes) → List Bytes
field_lines [] = []
field_lines (field ∷ fields) = field_line field ∷ field_lines fields

-- Content-Length comes last.
abbrev pub all_fields : Message → List (Bytes × Bytes)
all_fields m = m.fields ++ (bytes "Content-Length", to_string (length m.body)) ∷ []

-- Lines with CR LF between them.
abbrev pub joined : Bytes → List Bytes → Bytes
joined line [] = line
joined line (next ∷ lines) = line ++ 13 ∷ 10 ∷ joined next lines

-- The head, up to the empty line; the body follows.
abbrev pub head : Message → Bytes
head m = joined (request_line m) (field_lines (all_fields m)) ++ header_end

abbrev pub set_pairs : List (Bytes × Bytes) → Dict Bytes Bytes → Dict Bytes Bytes
set_pairs [] query = query
set_pairs ((key, val) ∷ pairs) query = set_pairs pairs (insert key val query)

-- Names in lower case, with no blanks round a name or a value; the last field of a name counts.
abbrev pub set_fields : List (Bytes × Bytes) → Dict Bytes Bytes → Dict Bytes Bytes
set_fields [] headers = headers
set_fields ((name, value) ∷ fields) headers =
    set_fields fields (insert (to_lower (trim name)) (trim value) headers)

-- The request without its body.
abbrev pub bare : Message → HttpRequest
bare m = record {
  method = to_upper m.method;
  path = m.path;
  version = bytes "HTTP/1.1";
  body = [];
  headers = set_fields (all_fields m) [];
  query = set_pairs m.query [];
  params = [];
}

abbrev pub request_of : Message → HttpRequest
request_of m = record (bare m) { body = m.body }

abbrev pub IsText : Bytes → Type 0
IsText s = All (λ c. c < 2 ^ 8) s

abbrev pub Avoids : ℕ → Bytes → Type 0
Avoids x s = All (λ c. (c == x) ≡ false) s

-- A word that `>>` reads whole.
abbrev pub IsWord : Bytes → Type 0
IsWord s = (is_empty s ≡ false) × All (λ c. is_space c ≡ false) s

abbrev pub IsField : Bytes × Bytes → Type 0
IsField (name, value) =
    Avoids b':' name
    × Avoids 13 name
    × Avoids 10 name
    × (is_empty (to_lower (trim name)) ≡ false)
    × Avoids 13 value
    × Avoids 10 value

-- What a message must be so that it can be sent as it is.
pub record IsSendable (m : Message) : Type 0 where
  pub method : IsWord m.method
  pub path : IsText m.path
  pub some_path : is_empty m.path ≡ false
  pub safe : find (bytes "..") m.path ≡ none
  pub query : All (λ p. IsText p.0 × IsText p.1) m.query
  pub fields : All IsField m.fields
  pub body : length m.body ≤ max_body
