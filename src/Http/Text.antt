-- ===== src/Http/Text.antt =====
-- The text functions of http/ (http_parser.cpp, http_request.cpp, and `split` of http_server.cpp),
-- and what they use of the C++ library: the character classes of the C locale, `getline` and
-- `>>` on a string stream, `std::stoi` and `std::to_string`.
use coroutine_http.Prelude.{
  ℤ, pos, negsuc, ℕ, zero, suc, ◌+◌, ◌-◌, ◌*◌, ◌/◌, ◌%◌, ◌^◌, Bool, true, false, ◌&&◌, ◌||◌, Option,
  none, some, List, [], ◌∷◌, ◌++◌, map, ltb, leb, ◌==◌, if◌then◌else◌, Bytes, is_empty,
}

abbrev pub is_upper : ℕ → Bool
is_upper c = leb b'A' c && leb c b'Z'

abbrev pub is_lower : ℕ → Bool
is_lower c = leb b'a' c && leb c b'z'

abbrev pub is_digit : ℕ → Bool
is_digit c = leb b'0' c && leb c b'9'

-- `isspace`: the blank, and `\t` to `\r`.
abbrev pub is_space : ℕ → Bool
is_space c = c == 32 || (leb 9 c && leb c 13)

abbrev pub is_xdigit : ℕ → Bool
is_xdigit c = is_digit c || ((leb b'A' c && leb c b'F') || (leb b'a' c && leb c b'f'))

-- `tolower` and `toupper`.
unfoldable pub lower : ℕ → ℕ
lower c = if is_upper c then c + 32 else c

unfoldable pub upper : ℕ → ℕ
upper c = if is_lower c then c - 32 else c

unfoldable pub to_lower : Bytes → Bytes
unfolding lower
to_lower s = map lower s

unfoldable pub to_upper : Bytes → Bytes
unfolding upper
to_upper s = map upper s

-- What `trim` takes off: " \t\r\n".
abbrev pub is_blank : ℕ → Bool
is_blank c = (c == 32 || c == 9) || (c == 13 || c == 10)

unfoldable pub trim_front : Bytes → Bytes
trim_front [] = []
trim_front (c ∷ s) = let rest = trim_front s in if is_blank c then rest else c ∷ s

unfoldable pub trim_back : Bytes → Bytes
trim_back [] = []
trim_back (c ∷ s) = let rest = trim_back s in if is_empty rest && is_blank c then [] else c ∷ rest

-- From the first to the last byte that is no blank; empty if there is none.
unfoldable pub trim : Bytes → Bytes
unfolding trim_front trim_back
trim s = trim_back (trim_front s)

-- `strtol(hex, nullptr, 16)` of one digit.
unfoldable pub hex_value : ℕ → ℕ
hex_value c = if is_digit c then c - b'0' else (if leb b'a' c then c - b'a' + 10 else c - b'A' + 10)

-- The loop of `url_decode`. The test `i + 2 < s.size()` is the pattern of two more bytes.
unfoldable pub url_decode : Bytes → Bytes
unfolding hex_value
url_decode [] = []
url_decode (c ∷ []) = (if c == b'+' then b' ' else c) ∷ []
url_decode (c ∷ a ∷ []) = (if c == b'+' then b' ' else c) ∷ url_decode (a ∷ [])
url_decode (c ∷ a ∷ b ∷ s) =
    let decoded = (hex_value a * 16 + hex_value b) ∷ url_decode s in
    let plain = (if c == b'+' then b' ' else c) ∷ url_decode (a ∷ b ∷ s) in
    if c == b'%' && (is_xdigit a && is_xdigit b) then decoded else plain

-- One more byte at the front of the first line.
abbrev pub prepend : ℕ → List Bytes → List Bytes
prepend c [] = (c ∷ []) ∷ []
prepend c (l ∷ ls) = (c ∷ l) ∷ ls

-- What repeated `getline(ss, line, delim)` yields: the last line needs no delimiter, and an empty
-- one behind the last delimiter is not a line.
unfoldable pub getlines : ℕ → Bytes → List Bytes
getlines delim [] = []
getlines delim (c ∷ s) =
    let rest = getlines delim s in if c == delim then [] ∷ rest else prepend c rest

unfoldable pub drop_empty : List Bytes → List Bytes
drop_empty [] = []
drop_empty (l ∷ ls) = let rest = drop_empty ls in if is_empty l then rest else l ∷ rest

-- `split` of `Route::match`: the parts between slashes that are not empty.
unfoldable pub split : Bytes → List Bytes
unfolding drop_empty getlines
split s = drop_empty (getlines b'/' s)

-- The parts of `s` between white space, as `ss >> word` reads them: a word that is under way is
-- `cur`.
unfoldable pub words_from : Bytes → Bytes → List Bytes
words_from cur [] = if is_empty cur then [] else cur ∷ []
words_from cur (c ∷ s) =
    let closed = cur ∷ words_from [] s in
    let skipped = words_from [] s in
    let longer = words_from (cur ++ c ∷ []) s in
    if is_space c then (if is_empty cur then skipped else closed) else longer

unfoldable pub words : Bytes → List Bytes
unfolding words_from
words s = words_from [] s

unfoldable pub skip_space : Bytes → Bytes
skip_space [] = []
skip_space (c ∷ s) = let rest = skip_space s in if is_space c then rest else c ∷ s

-- The digits at the front, read as a decimal number on top of `acc`.
unfoldable pub decimal : ℕ → Bytes → ℕ
decimal acc [] = acc
decimal acc (c ∷ s) =
    let more = decimal (acc * 10 + (c - b'0')) s in if is_digit c then more else acc

abbrev pub starts_digit : Bytes → Bool
starts_digit [] = false
starts_digit (c ∷ s) = is_digit c

-- The value within a 32-bit `int`, or `none` for the exception `out_of_range`.
abbrev pub in_int : Bool → ℕ → Option ℤ
in_int negative n =
    if negative
    then (if n == 0 then some (pos 0) else (if leb n (2 ^ 31) then some (negsuc (n - 1)) else none))
    else (if ltb n (2 ^ 31) then some (pos n) else none)

abbrev pub unsigned_int : Bool → Bytes → Option ℤ
unsigned_int negative s = if starts_digit s then in_int negative (decimal 0 s) else none

abbrev pub signed_int : Bytes → Option ℤ
signed_int [] = none
signed_int (c ∷ s) =
    if c == b'-'
    then unsigned_int true s
    else (if c == b'+' then unsigned_int false s else unsigned_int false (c ∷ s))

-- `std::stoi`: white space, a sign, digits, and anything behind them; `none` is an exception.
unfoldable pub stoi : Bytes → Option ℤ
unfolding skip_space decimal
stoi s = signed_int (skip_space s)

-- The decimal digits of `n`, in front of `acc`. A number has at most as many digits as its value
-- plus one.
unfoldable pub digits_loop : ℕ → ℕ → Bytes → Bytes
digits_loop zero n acc = acc
digits_loop (suc fuel) n acc =
    let more = digits_loop fuel (n / 10) ((b'0' + n % 10) ∷ acc) in
    if ltb n 10 then (b'0' + n) ∷ acc else more

-- `std::to_string` of a number that is not negative.
unfoldable pub to_string : ℕ → Bytes
unfolding digits_loop
to_string n = digits_loop (suc n) n []
