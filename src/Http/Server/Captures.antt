-- ===== src/Http/Server/Captures.antt =====
-- What `Route::match` (http/http_server.cpp) extracts from a path that the parser has accepted:
-- main.cpp builds file names from it.
use coroutine_http.Prelude.{
  ℕ, ◌≡◌, refl, inl, inr, Bool, true, ◌&&◌, not, none, some, List, [], ◌∷◌, ◌++◌, drop, ◌==◌,
  Bool-cases, Bytes, bytes, bytes_eq, bytes_beq, starts_with, find, All, arith,
}
use coroutine_http.Prelude.Dict.{Dict, lookup, insert, lookup-insert}
use coroutine_http.Http.Text.{prepend, getlines, drop_empty, split}
use coroutine_http.Http.Server.{Route, join, match_loop, match}

abbrev dots : Bytes
dots = bytes ".."

-- No ".." stands anywhere in the text.
abbrev no_dots : Bytes → Bool
no_dots [] = true
no_dots (c ∷ s) = not (starts_with dots (c ∷ s)) && no_dots s

no_dots_of_find : (s : Bytes) → find dots s ≡ none → no_dots s ≡ true
unfolding find
no_dots_of_find [] h = refl
no_dots_of_find (c ∷ s) h = ground (arith, no_dots_of_find s)

find_of_no_dots : (s : Bytes) → no_dots s ≡ true → find dots s ≡ none
unfolding find
find_of_no_dots [] h = refl
find_of_no_dots (c ∷ s) h = ground (arith, find_of_no_dots s)

abbrev Clean : Bytes → Type 0
Clean s = no_dots s ≡ true

-- The first line begins with the bytes that the text begins with.
prepend-Clean :
    (c d : ℕ) (s : Bytes) (ls : List Bytes)
    → Clean (c ∷ d ∷ s)
    → All Clean (prepend d ls)
    → All Clean (prepend c (prepend d ls))
unfolding starts_with
prepend-Clean c d s [] h k = ground arith
prepend-Clean c d s (l ∷ ls) h k = ground arith

prepend_one-Clean : (c : ℕ) (ls : List Bytes) → All Clean ls → All Clean (prepend c ([] ∷ ls))
unfolding starts_with
prepend_one-Clean c ls h = ground arith

getlines-Clean : (delim : ℕ) (s : Bytes) → Clean s → All Clean (getlines delim s)
unfolding getlines
getlines-Clean delim [] h = tt
getlines-Clean delim (c ∷ []) h = unfold starts_with in ground arith
getlines-Clean delim (c ∷ d ∷ s) h =
    let ih = getlines-Clean delim (d ∷ s) (ground arith) in
    elim (Bool-cases (c == delim)) [
      | inl cut ↦ rw cut (refl, ih)
      | inr more ↦ rw more (elim (Bool-cases (d == delim)) [
        | inl cut ↦ rw cut (prepend_one-Clean c (getlines delim s) (rw cut at ih).1)
        | inr longer ↦ rw longer (prepend-Clean c d s (getlines delim s) h (rw longer at ih))
      ])
    ]

drop_empty-Clean : (ls : List Bytes) → All Clean ls → All Clean (drop_empty ls)
unfolding drop_empty
drop_empty-Clean [] h = tt
drop_empty-Clean ([] ∷ ls) h = drop_empty-Clean ls h.1
drop_empty-Clean ((c ∷ l) ∷ ls) h = (h.0, drop_empty-Clean ls h.1)

-- A slash between two clean texts leaves them clean.
slash-Clean : (r s : Bytes) → Clean r → Clean s → Clean (r ++ b'/' ∷ s)
unfolding starts_with
slash-Clean [] s h k = ground arith
slash-Clean (c ∷ []) s h k = ground arith
slash-Clean (c ∷ d ∷ r) s h k = ground (arith, slash-Clean (d ∷ r) s)

join-Clean : (rs : List Bytes) → All Clean rs → Clean (join rs)
unfolding join
join-Clean [] h = refl
join-Clean (r ∷ []) h = h.0
join-Clean (r ∷ s ∷ rs) h = slash-Clean r (join (s ∷ rs)) h.0 (join-Clean (s ∷ rs) h.1)

-- Every parameter is clean.
abbrev AllValues : Dict Bytes Bytes → Type 0
AllValues p = (k v : Bytes) → lookup k p ≡ some v → Clean v

insert-AllValues :
    (k v : Bytes) (p : Dict Bytes Bytes) → AllValues p → Clean v → AllValues (insert k v p)
insert-AllValues k v p h c j w e = elim (Bool-cases (bytes_beq k j)) [
  | inl same ↦ ground (arith, lookup-insert k j v p)
  | inr other ↦ h j w (ground (arith, lookup-insert k j v p))
]

match_loop-AllValues :
    (segs rs : List Bytes) (p : Dict Bytes Bytes)
    → AllValues p
    → All Clean rs
    → AllValues (match_loop segs rs p).1
unfolding match_loop
match_loop-AllValues [] [] p h c = h
match_loop-AllValues [] (r ∷ rs) p h c = h
match_loop-AllValues (seg ∷ segs) [] p h c = h
match_loop-AllValues (seg ∷ segs) (r ∷ rs) p h c = elim (Bool-cases (bytes_beq seg (bytes "*"))) [
  | inl star ↦
      rw (star, match_loop)
        (insert-AllValues (bytes "*") (join (r ∷ rs)) p h (join-Clean (r ∷ rs) c))
  | inr other ↦ elim (Bool-cases (starts_with (bytes ":") seg)) [
    | inl colon ↦
        rw (other, colon, match_loop)
          (match_loop-AllValues segs rs (insert (drop 1 seg) r p)
            (insert-AllValues (drop 1 seg) r p h c.0) c.1)
    | inr plain ↦ elim (Bool-cases (bytes_beq seg r)) [
      | inl same ↦ rw (other, plain, same, match_loop) (match_loop-AllValues segs rs p h c.1)
      | inr differ ↦ rw (other, plain, differ, match_loop) h
    ]
  ]
]

-- Whatever the route: where the path holds no "..", no parameter that `match` extracts from it
-- does, the joined rest of a wildcard included.
pub match-no_dots :
    (route : Route) (path k v : Bytes)
    → find (bytes "..") path ≡ none
    → lookup k (match route path []).1 ≡ some v
    → find (bytes "..") v ≡ none
unfolding match split
match-no_dots route path k v safe e = find_of_no_dots v (
    match_loop-AllValues _ _ [] (λ j w m. absurd (no_entry j w m))
      (drop_empty-Clean _ (getlines-Clean b'/' path (no_dots_of_find path safe))) k v e)
  where
    no_entry : (j w : Bytes) → lookup {V = Bytes} j [] ≡ some w → ⊥
    no_entry j w m = unfold lookup in ground arith
