-- ===== src/Http/Server/Routes.antt =====
-- `Route::match` of http/http_server.cpp against the rules of its comment, as a relation.
use mathlib.Core.Path.{subst}
use coroutine_http.Prelude.{
  ◌≡◌, refl, ◌↔◌, inl, inr, true, false, List, [], ◌∷◌, drop, Bool-cases, Bytes, bytes, bytes_eq,
  bytes_beq, bytes_beq_iff, starts_with, arith,
}
use coroutine_http.Prelude.Dict.{Dict, insert}
use coroutine_http.Http.Server.{join, match_loop}

-- A segment that stands for itself.
abbrev pub IsLiteral : Bytes → Type 0
IsLiteral seg = (bytes_beq seg (bytes "*") ≡ false) × (starts_with (bytes ":") seg ≡ false)

-- A pattern matches the parts of a path, and turns the parameters `p` into `q`: a literal matches
-- itself, `:name` any one part, and `*` all the parts from one on.
pub data Matches : List Bytes → List Bytes → Dict Bytes Bytes → Dict Bytes Bytes → Type 0 where
  finished : {p : Dict Bytes Bytes} → Matches [] [] p p
  literal :
      {seg r : Bytes} {segs rs : List Bytes} {p q : Dict Bytes Bytes}
      → IsLiteral seg
      → seg ≡ r
      → Matches segs rs p q
      → Matches (seg ∷ segs) (r ∷ rs) p q
  named :
      {seg name r : Bytes} {segs rs : List Bytes} {p q : Dict Bytes Bytes}
      → seg ≡ b':' ∷ name
      → Matches segs rs (insert name r p) q
      → Matches (seg ∷ segs) (r ∷ rs) p q
  wildcard :
      {seg r : Bytes} {segs rs : List Bytes} {p q : Dict Bytes Bytes}
      → seg ≡ bytes "*"
      → q ≡ insert (bytes "*") (join (r ∷ rs)) p
      → Matches (seg ∷ segs) (r ∷ rs) p q

colon_name : (seg : Bytes) → starts_with (bytes ":") seg ≡ true → seg ≡ b':' ∷ drop 1 seg
unfolding starts_with
colon_name [] h = ground arith
colon_name (c ∷ seg) h = ground arith

match_loop_sound :
    (segs rs : List Bytes) (p q : Dict Bytes Bytes)
    → match_loop segs rs p ≡ (true, q)
    → Matches segs rs p q
unfolding match_loop
match_loop_sound [] [] p q h =
    let same : p ≡ q = ground arith in subst (Matches [] [] p) same finished
match_loop_sound [] (r ∷ rs) p q h = ground arith
match_loop_sound (seg ∷ segs) [] p q h = ground arith
match_loop_sound (seg ∷ segs) (r ∷ rs) p q h = elim (Bool-cases (bytes_beq seg (bytes "*"))) [
  | inl star ↦ wildcard ((bytes_beq_iff seg (bytes "*")).0 star) (ground arith)
  | inr other ↦ elim (Bool-cases (starts_with (bytes ":") seg)) [
    | inl colon ↦
        named (colon_name seg colon)
          (match_loop_sound segs rs (insert (drop 1 seg) r p) q (ground arith))
    | inr plain ↦ elim (Bool-cases (bytes_beq seg r)) [
      | inl same ↦
          literal (other, plain) ((bytes_beq_iff seg r).0 same)
            (match_loop_sound segs rs p q (ground arith))
      | inr differ ↦ absurd (ground arith)
    ]
  ]
]

match_loop_complete :
    {segs rs : List Bytes} {p q : Dict Bytes Bytes}
    → Matches segs rs p q
    → match_loop segs rs p ≡ (true, q)
unfolding match_loop starts_with
match_loop_complete finished = refl
match_loop_complete (literal {seg} {r} h e m) =
    ground (arith, h, (bytes_beq_iff seg r).1 e, match_loop_complete m)
match_loop_complete (named {seg} {name} {r} e m) = ground (arith, e, match_loop_complete m)
match_loop_complete (wildcard {seg} {r} e k) =
    ground (arith, (bytes_beq_iff seg (bytes "*")).1 e, k)

-- A pattern matches a path, and extracts the parameters `q` on top of `p`, exactly by these rules.
pub match_loop_iff :
    (segs rs : List Bytes) (p q : Dict Bytes Bytes)
    → (match_loop segs rs p ≡ (true, q)) ↔ Matches segs rs p q
match_loop_iff segs rs p q = (match_loop_sound segs rs p q, match_loop_complete)
