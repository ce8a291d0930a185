-- ===== src/Prelude/Strings.antt =====
-- `std::string` as a list of byte values, with the string operations that the source calls.
use Prim.Native.Char.{code}
use Prim.Native.String.{String}
use Prim.Native.Nat.{ℕ, zero, suc, ◌+◌, ◌≤◌}
use mathlib.Core.Path.{◌≡◌, refl, ◌∙◌}
use mathlib.Core.Logic.{◌↔◌, inl, inr}
use mathlib.Core.Bool.{Bool, true, false, ◌&&◌, ◌||◌}
use mathlib.Core.Option
use mathlib.Core.Option.{Option, none, some}
use mathlib.Core.List.{List, [], ◌∷◌, ◌++◌}
use native.Mathlib.Omega.{arith}
use Prim.Native.Nat.add
use coroutine_http.Prelude.Tests.{ltb, ◌==◌, Eq, if◌then◌else◌, Bool-cases, Option-cases}
use coroutine_http.Prelude.Lists.{length, take}

abbrev pub Bytes : Type 0
Bytes = List ℕ

-- The code points of an ASCII literal.
abbrev pub bytes : String → Bytes
bytes String.[] = []
bytes (String.◌∷◌ c s) = code c ∷ bytes s

abbrev pub bytes_beq : Bytes → Bytes → Bool
bytes_beq [] [] = true
bytes_beq [] (y ∷ ys) = false
bytes_beq (x ∷ xs) [] = false
bytes_beq (x ∷ xs) (y ∷ ys) = x == y && bytes_beq xs ys

pub bytes_beq_iff : (a b : Bytes) → (bytes_beq a b ≡ true) ↔ (a ≡ b)
bytes_beq_iff [] [] = ground arith
bytes_beq_iff [] (y ∷ ys) = ground arith
bytes_beq_iff (x ∷ xs) [] = ground arith
bytes_beq_iff (x ∷ xs) (y ∷ ys) = ground (arith, bytes_beq_iff xs ys)

instance abbrev pub bytes_eq : Eq Bytes
bytes_eq = record { beq = bytes_beq; beq_iff = bytes_beq_iff }

abbrev pub is_empty {ℓ} : {A : Type ℓ} → List A → Bool
is_empty [] = true
is_empty (x ∷ xs) = false

unfoldable pub starts_with : Bytes → Bytes → Bool
starts_with [] s = true
starts_with (p ∷ ps) [] = false
starts_with (p ∷ ps) (c ∷ s) = p == c && starts_with ps s

-- `std::string::find` of a string: the first position at which it stands.
unfoldable pub find : Bytes → Bytes → Option ℕ
unfolding starts_with
find p [] = if is_empty p then some 0 else none
find p (c ∷ s) = if starts_with p (c ∷ s) then some 0 else Option.map suc (find p s)

-- `std::string::find` of a character.
unfoldable pub find_char : ℕ → Bytes → Option ℕ
find_char x [] = none
find_char x (c ∷ s) = if x == c then some 0 else Option.map suc (find_char x s)

pub starts_with_prefix : (p s : Bytes) → starts_with p s ≡ true → take (length p) s ≡ p
unfolding starts_with
starts_with_prefix [] s h = refl
starts_with_prefix (p ∷ ps) [] h = ground arith
starts_with_prefix (p ∷ ps) (c ∷ s) h = ground (arith, starts_with_prefix ps s)

pub starts_with_append : (p s : Bytes) → starts_with p (p ++ s) ≡ true
unfolding starts_with
starts_with_append [] s = refl
starts_with_append (p ∷ ps) s = ground (arith, starts_with_append ps s)

pub starts_with-length : (p s : Bytes) → starts_with p s ≡ true → length p ≤ length s
unfolding starts_with
starts_with-length [] s h = omega arith
starts_with-length (p ∷ ps) [] h = ground arith
starts_with-length (p ∷ ps) (c ∷ s) h = ground (arith, starts_with-length ps s)

pub starts_with-take :
    (p s : Bytes) (n : ℕ) → starts_with p (take n s) ≡ true → starts_with p s ≡ true
unfolding starts_with
starts_with-take [] s n h = refl
starts_with-take (p ∷ ps) s zero h = ground arith
starts_with-take (p ∷ ps) [] (suc n) h = ground arith
starts_with-take (p ∷ ps) (c ∷ s) (suc n) h = ground (arith, starts_with-take ps s n)

pub starts_with_self : (p : Bytes) → starts_with p p ≡ true
unfolding starts_with
starts_with_self [] = refl
starts_with_self (p ∷ ps) = ground (arith, starts_with_self ps)

find_self : (p : Bytes) → find p p ≡ some 0
unfolding find
find_self [] = refl
find_self (p ∷ ps) = ground (arith, starts_with_self (p ∷ ps))

-- A found string stands inside.
pub find-le : (p s : Bytes) (pos : ℕ) → find p s ≡ some pos → pos + length p ≤ length s
unfolding find
find-le [] [] pos h = ground arith
find-le (p ∷ ps) [] pos h = ground arith
find-le p (c ∷ s) pos h = elim (Bool-cases (starts_with p (c ∷ s))) [
  | inl here ↦ ground (arith, starts_with-length p (c ∷ s))
  | inr later ↦ elim (Option-cases (find p s)) [
    | inl missing ↦ absurd (ground arith)
    | inr (k, found) ↦ ground (arith, find-le p s k found)
  ]
]

-- What is cut off behind it changes nothing.
pub find-take :
    (p s : Bytes) (pos : ℕ) → find p s ≡ some pos → find p (take (pos + length p) s) ≡ some pos
unfolding find
find-take [] [] pos h = ground arith
find-take (p ∷ ps) [] pos h = ground arith
find-take p (c ∷ s) pos h = elim (Bool-cases (starts_with p (c ∷ s))) [
  | inl here ↦
      let first : pos ≡ 0 = ground arith in
      rw first (rw (add.zero (length p), starts_with_prefix p (c ∷ s) here) (find_self p))
  | inr later ↦ elim (Option-cases (find p s)) [
    | inl missing ↦ absurd (ground arith)
    | inr (k, found) ↦
        let next : pos ≡ suc k = ground arith in
        let wide : suc k + length p ≡ suc (k + length p) = omega arith in
        rw (next, wide)
          (ground
            (arith, find-take p s k found, later, starts_with-take p (c ∷ s) (suc (k + length p))))
  ]
]

starts_with-append_le :
    (p s t : Bytes) → length p ≤ length s → starts_with p (s ++ t) ≡ starts_with p s
unfolding starts_with
starts_with-append_le [] s t h = refl
starts_with-append_le (p ∷ ps) [] t h = absurd (omega arith)
starts_with-append_le (p ∷ ps) (c ∷ s) t h = ground (arith, starts_with-append_le ps s t)

find_empty : (s : Bytes) → find [] s ≡ some 0
unfolding find
find_empty [] = refl
find_empty (c ∷ s) = refl

-- What follows changes nothing either.
pub find-append : (p s t : Bytes) (k : ℕ) → find p s ≡ some k → find p (s ++ t) ≡ some k
unfolding find
find-append [] [] t k h = find_empty t ∙ h
find-append (p ∷ ps) [] t k h = ground arith
find-append p (c ∷ s) t k h =
    let inside = find-le p (c ∷ s) k h in
    elim (Option-cases (find p s)) [
      | inl missing ↦ ground (arith, starts_with-append_le p (c ∷ s) t)
      | inr (j, found) ↦
          ground (arith, find-append p s t j found, starts_with-append_le p (c ∷ s) t)
    ]

-- `operator<` of `std::string`.
unfoldable pub bytes_less : Bytes → Bytes → Bool
bytes_less [] [] = false
bytes_less [] (d ∷ t) = true
bytes_less (c ∷ s) [] = false
bytes_less (c ∷ s) (d ∷ t) = let rest = bytes_less s t in ltb c d || (c == d && rest)
