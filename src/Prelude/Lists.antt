-- ===== src/Prelude/Lists.antt =====
-- Lists measured and indexed by native numbers.
use Prim.Native.Nat.{ℕ, zero, suc, ◌+◌, ◌-◌, ◌≤◌, min}
use Prim.Native.Nat.add
use mathlib.Core.Path.{◌≡◌, refl, ap}
use mathlib.Core.List.{List, [], ◌∷◌, ◌++◌, map}
use mathlib.Core.Bool.{Bool}
use mathlib.Core.Option.{Option, none, some}
use native.Mathlib.Omega.{arith}
use coroutine_http.Prelude.Tests.{◌==◌, if◌then◌else◌}

module _ {ℓ} {A : Type ℓ} where
  abbrev pub length : List A → ℕ
  length [] = 0
  length (x ∷ xs) = suc (length xs)

  abbrev pub take : ℕ → List A → List A
  take zero xs = []
  take (suc n) [] = []
  take (suc n) (x ∷ xs) = x ∷ take n xs

  abbrev pub drop : ℕ → List A → List A
  drop zero xs = xs
  drop (suc n) [] = []
  drop (suc n) (x ∷ xs) = drop n xs

  pub length-append : (xs ys : List A) → length (xs ++ ys) ≡ length xs + length ys
  length-append [] ys = omega arith
  length-append (x ∷ xs) ys = omega (arith, length-append xs ys)

  pub take-append-drop : (n : ℕ) (xs : List A) → take n xs ++ drop n xs ≡ xs
  take-append-drop zero xs = refl
  take-append-drop (suc n) [] = refl
  take-append-drop (suc n) (x ∷ xs) = ap (◌∷◌ x) (take-append-drop n xs)

  pub length-take : (n : ℕ) (xs : List A) → length (take n xs) ≡ min n (length xs)
  length-take zero xs = omega arith
  length-take (suc n) [] = omega arith
  length-take (suc n) (x ∷ xs) = omega (arith, length-take n xs)

  pub length-drop : (n : ℕ) (xs : List A) → length (drop n xs) ≡ length xs - n
  length-drop zero xs = omega arith
  length-drop (suc n) [] = omega arith
  length-drop (suc n) (x ∷ xs) = omega (arith, length-drop n xs)

  -- A cut at the seam gives the two parts back.
  pub take-append_self : (xs ys : List A) → take (length xs) (xs ++ ys) ≡ xs
  take-append_self [] ys = refl
  take-append_self (x ∷ xs) ys = ap (◌∷◌ x) (take-append_self xs ys)

  pub drop-append_self : (xs ys : List A) → drop (length xs) (xs ++ ys) ≡ ys
  drop-append_self [] ys = refl
  drop-append_self (x ∷ xs) ys = drop-append_self xs ys

  -- A cut inside the first list.
  pub take-append_le : (n : ℕ) (xs ys : List A) → n ≤ length xs → take n (xs ++ ys) ≡ take n xs
  take-append_le zero xs ys h = refl
  take-append_le (suc n) [] ys h = absurd (omega arith)
  take-append_le (suc n) (x ∷ xs) ys h = ap (◌∷◌ x) (take-append_le n xs ys (omega arith))

  pub drop-append_le :
      (n : ℕ) (xs ys : List A) → n ≤ length xs → drop n (xs ++ ys) ≡ drop n xs ++ ys
  drop-append_le zero xs ys h = refl
  drop-append_le (suc n) [] ys h = absurd (omega arith)
  drop-append_le (suc n) (x ∷ xs) ys h = drop-append_le n xs ys (omega arith)

  pub take_all : (n : ℕ) (xs : List A) → length xs ≤ n → take n xs ≡ xs
  take_all zero [] h = refl
  take_all zero (x ∷ xs) h = absurd (omega arith)
  take_all (suc n) [] h = refl
  take_all (suc n) (x ∷ xs) h = ap (◌∷◌ x) (take_all n xs (omega arith))

module _ {ℓ κ} {A : Type ℓ} (P : A → Type κ) where
  abbrev pub All : List A → Type κ
  All [] = Unit
  All (x ∷ xs) = P x × All xs

  pub All-append : (xs ys : List A) → All xs → All ys → All (xs ++ ys)
  All-append [] ys h k = k
  All-append (x ∷ xs) ys (p, h) k = (p, All-append xs ys h k)

  pub All-take : (n : ℕ) (xs : List A) → All xs → All (take n xs)
  All-take zero xs h = tt
  All-take (suc n) [] h = tt
  All-take (suc n) (x ∷ xs) (p, h) = (p, All-take n xs h)

  pub All-drop : (n : ℕ) (xs : List A) → All xs → All (drop n xs)
  All-drop zero xs h = h
  All-drop (suc n) [] h = tt
  All-drop (suc n) (x ∷ xs) (p, h) = All-drop n xs h

pub length-map {ℓ κ} :
    {A : Type ℓ} {B : Type κ} (f : A → B) (xs : List A) → length (map f xs) ≡ length xs
length-map f [] = refl
length-map f (x ∷ xs) = ap suc (length-map f xs)

pub All-map {ℓ κ μ} :
    {A : Type ℓ} (P : A → Type κ) (Q : A → Type μ)
    → ((x : A) → P x → Q x)
    → (xs : List A) → All P xs
    → All Q xs
All-map P Q f [] h = tt
All-map P Q f (x ∷ xs) (p, h) = (f x p, All-map P Q f xs h)

-- Two pieces in a row.
pub take-append-take-drop {ℓ} :
    {A : Type ℓ} (m n : ℕ) (xs : List A) → take m xs ++ take n (drop m xs) ≡ take (m + n) xs
take-append-take-drop zero n xs = rw (add.zero n) refl
take-append-take-drop (suc m) zero [] = rw (add.suc m 0) refl
take-append-take-drop (suc m) (suc n) [] = rw (add.suc m (suc n)) refl
take-append-take-drop (suc m) n (x ∷ xs) =
    rw (add.suc m n) (ap (◌∷◌ x) (take-append-take-drop m n xs))

abbrev pub get_or {ℓ} : {A : Type ℓ} → List A → ℕ → A → A
get_or [] i d = d
get_or (x ∷ xs) zero d = x
get_or (x ∷ xs) (suc i) d = get_or xs i d

module _ {ℓ} {A : Type ℓ} where
  abbrev pub get_elem? : List A → ℕ → Option A
  get_elem? [] i = none
  get_elem? (x ∷ xs) zero = some x
  get_elem? (x ∷ xs) (suc i) = get_elem? xs i

  -- How many members pass a test.
  abbrev pub count_if : (A → Bool) → List A → ℕ
  count_if p [] = 0
  count_if p (x ∷ xs) = (if p x then 1 else 0) + count_if p xs

  pub count_if-append :
      (p : A → Bool) (xs ys : List A) → count_if p (xs ++ ys) ≡ count_if p xs + count_if p ys
  count_if-append p [] ys = omega arith
  count_if-append p (x ∷ xs) ys = omega (arith, count_if-append p xs ys)

-- How often a number stands in a list.
abbrev pub occurrences : ℕ → List ℕ → ℕ
occurrences c xs = count_if (λ x. x == c) xs
