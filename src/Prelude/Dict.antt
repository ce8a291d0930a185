-- ===== src/Prelude/Dict.antt =====
-- A map as an association list with one entry for each key, for `std::map` and
-- `std::unordered_map`. The order of the entries is never part of a statement.
use mathlib.Core.Path.{◌≡◌, refl, sym, subst}
use mathlib.Core.Logic.{inl, inr}
use coroutine_http.Prelude.Lists.{All}
use mathlib.Core.Bool.{Bool, false}
use mathlib.Core.Option.{Option, none, some}
use mathlib.Core.List.{List, [], ◌∷◌}
use native.Mathlib.Omega.{arith}
use coroutine_http.Prelude.Tests.{Eq, if◌then◌else◌, Bool-cases}

abbrev pub Dict {ℓ κ} : Type ℓ → Type κ → Type (ℓ ⊔ κ)
Dict K V = List (K × V)

module _ {ℓ κ} {K : Type ℓ} ⦃e : Eq K⦄ {V : Type κ} where
  -- `find`, and `count` as `is_some` of it.
  unfoldable pub lookup : K → Dict K V → Option V
  lookup k [] = none
  lookup k ((j, v) ∷ m) = if e.beq j k then some v else lookup k m

  -- `m[k] = v`
  unfoldable pub insert : K → V → Dict K V → Dict K V
  insert k v [] = (k, v) ∷ []
  insert k v ((j, w) ∷ m) = if e.beq j k then (j, v) ∷ m else (j, w) ∷ insert k v m

  -- `m.erase(k)`
  unfoldable pub erase : K → Dict K V → Dict K V
  erase k [] = []
  erase k ((j, w) ∷ m) = if e.beq j k then m else (j, w) ∷ erase k m

  pub lookup-insert :
      (k j : K) (v : V) (m : Dict K V)
      → lookup j (insert k v m) ≡ (if e.beq k j then some v else lookup j m)
  unfolding lookup insert
  lookup-insert k j v [] = refl
  lookup-insert k j v ((i, w) ∷ m) =
      ground (arith, e.beq_iff k j, e.beq_iff i k, e.beq_iff i j, lookup-insert k j v m)

  pub lookup-erase_ne :
      (k j : K) (m : Dict K V) → e.beq k j ≡ false → lookup j (erase k m) ≡ lookup j m
  unfolding lookup erase
  lookup-erase_ne k j [] h = refl
  lookup-erase_ne k j ((i, w) ∷ m) h =
      ground (arith, e.beq_iff k j, e.beq_iff i k, e.beq_iff i j, lookup-erase_ne k j m h)

  pub lookup-insert_self : (k : K) (v : V) (m : Dict K V) → lookup k (insert k v m) ≡ some v
  lookup-insert_self k v m = rw (lookup-insert k k v m, (e.beq_iff k k).1 refl)

-- `m[k] = v` in an ordered map: the entries are walked in the order of `less`, and a new key goes
-- in front of the first greater one.
module _ {ℓ κ} {K : Type ℓ} ⦃e : Eq K⦄ (less : K → K → Bool) {V : Type κ} where
  unfoldable pub put : K → V → Dict K V → Dict K V
  put k v [] = (k, v) ∷ []
  put k v ((j, w) ∷ m) =
      let rest = put k v m in
      if e.beq j k then (j, v) ∷ m else (if less k j then (k, v) ∷ (j, w) ∷ m else (j, w) ∷ rest)

  pub lookup-put :
      (k j : K) (v : V) (m : Dict K V)
      → lookup j (put k v m) ≡ (if e.beq k j then some v else lookup j m)
  unfolding lookup put
  lookup-put k j v [] = refl
  lookup-put k j v ((i, w) ∷ m) =
      ground (arith, e.beq_iff k j, e.beq_iff i k, e.beq_iff i j, lookup-put k j v m)

  -- Erasing a new key undoes its entry.
  pub erase-put :
      (k : K) (v : V) (m : Dict K V) → All (λ p. e.beq p.0 k ≡ false) m → erase k (put k v m) ≡ m
  unfolding erase put
  erase-put k v [] h = rw ((e.beq_iff k k).1 refl) refl
  erase-put k v ((j, w) ∷ m) h = ground (arith, (e.beq_iff k k).1 refl, h.0, erase-put k v m h.1)

  pub All-put {μ} :
      (P : K × V → Type μ) (k : K) (v : V) (m : Dict K V) → P (k, v) → All P m → All P (put k v m)
  unfolding put
  All-put P k v [] p h = (p, tt)
  All-put P k v ((j, w) ∷ m) p h = elim (Bool-cases (e.beq j k)) [
    | inl same ↦ rw (same, put) (subst (λ i. P (i, v)) (sym ((e.beq_iff j k).0 same)) p, h.1)
    | inr other ↦ elim (Bool-cases (less k j)) [
      | inl here ↦ rw (other, put, here) (p, h)
      | inr later ↦ rw (other, put, later) (h.0, All-put P k v m p h.1)
    ]
  ]
