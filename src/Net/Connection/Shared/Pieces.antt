-- ===== src/Net/Connection/Shared/Pieces.antt =====
-- The wire of net/connection.cpp cut into the pieces of its writers, and what keeps it so.
use coroutine_http.Prelude.{
  ℕ, ◌<◌, ◌≤◌, ◌≡◌, refl, sym, ap, ◌∙◌, inl, inr, ◌⊎◌, Bool, true, false, List, [], ◌∷◌, ◌++◌,
  append_assoc, append-nil, length, take, ◌==◌, ==_iff, Bool-cases, Bytes, All, All-map,
}
use coroutine_http.Net.Connection.{Connection, Written}
use coroutine_http.Net.Connection.Writing.{sent_of}
use coroutine_http.Net.Connection.Shared.{
  Stage, idle, sending, waiting, Writer, Shared, set_writer, returns_with,
}

-- The prefixes that the results count, one behind the other.
abbrev pub prefixes : List (Bytes × Written) → Bytes
prefixes [] = []
prefixes ((bs, r) ∷ rs) = take (sent_of r) bs ++ prefixes rs

abbrev pub under_way : Stage → Bytes
under_way idle = []
under_way (sending bs sent) = take sent bs
under_way (waiting bs sent) = take sent bs

-- What a coroutine has put on the wire, by the results of its writes and by the one under way.
abbrev pub told : Writer → Bytes
told w = prefixes w.results ++ under_way w.stage

-- A wire cut into pieces, of which each writer's are what it has put there, in their order.
pub data Merge : (ℕ → Bytes) → Bytes → Type 0 where
  nothing : {f : ℕ → Bytes} → ((i : ℕ) → f i ≡ []) → Merge f []
  piece :
      (i : ℕ) (bs : Bytes) {f g : ℕ → Bytes} {wire longer : Bytes}
      → Merge f wire
      → g i ≡ f i ++ bs
      → ((j : ℕ) → (j == i) ≡ false → g j ≡ f j)
      → longer ≡ wire ++ bs
      → Merge g longer

-- A write that has returned has put all its data on the wire, or the connection is closed.
abbrev pub Finished : Bool → Bytes × Written → Type 0
Finished closed (bs, r) = (length bs ≤ sent_of r) ⊎ (closed ≡ true)

-- In a write under way some data is left.
abbrev pub IsLeft : Stage → Type 0
IsLeft idle = Unit
IsLeft (sending bs sent) = sent < length bs
IsLeft (waiting bs sent) = sent < length bs

pub record Merged (s : Shared) : Type 0 where
  pub merge : Merge (λ i. told (s.writers i)) s.conn.wire
  pub finished : (i : ℕ) → All (Finished s.conn.closed) (s.writers i).results
  pub left : (i : ℕ) → IsLeft (s.writers i).stage

prefixes-append :
    (rs : List (Bytes × Written)) (bs : Bytes) (r : Written)
    → prefixes (rs ++ (bs, r) ∷ []) ≡ prefixes rs ++ take (sent_of r) bs
prefixes-append [] bs r = append-nil (take (sent_of r) bs)
prefixes-append ((cs, q) ∷ rs) bs r =
    ap (◌++◌ (take (sent_of q) cs)) (prefixes-append rs bs r)
    ∙ sym (append_assoc (take (sent_of q) cs) (prefixes rs) (take (sent_of r) bs))

pub told-returns_with :
    (bs : Bytes) (r : Written) (w : Writer)
    → told (returns_with bs r w) ≡ prefixes w.results ++ take (sent_of r) bs
told-returns_with bs r w = append-nil _ ∙ prefixes-append w.results bs r

-- One writer puts some bytes behind the others, or none.
module _ (i : ℕ) (w : Writer) (s : Shared) where
  Merge-set_writer :
      (bs wire : Bytes)
      → Merge (λ j. told (s.writers j)) s.conn.wire
      → told w ≡ told (s.writers i) ++ bs
      → wire ≡ s.conn.wire ++ bs
      → Merge (λ j. told (set_writer i w s.writers j)) wire
  Merge-set_writer bs wire m own longer =
      let here : (i == i) ≡ true = (==_iff i i).1 refl in
      let mine : set_writer i w s.writers i ≡ w = rw here refl in
      piece i bs m (ap told mine ∙ own) (λ j other. ap told (others j other)) longer
    where
      others : (j : ℕ) → (j == i) ≡ false → set_writer i w s.writers j ≡ s.writers j
      others j other = rw other refl

  Finished-set_writer :
      (closed : Bool)
      → ((j : ℕ) → All (Finished closed) (s.writers j).results)
      → All (Finished closed) w.results
      → (j : ℕ) → All (Finished closed) (set_writer i w s.writers j).results
  Finished-set_writer closed h k j = elim (Bool-cases (j == i)) [
    | inl same ↦ rw same k
    | inr other ↦ rw other (h j)
  ]

  IsLeft-set_writer :
      ((j : ℕ) → IsLeft (s.writers j).stage)
      → IsLeft w.stage
      → (j : ℕ) → IsLeft (set_writer i w s.writers j).stage
  IsLeft-set_writer h k j = elim (Bool-cases (j == i)) [
    | inl same ↦ rw same k
    | inr other ↦ rw other (h j)
  ]

  -- What a writer's move must keep.
  pub Merged-set_writer :
      (conn : Connection) (bs : Bytes)
      → Merged s
      → told w ≡ told (s.writers i) ++ bs
      → conn.wire ≡ s.conn.wire ++ bs
      → (s.conn.closed ≡ true → conn.closed ≡ true)
      → All (Finished conn.closed) w.results
      → IsLeft w.stage
      → Merged (record { conn = conn; writers = set_writer i w s.writers })
  Merged-set_writer conn bs h own longer shut done left = record {
    merge = Merge-set_writer bs conn.wire h.merge own longer;
    finished =
        Finished-set_writer conn.closed (λ j. still (s.writers j).results (h.finished j)) done;
    left = IsLeft-set_writer h.left left;
  }
    where
      still :
          (rs : List (Bytes × Written))
          → All (Finished s.conn.closed) rs
          → All (Finished conn.closed) rs
      still rs k =
          All-map (Finished s.conn.closed) (Finished conn.closed)
            (λ p f. elim f [ inl whole ↦ inl whole | inr e ↦ inr (shut e) ]) rs k
