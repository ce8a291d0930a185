-- ===== src/Http/Message/Scan.antt =====
-- How the scanners of http/http_parser.cpp (`find`, `getline`, `>>`) run over what is printed.
use mathlib.Core.Path.{ap₂}
use coroutine_http.Prelude.{
  ℕ, suc, ◌+◌, ◌-◌, ◌≡◌, refl, sym, ap, ◌∙◌, true, false, none, some, List, [], ◌∷◌, ◌++◌,
  append_assoc, append-nil, length, length-append, take-append_self, leb, ◌==◌, Bytes, is_empty,
  starts_with, find, find_char, All, All-append, arith,
}
use coroutine_http.Http.Text.{is_space, getlines, words_from, words}
use coroutine_http.Http.Parser.{chop_cr, chop_lines, header_end, cut_end}
use coroutine_http.Http.Message.{joined, Avoids, IsWord}

pub find_char-Avoids : (x : ℕ) (s : Bytes) → Avoids x s → find_char x s ≡ none
unfolding find_char
find_char-Avoids x [] h = refl
find_char-Avoids x (c ∷ s) h = ground (arith, find_char-Avoids x s h.1, h.0)

pub getlines-append :
    (d : ℕ) (l s : Bytes) → Avoids d l → getlines d (l ++ d ∷ s) ≡ l ∷ getlines d s
unfolding getlines
getlines-append d [] s h = ground arith
getlines-append d (c ∷ l) s h = rw (getlines-append d l s h.1, h.0) refl

pub getlines_last : (d : ℕ) (l : Bytes) → Avoids d l → is_empty l ≡ false → getlines d l ≡ l ∷ []
unfolding getlines
getlines_last d [] h some_byte = absurd (ground arith)
getlines_last d (c ∷ []) h some_byte = rw (h.0, getlines) refl
getlines_last d (c ∷ b ∷ l) h some_byte =
    rw (h.0, getlines) (rw (getlines_last d (b ∷ l) h.1 refl) refl)

pub append_cons-is_empty : (s t : Bytes) (c : ℕ) → is_empty (s ++ c ∷ t) ≡ false
append_cons-is_empty [] t c = refl
append_cons-is_empty (b ∷ s) t c = refl

-- A line as `parse` finds it between two line ends.
abbrev pub IsLine : Bytes → Type 0
IsLine l = (is_empty l ≡ false) × Avoids 13 l × Avoids 10 l

chop_cr-append : (l : Bytes) → chop_cr (l ++ 13 ∷ []) ≡ l
unfolding chop_cr
chop_cr-append [] = refl
chop_cr-append (c ∷ []) = refl
chop_cr-append (c ∷ b ∷ l) = ap (◌∷◌ c) (chop_cr-append (b ∷ l))

chop_cr-Avoids : (l : Bytes) → Avoids 13 l → chop_cr l ≡ l
unfolding chop_cr
chop_cr-Avoids [] h = refl
chop_cr-Avoids (c ∷ []) h = rw (h.0, chop_cr) refl
chop_cr-Avoids (c ∷ b ∷ l) h = ap (◌∷◌ c) (chop_cr-Avoids (b ∷ l) h.1)

pub Avoids-append : (x : ℕ) (s t : Bytes) → Avoids x s → Avoids x t → Avoids x (s ++ t)
Avoids-append x s t h k = All-append (λ c. (c == x) ≡ false) s t h k

-- Cutting at the line ends undoes the joining.
pub chop_lines-joined :
    (l : Bytes) (ls : List Bytes)
    → IsLine l
    → All IsLine ls
    → chop_lines (getlines 10 (joined l ls)) ≡ l ∷ ls
unfolding chop_lines
chop_lines-joined l [] h k =
    rw (getlines_last 10 l h.2 h.0) (ap (λ x. x ∷ []) (chop_cr-Avoids l h.1))
chop_lines-joined l (m ∷ ls) h k =
    ap (λ x. chop_lines (getlines 10 x)) (sym (append_assoc l (13 ∷ []) (10 ∷ joined m ls)))
    ∙ ap chop_lines (
        getlines-append 10 (l ++ 13 ∷ []) (joined m ls)
          (Avoids-append 10 l (13 ∷ []) h.2 (refl, tt)))
    ∙ ap₂ (λ x xs. x ∷ xs) (chop_cr-append l) (chop_lines-joined m ls k.0 k.1)

pub cut_end-append : (s : Bytes) → cut_end (s ++ header_end) ≡ s
cut_end-append s =
    let size : length (s ++ header_end) ≡ length s + 4 = length-append s header_end in
    let cut : length (s ++ header_end) - 4 ≡ length s = omega (arith, size) in
    let long : leb 4 (length (s ++ header_end)) ≡ true = ground (arith, size) in
    rw (long, cut) (take-append_self s header_end)

find-skip :
    (l s : Bytes) (k : ℕ)
    → Avoids 13 l
    → find header_end s ≡ some k
    → find header_end (l ++ s) ≡ some (length l + k)
unfolding find starts_with
find-skip [] s k h e = e ∙ ap some (omega arith)
find-skip (c ∷ l) s k h e = ground (arith, find-skip l s k h.1 e, h.0)

-- A line end before another line is not the end of the head.
find_line_end :
    (c k : ℕ) (t : Bytes)
    → (c == 13) ≡ false
    → find header_end (c ∷ t) ≡ some k
    → find header_end (13 ∷ 10 ∷ c ∷ t) ≡ some (suc (suc k))
unfolding find starts_with
find_line_end c k t h e = ground arith

-- The first empty line is the one at the end.
pub find-joined :
    (l : Bytes) (ls : List Bytes)
    → IsLine l
    → All IsLine ls
    → find header_end (joined l ls ++ header_end) ≡ some (length (joined l ls))
find-joined l [] h k =
    find-skip l header_end 0 h.1 (unfold find starts_with in refl) ∙ ap some (omega arith)
find-joined l ([] ∷ ls) h k = absurd (ground (arith, k.0.0))
find-joined l ((c ∷ m) ∷ ls) h k =
    ap (find header_end) (append_assoc l (13 ∷ 10 ∷ joined (c ∷ m) ls) header_end)
    ∙ find-skip l (13 ∷ 10 ∷ (joined (c ∷ m) ls ++ header_end)) _ h.1
        (next ls (find-joined (c ∷ m) ls k.0 k.1))
    ∙ ap some (omega (arith, length-append l (13 ∷ 10 ∷ joined (c ∷ m) ls)))
  where
    next :
        (ls : List Bytes)
        → find header_end (joined (c ∷ m) ls ++ header_end) ≡ some (length (joined (c ∷ m) ls))
        → find header_end (13 ∷ 10 ∷ (joined (c ∷ m) ls ++ header_end))
          ≡ some (suc (suc (length (joined (c ∷ m) ls))))
    next [] e = find_line_end c _ _ k.0.1.0 e
    next (n ∷ ls) e = find_line_end c _ _ k.0.1.0 e

words_from-word :
    (cur w s : Bytes)
    → All (λ c. is_space c ≡ false) w
    → is_empty (cur ++ w) ≡ false
    → words_from cur (w ++ b' ' ∷ s) ≡ (cur ++ w) ∷ words_from [] s
unfolding words_from
words_from-word cur [] s h k =
    let named : is_empty cur ≡ false = ap is_empty (sym (append-nil cur)) ∙ k in
    rw (named, append-nil cur) refl
words_from-word cur (c ∷ w) s h k = rw h.0 (
    words_from-word (cur ++ c ∷ []) w s h.1 (ap is_empty (append_assoc cur (c ∷ []) w) ∙ k)
    ∙ ap (λ x. x ∷ words_from [] s) (append_assoc cur (c ∷ []) w))

words_from_last :
    (cur w : Bytes)
    → All (λ c. is_space c ≡ false) w
    → is_empty (cur ++ w) ≡ false
    → words_from cur w ≡ (cur ++ w) ∷ []
unfolding words_from
words_from_last cur [] h k =
    let named : is_empty cur ≡ false = ap is_empty (sym (append-nil cur)) ∙ k in
    rw (named, append-nil cur) refl
words_from_last cur (c ∷ w) h k = rw h.0 (
    words_from_last (cur ++ c ∷ []) w h.1 (ap is_empty (append_assoc cur (c ∷ []) w) ∙ k)
    ∙ ap (λ x. x ∷ []) (append_assoc cur (c ∷ []) w))

-- Words with a blank behind each but the last.
pub words-three :
    (u v w : Bytes)
    → IsWord u
    → IsWord v
    → IsWord w
    → words (u ++ b' ' ∷ (v ++ b' ' ∷ w)) ≡ u ∷ v ∷ w ∷ []
unfolding words
words-three u v w hu hv hw =
    words_from-word [] u (v ++ b' ' ∷ w) hu.1 hu.0
    ∙ ap (◌∷◌ u) (words_from-word [] v w hv.1 hv.0 ∙ ap (◌∷◌ v) (words_from_last [] w hw.1 hw.0))
