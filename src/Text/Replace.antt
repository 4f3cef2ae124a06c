-- ===== src/Text/Replace.antt =====
-- The loops of stringReplace and splitString of src/common/Utility.cpp against one pass over the text
-- that copies a character or takes an occurrence, and when they end.
use Prim.Native.Char.{Char}
use Prim.Native.String.{String as Text}
use app_mesh.Prelude.{
  ℕ, zero, suc, ◌+◌, ◌-◌, ◌<◌, true, false, none, some, List, [], ◌∷◌, String, if◌then◌else◌, ◌≡◌,
  refl, arith, ap, ◌∙◌, sym, inl, inr, Bool-cases, Option-cases, ◌==◌,
}
use app_mesh.Text.{start_with, take, drop, text_length, std_string_trim, space_count, kept_length}
use app_mesh.Text.Search.{
  ◌<>◌, shift, find, append_to, string_replace, push_piece, push_before, split_string,
}

-- The text with `dst` for each occurrence of `src`, from the left, after `skipped` characters.
abbrev pub scan : String → String → ℕ → String → String
scan src dst skipped Text.[] = Text.[]
scan src dst (suc skipped) (Text.◌∷◌ c s) = scan src dst skipped s
scan src dst zero (Text.◌∷◌ c s) =
    let taken = scan src dst (text_length src - 1) s in
    let copied = scan src dst zero s in
    if start_with (Text.◌∷◌ c s) src then dst <> taken else Text.◌∷◌ c copied

drop-empty : (n : ℕ) → drop n Text.[] ≡ Text.[]
unfolding drop
drop-empty zero = refl
drop-empty (suc n) = refl

scan-drop :
    (src dst : String) (k : ℕ) (s : String) → scan src dst k s ≡ scan src dst zero (drop k s)
unfolding drop
scan-drop src dst zero s = refl
scan-drop src dst (suc k) Text.[] = refl
scan-drop src dst (suc k) (Text.◌∷◌ c s) = scan-drop src dst k s

append_assoc : (s t u : String) → (s <> t) <> u ≡ s <> (t <> u)
unfolding ◌<>◌
append_assoc Text.[] t u = refl
append_assoc (Text.◌∷◌ c s) t u = ap (Text.◌∷◌ c) (append_assoc s t u)

start_with-nil : (src : String) → 0 < text_length src → start_with Text.[] src ≡ false
unfolding start_with text_length
start_with-nil src h = ground arith

find-nil : (src : String) → 0 < text_length src → find src Text.[] ≡ none
unfolding find
find-nil src h = ground (arith, start_with-nil src h)

length-drop : (n : ℕ) (s : String) → text_length (drop n s) ≡ text_length s - n
unfolding drop text_length
length-drop zero s = ground arith
length-drop (suc n) Text.[] = ground arith
length-drop (suc n) (Text.◌∷◌ c s) = ground (arith, length-drop n s)

-- A search of a text with a first character: there, or behind it.
find-here :
    (src : String) (c : Char) (s : String) (p : ℕ)
    → start_with (Text.◌∷◌ c s) src ≡ true
    → find src (Text.◌∷◌ c s) ≡ some p
    → p ≡ 0
unfolding find
find-here src c s p x e = ground arith

find-behind :
    (src : String) (c : Char) (s : String) (p : ℕ)
    → start_with (Text.◌∷◌ c s) src ≡ false
    → find src (Text.◌∷◌ c s) ≡ some p
    → (q : ℕ) × (find src s ≡ some q) × (p ≡ suc q)
unfolding find shift
find-behind src c s p x e = elim (Option-cases (find src s)) [
  | inl n ↦ absurd (ground arith)
  | inr (q, n) ↦ (q, n, ground arith)
]

find-nowhere :
    (src : String) (c : Char) (s : String)
    → find src (Text.◌∷◌ c s) ≡ none
    → (start_with (Text.◌∷◌ c s) src ≡ false) × (find src s ≡ none)
unfolding find shift
find-nowhere src c s e = elim (Option-cases (find src s)) [
  | inl n ↦ ground arith
  | inr (q, n) ↦ absurd (ground arith)
]

drop-behind : (n : ℕ) (c : Char) (s : String) → 0 < n → drop n (Text.◌∷◌ c s) ≡ drop (n - 1) s
unfolding drop
drop-behind zero c s h = absurd (omega arith)
drop-behind (suc n) c s h = ap (λ k. drop k s) (omega arith)

-- The rest of the text behind an occurrence.
drop-here :
    (src : String) (c : Char) (s : String) (p : ℕ)
    → 0 < text_length src
    → p ≡ 0
    → drop (p + text_length src) (Text.◌∷◌ c s) ≡ drop (text_length src - 1) s
drop-here src c s p h z =
    drop-behind (p + text_length src) c s (omega arith) ∙ ap (λ n. drop n s) (omega arith)

drop-after :
    (src : String) (c : Char) (s : String) (p q : ℕ)
    → p ≡ suc q
    → drop (p + text_length src) (Text.◌∷◌ c s) ≡ drop (q + text_length src) s
drop-after src c s p q m =
    drop-behind (p + text_length src) c s (omega arith) ∙ ap (λ n. drop n s) (omega arith)

nothing_found : (src dst s : String) → find src s ≡ none → scan src dst zero s ≡ s
nothing_found src dst Text.[] e = refl
nothing_found src dst (Text.◌∷◌ c s) e =
    let nowhere = find-nowhere src c s e in
    rw (nowhere.0) (ap (Text.◌∷◌ c) (nothing_found src dst s nowhere.1))

scan-find :
    (src dst s : String) (p : ℕ)
    → 0 < text_length src
    → find src s ≡ some p
    → scan src dst zero s ≡ (take p s <> dst) <> scan src dst zero (drop (p + text_length src) s)
unfolding take ◌<>◌
scan-find src dst Text.[] p h e = absurd (ground (arith, find-nil src h))
scan-find src dst (Text.◌∷◌ c s) p h e = elim (Bool-cases (start_with (Text.◌∷◌ c s) src)) [
  | inl x ↦
      let z = find-here src c s p x e in
      rw (x, drop-here src c s p h z, z)
        (ap (λ t. dst <> t) (scan-drop src dst (text_length src - 1) s))
  | inr x ↦
      let (q, n, m) = find-behind src c s p x e in
      rw (x, drop-after src c s p q m, m) (ap (Text.◌∷◌ c) (scan-find src dst s q h n))
]

find-length :
    (src s : String) (p : ℕ) → 0 < text_length src → find src s ≡ some p → p < text_length s
unfolding text_length
find-length src Text.[] p h e = absurd (ground (arith, find-nil src h))
find-length src (Text.◌∷◌ c s) p h e = elim (Bool-cases (start_with (Text.◌∷◌ c s) src)) [
  | inl x ↦ ground (arith, find-here src c s p x e)
  | inr x ↦ let (q, n, m) = find-behind src c s p x e in ground (arith, find-length src s q h n)
]

find-length_drop :
    (src s : String) (p : ℕ)
    → 0 < text_length src
    → find src s ≡ some p
    → text_length (drop (p + text_length src) s) < text_length s
find-length_drop src s p h e =
    ground (arith, find-length src s p h e, length-drop (p + text_length src) s)

-- Where the text to search for is not empty and the fuel exceeds the length of the text, the loop of
-- stringReplace ends, and its result is that of the single pass.
pub string_replace_lem :
    (fuel : ℕ) (src dst str : String)
    → 0 < text_length src
    → text_length str < fuel
    → string_replace fuel src dst str ≡ some (scan src dst zero str)
unfolding string_replace append_to
string_replace_lem zero src dst str h f = absurd (omega arith)
string_replace_lem (suc fuel) src dst str h f = elim (Option-cases (find src str)) [
  | inl n ↦ rw (string_replace, n) (ap some (sym (nothing_found src dst str n)))
  | inr (p, n) ↦
      let rest =
        string_replace_lem fuel src dst (drop (p + text_length src) str) h
          (ground (arith, find-length_drop src str p h n)) in
      rw (string_replace, n, rest) (ap some (sym (scan-find src dst str p h n)))
]

-- The pieces of a text between the occurrences of `flag`, after `skipped` characters.
abbrev pub prefix_first : Char → List String → List String
prefix_first c [] = []
prefix_first c (piece ∷ rest) = Text.◌∷◌ c piece ∷ rest

abbrev pub pieces : String → ℕ → String → List String
pieces flag skipped Text.[] = Text.[] ∷ []
pieces flag (suc skipped) (Text.◌∷◌ c s) = pieces flag skipped s
pieces flag zero (Text.◌∷◌ c s) =
    let taken = pieces flag (text_length flag - 1) s in
    let copied = pieces flag zero s in
    if start_with (Text.◌∷◌ c s) flag then Text.[] ∷ taken else prefix_first c copied

-- The pieces without the blanks around them, and without those that are empty then.
abbrev pub trimmed_pieces : List String → List String
trimmed_pieces [] = []
trimmed_pieces (piece ∷ rest) = push_piece piece (trimmed_pieces rest)

pieces-drop : (flag : String) (k : ℕ) (s : String) → pieces flag k s ≡ pieces flag zero (drop k s)
unfolding drop
pieces-drop flag zero s = refl
pieces-drop flag (suc k) Text.[] = refl
pieces-drop flag (suc k) (Text.◌∷◌ c s) = pieces-drop flag k s

one_piece : (flag s : String) → find flag s ≡ none → pieces flag zero s ≡ s ∷ []
one_piece flag Text.[] e = refl
one_piece flag (Text.◌∷◌ c s) e =
    let nowhere = find-nowhere flag c s e in rw (nowhere.0, one_piece flag s nowhere.1) refl

pieces-find :
    (flag s : String) (p : ℕ)
    → 0 < text_length flag
    → find flag s ≡ some p
    → pieces flag zero s ≡ take p s ∷ pieces flag zero (drop (p + text_length flag) s)
unfolding take
pieces-find flag Text.[] p h e = absurd (ground (arith, find-nil flag h))
pieces-find flag (Text.◌∷◌ c s) p h e = elim (Bool-cases (start_with (Text.◌∷◌ c s) flag)) [
  | inl x ↦
      let z = find-here flag c s p x e in
      rw (x, drop-here flag c s p h z, z)
        (ap (λ t. Text.[] ∷ t) (pieces-drop flag (text_length flag - 1) s))
  | inr x ↦
      let (q, n, m) = find-behind flag c s p x e in
      rw (x, drop-after flag c s p q m, m, pieces-find flag s q h n) refl
]

push_last :
    (source : String)
    → (if text_length source == 0 then [] else push_piece source []) ≡ push_piece source []
unfolding push_piece text_length std_string_trim space_count kept_length drop take
push_last Text.[] = refl
push_last (Text.◌∷◌ c s) = ground arith

-- Where the text to split at is not empty and the fuel exceeds the length of the text, the loop of
-- splitString ends, and gives the pieces between the occurrences, trimmed, without empty ones.
pub split_string_lem :
    (fuel : ℕ) (flag source : String)
    → 0 < text_length flag
    → text_length source < fuel
    → split_string fuel flag source ≡ some (trimmed_pieces (pieces flag zero source))
unfolding split_string push_before
split_string_lem zero flag source h f = absurd (omega arith)
split_string_lem (suc fuel) flag source h f = elim (Option-cases (find flag source)) [
  | inl n ↦ rw (split_string, n, one_piece flag source n) (ap some (push_last source))
  | inr (p, n) ↦
      let rest =
        split_string_lem fuel flag (drop (p + text_length flag) source) h
          (ground (arith, find-length_drop flag source p h n)) in
      rw (split_string, n, rest, pieces-find flag source p h n) refl
]
