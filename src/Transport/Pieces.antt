-- ===== src/Transport/Pieces.antt =====
-- The pieces that parseHeaders of src/daemon/rest/HttpRequest.cpp splits the headers into, before they
-- are trimmed.
use Prim.Native.Char.{Char, code}
use Prim.Native.String.{String as Text}
use app_mesh.Prelude.{
  ℕ, zero, suc, ◌<◌, true, false, List, [], ◌∷◌, String, ◌≡◌, refl, arith, ap, ◌∙◌, sym, inl, inr,
  Bool-cases, ◌==◌, eq_iff,
}
use app_mesh.Text.{start_with, take, text_length}
use app_mesh.Text.Trim.{IsTrimmed}
use app_mesh.Text.Search.{◌<>◌}
use app_mesh.Text.Replace.{pieces, prefix_first, trimmed_pieces, split_string_lem}
use app_mesh.Transport.{split}

-- No "|" in a text.
abbrev pub BarFree : String → Type 0
BarFree Text.[] = Unit
BarFree (Text.◌∷◌ c s) = ((code c == 124) ≡ false) × BarFree s

-- A name or a value that is not empty, with no blanks around it and no "|".
abbrev pub IsClean : String → Type 0
IsClean s = IsTrimmed s × BarFree s

pub split-pieces :
    (flag source : String)
    → 0 < text_length flag
    → split flag source ≡ trimmed_pieces (pieces flag zero source)
unfolding split
split-pieces flag source h =
    rw (split, split_string_lem (suc (text_length source)) flag source h (omega arith)) refl

abbrev first_code : String → ℕ
first_code Text.[] = 0
first_code (Text.◌∷◌ c s) = code c

-- A separator that starts with "|" does not begin at another character.
start_with-code :
    (c : Char) (s flag : String)
    → 0 < text_length flag
    → start_with (Text.◌∷◌ c s) flag ≡ true
    → code c ≡ first_code flag
unfolding start_with take text_length
start_with-code c s Text.[] h e = absurd (omega arith)
start_with-code c s (Text.◌∷◌ d flag) h e =
    ap first_code
      ((eq_iff (Text.◌∷◌ c (take (text_length flag) s)) (Text.◌∷◌ d flag)).0 (ground arith))

BarFree-start_with :
    (c : Char) (s flag : String)
    → (code c == 124) ≡ false
    → 0 < text_length flag
    → first_code flag ≡ 124
    → start_with (Text.◌∷◌ c s) flag ≡ false
BarFree-start_with c s flag h l f = elim (Bool-cases (start_with (Text.◌∷◌ c s) flag)) [
  | inl e ↦ absurd (ground (arith, start_with-code c s flag l e))
  | inr e ↦ e
]

abbrev put_before : String → List String → List String
put_before Text.[] ps = ps
put_before (Text.◌∷◌ c s) ps = prefix_first c (put_before s ps)

pieces-BarFree :
    (s t flag : String)
    → BarFree s
    → 0 < text_length flag
    → first_code flag ≡ 124
    → pieces flag zero (s <> t) ≡ put_before s (pieces flag zero t)
unfolding ◌<>◌
pieces-BarFree Text.[] t flag b l f = refl
pieces-BarFree (Text.◌∷◌ c s) t flag b l f =
    rw (BarFree-start_with c (s <> t) flag b.0 l f)
      (ap (prefix_first c) (pieces-BarFree s t flag b.1 l f))

put_before-first : (s p : String) (ps : List String) → put_before s (p ∷ ps) ≡ (s <> p) ∷ ps
unfolding ◌<>◌
put_before-first Text.[] p ps = refl
put_before-first (Text.◌∷◌ c s) p ps = ap (prefix_first c) (put_before-first s p ps)

abbrev second_code : String → ℕ
second_code Text.[] = 0
second_code (Text.◌∷◌ c s) = first_code s

one_bar-start :
    (c : Char) (s : String)
    → (code c == 124) ≡ false
    → start_with (Text.◌∷◌ "|" (Text.◌∷◌ c s)) "||" ≡ false
unfolding start_with take text_length
one_bar-start c s h = elim (Bool-cases (start_with (Text.◌∷◌ "|" (Text.◌∷◌ c s)) "||")) [
  | inl e ↦
      let same : code c ≡ 124 =
        ap second_code ((eq_iff (Text.◌∷◌ "|" (Text.◌∷◌ c Text.[])) "||").0 (ground arith)) in
      absurd (ground arith)
  | inr e ↦ e
]

-- One bar before another character is no separator of headers.
one_bar :
    (s t : String)
    → 0 < text_length s
    → BarFree s
    → pieces "||" zero ("|" <> (s <> t)) ≡ prefix_first "|" (pieces "||" zero (s <> t))
unfolding ◌<>◌ text_length
one_bar Text.[] t h b = absurd (omega arith)
one_bar (Text.◌∷◌ c s) t h b = rw (one_bar-start c (s <> t) b.0) refl

two_bars : (t : String) → pieces "||" zero ("||" <> t) ≡ "" ∷ pieces "||" zero t
unfolding ◌<>◌ start_with take text_length
two_bars t = ground arith

bar : (t : String) → pieces "|" zero ("|" <> t) ≡ "" ∷ pieces "|" zero t
unfolding ◌<>◌ start_with take text_length
bar t = ground arith

pub append-empty : (s : String) → s <> "" ≡ s
unfolding ◌<>◌
append-empty Text.[] = refl
append-empty (Text.◌∷◌ c s) = ap (Text.◌∷◌ c) (append-empty s)

-- The pieces of the headers, and of one header.
pub header_pieces :
    (name value rest : String)
    → IsClean name
    → IsClean value
    → pieces "||" zero (name <> ("|" <> (value <> ("||" <> rest))))
      ≡ (name <> ("|" <> value)) ∷ pieces "||" zero rest
unfolding text_length ◌<>◌
header_pieces name value rest n v =
    pieces-BarFree name ("|" <> (value <> ("||" <> rest))) "||" n.1 (omega arith) refl
    ∙ ap (put_before name) (
        one_bar value ("||" <> rest) v.0.0 v.1
        ∙ ap (prefix_first "|") (
            pieces-BarFree value ("||" <> rest) "||" v.1 (omega arith) refl
            ∙ ap (put_before value) (two_bars rest)
            ∙ put_before-first value "" (pieces "||" zero rest)
            ∙ ap (λ p. p ∷ pieces "||" zero rest) (append-empty value)))
    ∙ put_before-first name ("|" <> value) (pieces "||" zero rest)

pub parts :
    (name value : String)
    → IsClean name
    → IsClean value
    → pieces "|" zero (name <> ("|" <> value)) ≡ name ∷ value ∷ []
unfolding text_length
parts name value n v =
    pieces-BarFree name ("|" <> value) "|" n.1 (omega arith) refl
    ∙ ap (put_before name) (
        bar value
        ∙ ap (λ ps. "" ∷ ps)
            (ap (pieces "|" zero) (sym (append-empty value))
              ∙ pieces-BarFree value "" "|" v.1 (omega arith) refl
              ∙ put_before-first value "" []
              ∙ ap (λ p. p ∷ []) (append-empty value)))
    ∙ put_before-first name "" (value ∷ [])
    ∙ ap (λ p. p ∷ value ∷ []) (append-empty name)
