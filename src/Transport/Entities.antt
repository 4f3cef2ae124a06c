-- ===== src/Transport/Entities.antt =====
-- What replaceXssRiskChars of src/daemon/rest/RestBase.cpp leaves of a text.
use Prim.Native.Char.{Char, code}
use Prim.Native.String.{String as Text}
use app_mesh.Prelude.{
  ℕ, Bool, false, ◌||◌, String, str_eq, if◌then◌else◌, ◌≡◌, inl, inr, refl, ap, ◌∙◌, sym, arith,
  Bool-cases, ◌==◌, eq_iff,
}
use app_mesh.Text.Search.{◌<>◌}
use app_mesh.Transport.Dispatch.{Replacement, replace_xss_risk_chars}

-- The text for each character, in one pass.
abbrev pub substitute : (Char → String) → String → String
substitute f Text.[] = Text.[]
substitute f (Text.◌∷◌ c s) = f c <> substitute f s

abbrev pub one : ℕ → String → Char → String
one n dst c = if code c == n then dst else Text.◌∷◌ c Text.[]

abbrev pub entity : Char → String
entity c =
    if code c == 34
    then "&quot;"
    else if code c == 37
    then "&#37;"
    else if code c == 39
    then "&#39;"
    else if code c == 60
    then "&lt;"
    else if code c == 62
    then "&gt;"
    else if code c == 40
    then "&#40;"
    else if code c == 41
    then "&#41;"
    else Text.◌∷◌ c Text.[]

-- The documented behaviour of Boost for the expressions of replaceXssRiskChars, each of which matches
-- one character.
pub record IsReplacement (replace_all : Replacement) : Type 0 where
  pub quote : (dst s : String) → replace_all "\"" dst s ≡ substitute (one 34 dst) s
  pub percent : (dst s : String) → replace_all "%" dst s ≡ substitute (one 37 dst) s
  pub apostrophe : (dst s : String) → replace_all "'" dst s ≡ substitute (one 39 dst) s
  pub less : (dst s : String) → replace_all "<" dst s ≡ substitute (one 60 dst) s
  pub greater : (dst s : String) → replace_all ">" dst s ≡ substitute (one 62 dst) s
  pub opening : (dst s : String) → replace_all "\\(" dst s ≡ substitute (one 40 dst) s
  pub closing : (dst s : String) → replace_all "\\)" dst s ≡ substitute (one 41 dst) s

append_assoc : (s t u : String) → (s <> t) <> u ≡ s <> (t <> u)
unfolding ◌<>◌
append_assoc Text.[] t u = refl
append_assoc (Text.◌∷◌ c s) t u = ap (Text.◌∷◌ c) (append_assoc s t u)

substitute-append :
    (f : Char → String) (s t : String) → substitute f (s <> t) ≡ substitute f s <> substitute f t
unfolding ◌<>◌
substitute-append f Text.[] t = refl
substitute-append f (Text.◌∷◌ c s) t =
    ap (λ u. f c <> u) (substitute-append f s t)
    ∙ sym (append_assoc (f c) (substitute f s) (substitute f t))

-- One replacement after the other.
substitute-substitute :
    (f g : Char → String) (s : String)
    → substitute f (substitute g s) ≡ substitute (λ c. substitute f (g c)) s
substitute-substitute f g Text.[] = refl
substitute-substitute f g (Text.◌∷◌ c s) =
    substitute-append f (g c) (substitute g s)
    ∙ ap (λ u. substitute f (g c) <> u) (substitute-substitute f g s)

substitute-pointwise :
    (f g : Char → String) (s : String) → ((c : Char) → f c ≡ g c) → substitute f s ≡ substitute g s
substitute-pointwise f g Text.[] h = refl
substitute-pointwise f g (Text.◌∷◌ c s) h =
    ap (λ x. x <> substitute f s) (h c) ∙ ap (λ u. g c <> u) (substitute-pointwise f g s h)

-- The replacements of one character, in their order.
abbrev seven : Char → String
seven c = substitute (one 41 "&#41;") (
    substitute (one 40 "&#40;") (
      substitute (one 62 "&gt;") (
        substitute (one 60 "&lt;")
          (substitute (one 39 "&#39;") (substitute (one 37 "&#37;") (one 34 "&quot;" c))))))

seven-entity : (c : Char) → seven c ≡ entity c
unfolding ◌<>◌
seven-entity c = elim (Bool-cases (code c == 34)) [
  | inl e0 ↦ rw (e0) refl
  | inr e0 ↦ elim (Bool-cases (code c == 37)) [
    | inl e1 ↦ rw (e0, e1) refl
    | inr e1 ↦ elim (Bool-cases (code c == 39)) [
      | inl e2 ↦ rw (e0, e1, e2) refl
      | inr e2 ↦ elim (Bool-cases (code c == 60)) [
        | inl e3 ↦ rw (e0, e1, e2, e3) refl
        | inr e3 ↦ elim (Bool-cases (code c == 62)) [
          | inl e4 ↦ rw (e0, e1, e2, e3, e4) refl
          | inr e4 ↦ elim (Bool-cases (code c == 40)) [
            | inl e5 ↦ rw (e0, e1, e2, e3, e4, e5) refl
            | inr e5 ↦ elim (Bool-cases (code c == 41)) [
              | inl e6 ↦ rw (e0, e1, e2, e3, e4, e5, e6) refl
              | inr e6 ↦ rw (e0, e1, e2, e3, e4, e5, e6) refl
            ]
          ]
        ]
      ]
    ]
  ]
]

after :
    (f g : Char → String) (s t u : String)
    → u ≡ substitute f t
    → t ≡ substitute g s
    → u ≡ substitute (λ c. substitute f (g c)) s
after f g s t u h e = h ∙ ap (substitute f) e ∙ substitute-substitute f g s

-- replaceXssRiskChars writes the text for each character in one pass: none that it writes is
-- replaced again.
pub replace_xss_risk_chars_lem :
    (replace_all : Replacement) (s : String)
    → IsReplacement replace_all
    → replace_xss_risk_chars replace_all s ≡ substitute entity s
unfolding replace_xss_risk_chars
replace_xss_risk_chars_lem replace_all s law = elim (Bool-cases (str_eq s "")) [
  | inl e ↦
      let same : s ≡ "" = (eq_iff s "").0 e in rw (e) (same ∙ ap (substitute entity) (sym same))
  | inr e ↦ rw (e) (
      after _ _ s _ _ (law.closing "&#41;" _) (
        after _ _ s _ _ (law.opening "&#40;" _) (
          after _ _ s _ _ (law.greater "&gt;" _) (
            after _ _ s _ _ (law.less "&lt;" _) (
              after _ _ s _ _ (law.apostrophe "&#39;" _)
                (after _ _ s _ _ (law.percent "&#37;" _) (law.quote "&quot;" s))))))
      ∙ substitute-pointwise seven entity s seven-entity)
]

-- A character that is no risk, and a text of such characters.
abbrev pub is_risk : Char → Bool
is_risk c =
    code c == 34
    || code c == 37
    || code c == 39
    || code c == 60
    || code c == 62
    || code c == 40
    || code c == 41

abbrev pub RiskFree : String → Type 0
RiskFree Text.[] = Unit
RiskFree (Text.◌∷◌ c s) = (is_risk c ≡ false) × RiskFree s

RiskFree-append : (s t : String) → RiskFree s → RiskFree t → RiskFree (s <> t)
unfolding ◌<>◌
RiskFree-append Text.[] t h k = k
RiskFree-append (Text.◌∷◌ c s) t h k = (h.0, RiskFree-append s t h.1 k)

RiskFree-entity : (c : Char) → RiskFree (entity c)
RiskFree-entity c = elim (Bool-cases (code c == 34)) [
  | inl e0 ↦ rw (e0) (ground arith)
  | inr e0 ↦ elim (Bool-cases (code c == 37)) [
    | inl e1 ↦ rw (e0, e1) (ground arith)
    | inr e1 ↦ elim (Bool-cases (code c == 39)) [
      | inl e2 ↦ rw (e0, e1, e2) (ground arith)
      | inr e2 ↦ elim (Bool-cases (code c == 60)) [
        | inl e3 ↦ rw (e0, e1, e2, e3) (ground arith)
        | inr e3 ↦ elim (Bool-cases (code c == 62)) [
          | inl e4 ↦ rw (e0, e1, e2, e3, e4) (ground arith)
          | inr e4 ↦ elim (Bool-cases (code c == 40)) [
            | inl e5 ↦ rw (e0, e1, e2, e3, e4, e5) (ground arith)
            | inr e5 ↦ elim (Bool-cases (code c == 41)) [
              | inl e6 ↦ rw (e0, e1, e2, e3, e4, e5, e6) (ground arith)
              | inr e6 ↦ rw (e0, e1, e2, e3, e4, e5, e6) (ground arith)
            ]
          ]
        ]
      ]
    ]
  ]
]

pub RiskFree-substitute : (s : String) → RiskFree (substitute entity s)
RiskFree-substitute Text.[] = tt
RiskFree-substitute (Text.◌∷◌ c s) =
    RiskFree-append (entity c) (substitute entity s) (RiskFree-entity c) (RiskFree-substitute s)
