-- ===== src/Cluster/Label.antt =====
-- src/daemon/Label.h and .cpp: the labels of a host, and the condition that a task puts on them. The
-- matcher of common/wildcards, `wildcards::make_matcher(pattern).matches(text)`, is a parameter.
-- An instance may be null where a condition is passed in.
use app_mesh.Prelude.{
  Option-cases, ◌≢◌, Bool, true, false, Option, none, some, [], ◌∷◌, String, str_eq, if◌then◌else◌,
  ◌≡◌, ◌⊎◌, ◌↔◌, inl, inr, refl, arith, eq_iff, ◌||◌, not, ◌==◌, length, Bool-cases,
}
use app_mesh.Dict.{Dict, get, has, put, erase, keys, Distinct}
use app_mesh.Dict.Laws.{get-tail}

abbrev pub Labels : Type 0
Labels = Dict String

unfoldable pub add_label : String → String → Labels → Labels
add_label name value labels = put name value labels

unfoldable pub del_label : String → Labels → Labels
del_label name labels = if has name labels then erase name labels else labels

module _ (wild : String → String → Bool) where
  -- The test inside the loop of `match`, for one entry of the condition.
  unfoldable pub label_fits : String → Labels → String → Bool
  label_fits key labels val = elim (get key labels) [
    | none ↦ false
    | some text ↦ str_eq text val || wild val text
  ]

  -- The loop of `match`.
  unfoldable pub match_all : Labels → Labels → Bool
  unfolding label_fits
  match_all labels [] = true
  match_all labels ((key, val) ∷ rest) =
      if not (label_fits key labels val) then false else match_all labels rest

  unfoldable pub match_label : Labels → Option Labels → Bool
  unfolding match_all
  match_label labels none = false
  match_label labels (some condition) = match_all labels condition

  unfoldable pub label_eq : Labels → Option Labels → Bool
  unfolding match_label
  label_eq labels none = false
  label_eq labels (some other) =
      if not (length labels == length other) then false else match_label labels (some other)

  -- A host meets one entry of a condition.
  abbrev pub Meets : Labels → String → String → Type 0
  Meets labels key val =
      (text : String) × (get key labels ≡ some text) × ((text ≡ val) ⊎ (wild val text ≡ true))

  label_fits-Meets :
      (key val : String) (labels : Labels) → label_fits key labels val ≡ true → Meets labels key val
  unfolding label_fits
  label_fits-Meets key val labels h = elim (Option-cases (get key labels)) [
    | inl e ↦ absurd (ground arith)
    | inr (text, e) ↦ (
      text,
      e,
      elim (Bool-cases (str_eq text val)) [
        | inl same ↦ inl ((eq_iff text val).0 same)
        | inr other ↦ inr (ground arith)
      ],
    )
  ]

  Meets-label_fits :
      (key val : String) (labels : Labels) → Meets labels key val → label_fits key labels val ≡ true
  unfolding label_fits
  Meets-label_fits key val labels (text, e, inl p) = ground (arith, eq_iff text val)
  Meets-label_fits key val labels (text, e, inr p) = ground (arith, eq_iff text val)

  match_all-fits :
      (labels condition : Labels) (key : String) {val : String}
      → match_all labels condition ≡ true
      → get key condition ≡ some val
      → label_fits key labels val ≡ true
  unfolding match_all get
  match_all-fits labels [] key m e = ground arith
  match_all-fits labels ((k, v) ∷ rest) key {val} m e =
      ground (arith, eq_iff k key, match_all-fits labels rest key {val = val})

  match_all_intro :
      (labels condition : Labels)
      → Distinct (keys condition)
      → ((key val : String) → get key condition ≡ some val → label_fits key labels val ≡ true)
      → match_all labels condition ≡ true
  unfolding match_all get
  match_all_intro labels [] d h = refl
  match_all_intro labels ((k, v) ∷ rest) d h = ground (
    arith,
    eq_iff k k,
    h k v,
    match_all_intro labels rest d.1 (λ key val e. h key val (get-tail k v key rest d e)),
  )

  -- A host matches a condition exactly when for each entry of the condition it has a label of that
  -- name, whose text is the entry's or is matched by the entry read as a wildcard pattern.
  pub match_label_iff :
      (labels condition : Labels)
      → Distinct (keys condition)
      → (match_label labels (some condition) ≡ true)
        ↔ ((key val : String) → get key condition ≡ some val → Meets labels key val)
  unfolding match_label
  match_label_iff labels condition d = (
    λ m key val e. label_fits-Meets key val labels (match_all-fits labels condition key m e),
    λ h.
        match_all_intro labels condition d
          (λ key val e. Meets-label_fits key val labels (h key val e)),
  )

  -- The comparison of labels is not symmetric: one text against a pattern that matches it is
  -- equal, and the pattern against that text is not, unless the text read as a pattern matches it.
  pub label_eq_asymmetric :
      (key text pattern : String)
      → wild pattern text ≡ true
      → wild text pattern ≡ false
      → text ≢ pattern
      → (label_eq ((key, text) ∷ []) (some ((key, pattern) ∷ [])) ≡ true)
        × (label_eq ((key, pattern) ∷ []) (some ((key, text) ∷ [])) ≡ false)
  unfolding label_eq label_fits get
  label_eq_asymmetric key text pattern w v n =
      ground (arith, eq_iff key key, eq_iff text pattern, eq_iff pattern text)
