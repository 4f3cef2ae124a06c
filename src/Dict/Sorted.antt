-- ===== src/Dict/Sorted.antt =====
-- The keys of a map stand in ascending order: what `std::map` keeps, so that no key stands twice.
use app_mesh.Prelude.{
  true, false, List, [], ◌∷◌, String, str_eq, str_lt, ◌≡◌, refl, arith, inl, inr, All, Bool-cases,
  str_lt_trans, str_lt_irrefl, str_lt_total, subst, eq_iff,
}
use app_mesh.Dict.{Dict, put, keys, member, Distinct}

abbrev pub Ascending : List String → Type 0
Ascending [] = Unit
Ascending (k ∷ s) = All (λ j. str_lt k j ≡ true) s × Ascending s

Ascending-after :
    (k j : String) (s : List String)
    → str_lt k j ≡ true
    → All (λ i. str_lt j i ≡ true) s
    → All (λ i. str_lt k i ≡ true) s
Ascending-after k j [] h a = tt
Ascending-after k j (i ∷ s) h a = (str_lt_trans k j i h a.0, Ascending-after k j s h a.1)

before : (j k : String) → str_eq j k ≡ false → str_lt k j ≡ false → str_lt j k ≡ true
before j k e l = elim (str_lt_total j k) [
  | inl h ↦ h
  | inr (inl h) ↦ absurd (ground (arith, eq_iff j k))
  | inr (inr h) ↦ absurd (ground arith)
]

module _ {V : Type 0} where
  put-All :
      (j k : String) (v : V) (m : Dict V)
      → str_lt j k ≡ true
      → All (λ i. str_lt j i ≡ true) (keys m)
      → All (λ i. str_lt j i ≡ true) (keys (put k v m))
  unfolding put
  put-All j k v [] h a = (h, tt)
  put-All j k v ((i, w) ∷ m) h a = elim (Bool-cases (str_eq i k)) [
    | inl e ↦ rw (e) (h, a.1)
    | inr e ↦ elim (Bool-cases (str_lt k i)) [
      | inl l ↦ rw (e, l) (h, a)
      | inr l ↦ rw (e, l) (a.0, put-All j k v m h a.1)
    ]
  ]

  pub Ascending-put :
      (k : String) (v : V) (m : Dict V) → Ascending (keys m) → Ascending (keys (put k v m))
  unfolding put
  Ascending-put k v [] a = (tt, tt)
  Ascending-put k v ((i, w) ∷ m) a = elim (Bool-cases (str_eq i k)) [
    | inl e ↦ rw (e) (subst (λ x. Ascending (x ∷ keys m)) ((eq_iff i k).0 e) a)
    | inr e ↦ elim (Bool-cases (str_lt k i)) [
      | inl l ↦ rw (e, l) ((l, Ascending-after k i (keys m) l a.0), a)
      | inr l ↦ rw (e, l) (put-All i k v m (before i k e l) a.0, Ascending-put k v m a.1)
    ]
  ]

Distinct-after :
    (k : String) (s : List String) → All (λ j. str_lt k j ≡ true) s → member k s ≡ false
unfolding member
Distinct-after k [] a = refl
Distinct-after k (j ∷ s) a =
    ground (arith, a.0, Distinct-after k s a.1, eq_iff j k, str_lt_irrefl k)

pub Ascending-Distinct : (s : List String) → Ascending s → Distinct s
Ascending-Distinct [] a = tt
Ascending-Distinct (k ∷ s) a = (Distinct-after k s a.0, Ascending-Distinct s a.1)
