-- ===== src/Dict/Laws.antt =====
-- The laws of maps and sets, in the form that rewrites a lookup after an update.
use app_mesh.Prelude.{
  suc, length, ap, inl, inr, Bool-cases, true, false, none, some, List, [], ◌∷◌, String, str_eq,
  if◌then◌else◌, ◌≡◌, refl, arith, eq_iff,
}
use app_mesh.Dict.{Dict, get, has, put, erase, keys, member, Distinct, add, remove}

module _ {ℓ} {V : Type ℓ} where
  pub get-put :
      (k j : String) (v : V) (m : Dict V)
      → get j (put k v m) ≡ (if str_eq k j then some v else get j m)
  unfolding get put
  get-put k j v [] = refl
  get-put k j v ((i, w) ∷ m) = ground (arith, eq_iff k j, eq_iff i k, eq_iff i j, get-put k j v m)

  pub get-erase :
      (k j : String) (m : Dict V) → get j (erase k m) ≡ (if str_eq k j then none else get j m)
  unfolding get erase
  get-erase k j [] = ground arith
  get-erase k j ((i, w) ∷ m) = ground (arith, eq_iff k j, eq_iff i k, eq_iff i j, get-erase k j m)

  pub has-put :
      (k j : String) (v : V) (m : Dict V)
      → has j (put k v m) ≡ (if str_eq k j then true else has j m)
  unfolding has put
  has-put k j v [] = refl
  has-put k j v ((i, w) ∷ m) = ground (arith, eq_iff k j, eq_iff i k, eq_iff i j, has-put k j v m)

  pub has-get : (k : String) (m : Dict V) (v : V) → get k m ≡ some v → has k m ≡ true
  unfolding has get
  has-get k [] v e = ground arith
  has-get k ((j, w) ∷ m) v e = ground (arith, has-get k m v)

  pub get-none : (k : String) (m : Dict V) → has k m ≡ false → get k m ≡ none
  unfolding has get
  get-none k [] e = refl
  get-none k ((j, w) ∷ m) e = ground (arith, get-none k m)

  pub has-none : (k : String) (m : Dict V) → get k m ≡ none → has k m ≡ false
  unfolding has get
  has-none k [] e = refl
  has-none k ((j, w) ∷ m) e = ground (arith, has-none k m)

  pub member-keys : (k : String) (m : Dict V) → member k (keys m) ≡ has k m
  unfolding has member
  member-keys k [] = refl
  member-keys k ((j, w) ∷ m) = ground (arith, member-keys k m)

  -- A later entry of a map is found by its own key.
  pub get-tail :
      (k : String) (v : V) (j : String) (m : Dict V) {w : V}
      → Distinct (k ∷ keys m)
      → get j m ≡ some w
      → get j ((k, v) ∷ m) ≡ some w
  unfolding get
  get-tail k v j m {w} d e = ground (arith, eq_iff k j, has-get j m w, member-keys k m)

module _ {ℓ} {V : Type ℓ} where
  pub has-erase :
      (k j : String) (m : Dict V) → has j (erase k m) ≡ (if str_eq k j then false else has j m)
  unfolding has erase
  has-erase k j [] = ground arith
  has-erase k j ((i, w) ∷ m) = ground (arith, eq_iff k j, eq_iff i k, eq_iff i j, has-erase k j m)

  pub Distinct-erase : (k : String) (m : Dict V) → Distinct (keys m) → Distinct (keys (erase k m))
  unfolding erase
  Distinct-erase k [] d = tt
  Distinct-erase k ((i, w) ∷ m) d = elim (Bool-cases (str_eq i k)) [
    | inl same ↦ rw (same, erase) (Distinct-erase k m d.1)
    | inr other ↦
        rw (other, erase)
          (
            ground (arith, member-keys i m, member-keys i (erase k m), has-erase k i m),
            Distinct-erase k m d.1,
          )
  ]

  erase-absent : (k : String) (m : Dict V) → has k m ≡ false → erase k m ≡ m
  unfolding erase has
  erase-absent k [] h = refl
  erase-absent k ((i, w) ∷ m) h = ground (arith, erase-absent k m)

  pub length-erase :
      (k : String) (m : Dict V)
      → Distinct (keys m)
      → has k m ≡ true
      → suc (length (erase k m)) ≡ length m
  unfolding erase has
  length-erase k [] d h = ground arith
  length-erase k ((i, w) ∷ m) d h = ground (
    arith,
    eq_iff i k,
    member-keys i m,
    length-erase k m d.1,
    λ (out : has k m ≡ false). ap length (erase-absent k m out),
  )

-- A map that lies within another of the same size has all of its keys.
pub has_of_within {ℓ κ} :
    {V : Type ℓ} {W : Type κ} (m : Dict V) (other : Dict W) (k : String)
    → Distinct (keys m)
    → Distinct (keys other)
    → length m ≡ length other
    → ((j : String) → has j m ≡ true → has j other ≡ true)
    → has k other ≡ true
    → has k m ≡ true
unfolding has
has_of_within [] [] k d d' e within h = ground arith
has_of_within [] (x ∷ other) k d d' e within h = absurd (omega arith)
has_of_within ((j, v) ∷ m) other k d d' e within h = elim (Bool-cases (str_eq j k)) [
  | inl same ↦ ground arith
  | inr differ ↦
      rw (differ, has)
        (has_of_within m (erase j other) k d.1 (Distinct-erase j other d')
          (omega (arith, length-erase j other d' (within j (ground (arith, eq_iff j j)))))
          (λ i p. ground (arith, has-erase j i other, within i, eq_iff j i, member-keys j m))
          (ground (arith, has-erase j k other)))
]

pub member-add :
    (k j : String) (s : List String)
    → member j (add k s) ≡ (if str_eq k j then true else member j s)
unfolding member add
member-add k j [] = refl
member-add k j (i ∷ s) = ground (arith, eq_iff k j, eq_iff i k, eq_iff i j, member-add k j s)

pub member-remove :
    (k j : String) (s : List String)
    → member j (remove k s) ≡ (if str_eq k j then false else member j s)
unfolding member remove
member-remove k j [] = ground arith
member-remove k j (i ∷ s) = ground (arith, eq_iff k j, eq_iff i k, eq_iff i j, member-remove k j s)
