-- ===== src/Dict.antt =====
-- `std::map` with text keys, as the list of its entries in the order of iteration, and `std::set`
-- of texts as the list of its members. Insertion keeps the lists in ascending order.
pub mod Laws
pub mod Sorted
use app_mesh.Prelude.{
  ℕ, Bool, true, false, Option, none, some, List, [], ◌∷◌, String, str_eq, str_lt, if◌then◌else◌,
  ◌≡◌,
}

abbrev pub Dict {ℓ} : Type ℓ → Type ℓ
Dict V = List (String × V)

module _ {ℓ} {V : Type ℓ} where
  -- m.find(k)
  unfoldable pub get : String → Dict V → Option V
  get k [] = none
  get k ((j, v) ∷ m) = if str_eq j k then some v else get k m

  -- m.count(k)
  unfoldable pub has : String → Dict V → Bool
  has k [] = false
  has k ((j, v) ∷ m) = if str_eq j k then true else has k m

  -- m[k] = v
  unfoldable pub put : String → V → Dict V → Dict V
  put k v [] = (k, v) ∷ []
  put k v ((j, w) ∷ m) =
      let rest = put k v m in
      if str_eq j k then (k, v) ∷ m else if str_lt k j then (k, v) ∷ (j, w) ∷ m else (j, w) ∷ rest

  -- m.erase(k)
  unfoldable pub erase : String → Dict V → Dict V
  erase k [] = []
  erase k ((j, v) ∷ m) = let rest = erase k m in if str_eq j k then rest else (j, v) ∷ rest

  abbrev pub keys : Dict V → List String
  keys [] = []
  keys ((k, v) ∷ m) = k ∷ keys m

-- s.count(k)
unfoldable pub member : String → List String → Bool
member k [] = false
member k (j ∷ s) = if str_eq j k then true else member k s

-- s.insert(k)
unfoldable pub add : String → List String → List String
add k [] = k ∷ []
add k (j ∷ s) =
    let rest = add k s in if str_eq j k then j ∷ s else if str_lt k j then k ∷ j ∷ s else j ∷ rest

-- s.erase(k)
unfoldable pub remove : String → List String → List String
remove k [] = []
remove k (j ∷ s) = let rest = remove k s in if str_eq j k then rest else j ∷ rest

-- No text stands in the list twice: true of the keys of a map and of the members of a set.
abbrev pub Distinct : List String → Type 0
Distinct [] = Unit
Distinct (k ∷ s) = (member k s ≡ false) × Distinct s
