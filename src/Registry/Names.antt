-- ===== src/Registry/Names.antt =====
-- The names of the applications of src/daemon/Configuration.cpp: what adding and removing one changes.
use app_mesh.Prelude.{
  inl, inr, ℕ, true, false, none, some, List, [], ◌∷◌, String, str_eq, if◌then◌else◌, ◌≡◌, ◌∙◌,
  refl, arith, ap, sym, eq_iff, Bool-cases, Option-cases,
}
use app_mesh.Dict.{Distinct, member}
use app_mesh.Prelude.Int.{ℤ}
use app_mesh.Application.State.{Processes, Timers, Application}
use app_mesh.Application.Actions.{execute}
use app_mesh.Registry.{
  Entry, Registry, find_app, is_app_exist, add_app_to_map, replace_app, without, add_app,
}

module _ {P : Type 0} where
  abbrev pub names : List (Entry P) → List String
  names [] = []
  names (e ∷ apps) = e.name ∷ names apps

  is_app_exist-find_app :
      (name : String) (apps : List (Entry P))
      → is_app_exist name apps ≡ false
      → find_app name apps ≡ none
  unfolding is_app_exist find_app
  is_app_exist-find_app name [] h = refl
  is_app_exist-find_app name (e ∷ apps) h = ground (arith, is_app_exist-find_app name apps)

  replace_app-absent :
      (e : Entry P) (apps : List (Entry P))
      → is_app_exist e.name apps ≡ false
      → replace_app e apps ≡ apps
  unfolding is_app_exist replace_app
  replace_app-absent e [] h = refl
  replace_app-absent e (other ∷ apps) h = ground (arith, replace_app-absent e apps)

  find_app-replace_app :
      (e : Entry P) (j : String) (apps : List (Entry P))
      → is_app_exist e.name apps ≡ true
      → find_app j (replace_app e apps) ≡ (if str_eq e.name j then some e else find_app j apps)
  unfolding is_app_exist find_app replace_app
  find_app-replace_app e j [] h = absurd (ground arith)
  find_app-replace_app e j (other ∷ apps) h = elim (Bool-cases (is_app_exist e.name apps)) [
    | inl x ↦ ground (
      arith,
      find_app-replace_app e j apps x,
      eq_iff e.name j,
      eq_iff other.name e.name,
      eq_iff other.name j,
    )
    | inr x ↦ ground (
      arith,
      replace_app-absent e apps x,
      eq_iff e.name j,
      eq_iff other.name e.name,
      eq_iff other.name j,
    )
  ]

  find_app-add_app_to_map :
      (e : Entry P) (j : String) (apps : List (Entry P))
      → is_app_exist e.name apps ≡ false
      → find_app j (add_app_to_map e apps) ≡ (if str_eq e.name j then some e else find_app j apps)
  unfolding is_app_exist find_app add_app_to_map
  find_app-add_app_to_map e j [] h = refl
  find_app-add_app_to_map e j (other ∷ apps) h = ground (
    arith,
    find_app-add_app_to_map e j apps,
    eq_iff e.name j,
    eq_iff other.name e.name,
    eq_iff other.name j,
  )

  pub find_app-without :
      (name j : String) (apps : List (Entry P))
      → find_app j (without name apps) ≡ (if str_eq name j then none else find_app j apps)
  unfolding find_app without
  find_app-without name j [] = ground arith
  find_app-without name j (e ∷ apps) =
      ground
        (arith, find_app-without name j apps, eq_iff name j, eq_iff e.name name, eq_iff e.name j)

  pub member-names :
      (name : String) (apps : List (Entry P)) → member name (names apps) ≡ is_app_exist name apps
  unfolding member is_app_exist
  member-names name [] = refl
  member-names name (e ∷ apps) = ground (arith, member-names name apps)

  pub absent-find_app :
      (name : String) (apps : List (Entry P))
      → member name (names apps) ≡ false
      → find_app name apps ≡ none
  absent-find_app name apps h = is_app_exist-find_app name apps (sym (member-names name apps) ∙ h)

  names-replace_app :
      (e : Entry P) (apps : List (Entry P)) → names (replace_app e apps) ≡ names apps
  unfolding replace_app
  names-replace_app e [] = refl
  names-replace_app e (other ∷ apps) = elim (Bool-cases (str_eq other.name e.name)) [
    | inl s ↦ rw (s) (ground (arith, eq_iff other.name e.name, names-replace_app e apps))
    | inr s ↦ rw (s) (ground (arith, names-replace_app e apps))
  ]

  exists-add_app_to_map :
      (e : Entry P) (j : String) (apps : List (Entry P))
      → is_app_exist j (add_app_to_map e apps)
        ≡ (if str_eq e.name j then true else is_app_exist j apps)
  unfolding is_app_exist add_app_to_map
  exists-add_app_to_map e j [] = refl
  exists-add_app_to_map e j (other ∷ apps) = ground (
    arith,
    exists-add_app_to_map e j apps,
    eq_iff e.name j,
    eq_iff other.name e.name,
    eq_iff other.name j,
  )

  Distinct-add_app_to_map :
      (e : Entry P) (apps : List (Entry P))
      → Distinct (names apps)
      → Distinct (names (add_app_to_map e apps))
  unfolding add_app_to_map member
  Distinct-add_app_to_map e [] d = (refl, tt)
  Distinct-add_app_to_map e (other ∷ apps) d = elim (Bool-cases (str_eq other.name e.name)) [
    | inl s ↦ rw (s) d
    | inr s ↦ rw (s) (
      ground (
        arith,
        member-names other.name (add_app_to_map e apps),
        exists-add_app_to_map e other.name apps,
        member-names other.name apps,
        d.0,
        eq_iff e.name other.name,
        eq_iff other.name e.name,
      ),
      Distinct-add_app_to_map e apps d.1,
    )
  ]

  exists-without :
      (name j : String) (apps : List (Entry P))
      → is_app_exist j (without name apps) ≡ (if str_eq name j then false else is_app_exist j apps)
  unfolding is_app_exist without
  exists-without name j [] = ground arith
  exists-without name j (e ∷ apps) =
      ground (arith, exists-without name j apps, eq_iff name j, eq_iff e.name name, eq_iff e.name j)

  pub Distinct-without :
      (name : String) (apps : List (Entry P))
      → Distinct (names apps)
      → Distinct (names (without name apps))
  unfolding without
  Distinct-without name [] d = tt
  Distinct-without name (e ∷ apps) d = elim (Bool-cases (str_eq e.name name)) [
    | inl s ↦ rw (s) (Distinct-without name apps d.1)
    | inr s ↦ rw (s) (
      ground (
        arith,
        member-names e.name (without name apps),
        exists-without name e.name apps,
        member-names e.name apps,
        d.0,
      ),
      Distinct-without name apps d.1,
    )
  ]

module _ {P : Type 0} (os : Processes P) (schedule_timer : Timers → ℤ) where
  -- After an application is added, its name finds it as it is after its first execution, every other
  -- name finds what it found before, and no name stands twice if none did.
  pub add_app_lem :
      (now later : ℕ) (e : Entry P) (j : String) (r : Registry P) {r' : Registry P}
      → Distinct (names r.apps)
      → add_app os schedule_timer now later e r ≡ some r'
      → (executed : Application P) × (execute os schedule_timer now later e.app ≡ some executed)
        × (find_app j r'.apps
            ≡ (if str_eq e.name j then some (record e { app = executed }) else find_app j r.apps))
        × Distinct (names r'.apps)
  unfolding add_app
  add_app_lem now later e j r {r'} d a =
      elim (Option-cases (execute os schedule_timer now later e.app)) [
        | inl n ↦ absurd (ground arith)
        | inr (executed, n) ↦
            let e' : Entry P = record e { app = executed } in
            elim (Bool-cases (is_app_exist e.name r.apps)) [
              | inl x ↦
                  let apps : r'.apps ≡ replace_app e' r.apps = ground arith in
                  (
                    executed,
                    n,
                    ap (find_app j) apps ∙ find_app-replace_app e' j r.apps x,
                    rw (apps, names-replace_app e' r.apps) d,
                  )
              | inr x ↦
                  let apps : r'.apps ≡ add_app_to_map e' r.apps = ground arith in
                  (
                    executed,
                    n,
                    ap (find_app j) apps ∙ find_app-add_app_to_map e' j r.apps x,
                    rw (apps) (Distinct-add_app_to_map e' r.apps d),
                  )
            ]
      ]
