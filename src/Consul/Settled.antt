-- ===== src/Consul/Settled.antt =====
-- What a synchronisation of src/daemon/consul/ConsulConnection.cpp leaves for each name of an application.
use app_mesh.Prelude.{
  ℕ, Bool, Option, some, List, [], ◌∷◌, String, str_eq, eq_iff, if◌then◌else◌, ◌≡◌, refl, arith,
  inl, inr, Bool-cases, Option-cases,
}
use app_mesh.Prelude.Int.{ℤ}
use app_mesh.Dict.{Distinct}
use app_mesh.Text.{std_string_trim}
use app_mesh.Application.State.{Processes, Timers, Application, ◌>>=◌}
use app_mesh.Application.Actions.{execute}
use app_mesh.Security.Model.{Security, User}
use app_mesh.Registry.{Entry, Registry, find_app, add_app}
use app_mesh.Registry.Names.{names, add_app_lem}
use app_mesh.Consul.Apps.{reload, is_rejected, reload_owner, fresh_entry}
use app_mesh.Consul.Follow.{Follower, register_service, add_reloaded}

module _ {P : Type 0} where
  fresh_entry-name :
      (now now' : ℕ) (e : Entry P)
      → (fresh_entry now now' e).name ≡ std_string_trim (std_string_trim e.name)
  unfolding fresh_entry
  fresh_entry-name now now' e = refl

  reload-name :
      (now now' : ℕ) (s : Security) (e : Entry P) {e' : Entry P}
      → reload now now' s e ≡ some e'
      → e'.name ≡ std_string_trim (std_string_trim e.name)
  unfolding reload
  reload-name now now' s e {e'} h = elim (Bool-cases (is_rejected (fresh_entry now now' e))) [
    | inl x ↦ absurd (ground arith)
    | inr x ↦ elim (Option-cases (reload_owner s e.owner)) [
      | inl n ↦ absurd (ground arith)
      | inr (owner, n) ↦ ground (arith, fresh_entry-name now now' e)
    ]
  ]

  find_app-name :
      (name : String) (apps : List (Entry P)) {e : Entry P}
      → find_app name apps ≡ some e
      → e.name ≡ name
  unfolding find_app
  find_app-name name [] h = absurd (ground arith)
  find_app-name name (other ∷ apps) {e} h = elim (Bool-cases (str_eq other.name name)) [
    | inl x ↦ ground (arith, eq_iff other.name name)
    | inr x ↦ ground (arith, find_app-name name apps {e = e})
  ]

  register_service-registry :
      (name : String) (port : ℤ) (f : Follower P)
      → (register_service name port f).registry ≡ f.registry
  unfolding register_service
  register_service-registry name port f = ground arith

module _ {P : Type 0} (os : Processes P) (schedule_timer : Timers → ℤ) where
  add_app-some :
      (now later : ℕ) (e : Entry P) (r : Registry P) {a : Application P}
      → execute os schedule_timer now later e.app ≡ some a
      → (r' : Registry P) × (add_app os schedule_timer now later e r ≡ some r')
  unfolding add_app
  add_app-some now later e r {a} h = rw (add_app, h) (_, refl)

module _ {P : Type 0} (os : Processes P) (schedule_timer : Timers → ℤ) (clock : String → ℕ → ℕ)
    (same_owner : Option User → Option User → Bool) (s : Security) where
  -- The entry under a name after the application is reloaded, added and executed for the first time;
  -- `none` is an error.
  abbrev pub added : String → Entry P → Option (Option (Entry P))
  added name e = reload (clock name 0) (clock name 1) s e >>= λ e'.
      execute os schedule_timer (clock name 2) (clock name 3) e'.app >>= λ a.
      some (some (record e' { app = a }))

  added_entry :
      (name : String) (e : Entry P) (port : ℤ) (f : Follower P) {o : Option (Entry P)}
      → std_string_trim (std_string_trim e.name) ≡ name
      → added name e ≡ some o
      → Distinct (names f.registry.apps)
      → (e' : Entry P) → reload (clock name 0) (clock name 1) s e ≡ some e'
      → (a : Application P)
      → execute os schedule_timer (clock name 2) (clock name 3) e'.app ≡ some a
      → (f' : Follower P) × (add_reloaded os schedule_timer clock same_owner s name e port f
          ≡ some f')
        × Distinct (names f'.registry.apps)
        × ((j : String)
            → find_app j f'.registry.apps
              ≡ (if str_eq name j then o else find_app j f.registry.apps))
  unfolding add_reloaded
  added_entry name e port f {o} t h d e' n a x =
      let (r, y) = add_app-some os schedule_timer (clock name 2) (clock name 3) e' f.registry x in
      let f1 : Follower P = record f { registry = r } in
      let same : (register_service name port f1).registry ≡ r =
        register_service-registry name port f1 in
      let entry : o ≡ some (record e' { app = a }) = ground arith in
      let lemma = λ (j : String).
        add_app_lem os schedule_timer (clock name 2) (clock name 3) e' j f.registry d y in
      (
        register_service name port f1,
        rw (add_reloaded, n, y) refl,
        rw (same) (lemma "").3,
        λ j. rw (same) (ground (arith, lemma j, reload-name (clock name 0) (clock name 1) s e n)),
      )

  pub add_reloaded_lem :
      (name : String) (e : Entry P) (port : ℤ) (f : Follower P) {o : Option (Entry P)}
      → std_string_trim (std_string_trim e.name) ≡ name
      → added name e ≡ some o
      → Distinct (names f.registry.apps)
      → (f' : Follower P) × (add_reloaded os schedule_timer clock same_owner s name e port f
          ≡ some f')
        × Distinct (names f'.registry.apps)
        × ((j : String)
            → find_app j f'.registry.apps
              ≡ (if str_eq name j then o else find_app j f.registry.apps))
  unfolding add_reloaded
  add_reloaded_lem name e port f {o} t h d =
      elim (Option-cases (reload (clock name 0) (clock name 1) s e)) [
        | inl n ↦ absurd (ground arith)
        | inr (e', n) ↦
            elim (Option-cases (execute os schedule_timer (clock name 2) (clock name 3) e'.app)) [
              | inl x ↦ absurd (ground arith)
              | inr (a, x) ↦ added_entry name e port f t h d e' n a x
            ]
      ]
