-- ===== src/Transport/Defended.antt =====
-- What the handlers get to see of a request from the other process: handleRest and tranverseJsonTree of
-- src/daemon/rest/RestBase.cpp.
use app_mesh.Prelude.{
  Bool, true, false, ◌||◌, List, [], ◌∷◌, ◌++◌, String, str_eq, if◌then◌else◌, ◌≡◌, ◌⊎◌, inl, inr,
  refl, ap, sym, arith, Bool-cases, eq_iff, subst,
}
use app_mesh.Text.Search.{replaced}
use app_mesh.Snapshot.{
  Json, null, array, boolean, number, string, object, Items, no_item, item, Fields, no_field, field,
}
use app_mesh.Transport.{HttpRequest}
use app_mesh.Transport.Process.{Reply}
use app_mesh.Transport.Dispatch.{
  Handled, Handlers, Replacement, replace_xss_risk_chars, tranverse_json_tree, tranverse_items,
  tranverse_fields, defend, run, handle_rest, find_rest, bad_request, root_reply, reply_found,
}
use app_mesh.Transport.Entities.{
  RiskFree, IsReplacement, replace_xss_risk_chars_lem, RiskFree-substitute,
}

-- A JSON value whose texts are free of risks; the names of its fields are not looked at.
abbrev mutual
  pub Defended : Json → Type 0
  Defended null = Unit
  Defended (array items) = DefendedItems items
  Defended (boolean b) = Unit
  Defended (number n) = Unit
  Defended (string s) = RiskFree s
  Defended (object fields) = DefendedFields fields

  pub DefendedItems : Items → Type 0
  DefendedItems no_item = Unit
  DefendedItems (item val items) = Defended val × DefendedItems items

  pub DefendedFields : Fields → Type 0
  DefendedFields no_field = Unit
  DefendedFields (field name val fields) = Defended val × DefendedFields fields

module _ (replace_all : Replacement) (law : IsReplacement replace_all) where
  RiskFree-replace : (s : String) → RiskFree (replace_xss_risk_chars replace_all s)
  RiskFree-replace s =
      subst RiskFree (sym (replace_xss_risk_chars_lem replace_all s law)) (RiskFree-substitute s)

  mutual
    unfolding tranverse_json_tree

    tranverse-Defended : (val : Json) → Defended (tranverse_json_tree replace_all val)
    tranverse-Defended null = tt
    tranverse-Defended (array items) = items-Defended items
    tranverse-Defended (boolean b) = tt
    tranverse-Defended (number n) = tt
    tranverse-Defended (string s) = RiskFree-replace s
    tranverse-Defended (object fields) = fields-Defended fields

    items-Defended : (items : Items) → DefendedItems (tranverse_items replace_all items)
    items-Defended no_item = tt
    items-Defended (item val items) = (tranverse-Defended val, items-Defended items)

    fields-Defended : (fields : Fields) → DefendedFields (tranverse_fields replace_all fields)
    fields-Defended no_field = tt
    fields-Defended (field name val fields) = (tranverse-Defended val, fields-Defended fields)

parse-cases :
    (p : String ⊎ Json) → ((what : String) × (p ≡ inl what)) ⊎ ((val : Json) × (p ≡ inr val))
parse-cases (inl what) = inl (what, refl)
parse-cases (inr val) = inr (val, refl)

module _ (replace_all : Replacement) (regex_match : String → String → Bool)
    (parse : String → String ⊎ Json) (write : Json → String) where
  abbrev found : String → HttpRequest → Handlers → List Reply
  found path m functions =
      reply_found replace_all regex_match parse write m (find_rest regex_match path functions)

  -- A request without the characters that are a risk in its path and in the texts of its body.
  abbrev pub IsDefended : HttpRequest → Type 0
  IsDefended m =
      RiskFree m.relative_uri
      × ((m.body ≡ "") ⊎ ((body : Json) × (m.body ≡ write body) × Defended body))

  -- Two tables of handlers for the same paths that do the same for such requests.
  abbrev pub Agree : Handlers → Handlers → Type 0
  Agree [] [] = Unit
  Agree [] (g ∷ gs) = ⊥
  Agree (f ∷ fs) [] = ⊥
  Agree ((expr, f) ∷ fs) ((expr', g) ∷ gs) =
      (expr ≡ expr') × ((m : HttpRequest) → IsDefended m → f m ≡ g m) × Agree fs gs

  defend-IsDefended :
      (m m' : HttpRequest)
      → IsReplacement replace_all
      → m.forward_response2rest_server ≡ true
      → defend replace_all regex_match parse write m ≡ inr m'
      → IsDefended m'
  unfolding defend
  defend-IsDefended m m' law f e = elim (Bool-cases (str_eq m.body "")) [
    | inl x ↦
        let m1 : HttpRequest = record m {
          relative_uri = replace_xss_risk_chars replace_all m.relative_uri;
        } in
        let same : m1 ≡ m' = ground arith in
        subst IsDefended same
          (RiskFree-replace replace_all law m.relative_uri, inl ((eq_iff m.body "").0 x))
    | inr x ↦ elim (parse-cases (parse m.body)) [
      | inl (what, y) ↦ absurd (ground arith)
      | inr (body, y) ↦
          let m1 : HttpRequest = record m {
            relative_uri = replace_xss_risk_chars replace_all m.relative_uri;
            body = write (tranverse_json_tree replace_all body);
          } in
          let same : m1 ≡ m' = ground arith in
          subst IsDefended same (
            RiskFree-replace replace_all law m.relative_uri,
            inr (
              tranverse_json_tree replace_all body,
              refl,
              tranverse-Defended replace_all law body,
            ),
          )
    ]
  ]

  run-Agree :
      (f g : HttpRequest → Handled) (x : String ⊎ HttpRequest)
      → ((m : HttpRequest) → x ≡ inr m → IsDefended m)
      → ((m : HttpRequest) → IsDefended m → f m ≡ g m)
      → run replace_all regex_match parse write f x ≡ run replace_all regex_match parse write g x
  unfolding run
  run-Agree f g (inl what) d a = refl
  run-Agree f g (inr m) d a =
      ap (λ (h : Handled). h.replies ++ bad_request replace_all regex_match parse write h.error)
        (a m (d m refl))

  found-Agree :
      (path : String) (m : HttpRequest) (fs gs : Handlers)
      → IsReplacement replace_all
      → m.forward_response2rest_server ≡ true
      → Agree fs gs
      → found path m fs ≡ found path m gs
  unfolding find_rest reply_found
  found-Agree path m [] [] law own a = refl
  found-Agree path m [] (g ∷ gs) law own a = absurd a
  found-Agree path m (f ∷ fs) [] law own a = absurd a
  found-Agree path m ((expr, f) ∷ fs) ((expr', g) ∷ gs) law own (e, h, a) =
      elim (Bool-cases (str_eq path expr || regex_match path expr)) [
        | inl x ↦
            let x' = subst (λ k. (str_eq path k || regex_match path k) ≡ true) e x in
            rw (find_rest, x, x')
              (run-Agree f g (defend replace_all regex_match parse write m)
                (λ m' d. defend-IsDefended m m' law own d) h)
        | inr x ↦
            let x' = subst (λ k. (str_eq path k || regex_match path k) ≡ false) e x in
            rw (find_rest, x, x') (found-Agree path m fs gs law own a)
      ]

  -- Where Boost replaces as documented: two tables of handlers that do the same for every request
  -- without characters that are a risk give the same replies to every request from the other
  -- process, so that no handler sees such a character in its path or in a text of its body.
  pub handle_rest-Defended :
      (m : HttpRequest) (fs gs : Handlers)
      → IsReplacement replace_all
      → m.forward_response2rest_server ≡ true
      → Agree fs gs
      → handle_rest replace_all regex_match parse write m fs
        ≡ handle_rest replace_all regex_match parse write m gs
  unfolding handle_rest
  handle_rest-Defended m fs gs law own a =
      ap
        (λ x.
          if str_eq (replaced "//" "/" m.relative_uri) "/"
            || str_eq (replaced "//" "/" m.relative_uri) ""
          then root_reply ∷ []
          else x)
        (found-Agree (replaced "//" "/" m.relative_uri) m fs gs law own a)
