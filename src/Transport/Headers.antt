-- ===== src/Transport/Headers.antt =====
-- The headers of a request on their way to the other process: serializeHeaders and parseHeaders of
-- src/daemon/rest/HttpRequest.cpp.
use Prim.Native.String.{String as Text}
use app_mesh.Prelude.{
  zero, ◌+◌, ◌<◌, true, none, some, Option, List, [], ◌∷◌, String, ◌≡◌, refl, arith, ap, ◌∙◌, inl,
  inr, Bool-cases, eq_iff,
}
use app_mesh.Dict.{Dict, get, put, keys, Distinct}
use app_mesh.Dict.Laws.{get-put, member-keys, get-none}
use app_mesh.Text.{take, drop, text_length, std_string_trim, space_count, kept_length, all_spaces}
use app_mesh.Text.Trim.{IsTrimmed}
use app_mesh.Text.Search.{◌<>◌, push_piece}
use app_mesh.Text.Replace.{pieces, trimmed_pieces}
use app_mesh.Transport.Pieces.{IsClean, split-pieces, header_pieces, parts}
use app_mesh.Transport.{split, put_header, put_headers, parse_headers, serialize_headers}

abbrev pub Clean : Dict String → Type 0
Clean [] = Unit
Clean ((name, value) ∷ headers) = IsClean name × IsClean value × Clean headers

take-length : (s : String) → take (text_length s) s ≡ s
unfolding take text_length
take-length Text.[] = refl
take-length (Text.◌∷◌ c s) = ap (Text.◌∷◌ c) (take-length s)

IsTrimmed-push_piece :
    (s : String) (rest : List String) → IsTrimmed s → push_piece s rest ≡ s ∷ rest
unfolding push_piece std_string_trim drop
IsTrimmed-push_piece s rest (l, b, k) =
    rw (push_piece, std_string_trim, b, k, drop) (ground (arith, take-length s))

length-append : (s t : String) → text_length (s <> t) ≡ text_length s + text_length t
unfolding text_length ◌<>◌
length-append Text.[] t = ground arith
length-append (Text.◌∷◌ c s) t = ground (arith, length-append s t)

space_count-append :
    (s t : String) → 0 < text_length s → space_count s ≡ 0 → space_count (s <> t) ≡ 0
unfolding space_count ◌<>◌ text_length
space_count-append Text.[] t l h = absurd (omega arith)
space_count-append (Text.◌∷◌ c s) t l h = ground arith

kept_length-blank : (s : String) → all_spaces s ≡ true → kept_length s ≡ 0
unfolding kept_length all_spaces
kept_length-blank Text.[] h = refl
kept_length-blank (Text.◌∷◌ c s) h = ground arith

all_spaces-append : (s t : String) → all_spaces (s <> t) ≡ true → all_spaces t ≡ true
unfolding all_spaces ◌<>◌
all_spaces-append Text.[] t h = h
all_spaces-append (Text.◌∷◌ c s) t h = all_spaces-append s t (ground arith)

kept_length-append :
    (s t : String) → 0 < kept_length t → kept_length (s <> t) ≡ text_length s + kept_length t
unfolding kept_length all_spaces ◌<>◌ text_length
kept_length-append Text.[] t h = ground arith
kept_length-append (Text.◌∷◌ c s) t h = elim (Bool-cases (all_spaces (Text.◌∷◌ c (s <> t)))) [
  | inl e ↦ absurd (ground (arith, kept_length-blank t (all_spaces-append s t (ground arith))))
  | inr e ↦ ground (arith, kept_length-append s t h)
]

-- A header as a whole is trimmed too.
IsTrimmed-header :
    (name value : String) → IsTrimmed name → IsTrimmed value → IsTrimmed (name <> ("|" <> value))
unfolding text_length
IsTrimmed-header name value n v =
    let barred : kept_length ("|" <> value) ≡ 1 + kept_length value =
      kept_length-append "|" value (ground arith) in
    let whole : kept_length (name <> ("|" <> value))
        ≡ text_length name + kept_length ("|" <> value) =
      kept_length-append name ("|" <> value) (omega arith) in
    (
      ground (arith, length-append name ("|" <> value)),
      space_count-append name ("|" <> value) n.0 n.1,
      ground (arith, length-append name ("|" <> value), length-append "|" value),
    )

-- The headers as lines, each as it is split.
abbrev lines : Dict String → List String
lines [] = []
lines ((name, value) ∷ headers) = (name <> ("|" <> value)) ∷ lines headers

no_piece : push_piece "" [] ≡ []
unfolding push_piece std_string_trim space_count kept_length drop text_length take
no_piece = refl

lines_lem :
    (headers : Dict String) → Clean headers → split "||" (serialize_headers headers) ≡ lines headers
unfolding serialize_headers text_length
lines_lem headers c = split-pieces "||" (serialize_headers headers) (omega arith) ∙ go headers c
  where
    go :
        (headers : Dict String)
        → Clean headers
        → trimmed_pieces (pieces "||" zero (serialize_headers headers)) ≡ lines headers
    go [] c = no_piece
    go ((name, value) ∷ headers) (n, v, c) =
        ap trimmed_pieces (header_pieces name value (serialize_headers headers) n v)
        ∙ IsTrimmed-push_piece _ _ (IsTrimmed-header name value n.0 v.0)
        ∙ ap (λ ls. (name <> ("|" <> value)) ∷ ls) (go headers c)

header_lem :
    (name value : String) (acc : Dict String)
    → IsClean name
    → IsClean value
    → put_header (split "|" (name <> ("|" <> value))) acc ≡ put name value acc
unfolding put_header text_length
header_lem name value acc n v =
    ap (λ ps. put_header ps acc)
      (split-pieces "|" (name <> ("|" <> value)) (omega arith)
        ∙ ap trimmed_pieces (parts name value n v)
        ∙ IsTrimmed-push_piece name _ n.0
        ∙ ap (λ ps. name ∷ ps) (IsTrimmed-push_piece value [] v.0))

abbrev or : Option String → Option String → Option String
or none b = b
or (some a) b = some a

or-none : (a : Option String) → or a none ≡ a
or-none none = refl
or-none (some a) = refl

get-put_headers :
    (headers acc : Dict String) (k : String)
    → Clean headers
    → Distinct (keys headers)
    → get k (put_headers (lines headers) acc) ≡ or (get k headers) (get k acc)
unfolding put_headers get
get-put_headers [] acc k c d = refl
get-put_headers ((name, value) ∷ headers) acc k (n, v, c) d =
    rw (put_headers, header_lem name value acc n v)
      (ground (
        arith,
        get-put_headers headers (put name value acc) k c d.1,
        get-put name k value acc,
        eq_iff name k,
        member-keys name headers,
        get-none name headers,
      ))

-- Where names and values are not empty, have no blanks around them and no "|": every header is the
-- same after serializeHeaders and parseHeaders, and no other is there.
pub parse_headers-serialize_headers :
    (headers : Dict String) (k : String)
    → Clean headers
    → Distinct (keys headers)
    → get k (parse_headers (serialize_headers headers)) ≡ get k headers
unfolding parse_headers get
parse_headers-serialize_headers headers k c d =
    rw (parse_headers, lines_lem headers c)
      (get-put_headers headers [] k c d ∙ or-none (get k headers))
