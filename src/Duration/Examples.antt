-- ===== src/Duration/Examples.antt =====
-- Durations at concrete times.
use app_mesh.Prelude.{◌≡◌, refl, some, none, false, [], ◌∷◌, arith}
use app_mesh.Prelude.Int.{pos, negsuc}
use app_mesh.Duration.{parse, compose}
use app_mesh.Duration.RoundTrip.{parse-compose}

one_of_each :
    compose 93784 false ≡ b'P' ∷ b'1' ∷ b'D' ∷ b'T' ∷ b'2' ∷ b'H' ∷ b'3' ∷ b'M' ∷ b'4' ∷ b'S' ∷ []
unfolding compose
one_of_each = refl

minus_twelve : parse (b'-' ∷ b'1' ∷ b'2' ∷ []) ≡ some (negsuc 11)
unfolding parse
minus_twelve = refl

months : parse (b'P' ∷ b'2' ∷ b'M' ∷ []) ≡ none
unfolding parse
months = refl

minutes : parse (b'P' ∷ b'T' ∷ b'2' ∷ b'M' ∷ []) ≡ some (pos 120)
unfolding parse
minutes = refl

parse-compose_example :
    parse (b'P' ∷ b'1' ∷ b'D' ∷ b'T' ∷ b'2' ∷ b'H' ∷ b'3' ∷ b'M' ∷ b'4' ∷ b'S' ∷ [])
    ≡ some (pos 93784)
unfolding compose
parse-compose_example = parse-compose 93784 (omega arith)
