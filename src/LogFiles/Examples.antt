-- ===== src/LogFiles/Examples.antt =====
-- A queue of three output files.
use app_mesh.Prelude.{◌≡◌, none, some, [], ◌∷◌, length, refl, arith, if◌then◌else◌, ◌==◌, String}
use app_mesh.LogFiles.{Files, LogFileQueue, rename_all, pop_back, pop_last, enqueue}
use app_mesh.LogFiles.Shift.{IsNumbered, enqueue_lem}

abbrev contents : Files String
contents j = if j == 0 then some "new" else if j == 1 then some "old" else none

abbrev output : LogFileQueue String
output = record { queue = 0 ∷ 1 ∷ []; queue_size = 2; files = contents }

enqueue_lem_example :
    IsNumbered (enqueue output)
    × (length (enqueue output).queue ≡ 2)
    × ((enqueue output).files 0 ≡ none)
    × ((enqueue output).files 1 ≡ some "new")
unfolding enqueue pop_last pop_back rename_all
enqueue_lem_example = enqueue_lem output 0 (refl, omega arith, omega arith)
