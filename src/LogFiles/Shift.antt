-- ===== src/LogFiles/Shift.antt =====
-- What a new output file does to those that there are: LogFileQueue of
-- src/daemon/application/AppUtils.cpp.
use app_mesh.Prelude.{
  inl, inr, ℕ, zero, suc, ◌+◌, ◌-◌, ◌≤◌, ◌<◌, true, false, none, List, [], ◌∷◌, length, leb, ltb,
  ◌==◌, if◌then◌else◌, ◌≡◌, ◌∙◌, refl, arith, ap, sym, Bool-cases,
}
use app_mesh.LogFiles.{
  Files, LogFileQueue, remove_file, rename_file, increase_index, rename_all, pop_last, pop_back,
  enqueue,
}

-- i, …, i + n - 1
abbrev pub run : ℕ → ℕ → List ℕ
run i zero = []
run i (suc n) = i ∷ run (i + 1) n

length-run : (i n : ℕ) → length (run i n) ≡ n
length-run i zero = refl
length-run i (suc n) = ground (arith, length-run (i + 1) n)

module _ {C : Type 0} where
  increase_index_lem :
      (i j : ℕ) (files : Files C)
      → increase_index i files j
        ≡ (if j == i + 1 then files i else if j == i then none else files j)
  unfolding increase_index remove_file rename_file
  increase_index_lem i j files = ground arith

  rename_all-run : (i n : ℕ) (files : Files C) → (rename_all (run i n) files).0 ≡ run (i + 1) n
  unfolding rename_all
  rename_all-run i zero files = refl
  rename_all-run i (suc n) files = ground (arith, rename_all-run (i + 1) n files)

  rename_all-files :
      (i n j : ℕ) (files : Files C)
      → (rename_all (run i n) files).1 j ≡ (
          if ltb j i
          then files j
          else if ltb (i + n) j
          then files j
          else if n == 0
          then files j
          else if j == i
          then none
          else files (j - 1))
  unfolding rename_all
  rename_all-files i zero j files = ground arith
  rename_all-files i (suc n) j files =
      increase_index_lem i j (rename_all (run (i + 1) n) files).1
      ∙ ground (arith, rename_all-files (i + 1) n j files, rename_all-files (i + 1) n i files)

  pop_back-run :
      (i n : ℕ) (files : Files C)
      → pop_back (run i (suc n)) files ≡ (run i n, remove_file (i + n) files)
  unfolding pop_back
  pop_back-run i zero files = ground arith
  pop_back-run i (suc n) files = ground (arith, pop_back-run (i + 1) n files)

  -- The indices of the files count from the newest one, and there are no more than the queue takes.
  abbrev pub IsNumbered : LogFileQueue C → Type 0
  IsNumbered q =
      (q.queue ≡ run 0 (length q.queue)) × (length q.queue ≤ q.queue_size) × (0 < q.queue_size)

  -- How many files stay in the queue, and what they hold.
  abbrev kept : LogFileQueue C → ℕ
  kept q = if ltb (length q.queue) q.queue_size then length q.queue else q.queue_size - 1

  abbrev kept_files : LogFileQueue C → Files C
  kept_files q = if ltb (length q.queue) q.queue_size then q.files else remove_file (kept q) q.files

  pop_last-run : (q : LogFileQueue C) → IsNumbered q → pop_last q ≡ (run 0 (kept q), kept_files q)
  unfolding pop_last
  pop_last-run q shape = elim (Bool-cases (ltb (length q.queue) q.queue_size)) [
    | inl s ↦
        let below : leb q.queue_size (length q.queue) ≡ false = ground arith in
        rw (s, below) (ap (λ queue. (queue, q.files)) shape.0)
    | inr s ↦
        let at_least : leb q.queue_size (length q.queue) ≡ true = ground arith in
        let last : length q.queue ≡ suc (q.queue_size - 1) = ground (arith, shape.1, shape.2) in
        rw (s, at_least)
          (ap (λ queue. pop_back queue q.files) (shape.0 ∙ ap (run 0) last)
            ∙ pop_back-run 0 (q.queue_size - 1) q.files
            ∙ ap (λ i. (run 0 (q.queue_size - 1), remove_file i q.files)) (omega arith))
  ]

  enqueue-queue : (q : LogFileQueue C) → IsNumbered q → (enqueue q).queue ≡ run 0 (suc (kept q))
  unfolding enqueue
  enqueue-queue q shape =
      rw (pop_last-run q shape) (ap (◌∷◌ 0) (rename_all-run 0 (kept q) (kept_files q)))

  enqueue-files :
      (q : LogFileQueue C) (j : ℕ)
      → IsNumbered q
      → (enqueue q).files j ≡ (rename_all (run 0 (kept q)) (kept_files q)).1 j
  unfolding enqueue
  enqueue-files q j shape = rw (pop_last-run q shape) refl

  kept_files-kept : (q : LogFileQueue C) (k : ℕ) → k < kept q → kept_files q k ≡ q.files k
  unfolding remove_file
  kept_files-kept q k h = ground arith

  kept_files-above : (q : LogFileQueue C) (j : ℕ) → kept q < j → kept_files q j ≡ q.files j
  unfolding remove_file
  kept_files-above q j h = ground arith

  kept_files-none :
      (q : LogFileQueue C)
      → IsNumbered q
      → kept q ≡ 0
      → kept_files q 0 ≡ (if length q.queue == 0 then q.files 0 else none)
  unfolding remove_file
  kept_files-none q shape h = ground (arith, shape.1, shape.2)

  enqueue-size : (q : LogFileQueue C) → (enqueue q).queue_size ≡ q.queue_size
  unfolding enqueue
  enqueue-size q = refl

  -- Where the files of a queue are numbered from the newest one and fit: after a new one is queued they
  -- are again, one more or as many as fit; each file of the queue but the first holds what the one
  -- before it held, the files beyond the queue are left alone, and if there was a file, then the first
  -- one is not there yet.
  pub enqueue_lem :
      (q : LogFileQueue C) (k : ℕ)
      → IsNumbered q
      → IsNumbered (enqueue q)
        × (length (enqueue q).queue
            ≡ (if ltb (length q.queue) q.queue_size then length q.queue + 1 else q.queue_size))
        × ((enqueue q).files 0 ≡ (if length q.queue == 0 then q.files 0 else none))
        × ((enqueue q).files (k + 1)
            ≡ (if ltb (k + 1) (length (enqueue q).queue) then q.files k else q.files (k + 1)))
  enqueue_lem q k shape =
      let queue = enqueue-queue q shape in
      let size : length (enqueue q).queue ≡ suc (kept q) =
        ap length queue ∙ length-run 0 (suc (kept q)) in
      (
        (
          queue ∙ ap (run 0) (sym size),
          ground (arith, size, enqueue-size q, shape.1, shape.2),
          ground (arith, enqueue-size q, shape.2),
        ),
        ground (arith, size, shape.1, shape.2),
        enqueue-files q 0 shape
            ∙ ground (
              arith,
              rename_all-files 0 (kept q) 0 (kept_files q),
              kept_files-none q shape,
              shape.2,
            ),
        enqueue-files q (k + 1) shape
            ∙ ground (
              arith,
              rename_all-files 0 (kept q) (k + 1) (kept_files q),
              kept_files-kept q k,
              kept_files-above q (k + 1),
              size,
            ),
      )
