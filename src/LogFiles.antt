-- ===== src/LogFiles.antt =====
-- The queue of an application's output files: LogFileQueue and AppLogFile of
-- src/daemon/application/AppUtils.cpp. The files of one queue differ by their index, so that the file
-- system is what each index holds; renaming and removing succeed, and only the queue holds its files.
pub mod Shift
mod Examples
use app_mesh.Prelude.{
  ℕ, zero, suc, ◌+◌, Bool, true, false, Option, none, some, List, [], ◌∷◌, length, leb, ltb, ◌==◌,
  if◌then◌else◌,
}

abbrev pub Files : Type 0 → Type 0
Files C = ℕ → Option C

-- `files` holds the index of each file, the newest first, and `queue_size` is `m_queueSize`.
pub record LogFileQueue (C : Type 0) : Type 0 where
  pub queue : List ℕ
  pub queue_size : ℕ
  pub files : Files C

-- LogFileQueue::getFileName, as the index of the file; `none` is the exception.
unfoldable pub get_file_index : ℕ → List ℕ → Option ℕ
get_file_index index [] = none
get_file_index zero (i ∷ queue) = some i
get_file_index (suc index) (i ∷ queue) = get_file_index index queue

module _ {C : Type 0} where
  unfoldable pub remove_file : ℕ → Files C → Files C
  remove_file i files j = if j == i then none else files j

  unfoldable pub rename_file : ℕ → ℕ → Files C → Files C
  rename_file i k files j = if j == k then files i else if j == i then none else files j

  -- The files after AppLogFile::increaseIndex of the file of index i.
  unfoldable pub increase_index : ℕ → Files C → Files C
  unfolding remove_file rename_file
  increase_index i files =
      let cleared : Files C = elim (files (i + 1)) [
        | none ↦ files
        | some c ↦ remove_file (i + 1) files
      ] in
      elim (cleared i) [ none ↦ cleared | some c ↦ rename_file i (i + 1) cleared ]

  -- The loop that renames, from the last file to the first.
  unfoldable pub rename_all : List ℕ → Files C → List ℕ × Files C
  unfolding increase_index
  rename_all [] files = ([], files)
  rename_all (i ∷ queue) files =
      let later = rename_all queue files in ((i + 1) ∷ later.0, increase_index i later.1)

  -- m_fileQueue.pop_back(), with the destructor of the file.
  unfoldable pub pop_back : List ℕ → Files C → List ℕ × Files C
  unfolding remove_file
  pop_back [] files = ([], files)
  pop_back (i ∷ []) files = ([], remove_file i files)
  pop_back (i ∷ k ∷ queue) files = let later = pop_back (k ∷ queue) files in (i ∷ later.0, later.1)

  -- The pop at the start of enqueue.
  unfoldable pub pop_last : LogFileQueue C → List ℕ × Files C
  unfolding pop_back
  pop_last q =
      if leb q.queue_size (length q.queue) then pop_back q.queue q.files else (q.queue, q.files)

  unfoldable pub enqueue : LogFileQueue C → LogFileQueue C
  unfolding rename_all pop_last
  enqueue q =
      let popped = pop_last q in
      let renamed = rename_all popped.0 popped.1 in
      record q { queue = 0 ∷ renamed.0; files = renamed.1 }
