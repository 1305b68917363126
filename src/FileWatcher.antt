-- ===== src/FileWatcher.antt =====
-- pkg/filewatcher/filewatcher.go. The functions of package filepath and the watcher of fsnotify are
-- parameters.
pub mod Updates
use k8s_athenz_syncer.Common.{
  ℕ, suc, ◌+◌, ◌≡◌, Option, none, some, List, [], ◌∷◌, ◌++◌, Bytes, bytes_eq, ◌==◌, if◌then◌else◌,
}
use k8s_athenz_syncer.GoMap.{GoMap, lookup, insert}
use k8s_athenz_syncer.Cluster.{GoError}

-- filepath.Clean, filepath.Dir and filepath.Base.
pub record Paths : Type 0 where
  pub clean : Bytes → Bytes
  pub dir : Bytes → Bytes
  pub base : Bytes → Bytes

-- The files by their directory.
pub record Watcher : Type 0 where
  pub workers : GoMap Bytes (List Bytes)
  pub files : List Bytes

-- The calls of the WatchNotifier.
pub data Notice : Type 0 where
  file_update : Notice
  watch_error : GoError → Notice

-- What the goroutine of Run waits for.
pub data Signal : Type 0 where
  event : Bytes → Signal
  failure : GoError → Signal
  stop : Signal

abbrev pub new_watcher : List Bytes → Watcher
new_watcher files = record { workers = []; files = files }

module _ (paths : Paths) where
  append_worker : Option (List Bytes) → Bytes → List Bytes
  append_worker (some workers) file = workers ++ (file ∷ [])
  append_worker none file = file ∷ []

  unfoldable pub add_worker : Watcher → Bytes → Watcher × Bytes
  unfolding append_worker
  add_worker w file =
      let new_file = paths.clean file in
      let dir = paths.dir new_file in
      let base = paths.base new_file in
      (record w { workers = insert w.workers dir (append_worker (lookup w.workers dir) base) }, dir)

  -- A missing directory has no files.
  files_of : Option (List Bytes) → List Bytes
  files_of none = []
  files_of (some workers) = workers

  updates_for : List Bytes → Bytes → List Notice
  updates_for [] base = []
  updates_for (file ∷ rest) base =
      if file == base then file_update ∷ updates_for rest base else updates_for rest base

  unfoldable pub process_work : Watcher → Bytes → List Notice
  unfolding files_of updates_for
  process_work w event_name =
      updates_for (files_of (lookup w.workers (paths.dir event_name))) (paths.base event_name)

  -- The loop of Run; the watcher of fsnotify may refuse a directory.
  unfoldable pub add_files :
      (Bytes → Option GoError) → Watcher → List Bytes → Watcher × Option GoError
  add_files add w [] = (w, none)
  add_files add w (file ∷ rest) =
      let (added, dir) = add_worker w file in
      elim (add dir) [ some e ↦ (added, some e) | none ↦ add_files add added rest ]

  -- Run up to its goroutine. The first argument is the error of fsnotify.NewWatcher.
  unfoldable pub run :
      Option GoError → (Bytes → Option GoError) → Watcher → Watcher × Option GoError
  run (some e) add w = (w, some e)
  run none add w = add_files add w w.files

  -- The goroutine of Run: an error of the watcher and a stop end it.
  unfoldable pub watch : Watcher → List Signal → List Notice
  watch w [] = []
  watch w (event name ∷ rest) = process_work w name ++ watch w rest
  watch w (failure e ∷ rest) = watch_error e ∷ []
  watch w (stop ∷ rest) = []
