-- ===== src/FileWatcher/Updates.antt =====
-- Which events notify of an update, and how often.
use mathlib.Core.List.{append-nil, append_assoc}
use k8s_athenz_syncer.Common.{
  sym, ap, Option-cases, inl, inr, ◌≡◌, refl, ◌&&◌, Option, none, some, List, [], ◌∷◌, ◌++◌, Bytes,
  bytes_eq, ◌==◌, if◌then◌else◌, arith,
}
use k8s_athenz_syncer.GoMap.{lookup, lookup-insert}
use k8s_athenz_syncer.Cluster.{GoError}
use k8s_athenz_syncer.FileWatcher.{
  Paths, Watcher, Notice, file_update, new_watcher, append_worker, add_worker, files_of,
  updates_for, process_work, add_files, run,
}

none_for : {e : GoError} → some e ≡ none → ⊥
none_for h = cc

module _ (paths : Paths) where
  -- One update for every watched file that is cleaned to the directory and the name of the event.
  abbrev pub expected : List Bytes → Bytes → List Notice
  expected [] name = []
  expected (file ∷ files) name =
      if paths.dir (paths.clean file) == paths.dir name
        && paths.base (paths.clean file) == paths.base name
      then file_update ∷ expected files name
      else expected files name

  updates_for-append :
      (xs ys : List Bytes) (base : Bytes)
      → updates_for paths (xs ++ ys) base ≡ updates_for paths xs base ++ updates_for paths ys base
  unfolding updates_for
  updates_for-append [] ys base = refl
  updates_for-append (x ∷ xs) ys base = ground (arith, updates_for-append xs ys base)

  files_of-append_worker :
      (found : Option (List Bytes)) (base : Bytes)
      → append_worker paths found base ≡ files_of paths found ++ (base ∷ [])
  unfolding append_worker files_of
  files_of-append_worker none base = refl
  files_of-append_worker (some workers) base = refl

  process_work-add_worker :
      (w : Watcher) (file name : Bytes)
      → process_work paths (add_worker paths w file).0 name
        ≡ process_work paths w name ++ expected (file ∷ []) name
  unfolding process_work add_worker files_of updates_for
  process_work-add_worker w file name =
      let dir = paths.dir (paths.clean file) in
      let base = paths.base (paths.clean file) in
      let found = lookup w.workers dir in
      ground (
        arith,
        lookup-insert w.workers dir (append_worker paths found base) (paths.dir name),
        files_of-append_worker found base,
        updates_for-append (files_of paths found) (base ∷ []) (paths.base name),
        append-nil (process_work paths w name),
      )

  expected-cons :
      (file : Bytes) (files : List Bytes) (name : Bytes)
      → expected (file ∷ files) name ≡ expected (file ∷ []) name ++ expected files name
  expected-cons file files name = ground arith

  add_fails :
      {w after : Watcher} {e : GoError}
      → ◌≡◌ {A = Watcher × Option GoError} (w, some e) (after, none)
      → ⊥
  add_fails h = none_for (ap (λ r. r.1) h)

  add_files-expected :
      (add : Bytes → Option GoError) (w : Watcher) (files : List Bytes) (name : Bytes)
      (after : Watcher)
      → add_files paths add w files ≡ (after, none)
      → process_work paths after name ≡ process_work paths w name ++ expected files name
  unfolding add_files add_worker
  add_files-expected add w [] name after h =
      let same : w ≡ after = ap (λ r. r.0) h in
      rw same (sym (append-nil (process_work paths after name)))
  add_files-expected add w (file ∷ files) name after h =
      elim (Option-cases (add (paths.dir (paths.clean file)))) [
        | inl e ↦
            let later =
              add_files-expected add (add_worker paths w file).0 files name after
                (rw (add_files, e) at h) in
            rw (later, process_work-add_worker w file name, expected-cons file files name)
              (append_assoc (process_work paths w name) (expected (file ∷ []) name)
                (expected files name))
        | inr (error, e) ↦ absurd (add_fails (rw (add_files, e) at h))
      ]

  -- Once Run has set up a new watcher with no error, an event notifies of an update once for every
  -- watched file whose cleaned path has the directory and the base name of the event, and of nothing
  -- else.
  pub process_work-run :
      (add : Bytes → Option GoError) (files : List Bytes) (after : Watcher) (name : Bytes)
      → run paths none add (new_watcher files) ≡ (after, none)
      → process_work paths after name ≡ expected files name
  unfolding run process_work files_of updates_for lookup
  process_work-run add files after name h =
      rw (add_files-expected add (new_watcher files) files name after h) refl
