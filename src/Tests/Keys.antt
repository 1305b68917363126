-- ===== src/Tests/Keys.antt =====
-- Certificates, tokens, watched files and signing keys, with texts for keys and certificates.
use mathlib.Core.List.{append-nil, append_assoc}
use k8s_athenz_syncer.Common.{
  if◌then◌else◌, Bool, true, inr, inl, ℕ, sym, zero, suc, map, ◌∙◌, ◌≤◌, ◌≡◌, refl, ◌⊎◌, false,
  Option, none, some, List, [], ◌∷◌, ◌++◌, codes, arith, Bytes, bytes_eq,
}
use k8s_athenz_syncer.Strconv.{pos}
use k8s_athenz_syncer.Cluster.{api_error, err, GoError, ok}
use k8s_athenz_syncer.Reloader.{
  CertReloader, Disk, Accesses, maybe_reload, Watched, file_update, event, here, then_by, reload,
  leave, asleep, reloaded, Advances,
}
use k8s_athenz_syncer.Reloader.Reload.{UpToDate, Reloaded, maybe_reload_lem}
use k8s_athenz_syncer.Reloader.Exclusive.{IsExclusive, Advances-IsExclusive}
use k8s_athenz_syncer.Reloader.Freshness.{quiet, steady, event-reloads, late_event_lost}
use k8s_athenz_syncer.Identity.{hour, Minting, Tick, TokenProvider, mint, refresh_loop}
use k8s_athenz_syncer.Identity.Tolerates.{refresh_loop-Tolerates}
use k8s_athenz_syncer.FileWatcher.{Paths, new_watcher, run, process_work, add_files, add_worker}
use k8s_athenz_syncer.FileWatcher.Updates.{expected, process_work-run}
use k8s_athenz_syncer.Crypto.{
  VersionedFiles, Fv, Files, Pem, ec_key, ecdsa, pem_bytes, private_key_from_pem_bytes,
}
use k8s_athenz_syncer.Crypto.PemRoundTrip.{IsPem, private_key_from_pem_bytes-pem_bytes}

abbrev reloader : CertReloader Bytes
reloader = record {
  cert_file = codes "c";
  key_file = codes "k";
  cert = none;
  cert_pem = [];
  key_pem = [];
  mtime = 5;
}

abbrev disk : Disk Bytes
disk = record {
  stat = λ file. ok 7;
  load_pair = λ c k. ok (codes "pair");
  read_file = λ file. ok file;
}

abbrev accesses : Accesses Bytes
accesses = record { at_stat = disk; at_pair = disk; at_cert = disk; at_key = disk }

maybe_reload_lem_example :
    let (e, after) = maybe_reload accesses reloader in
    ((cause : GoError) × (e ≡ some cause) × (after ≡ reloader))
    ⊎ ((e ≡ none) × UpToDate accesses reloader × (after ≡ reloader))
    ⊎ ((e ≡ none) × Reloaded accesses reloader after)
maybe_reload_lem_example = maybe_reload_lem accesses reloader

abbrev idle : Watched Bytes
idle = record { reloader = reloader; cond = false; inside = [] }

Advances-IsExclusive_example : IsExclusive (file_update (file_update idle))
unfolding file_update
Advances-IsExclusive_example =
    Advances-IsExclusive (then_by (then_by here (event idle)) (event (file_update idle))) refl refl

-- The goroutine of an event reloads and leaves.
abbrev asleep_one : Watched Bytes
asleep_one = record { reloader = reloader; cond = true; inside = asleep ∷ [] }

abbrev reloaded_one : Watched Bytes
reloaded_one = record {
  reloader = (maybe_reload accesses reloader).1;
  cond = true;
  inside = reloaded ∷ [];
}

event-reloads_example :
    (quiet (maybe_reload accesses reloader).1).reloader
    ≡ (maybe_reload (steady disk) idle.reloader).1
unfolding file_update
event-reloads_example =
    event-reloads disk idle (quiet (maybe_reload accesses reloader).1)
      (then_by (then_by here (reload asleep_one [] [] accesses refl))
        (leave reloaded_one [] [] refl))
      refl ((tt, refl), tt) refl

late_event_lost_example :
    (late : Watched Bytes) × Advances (file_update (quiet reloader)) late
    × (late.reloader ≡ (maybe_reload accesses reloader).1)
    × (file_update late ≡ late)
    × Advances (file_update late) (quiet (maybe_reload accesses reloader).1)
late_event_lost_example = late_event_lost reloader accesses

-- A builder that is its own text.
abbrev minting : Bytes → Minting Bytes Bytes
minting key = record {
  private_key_provider = ok key;
  pem_bytes = λ key. ok key;
  version = λ key. codes "v1";
  new_token_builder = λ domain service pem version. ok pem;
  token_value = λ b expiration. ok b;
}

abbrev provider : TokenProvider
provider = record {
  config = record {
    header = codes "auth";
    domain = codes "d";
    service = codes "s";
    token_expiry = hour;
  };
  current = codes "old";
  expire = hour;
  credentials = [];
}

abbrev tick : ℕ → Bytes → Tick Bytes Bytes
tick now key = record { now = now; later = now; minting = minting key }

abbrev failing : ℕ → Tick Bytes Bytes
failing now = record (tick now []) {
  minting = record (minting []) { private_key_provider = err (api_error []) };
}

refresh_loop-Tolerates_example :
    1080000000000
    ≤ (refresh_loop provider (tick 360000000000 (codes "one") ∷ failing 720000000000 ∷ [])).expire
refresh_loop-Tolerates_example =
    refresh_loop-Tolerates provider 0 (tick 360000000000 (codes "one") ∷ failing 720000000000 ∷ [])
      (tick 1080000000000 (codes "two")) (omega arith) (omega arith)
      (
        omega arith,
        omega arith,
        inl (
          codes "one",
          unfold mint in refl,
          (
            omega arith,
            omega arith,
            inr (
              api_error [],
              unfold mint in refl,
              refl,
              (omega arith, omega arith, inl (codes "two", unfold mint in refl, tt)),
            ),
          ),
        ),
      )

-- Every path is a name in one directory.
abbrev paths : Paths
paths = record { clean = λ p. p; dir = λ p. codes "/"; base = λ p. p }

process_work-run_example :
    process_work paths
      (run paths none (λ dir. none) (new_watcher (codes "a" ∷ codes "b" ∷ []))).0
      (codes "b")
    ≡ expected paths (codes "a" ∷ codes "b" ∷ []) (codes "b")
unfolding run add_files add_worker
process_work-run_example =
    process_work-run paths (λ dir. none) (codes "a" ∷ codes "b" ∷ [])
      (run paths none (λ dir. none) (new_watcher (codes "a" ∷ codes "b" ∷ []))).0 (codes "b") refl

abbrev key_files : VersionedFiles
key_files = record { dir = codes "d"; prefix = codes "key" }

-- Insertion by the test.
abbrev insert_by : (Fv → Fv → Bool) → Fv → List Fv → List Fv
insert_by test x [] = x ∷ []
insert_by test x (y ∷ ys) =
    let later = insert_by test x ys in if test x y then x ∷ y ∷ ys else y ∷ later

abbrev sort_by : (Fv → Fv → Bool) → List Fv → List Fv
sort_by test [] = []
sort_by test (x ∷ xs) = insert_by test x (sort_by test xs)

abbrev key_dir : Files
key_dir = record {
  read_dir = λ dir. ok (codes "key.v9" ∷ codes "key.v10" ∷ codes "other" ∷ []);
  read_file = λ file. ok file;
  join = λ dir name. name;
  sort_slice = sort_by;
}

abbrev version_ten : Fv
version_ten = record { file = codes "key.v10"; version = pos 10; version_str = codes "v10" }

abbrev version_nine : Fv
version_nine = record { file = codes "key.v9"; version = pos 9; version_str = codes "v9" }

abbrev key_names : List Bytes
key_names = codes "key.v9" ∷ codes "key.v10" ∷ codes "other" ∷ []

-- The block before the first zero byte, each byte of its type one less.
abbrev cut : Bytes → Bytes → Option (Bytes × Bytes)
cut block_type [] = none
cut block_type (zero ∷ bytes) = some (block_type, bytes)
cut block_type (suc c ∷ text) = cut (block_type ++ (c ∷ [])) text

cut-encode :
    (before block_type bytes : Bytes)
    → cut before (map suc block_type ++ (0 ∷ bytes)) ≡ some (before ++ block_type, bytes)
cut-encode before [] bytes = rw (append-nil before) refl
cut-encode before (c ∷ block_type) bytes =
    cut-encode (before ++ (c ∷ [])) block_type bytes
    ∙ rw (append_assoc before (c ∷ []) block_type) refl

-- A key is its own bytes, and a block is the text of its type and the bytes after a line's end.
abbrev pem : Pem Bytes Bytes
pem = record {
  decode = λ text. cut [] text;
  encode = λ block_type bytes. map suc block_type ++ (0 ∷ bytes);
  parse_ec_private_key = λ b. ok b;
  parse_pkcs1_private_key = λ b. ok b;
  marshal_pkcs1_private_key = λ k. k;
  marshal_ec_private_key = λ k. ok k;
}

pem-IsPem : IsPem pem
pem-IsPem = record {
  decode-encode = λ block_type bytes. cut-encode [] block_type bytes;
  parse-marshal_pkcs1 = λ k. refl;
  parse-marshal_ec = λ k b e. sym e;
}

private_key_from_pem_bytes-pem_bytes_example :
    private_key_from_pem_bytes pem (map suc (codes "ECDSA PRIVATE KEY") ++ (0 ∷ codes "key"))
    ≡ ok (ecdsa, ec_key (codes "key"))
unfolding pem_bytes
private_key_from_pem_bytes-pem_bytes_example =
    private_key_from_pem_bytes-pem_bytes pem (ec_key (codes "key"))
      (map suc (codes "ECDSA PRIVATE KEY") ++ (0 ∷ codes "key")) pem-IsPem refl
