-- ===== src/Reloader.antt =====
-- pkg/reloader/reloader.go. The certificate of crypto/tls is a parameter type. A load meets the disk
-- as it is at each of its accesses; the locks make the write of the four fields one step.
pub mod Reload
pub mod Exclusive
pub mod Freshness
use k8s_athenz_syncer.Common.{
  ◌≡◌, ℕ, Bool, true, false, not, Option, none, some, List, [], ◌∷◌, ◌++◌, Bytes, codes, ltb,
  if◌then◌else◌,
}
use k8s_athenz_syncer.Cluster.{GoError, wrapped, Result, ok, err}

pub record CertReloader {ℓ} (Cert : Type ℓ) : Type ℓ where
  pub cert_file : Bytes
  pub key_file : Bytes
  pub cert : Option Cert
  pub cert_pem : Bytes
  pub key_pem : Bytes
  pub mtime : ℕ

pub record ReloadConfig : Type 0 where
  pub cert_file : Bytes
  pub key_file : Bytes

-- What the disk answers at one moment.
pub record Disk {ℓ} (Cert : Type ℓ) : Type ℓ where
  -- os.Stat, of which the time of the last change is read
  pub stat : Bytes → Result ℕ
  -- tls.LoadX509KeyPair
  pub load_pair : Bytes → Bytes → Result Cert
  -- ioutil.ReadFile
  pub read_file : Bytes → Result Bytes

-- The disk at the four accesses of a reload, in their order.
pub record Accesses {ℓ} (Cert : Type ℓ) : Type ℓ where
  pub at_stat : Disk Cert
  pub at_pair : Disk Cert
  pub at_cert : Disk Cert
  pub at_key : Disk Cert

module _ {ℓ} {Cert : Type ℓ} where
  unfoldable pub get_latest_certificate : CertReloader Cert → Option Cert
  get_latest_certificate w = w.cert

  unfoldable pub get_latest_key_and_cert : CertReloader Cert → Bytes × Bytes
  get_latest_key_and_cert w = (w.key_pem, w.cert_pem)

  read_key : CertReloader Cert → Cert → Bytes → Result Bytes → Result (Cert × Bytes × Bytes)
  read_key w cert cert_pem (err e) =
      err (wrapped (codes "unable to load key from " ++ w.key_file) e)
  read_key w cert cert_pem (ok key_pem) = ok (cert, cert_pem, key_pem)

  read_pems : CertReloader Cert → Cert → Result Bytes → Result Bytes → Result (Cert × Bytes × Bytes)
  unfolding read_key
  read_pems w cert (err e) key = err (wrapped (codes "unable to load cert from " ++ w.cert_file) e)
  read_pems w cert (ok cert_pem) key = read_key w cert cert_pem key

  after_pair :
      CertReloader Cert → Result Cert → Result Bytes → Result Bytes → Result (Cert × Bytes × Bytes)
  unfolding read_pems
  after_pair w (err e) pem key =
      err (wrapped (codes "unable to load cert from " ++ w.cert_file ++ codes "," ++ w.key_file) e)
  after_pair w (ok cert) pem key = read_pems w cert pem key

  unfoldable pub reload_key_cert : Accesses Cert → CertReloader Cert → Result (Cert × Bytes × Bytes)
  unfolding after_pair
  reload_key_cert a w =
      after_pair w (a.at_pair.load_pair w.cert_file w.key_file) (a.at_cert.read_file w.cert_file)
        (a.at_key.read_file w.key_file)

  -- What maybeReload stores.
  store : ℕ → Result (Cert × Bytes × Bytes) → CertReloader Cert → Option GoError × CertReloader Cert
  store mod_time (err e) w = (some e, w)
  store mod_time (ok (cert, cert_pem, key_pem)) w = (
    none,
    record w { cert = some cert; cert_pem = cert_pem; key_pem = key_pem; mtime = mod_time },
  )

  after_stat : Accesses Cert → Result ℕ → CertReloader Cert → Option GoError × CertReloader Cert
  unfolding store
  after_stat a (err e) w = (some (wrapped (codes "unable to stat " ++ w.cert_file) e), w)
  after_stat a (ok mod_time) w =
      if not (ltb w.mtime mod_time) then (none, w) else store mod_time (reload_key_cert a w) w

  unfoldable pub maybe_reload :
      Accesses Cert → CertReloader Cert → Option GoError × CertReloader Cert
  unfolding after_stat
  maybe_reload a w = after_stat a (a.at_stat.stat w.cert_file) w

  -- NewCertReloader: the first argument is what the watcher's Run returns.
  unfoldable pub new_cert_reloader :
      Option GoError → Accesses Cert → ReloadConfig → Option (CertReloader Cert) × Option GoError
  new_cert_reloader (some e) a config = (none, some e)
  new_cert_reloader none a config =
      let w : CertReloader Cert = record {
        cert_file = config.cert_file;
        key_file = config.key_file;
        cert = none;
        cert_pem = [];
        key_pem = [];
        mtime = 0;
      } in
      let (e, reloaded) = maybe_reload a w in (some reloaded, e)

-- A goroutine of fileUpdate that has set the flag: before its reload, and after it.
pub data Phase : Type 0 where
  asleep : Phase
  reloaded : Phase

-- The reloader, its flag `cond`, and the goroutines that have set it.
pub record Watched {ℓ} (Cert : Type ℓ) : Type ℓ where
  pub reloader : CertReloader Cert
  pub cond : Bool
  pub inside : List Phase

module _ {ℓ} {Cert : Type ℓ} where
  -- The first line of fileUpdate, SetToIf(false, true): a goroutine goes on only if it set the flag.
  unfoldable pub file_update : Watched Cert → Watched Cert
  file_update g = if g.cond then g else record g { cond = true; inside = asleep ∷ g.inside }

  -- One atomic part of a goroutine: an event of the watcher, the reload after the sleep, and the
  -- SetToIf(true, false) at the end.
  pub data Advance : Watched Cert → Watched Cert → Type ℓ where
    event : (g : Watched Cert) → Advance g (file_update g)
    reload :
        (g : Watched Cert) (before after : List Phase) (a : Accesses Cert)
        → g.inside ≡ before ++ (asleep ∷ after)
        → Advance g (record g {
          reloader = (maybe_reload a g.reloader).1;
          inside = before ++ (reloaded ∷ after);
        })
    leave :
        (g : Watched Cert) (before after : List Phase)
        → g.inside ≡ before ++ (reloaded ∷ after)
        → Advance g (record g { cond = false; inside = before ++ after })

  pub data Advances : Watched Cert → Watched Cert → Type ℓ where
    here : {g : Watched Cert} → Advances g g
    then_by : {g h k : Watched Cert} → Advances g h → Advance h k → Advances g k
