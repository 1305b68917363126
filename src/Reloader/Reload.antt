-- ===== src/Reloader/Reload.antt =====
-- What a reload of the key pair leaves behind.
use k8s_athenz_syncer.Common.{
  Bool-cases, ℕ, ◌<◌, ◌≤◌, ◌≡◌, refl, ◌⊎◌, inl, inr, Option, none, some, arith, Bytes, ltb,
}
use k8s_athenz_syncer.Cluster.{GoError, Result, ok, err}
use k8s_athenz_syncer.Reloader.{
  CertReloader, Accesses, maybe_reload, after_stat, store, reload_key_cert, after_pair, read_pems,
  read_key,
}

module _ {ℓ} {Cert : Type ℓ} where
  -- The whole pair as the disk gave it, with the time of the certificate file.
  abbrev pub Reloaded : Accesses Cert → CertReloader Cert → CertReloader Cert → Type ℓ
  Reloaded a w after =
      (t : ℕ) × (c : Cert) × (cert_pem : Bytes) × (key_pem : Bytes) × (a.at_stat.stat w.cert_file
        ≡ ok t)
      × (w.mtime < t)
      × (a.at_pair.load_pair w.cert_file w.key_file ≡ ok c)
      × (a.at_cert.read_file w.cert_file ≡ ok cert_pem)
      × (a.at_key.read_file w.key_file ≡ ok key_pem)
      × (after ≡ record w { cert = some c; cert_pem = cert_pem; key_pem = key_pem; mtime = t })

  -- Nothing to do: the certificate file is no younger than the stored pair.
  abbrev pub UpToDate : Accesses Cert → CertReloader Cert → Type 0
  UpToDate a w = (t : ℕ) × (a.at_stat.stat w.cert_file ≡ ok t) × (t ≤ w.mtime)

  after_pair-ok :
      (w : CertReloader Cert) (pair : Result Cert) (pem key : Result Bytes) (c : Cert) (p k : Bytes)
      → after_pair w pair pem key ≡ ok (c, p, k)
      → (pair ≡ ok c) × (pem ≡ ok p) × (key ≡ ok k)
  unfolding after_pair read_pems read_key
  after_pair-ok w (err e) pem key c p k h = absurd (cc)
  after_pair-ok w (ok c') (err e) key c p k h = absurd (cc)
  after_pair-ok w (ok c') (ok p') (err e) c p k h = absurd (cc)
  after_pair-ok w (ok c') (ok p') (ok k') c p k h = ground (arith, h)

  abbrev Leaves : Accesses Cert → CertReloader Cert → Option GoError × CertReloader Cert → Type ℓ
  Leaves a w (e, after) =
      ((cause : GoError) × (e ≡ some cause) × (after ≡ w))
      ⊎ ((e ≡ none) × UpToDate a w × (after ≡ w))
      ⊎ ((e ≡ none) × Reloaded a w after)

  store-Leaves :
      (a : Accesses Cert) (w : CertReloader Cert) (t : ℕ) (r : Result (Cert × Bytes × Bytes))
      → a.at_stat.stat w.cert_file ≡ ok t
      → w.mtime < t
      → reload_key_cert a w ≡ r
      → Leaves a w (store t r w)
  unfolding store reload_key_cert
  store-Leaves a w t (err e) known younger h = inl (e, refl, refl)
  store-Leaves a w t (ok (c, p, k)) known younger h =
      let (hc, hp, hk) =
        after_pair-ok w (a.at_pair.load_pair w.cert_file w.key_file)
          (a.at_cert.read_file w.cert_file) (a.at_key.read_file w.key_file) c p k h in
      inr (inr (refl, (t, c, p, k, known, younger, hc, hp, hk, refl)))

  after_stat-Leaves :
      (a : Accesses Cert) (w : CertReloader Cert) (s : Result ℕ)
      → a.at_stat.stat w.cert_file ≡ s
      → Leaves a w (after_stat a s w)
  unfolding after_stat
  after_stat-Leaves a w (err e) h = inl (_, refl, refl)
  after_stat-Leaves a w (ok t) h = elim (Bool-cases (ltb w.mtime t)) [
    | inl younger ↦ rw younger (store-Leaves a w t _ h (ground (arith, younger)) refl)
    | inr older ↦ rw older (inr (inl (refl, (t, h, ground (arith, older)), refl)))
  ]

  -- A reload either fails and changes nothing, or finds the certificate file no younger than the
  -- stored pair and changes nothing, or stores certificate, both texts and the file's time together.
  pub maybe_reload_lem :
      (a : Accesses Cert) (w : CertReloader Cert)
      → let (e, after) = maybe_reload a w in
        ((cause : GoError) × (e ≡ some cause) × (after ≡ w))
        ⊎ ((e ≡ none) × UpToDate a w × (after ≡ w))
        ⊎ ((e ≡ none) × Reloaded a w after)
  unfolding maybe_reload
  maybe_reload_lem a w = after_stat-Leaves a w _ refl
