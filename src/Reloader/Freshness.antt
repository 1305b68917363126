-- ===== src/Reloader/Freshness.antt =====
-- Which events of the watcher lead to a reload, and what the reloader holds in the end.
use mathlib.Core.Path.{subst}
use k8s_athenz_syncer.Common.{
  ◌≤◌, ◌≡◌, refl, sym, ap, ◌∙◌, ◌⊎◌, inl, inr, true, false, some, List, [], ◌∷◌, ◌++◌, In,
  Bool-cases, arith, ℕ,
}
use k8s_athenz_syncer.Cluster.{ok}
use k8s_athenz_syncer.Reloader.Reload.{maybe_reload_lem}
use k8s_athenz_syncer.Reloader.{
  CertReloader, Disk, Accesses, maybe_reload, after_stat, Phase, asleep, reloaded, Watched,
  file_update, Advance, event, reload, leave, Advances, here, then_by,
}

In-here : {A : Type 0} (before after : List A) (a : A) → In a (before ++ (a ∷ after))
In-here [] after a = inl refl
In-here (x ∷ before) after a = inr (In-here before after a)

-- A goroutine that is asleep stays where another one leaves.
asleep_stays :
    (before after : List Phase)
    → In asleep (before ++ (reloaded ∷ after))
    → In asleep (before ++ after)
asleep_stays [] after (inl e) = absurd (cc)
asleep_stays [] after (inr i) = i
asleep_stays (x ∷ before) after (inl e) = inl e
asleep_stays (x ∷ before) after (inr i) = inr (asleep_stays before after i)

module _ {ℓ} {Cert : Type ℓ} where
  -- The disk does not change during a reload.
  abbrev pub steady : Disk Cert → Accesses Cert
  steady disk = record { at_stat = disk; at_pair = disk; at_cert = disk; at_key = disk }

  maybe_reload_current :
      (disk : Disk Cert) (w : CertReloader Cert) (t : ℕ)
      → disk.stat w.cert_file ≡ ok t
      → t ≤ w.mtime
      → (maybe_reload (steady disk) w).1 ≡ w
  unfolding maybe_reload after_stat
  maybe_reload_current disk w t known current = rw known (ground (arith, current))

  -- A second reload from the same disk changes nothing.
  maybe_reload_twice :
      (disk : Disk Cert) (w : CertReloader Cert)
      → let once = (maybe_reload (steady disk) w).1 in (maybe_reload (steady disk) once).1 ≡ once
  maybe_reload_twice disk w = elim (maybe_reload_lem (steady disk) w) [
    | inl (cause, failed, kept) ↦ ap (λ v. (maybe_reload (steady disk) v).1) kept
    | inr (inl (done_, current, kept)) ↦ ap (λ v. (maybe_reload (steady disk) v).1) kept
    | inr (inr (done_, (t, c, p, k, known, younger, hc, hp, hk, after))) ↦
        ap (λ v. (maybe_reload (steady disk) v).1) after
        ∙ maybe_reload_current disk
            (record w { cert = some c; cert_pem = p; key_pem = k; mtime = t }) t known (omega arith)
        ∙ sym after
  ]

  -- The reloads of a path meet the disk.
  abbrev MeetsDisk : Disk Cert → {g h : Watched Cert} → Advance g h → Type ℓ
  MeetsDisk disk (reload g before after a at) = a ≡ steady disk
  MeetsDisk disk (event g) = Unit
  MeetsDisk disk (leave g before after at) = Unit

  abbrev pub AllMeetDisk : Disk Cert → {g h : Watched Cert} → Advances g h → Type ℓ
  AllMeetDisk disk here = Unit
  AllMeetDisk disk (then_by before step) = AllMeetDisk disk before × MeetsDisk disk step

  -- The reloader is as it was and a goroutine will reload it, or it is reloaded.
  abbrev IsDue : Disk Cert → CertReloader Cert → Watched Cert → Type ℓ
  IsDue disk w g =
      ((g.reloader ≡ w) × In asleep g.inside) ⊎ (g.reloader ≡ (maybe_reload (steady disk) w).1)

  Advance-IsDue :
      (disk : Disk Cert) (w : CertReloader Cert) {g h : Watched Cert} (step : Advance g h)
      → MeetsDisk disk step
      → IsDue disk w g
      → IsDue disk w h
  unfolding file_update
  Advance-IsDue disk w (event g) meets (inl (same, waits)) = elim (Bool-cases g.cond) [
    | inl on ↦ rw on (inl (same, waits))
    | inr off ↦ rw off (inl (same, inr waits))
  ]
  Advance-IsDue disk w (event g) meets (inr done_) = elim (Bool-cases g.cond) [
    | inl on ↦ rw on (inr done_)
    | inr off ↦ rw off (inr done_)
  ]
  Advance-IsDue disk w (reload g before after a at) meets (inl (same, waits)) =
      inr (rw (meets, same) refl)
  Advance-IsDue disk w (reload g before after a at) meets (inr done_) =
      inr (rw (meets, done_) (maybe_reload_twice disk w))
  Advance-IsDue disk w (leave g before after at) meets (inl (same, waits)) =
      inl (same, asleep_stays before after (subst (In asleep) at waits))
  Advance-IsDue disk w (leave g before after at) meets (inr done_) = inr done_

  Advances-IsDue :
      (disk : Disk Cert) (w : CertReloader Cert) {g h : Watched Cert} (path : Advances g h)
      → AllMeetDisk disk path
      → IsDue disk w g
      → IsDue disk w h
  Advances-IsDue disk w here meet due = due
  Advances-IsDue disk w (then_by before step) (meet, meets) due =
      Advance-IsDue disk w step meets (Advances-IsDue disk w before meet due)

  caught_up :
      (disk : Disk Cert) (w : CertReloader Cert) (h : Watched Cert)
      → h.inside ≡ []
      → IsDue disk w h
      → h.reloader ≡ (maybe_reload (steady disk) w).1
  caught_up disk w h empty (inl (same, waits)) = absurd (subst (In asleep) empty waits)
  caught_up disk w h empty (inr done_) = done_

  -- An event that finds the flag clear is not lost: if the disk does not change from then on, then
  -- once no goroutine is left the reloader is what one reload from that disk makes of it, however
  -- further events and goroutines interleave.
  pub event-reloads :
      (disk : Disk Cert) (g h : Watched Cert) (path : Advances (file_update g) h)
      → g.cond ≡ false
      → AllMeetDisk disk path
      → h.inside ≡ []
      → h.reloader ≡ (maybe_reload (steady disk) g.reloader).1
  unfolding file_update
  event-reloads disk g h path off meet empty =
      caught_up disk g.reloader h empty
        (Advances-IsDue disk g.reloader path meet (rw off (inl (refl, inl refl))))

  -- A reloader whose flag is clear and in which no goroutine runs.
  abbrev pub quiet : CertReloader Cert → Watched Cert
  quiet w = record { reloader = w; cond = false; inside = [] }

  -- An event that comes between the end of a reload and the clearing of the flag is lost: there is a
  -- path from a quiet reloader on which an event starts a reload, a second event follows the reload
  -- and starts none, and in the end the reloader is quiet and holds what the reload before the second
  -- event read, whatever the disk has been since.
  pub late_event_lost :
      (w : CertReloader Cert) (a : Accesses Cert)
      → (late : Watched Cert) × Advances (file_update (quiet w)) late
        × (late.reloader ≡ (maybe_reload a w).1)
        × (file_update late ≡ late)
        × Advances (file_update late) (quiet (maybe_reload a w).1)
  unfolding file_update
  late_event_lost w a =
      let late : Watched Cert = record {
        reloader = (maybe_reload a w).1;
        cond = true;
        inside = reloaded ∷ [];
      } in
      (
        late,
        then_by here (reload (file_update (quiet w)) [] [] a refl),
        refl,
        refl,
        then_by here (leave late [] [] refl),
      )
