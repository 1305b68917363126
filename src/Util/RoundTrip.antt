-- ===== src/Util/RoundTrip.antt =====
-- Namespace names and domain names translate into each other.
use mathlib.Core.List.{append_assoc}
use k8s_athenz_syncer.Common.{
  inr, ◌&&◌, inl, Bool-cases, true, false, not, ◌↔◌, ℕ, ◌≡◌, refl, ◌≢◌, [], ◌∷◌, ◌++◌, arith, Bytes,
  codes, bytes_eq, nat_eq, ◌==◌, All, if◌then◌else◌,
}
use k8s_athenz_syncer.GoStrings.{has_prefix, replace}
use k8s_athenz_syncer.GoStrings.Replace.{
  has_prefix-append, trim_prefix-append, replace_pair_hit, replace_pair_miss, replace_pair_half,
  replace_pair_last,
}
use k8s_athenz_syncer.Util.{
  is_system_namespace, domain_to_namespace, Util, namespace_to_domain, dot, dash,
}

-- Where a dot is never followed by a dot or a dash. Every Athenz domain name is such a text.
abbrev pub IsClean : Bytes → Type 0
IsClean [] = Unit
IsClean (c ∷ []) = Unit
IsClean (c ∷ d ∷ s) = (c ≡ b'.' → (d ≢ b'.') × (d ≢ b'-')) × IsClean (d ∷ s)

-- The two replacements of `domain_to_namespace`, and those of `namespace_to_domain`.
abbrev pub dashed : Bytes → Bytes
dashed s = replace (replace s dash (codes "--")) dot dash

abbrev pub dotted : Bytes → Bytes
dotted s = replace (replace s dash dot) (codes "..") dash

-- What `dashed` and the first replacement of `dotted` do to each byte.
abbrev spread : Bytes → Bytes
spread [] = []
spread (c ∷ s) =
    (if c == b'-' then codes ".." else if c == b'.' then codes "." else c ∷ []) ++ spread s

dashed_cons :
    (c : ℕ) (s : Bytes)
    → dashed (c ∷ s)
      ≡ (if c == b'-' then codes "--" else if c == b'.' then codes "-" else c ∷ []) ++ dashed s
unfolding replace has_prefix
dashed_cons c s = ground arith

spread_cons :
    (c : ℕ) (s : Bytes)
    → replace (dashed (c ∷ s)) dash dot
      ≡ (if c == b'-' then codes ".." else if c == b'.' then codes "." else c ∷ [])
        ++ replace (dashed s) dash dot
unfolding replace has_prefix
spread_cons c s = ground arith

spread_lem : (s : Bytes) → replace (dashed s) dash dot ≡ spread s
unfolding replace
spread_lem [] = refl
spread_lem (c ∷ s) = unfold replace in rw (spread_cons c s, spread_lem s)

-- Halving the runs of dots that `spread` makes.
halve : Bytes → Bytes
halve s = replace s (codes "..") dash

module _ (c : ℕ) (s : Bytes) where
  halve_hit : halve (b'.' ∷ b'.' ∷ s) ≡ b'-' ∷ halve s
  unfolding halve
  halve_hit = replace_pair_hit b'.' dash s

  halve_miss : c ≢ b'.' → halve (c ∷ s) ≡ c ∷ halve s
  unfolding halve
  halve_miss = replace_pair_miss b'.' dash c s

  halve_half : c ≢ b'.' → halve (b'.' ∷ c ∷ s) ≡ b'.' ∷ halve (c ∷ s)
  unfolding halve
  halve_half = replace_pair_half b'.' dash c s

halve_nil : halve [] ≡ []
unfolding halve replace
halve_nil = refl

halve_last : halve (b'.' ∷ []) ≡ b'.' ∷ []
unfolding halve
halve_last = replace_pair_last b'.' dash

halve-spread : (s : Bytes) → IsClean s → halve (spread s) ≡ s
halve-spread [] h = halve_nil
halve-spread (c ∷ []) h = ground (arith, halve_hit c [], halve_miss c [], halve_nil, halve_last)
halve-spread (c ∷ d ∷ s) h = ground (
  arith,
  halve-spread (d ∷ s) h.1,
  halve_hit c (spread (d ∷ s)),
  halve_miss c (spread (d ∷ s)),
  halve_half d (spread s),
)

IsClean-of-halve-spread : (s : Bytes) → halve (spread s) ≡ s → IsClean s
IsClean-of-halve-spread [] h = tt
IsClean-of-halve-spread (c ∷ []) h = tt
IsClean-of-halve-spread (c ∷ d ∷ s) h = ground (
  arith,
  IsClean-of-halve-spread (d ∷ s),
  halve_hit c (spread (d ∷ s)),
  halve_miss c (spread (d ∷ s)),
  halve_half d (spread s),
  halve_hit c (b'.' ∷ spread s),
  halve_hit c (spread s),
)

-- The other way round: a namespace holds no dot.
abbrev pub LacksDot : Bytes → Type 0
LacksDot = All (λ c. c ≢ b'.')

dashed_nil : dashed [] ≡ []
unfolding replace
dashed_nil = refl

abbrev undash : Bytes → Bytes
undash s = replace s dash dot

undash_nil : undash [] ≡ []
unfolding replace
undash_nil = refl

undash_cons : (c : ℕ) (s : Bytes) → undash (c ∷ s) ≡ (if c == b'-' then b'.' else c) ∷ undash s
unfolding replace has_prefix
undash_cons c s = ground arith

dashed-halve-undash : (s : Bytes) → LacksDot s → dashed (halve (undash s)) ≡ s
dashed-halve-undash [] h = rw (undash_nil, halve_nil) dashed_nil
dashed-halve-undash (c ∷ []) h =
    rw (undash_cons, undash_nil)
      (ground (
        arith,
        halve_miss c [],
        halve_nil,
        halve_last,
        dashed_cons c [],
        dashed_cons b'.' [],
        dashed_nil,
      ))
dashed-halve-undash (c ∷ d ∷ s) h = rw (undash_cons) (
    ground (
      arith,
      undash_cons d s,
      dashed-halve-undash s h.1.1,
      dashed-halve-undash (d ∷ s) h.1,
      halve_hit c (undash s),
      halve_miss c (undash (d ∷ s)),
      halve_half d (undash s),
      dashed_cons b'-' (halve (undash s)),
      dashed_cons b'.' (halve (undash (d ∷ s))),
      dashed_cons c (halve (undash (d ∷ s))),
    ))

-- `domain_to_namespace` off the admin domain.
abbrev pub IsOffAdmin : Util → Bytes → Type 0
IsOffAdmin u domain = (not (u.admin_domain == []) && has_prefix domain u.admin_domain) ≡ false

pub domain_to_namespace_off_admin :
    (u : Util) (domain : Bytes) → IsOffAdmin u domain → domain_to_namespace u domain ≡ dashed domain
unfolding domain_to_namespace
domain_to_namespace_off_admin u domain h = rw h

pub namespace_to_domain_ordinary :
    (u : Util) (ns : Bytes)
    → is_system_namespace u ns ≡ false
    → namespace_to_domain u ns ≡ dotted ns
unfolding namespace_to_domain
namespace_to_domain_ordinary u ns h = rw h

dotted-dashed : (s : Bytes) → (dotted (dashed s) ≡ s) ↔ IsClean s
unfolding halve
dotted-dashed s = rw spread_lem (IsClean-of-halve-spread s, halve-spread s)

-- A domain off the admin domain whose namespace is no system namespace is recovered from that
-- namespace exactly when none of its dots stands before a dot or a dash.
pub namespace_to_domain-domain_to_namespace :
    (u : Util) (domain : Bytes)
    → IsOffAdmin u domain
    → is_system_namespace u (domain_to_namespace u domain) ≡ false
    → (namespace_to_domain u (domain_to_namespace u domain) ≡ domain) ↔ IsClean domain
namespace_to_domain-domain_to_namespace u domain off ordinary =
    rw (namespace_to_domain_ordinary u _ ordinary, domain_to_namespace_off_admin u domain off)
      (dotted-dashed domain)

system_round_trip :
    (u : Util) (ns : Bytes)
    → u.admin_domain ≢ []
    → is_system_namespace u ns ≡ true
    → domain_to_namespace u (namespace_to_domain u ns) ≡ ns
unfolding domain_to_namespace namespace_to_domain
system_round_trip u ns given system =
    rw (system, trim_prefix-append)
      (ground (
        arith,
        has_prefix-append u.admin_domain (dot ++ ns),
        append_assoc u.admin_domain dot ns,
        trim_prefix-append (u.admin_domain ++ dot) ns,
      ))

-- A namespace is recovered from its domain: a system namespace if there is an admin domain, any
-- other if it holds no dot and its domain does not begin with the admin domain.
pub domain_to_namespace-namespace_to_domain :
    (u : Util) (ns : Bytes)
    → (is_system_namespace u ns ≡ true → u.admin_domain ≢ [])
    → (is_system_namespace u ns ≡ false → LacksDot ns × IsOffAdmin u (namespace_to_domain u ns))
    → domain_to_namespace u (namespace_to_domain u ns) ≡ ns
domain_to_namespace-namespace_to_domain u ns system ordinary =
    elim (Bool-cases (is_system_namespace u ns)) [
      | inl e ↦ system_round_trip u ns (system e) e
      | inr e ↦
          let (lacks, off) = ordinary e in
          rw (domain_to_namespace_off_admin u _ off, namespace_to_domain_ordinary u ns e)
            (unfold halve in dashed-halve-undash ns lacks)
    ]
