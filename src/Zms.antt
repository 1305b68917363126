-- ===== src/Zms.antt =====
-- The data that the Athenz ZMS client hands to the program: the fields that the program reads or
-- writes, and in `rest` everything else that a value holds, which it only copies and compares.
-- An `Option` is a Go pointer.
use k8s_athenz_syncer.Common.{ℕ, Option, Bytes, ℕ_discrete, Eq}
use k8s_athenz_syncer.Go.{Slice}

pub record Role : Type 0 where
  pub name : Bytes
  pub trust : Bytes
  pub rest : Bytes

pub record Policy : Type 0 where
  pub name : Bytes
  pub rest : Bytes

pub record DomainPolicies : Type 0 where
  pub policies : Slice (Option Policy)
  pub rest : Bytes

pub record SignedPolicies : Type 0 where
  pub contents : Option DomainPolicies
  pub signature : Bytes
  pub rest : Bytes

pub record DomainData : Type 0 where
  pub name : Bytes
  pub roles : Slice (Option Role)
  pub policies : Option SignedPolicies
  -- the time of the last change, in nanoseconds since the zero time of Go (January 1 of year 1, UTC)
  pub modified : Option ℕ
  pub rest : Bytes

pub record SignedDomain : Type 0 where
  pub domain : Option DomainData
  pub signature : Bytes
  pub rest : Bytes

unfoldable pub SignedDomain-discrete : Discrete SignedDomain
SignedDomain-discrete = hlevel ℕ_discrete

instance abbrev pub signed_domain_eq : Eq SignedDomain
signed_domain_eq = record { dec = SignedDomain-discrete }
