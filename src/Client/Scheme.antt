-- ===== src/Client/Scheme.antt =====
-- pkg/apis/athenz/v1/register.go, and the two packages that fill a scheme with its types:
-- pkg/client/clientset/versioned/scheme/register.go and, with the same lines,
-- pkg/client/clientset/versioned/fake/register.go. The scheme and its builder are a parameter.
pub mod Registered
use k8s_athenz_syncer.Common.{
  ◌≡◌, Bool, true, Option, none, some, List, [], ◌∷◌, ◌++◌, Bytes, codes, In,
}
use k8s_athenz_syncer.Go.{Go, ret, panic}
use k8s_athenz_syncer.Cluster.{GoError}
use k8s_athenz_syncer.Client.Sets.{GroupVersion, scheme_group_version}

-- schema.GroupResource
pub record GroupResource : Type 0 where
  pub group : Bytes
  pub resource : Bytes

-- Resource, with the group of the resource.
abbrev pub group_resource : Bytes → GroupResource
group_resource r = record { group = scheme_group_version.group; resource = r }

-- Package runtime of Kubernetes. A builder is a slice of functions that add to a scheme.
pub record Machinery : Type 1 where
  pub Scheme : Type 0
  pub new_scheme : Scheme
  pub add_known_types : Scheme → GroupVersion → List Bytes → Scheme
  -- metav1.AddToGroupVersion
  pub add_to_group_version : Scheme → GroupVersion → Scheme
  pub recognizes : Scheme → GroupVersion → Bytes → Bool
  pub add_to_scheme : List (Scheme → Option GoError × Scheme) → Scheme → Option GoError × Scheme

module _ (m : Machinery) where
  abbrev pub Adder : Type 0
  Adder = m.Scheme → Option GoError × m.Scheme

  -- The functions are applied in order, up to the first error.
  abbrev pub applied : List Adder → Option GoError × m.Scheme → Option GoError × m.Scheme
  applied later (some e, t) = (some e, t)
  applied later (none, t) = m.add_to_scheme later t

pub record IsMachinery (m : Machinery) : Type 0 where
  pub recognizes-add :
      (s : m.Scheme) (gv : GroupVersion) (kinds : List Bytes) (kind : Bytes)
      → In kind kinds
      → m.recognizes (m.add_known_types s gv kinds) gv kind ≡ true
  pub recognizes-kept :
      (s : m.Scheme) (gv added : GroupVersion) (kinds : List Bytes) (kind : Bytes)
      → m.recognizes s gv kind ≡ true
      → m.recognizes (m.add_known_types s added kinds) gv kind ≡ true
  pub recognizes-group :
      (s : m.Scheme) (gv added : GroupVersion) (kind : Bytes)
      → m.recognizes s gv kind ≡ true
      → m.recognizes (m.add_to_group_version s added) gv kind ≡ true
  pub add_to_scheme-nil : (s : m.Scheme) → m.add_to_scheme [] s ≡ (none, s)
  pub add_to_scheme-cons :
      (f : m.Scheme → Option GoError × m.Scheme) (later : List (Adder m)) (s : m.Scheme)
      → m.add_to_scheme (f ∷ later) s ≡ applied m later (f s)

module _ (m : Machinery) where
  unfoldable pub add_known_types : Adder m
  add_known_types scheme = (
    none,
    m.add_to_group_version
        (m.add_known_types
          (m.add_known_types scheme scheme_group_version
            (codes "AthenzDomain" ∷ codes "AthenzDomainList" ∷ []))
          scheme_group_version (codes "Status" ∷ []))
        scheme_group_version,
  )

  -- The package's SchemeBuilder before its init, and after it.
  abbrev pub scheme_builder : List (Adder m)
  scheme_builder = []

  abbrev pub registered : List (Adder m) → List (Adder m)
  registered builder = builder ++ (add_known_types ∷ [])

  -- AddToScheme is bound to the address of the builder, so that a call reads what init has registered.
  unfoldable pub add_to_scheme : List (Adder m) → Adder m
  add_to_scheme builder scheme = m.add_to_scheme builder scheme

  -- utilruntime.Must
  must : Option GoError × m.Scheme → Go m.Scheme
  must (none, scheme) = ret scheme
  must (some e, scheme) = panic

  local_scheme_builder : List (Adder m) → List (Adder m)
  local_scheme_builder builder = add_to_scheme builder ∷ []

  -- The init of the clientset's scheme, for the builder that it finds.
  unfoldable pub init_scheme : List (Adder m) → Go m.Scheme
  unfolding must local_scheme_builder
  init_scheme builder = must (
      m.add_to_scheme (local_scheme_builder builder)
        (m.add_to_group_version m.new_scheme (record { group = []; version = codes "v1" })))
