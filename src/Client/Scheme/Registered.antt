-- ===== src/Client/Scheme/Registered.antt =====
-- What the clientset's scheme knows once its package is initialized.
use k8s_athenz_syncer.Common.{◌≡◌, ap, ◌∙◌, inl, inr, true, none, List, [], ◌∷◌, Bytes, codes, In}
use k8s_athenz_syncer.Go.{ret}
use k8s_athenz_syncer.Client.Sets.{scheme_group_version}
use k8s_athenz_syncer.Client.Scheme.{
  Machinery, IsMachinery, Adder, applied, add_known_types, scheme_builder, registered,
  add_to_scheme, local_scheme_builder, must, init_scheme,
}

abbrev kinds : List Bytes
kinds = codes "AthenzDomain" ∷ codes "AthenzDomainList" ∷ codes "Status" ∷ []

module _ (m : Machinery) (lawful : IsMachinery m) where
  one_adder : (f : Adder m) (s : m.Scheme) → m.add_to_scheme (f ∷ []) s ≡ applied m [] (f s)
  one_adder f s = lawful.add_to_scheme-cons f [] s

  filled : m.Scheme → m.Scheme
  filled s = (add_known_types m s).1

  added : (s : m.Scheme) → m.add_to_scheme (add_known_types m ∷ []) s ≡ (none, filled s)
  unfolding add_known_types filled
  added s = one_adder (add_known_types m) s ∙ lawful.add_to_scheme-nil _

  added_locally :
      (s : m.Scheme)
      → m.add_to_scheme (add_to_scheme m (registered m (scheme_builder m)) ∷ []) s
        ≡ (none, filled s)
  unfolding add_to_scheme
  added_locally s =
      one_adder (add_to_scheme m (registered m (scheme_builder m))) s
      ∙ ap (applied m []) (added s)
      ∙ lawful.add_to_scheme-nil (filled s)

  filled_recognizes :
      (s : m.Scheme) (kind : Bytes)
      → In kind kinds
      → m.recognizes (filled s) scheme_group_version kind ≡ true
  unfolding filled add_known_types
  filled_recognizes s kind (inl e) =
      lawful.recognizes-group _ _ _ kind
        (lawful.recognizes-kept _ _ _ _ kind (lawful.recognizes-add s _ _ kind (inl e)))
  filled_recognizes s kind (inr (inl e)) =
      lawful.recognizes-group _ _ _ kind
        (lawful.recognizes-kept _ _ _ _ kind (lawful.recognizes-add s _ _ kind (inr (inl e))))
  filled_recognizes s kind (inr (inr i)) =
      lawful.recognizes-group _ _ _ kind (lawful.recognizes-add _ _ _ kind i)

  -- The initialization of the clientset's scheme does not panic, and the scheme then recognizes the
  -- resource, its list and Status in the group and version of the resource: the function that
  -- AddToScheme was bound to before the types were registered registers them all the same.
  init_scheme_recognizes :
      (kind : Bytes)
      → In kind kinds
      → (s : m.Scheme) × (init_scheme m (registered m (scheme_builder m)) ≡ ret s)
        × (m.recognizes s scheme_group_version kind ≡ true)
  unfolding init_scheme must local_scheme_builder
  init_scheme_recognizes kind i =
      let s = m.add_to_group_version m.new_scheme (record { group = []; version = codes "v1" }) in
      (filled s, ap (must m) (added_locally s), filled_recognizes s kind i)
