-- ===== src/ClusterInfo/Fallback.antt =====
-- What the kubeconfig of configmap.go is made of.
use machine_controller.Base.{
  String, ◌≡◌, refl, inl, inr, Option, none, some, List, [], ◌∷◌, arith, eq_iff,
}
use machine_controller.Outcome.{
  Error, new_error, Outcome, ok, err, Act, pure, raise, lift, on_option, wrap, ◌>>=◌,
}
use machine_controller.Outcome.Inversion.{>>=-eq-ok, attempt-eq-ok, wrap-eq-ok}
use machine_controller.Kube.{Kubeconfig}
use machine_controller.Kube.Calls.{Call}
use machine_controller.ClusterInfo.{
  EndpointPort, EndpointSubset, InfoSources, server_url, single_cluster, get_secure_port, head,
  get_kubeconfig_from_config_map, get_ca_data, build_for, build_from_subset,
  build_kubeconfig_from_endpoint, get_kubeconfig,
}

secure_port-is_https :
    (ports : List EndpointPort) (p : EndpointPort)
    → get_secure_port ports ≡ some p
    → p.name ≡ "https"
unfolding get_secure_port
secure_port-is_https [] p h = cc
secure_port-is_https (q ∷ ports) p h = ground (
  arith,
  h,
  eq_iff q.name "https",
  λ (e : get_secure_port ports ≡ some p). secure_port-is_https ports p e,
)

module _ {A : Type 0} where
  pure-eq-ok : (x : A) (s : List Call) (a : A) → (pure x s).0 ≡ ok a → a ≡ x
  unfolding ◌>>=◌
  pure-eq-ok x s a h = cc

  lift-eq-ok : (o : Outcome A) (s : List Call) (a : A) → (lift o s).0 ≡ ok a → o ≡ ok a
  unfolding ◌>>=◌
  lift-eq-ok o s a h = h

module _ (i : InfoSources) where
  -- A kubeconfig for the first address, with an IP, of a subset, and its port for HTTPS.
  abbrev pub IsBuilt : EndpointSubset → Kubeconfig → Type 0
  IsBuilt subset k =
      (address ip ca : String) × (port : EndpointPort) × (head subset.addresses ≡ some address)
      × (i.parse_ip address ≡ some ip)
      × (get_secure_port subset.ports ≡ some port)
      × (port.name ≡ "https")
      × (k ≡ single_cluster (server_url ip (i.decimal port.port)) ca)

  on_option-eq-ok :
      {A B : Type 0} (o : Option A) (e : Error) (f : A → Act Call B) (s : List Call) (b : B)
      → (on_option o (raise e) f s).0 ≡ ok b
      → (a : A) × (o ≡ some a) × ((f a s).0 ≡ ok b)
  unfolding ◌>>=◌
  on_option-eq-ok none e f s b h = cc
  on_option-eq-ok (some a) e f s b h = (a, refl, h)

  build_from_subset-IsBuilt :
      (subset : EndpointSubset) (s : List Call) (k : Kubeconfig)
      → (build_from_subset i subset s).0 ≡ ok k
      → IsBuilt subset k
  unfolding build_from_subset build_for
  build_from_subset-IsBuilt subset s k h =
      let (address, addressed, rest) = on_option-eq-ok (head subset.addresses) _ _ s k h in
      let (ip, parsed, rest) = on_option-eq-ok (i.parse_ip address) _ _ s k rest in
      let (port, secure, rest) = on_option-eq-ok (get_secure_port subset.ports) _ _ s k rest in
      let (ca, _, rest) =
        >>=-eq-ok (wrap "failed to get ca data from config" (get_ca_data i)) _ s k rest in
      (
        address,
        ip,
        ca,
        port,
        addressed,
        parsed,
        secure,
        secure_port-is_https _ port secure,
        pure-eq-ok _ _ k rest,
      )

  endpoint-IsBuilt :
      (s : List Call) (k : Kubeconfig)
      → (build_kubeconfig_from_endpoint i s).0 ≡ ok k
      → (subsets : List EndpointSubset) × (subset : EndpointSubset) × (i.endpoints "kubernetes"
          ≡ ok subsets)
        × (head subsets ≡ some subset)
        × IsBuilt subset k
  unfolding build_kubeconfig_from_endpoint
  endpoint-IsBuilt s k h =
      let listed = lift (i.endpoints "kubernetes") in
      let (subsets, found, rest) =
        >>=-eq-ok (wrap "failed to get endpoint from lister" listed)
          (λ subsets.
            on_option (head subsets)
              (raise (new_error "no subsets in the kubernetes endpoints resource"))
              (build_from_subset i))
          s k h in
      let (subset, first, rest) = on_option-eq-ok (head subsets) _ (build_from_subset i) _ k rest in
      (
        subsets,
        subset,
        lift-eq-ok (i.endpoints "kubernetes") s subsets
            (wrap-eq-ok "failed to get endpoint from lister" listed s subsets found),
        first,
        build_from_subset-IsBuilt subset _ k rest,
      )

  -- Without a kubeconfig in the config map, the kubeconfig that is found is for the first subset
  -- of the endpoints alone: its one cluster has the first address and the port named "https".
  pub get_kubeconfig-IsBuilt :
      (s : List Call) (e : Error) (k : Kubeconfig)
      → (get_kubeconfig_from_config_map i s).0 ≡ err e
      → (get_kubeconfig i s).0 ≡ ok k
      → (subsets : List EndpointSubset) × (subset : EndpointSubset) × (i.endpoints "kubernetes"
          ≡ ok subsets)
        × (head subsets ≡ some subset)
        × IsBuilt subset k
  unfolding get_kubeconfig
  get_kubeconfig-IsBuilt s e k missing h =
      elim (attempt-eq-ok (get_kubeconfig_from_config_map i) pure
        (λ _. build_kubeconfig_from_endpoint i) s k h) [
          | inl (_, found, _) ↦ cc
          | inr (_, _, rest) ↦ endpoint-IsBuilt _ k rest
        ]
