-- ===== src/Providers/Kubevirt/Linking.antt =====
-- pkg/cloudprovider/provider/kubevirt/provider.go: the secret with the user data, and the instances
-- that Get answers with.
use mathlib.Core.Path.{subst}
use machine_controller.Kube.{Machine}
use machine_controller.Base.{
  ◌==◌, any, String, ◌≡◌, refl, Bool, true, false, none, List, [], ◌∷◌, arith, eq_refl,
}
use machine_controller.Outcome.{Outcome, ok, err, Act, call}
use machine_controller.Outcome.Yields.{
  Yields, Yields-pure, Yields-raise, Yields-if, Yields-on_option, Yields-bind, Yields-then,
}
use machine_controller.Outcome.Runs.{
  Holds, Runs, Runs-pure, Runs-call, Runs-bind, Runs-then, Runs-wrap,
}
use machine_controller.Providers.Kubevirt.{
  Config, Vmi, Volume, registry_disk, cloud_init_no_cloud, VmiParams, Secret, Request, create_vmi,
  create_secret, Cloud,
}
use machine_controller.Providers.Kubevirt.Instances.{
  is_finished, user_data_secret_of, check_found, get, vmi_params, create_with_secret, create,
}

-- A volume takes the user data from the secret.
abbrev pub refers_to : String → Volume → Bool
refers_to secret_name (cloud_init_no_cloud _ name) = name == secret_name
refers_to secret_name (registry_disk _ _) = false

-- The last requests create an instance of the machine's name, and then the secret that a volume
-- of it refers to, in the namespace of the instance `v` that was created, which owns it.
pub data IsLinked (m : Machine) (user_data : String) (v : Vmi) : List Request → Type 0 where
  linked :
      (p : VmiParams) (secret : Secret) {s : List Request}
      → p.name ≡ m.name
      → any (refers_to secret.name) p.volumes ≡ true
      → secret.namespace ≡ v.namespace
      → secret.owner ≡ v.uid
      → secret.user_data ≡ user_data
      → IsLinked m user_data v (create_secret secret ∷ create_vmi p ∷ s)

-- The last request creates an instance.
data IsCreated (p : VmiParams) : List Request → Type 0 where
  created : {s : List Request} → IsCreated p (create_vmi p ∷ s)

abbrev Unknown : List Request → Type 0
Unknown s = Unit {0}

act-Runs :
    {A : Type 0} (act : Act Request A) → Runs Unknown Unknown (λ _. Unknown) (λ _. Unknown) act
act-Runs act = record { at = λ s _. go (act s).0 (act s).1 }
  where
    go :
        {A : Type 0} (r : Outcome A) (t : List Request)
        → Holds Unknown (λ (_ : A). Unknown) (λ _. Unknown) r t
    go (ok _) t = tt
    go (err _) t = tt
    go Outcome.panicked t = tt

has_volume :
    (secret_name : String) (config : Config)
    → any (refers_to secret_name) (
        registry_disk "registryvolume" config.registry_image
        ∷ cloud_init_no_cloud "cloudinitvolume" secret_name
        ∷ [])
      ≡ true
has_volume secret_name config = ground (arith, eq_refl secret_name)

module _ (c : Cloud) where
  call-Runs :
      (p : VmiParams)
      → Runs Unknown Unknown
          (λ _. IsCreated p)
          (λ _. Unknown)
          (call (create_vmi p) (λ s. c.created_vmi s p))
  call-Runs p = Runs-call _ _ (λ s r _ _. answered s r)
    where
      answered :
          (s : List Request) (r : Outcome Vmi)
          → Holds Unknown (λ _. IsCreated p) (λ _. Unknown) r (create_vmi p ∷ s)
      answered s (ok _) = created
      answered s (err _) = tt
      answered s Outcome.panicked = tt

  secret-Runs :
      (m : Machine) (user_data : String) (v : Vmi) (p : VmiParams) (secret : Secret)
      → ((s : List Request) → IsLinked m user_data v (create_secret secret ∷ create_vmi p ∷ s))
      → Runs Unknown
          (IsCreated p)
          (λ _. IsLinked m user_data v)
          (λ _. Unknown)
          (call (create_secret secret) (λ s. c.created_secret s secret))
  secret-Runs m user_data v p secret h = Runs-call _ _ (λ s r i _. answered s r i)
    where
      answered :
          (s : List Request) (r : Outcome (Unit {0}))
          → IsCreated p s
          → Holds Unknown (λ _. IsLinked m user_data v) (λ _. Unknown) r (create_secret secret ∷ s)
      answered _ (ok _) (created {s}) = h s
      answered s (err _) i = tt
      answered s Outcome.panicked i = tt

  create_with_secret-Runs :
      (m : Machine) (user_data secret_name : String) (p : VmiParams)
      → p.name ≡ m.name
      → any (refers_to secret_name) p.volumes ≡ true
      → Runs Unknown Unknown
          (IsLinked m user_data)
          (λ _. Unknown)
          (create_with_secret c user_data secret_name p)
  unfolding create_with_secret user_data_secret_of
  create_with_secret-Runs m user_data secret_name p e h =
      Runs-bind _ _ (Runs-wrap _ _ (λ _ _ x. x) (call-Runs p)) (λ v.
        Runs-then _ _
          (Runs-wrap _ _ (λ _ _ x. x)
            (secret-Runs m user_data v p _ (λ s. linked p _ e h refl refl refl)))
          (Runs-pure v (λ s x. x)))

  create-Runs :
      (m : Machine) (user_data : String)
      → Runs Unknown Unknown (IsLinked m user_data) (λ _. Unknown) (create c m user_data)
  unfolding create vmi_params
  create-Runs m user_data = Runs-bind _ _ (act-Runs _) (λ (config, pc).
      Runs-bind _ _ (act-Runs _) (λ seconds. Runs-bind _ _ (act-Runs _) (λ resources.
        Runs-then _ _ (act-Runs _)
          (create_with_secret-Runs m user_data _ _ refl (has_volume _ config)))))

  -- Where `create` gives an instance, its last two requests created an instance of the machine's
  -- name and the secret with the user data, by the name that the instance's volume refers to, in the
  -- namespace of the instance that was created and owned by it, so that it goes with it.
  pub create-IsLinked :
      (m : Machine) (user_data : String) (s : List Request) (v : Vmi)
      → (create c m user_data s).0 ≡ ok v
      → IsLinked m user_data v (create c m user_data s).1
  create-IsLinked m user_data s v h =
      subst (λ r. Holds Unknown (IsLinked m user_data) (λ _. Unknown) r (create c m user_data s).1)
        h ((create-Runs m user_data).at s tt)

  -- The instance that `get` answers with is neither being deleted nor finished.
  pub get-IsUsable :
      (m : Machine)
      → Yields (λ v. (v.deletion_timestamp ≡ none) × (is_finished v ≡ false)) (get c m)
  unfolding get check_found
  get-IsUsable m = Yields-bind _ _ (λ (config, pc). Yields-then _ _ (
      Yields-bind _ _ (λ v.
        Yields-on_option _ _ _
          (λ e. Yields-if _ _ _ (λ _. Yields-then _ _ (Yields-raise _)) (λ f. Yields-pure v (e, f)))
          (λ _ _. Yields-raise _))))
