-- ===== src/CloudProvider.antt =====
-- pkg/cloudprovider/provider.go: the providers that the controller knows.
pub mod Caching
pub mod Backing
use machine_controller.Base.{String, Bool, List, [], ◌∷◌, if◌then◌else◌}
use machine_controller.Outcome.{new_error, Outcome, ok, err}
use machine_controller.Kube.Sets.{has}

-- The keys of the map `providers`.
abbrev pub providers : List String
providers =
    "digitalocean" ∷ "aws" ∷ "openstack" ∷ "gce" ∷ "hetzner" ∷ "linode" ∷ "vsphere" ∷ "azure"
    ∷ "packet" ∷ "fake" ∷ "kubevirt" ∷ []

-- The provider itself is known by its name.
unfoldable pub for_provider : String → Outcome String
for_provider name =
    if has name providers then ok name else err (new_error "cloudprovider not found")
