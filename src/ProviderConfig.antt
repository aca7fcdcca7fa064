-- ===== src/ProviderConfig.antt =====
-- pkg/providerconfig/types.go: the configuration of a machine's provider, and values that may
-- come from secrets, config maps or the environment.
pub mod Values
pub mod Json
pub mod Resolution
use machine_controller.Base.{String, Option, none, some, List, [], ◌==◌, if◌then◌else◌}
use machine_controller.Outcome.{new_error, Outcome, ok, err}
use machine_controller.Kube.Cluster.{ProviderConfig}

abbrev empty_config : ProviderConfig
empty_config = record { cloud_provider = ""; operating_system = ""; ssh_public_keys = [] }

-- `GetConfig`; `parse` is `json.Unmarshal` into a fresh configuration.
unfoldable pub get_config :
    (String → Outcome ProviderConfig) → Option String → Outcome ProviderConfig
get_config parse none = err (new_error "machine.spec.providerSpec.value is nil")
get_config parse (some raw) = if raw == "" then ok empty_config else parse raw
