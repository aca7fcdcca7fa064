-- ===== src/Scenarios/Configs.antt =====
-- Provider configurations and the cache of validations.
use machine_controller.Base.{
  String, ◌≡◌, refl, Bool, true, false, Option, none, some, List, [], ◌∷◌, arith,
}
use machine_controller.Outcome.{Error, not_found, new_error, Outcome, ok, err}
use machine_controller.ProviderConfig.Values.{KeySelector, ConfigVar, Bytes, codes}
use machine_controller.ProviderConfig.Json.{
  marshal_string, marshal_bool, unmarshal_string, unmarshal_string-marshal_string,
}
use machine_controller.ProviderConfig.Resolution.{Sources}
use machine_controller.CloudProvider.Caching.{
  Consultation, result, Wrapped, IsCache, get_id, validate,
}
use machine_controller.CloudProvider.Backing.{IsAnswer, IsBacked, validate-IsBacked}
use machine_controller.Scenarios.World.{worker_spec}

abbrev no_reference : KeySelector
no_reference = record { namespace = ""; name = ""; key = "" }

abbrev token_reference : KeySelector
token_reference = record { namespace = "kube-system"; name = "aws"; key = "token" }

abbrev encode : KeySelector → Outcome Bytes
encode _ = ok (codes "{}")

abbrev region : ConfigVar Bytes
region = record {
  value = codes "eu\"1";
  secret_key_ref = no_reference;
  config_map_key_ref = no_reference;
}

abbrev unset : ConfigVar Bytes
unset = record region { value = codes "" }

abbrev allowed : ConfigVar Bool
allowed = record { value = true; secret_key_ref = no_reference; config_map_key_ref = no_reference }

abbrev not_allowed : ConfigVar Bool
not_allowed = record allowed { value = false }

region_text : marshal_string encode region ≡ ok (codes "\"eu\"1\"")
unfolding marshal_string
region_text = refl

allowed_text : marshal_bool encode allowed ≡ ok (codes "true")
unfolding marshal_bool
allowed_text = refl

unmarshal_string-marshal_string_example :
    unmarshal_string (λ _. err not_found) unset (codes "\"eu\"1\"") ≡ ok region
unmarshal_string-marshal_string_example =
    unmarshal_string-marshal_string encode (λ _. err not_found) region unset (codes "\"eu\"1\"")
      region_text

abbrev sources : Sources
sources = record {
  secret = λ _ _ _. err not_found;
  config_map = λ _ _ _. ok (some (("flag", "true") ∷ []));
  environment = λ _ _. some "true";
}

abbrev secret_region : ConfigVar String
secret_region = record {
  value = "";
  secret_key_ref = token_reference;
  config_map_key_ref = no_reference;
}

-- A cache in which every entry has run out.
abbrev wrapped_provider : Wrapped
wrapped_provider = record {
  entry = λ _ _. none;
  marshal_and_hash = λ _. ok "id";
  validated = λ _ _. some (new_error "no such zone");
}

wrapped_provider-IsCache : IsCache wrapped_provider
wrapped_provider-IsCache = record { entry_was_set = λ s id v e. absurd (ground (arith, e)) }

worker_id : get_id wrapped_provider worker_spec ≡ ok "id"
unfolding get_id
worker_id = refl

validate-IsBacked_example :
    IsBacked wrapped_provider (validate wrapped_provider worker_spec []).1
    × ((t : List Consultation) × (v : Option Error) × IsAnswer wrapped_provider "id" v t
        × ((validate wrapped_provider worker_spec []).0 ≡ result v))
validate-IsBacked_example =
    validate-IsBacked wrapped_provider wrapped_provider-IsCache worker_spec "id" [] worker_id tt
