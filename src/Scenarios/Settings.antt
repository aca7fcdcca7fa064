-- ===== src/Scenarios/Settings.antt =====
-- The configuration of the small cluster's machines at their cloud providers.
use machine_controller.Base.{none}
use machine_controller.Outcome.{not_found, ok, err}
use machine_controller.ProviderConfig.Values.{KeySelector, ConfigVar}
use machine_controller.ProviderConfig.Resolution.{Sources}
use machine_controller.Providers.Common.{PublicKey, Decoder}

abbrev nowhere : KeySelector
nowhere = record { namespace = ""; name = ""; key = "" }

abbrev pub in_place : {A : Type 0} → A → ConfigVar A
in_place a = record { value = a; secret_key_ref = nowhere; config_map_key_ref = nowhere }

abbrev pub no_sources : Sources
no_sources = record {
  secret = λ _ _ _. err not_found;
  config_map = λ _ _ _. err not_found;
  environment = λ _ _. none;
}

abbrev pub decoder : {E R : Type 0} → R → Decoder E R
decoder raw = record {
  decode = λ _. ok (record { operating_system = "ubuntu"; cloud_provider_spec = "{}" });
  decode_raw = λ _. ok raw;
  sources = λ _. no_sources;
  error_text = λ _. "error";
}

abbrev pub temporary_key : PublicKey
temporary_key = record { name = "k"; public_key = "ssh-rsa"; fingerprint_md5 = "00:11" }
