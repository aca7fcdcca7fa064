-- ===== src/ProviderConfig/Resolution.antt =====
-- ConfigVarResolver of types.go: a value from a secret, a config map, the place itself, or the
-- environment.
use machine_controller.Base.{
  String, ◌≡◌, ◌≢◌, refl, Bool, true, false, not, ◌&&◌, Option, some, List, ◌∷◌, StringMap, lookup,
  ◌==◌, if◌then◌else◌, arith, eq_iff,
}
use machine_controller.Outcome.{
  Error, new_error, Outcome, ok, err, Act, pure, raise, lift, call, attempt, wrap, on_option, ◌>>=◌,
}
use machine_controller.ProviderConfig.Values.{
  KeySelector, ConfigVar, format_bool, parse_bool, codes,
}

pub data ConfigCall : Type 0 where
  read_secret read_config_map : String → String → ConfigCall
  read_environment : String → ConfigCall

-- The answers of the API server and of the environment.
pub record Sources : Type 0 where
  pub secret : List ConfigCall → String → String → Outcome StringMap
  pub config_map : List ConfigCall → String → String → Outcome StringMap
  pub environment : List ConfigCall → String → Option String

-- All three parts are needed to fetch a reference.
abbrev pub is_complete : KeySelector → Bool
is_complete ref = not (ref.name == "") && (not (ref.namespace == "") && not (ref.key == ""))

module _ (sources : Sources) where
  unfoldable pub read_key : String → StringMap → String → Act ConfigCall String
  read_key kind contents key = on_option (lookup key contents) (raise (new_error kind)) pure

  unfoldable pub get_config_var_string_value : ConfigVar String → Act ConfigCall String
  get_config_var_string_value v =
      let secret = v.secret_key_ref in
      let config_map = v.config_map_key_ref in
      if is_complete secret
      then (wrap "error retrieving secret" (
            call (read_secret secret.namespace secret.name)
              (λ s. sources.secret s secret.namespace secret.name))
          >>= λ contents. read_key "secret has no key" contents secret.key)
      else if is_complete config_map
      then (wrap "error retrieving configmap" (
            call (read_config_map config_map.namespace config_map.name)
              (λ s. sources.config_map s config_map.namespace config_map.name))
          >>= λ contents. read_key "configmap has no key" contents config_map.key)
      else pure v.value

  -- `os.LookupEnv`
  unfoldable pub look_up_env : String → Act ConfigCall String
  look_up_env name =
      call (read_environment name) (λ s. ok (sources.environment s name)) >>= λ found.
      on_option found (raise (new_error "all mechanisms of getting the value failed")) pure

  unfoldable pub get_config_var_string_value_or_env :
      ConfigVar String → String → Act ConfigCall String
  get_config_var_string_value_or_env v env =
      attempt (get_config_var_string_value v)
        (λ value. if value == "" then look_up_env env else pure value) (λ _. look_up_env env)

  -- `ConfigVarString{Value: ..., SecretKeyRef: ...}`: the config map reference is left out.
  abbrev pub as_string : ConfigVar Bool → ConfigVar String
  as_string v = record {
    value = format_bool v.value;
    secret_key_ref = v.secret_key_ref;
    config_map_key_ref = record { namespace = ""; name = ""; key = "" };
  }

  unfoldable pub get_config_var_bool_value : ConfigVar Bool → Act ConfigCall Bool
  get_config_var_bool_value v =
      get_config_var_string_value (as_string v) >>= λ value. lift (parse_bool (codes value))

  unfoldable pub get_config_var_bool_value_or_env : ConfigVar Bool → String → Act ConfigCall Bool
  get_config_var_bool_value_or_env v env = get_config_var_string_value (as_string v) >>= λ value.
      (if value == "" then look_up_env env else pure value) >>= λ text.
      lift (parse_bool (codes text))

  -- A Boolean given by reference to a config map is read as if the reference were not there, with
  -- and without the environment.
  pub bool_value-ignores_config_map :
      (v : ConfigVar Bool) (ref : KeySelector) (env : String) (s : List ConfigCall)
      → let v' = record v { config_map_key_ref = ref } in
        (get_config_var_bool_value v' s ≡ get_config_var_bool_value v s)
        × (get_config_var_bool_value_or_env v' env s ≡ get_config_var_bool_value_or_env v env s)
  unfolding get_config_var_bool_value get_config_var_bool_value_or_env
  bool_value-ignores_config_map v ref env s = (refl, refl)

  in_place_at :
      (value : Bool) (secret config_map : KeySelector) (env : String) (s : List ConfigCall)
      → is_complete secret ≡ false
      → let v : ConfigVar Bool = record {
        value = value;
        secret_key_ref = secret;
        config_map_key_ref = config_map;
      } in
        get_config_var_bool_value_or_env v env s ≡ (ok value, s)
  unfolding get_config_var_bool_value_or_env get_config_var_string_value ◌>>=◌ parse_bool
  in_place_at true secret config_map env s incomplete = rw (get_config_var_string_value, incomplete)
  in_place_at false secret config_map env s incomplete =
      rw (get_config_var_string_value, incomplete)

  -- The environment stands in for no Boolean that is given in place: without a complete reference
  -- to a secret the value itself is returned, `false` for one that was never set, and neither the
  -- API server nor the environment is asked.
  pub bool_value_or_env-in_place :
      (v : ConfigVar Bool) (env : String) (s : List ConfigCall)
      → is_complete v.secret_key_ref ≡ false
      → get_config_var_bool_value_or_env v env s ≡ (ok v.value, s)
  unfolding get_config_var_bool_value_or_env get_config_var_string_value ◌>>=◌ parse_bool
  bool_value_or_env-in_place v env s incomplete =
      in_place_at v.value v.secret_key_ref v.config_map_key_ref env s incomplete

  -- A string value falls back to the environment: what was resolved is returned, and the
  -- environment not asked, if it is not empty; if resolving fails, or gives the empty string, the
  -- variable is returned where it is set.
  pub string_value_or_env-falls_back :
      (v : ConfigVar String) (env : String) (s : List ConfigCall)
      → ((value : String)
          → (get_config_var_string_value v s).0 ≡ ok value
          → value ≢ ""
          → get_config_var_string_value_or_env v env s ≡ (get_config_var_string_value v s))
        × ((e : Error) (s' : List ConfigCall) (w : String)
            → get_config_var_string_value v s ≡ (err e, s')
            → sources.environment s' env ≡ some w
            → get_config_var_string_value_or_env v env s ≡ (ok w, read_environment env ∷ s'))
        × ((s' : List ConfigCall) (w : String)
            → get_config_var_string_value v s ≡ (ok "", s')
            → sources.environment s' env ≡ some w
            → get_config_var_string_value_or_env v env s ≡ (ok w, read_environment env ∷ s'))
  unfolding get_config_var_string_value_or_env look_up_env ◌>>=◌
  string_value_or_env-falls_back v env s = (
    λ value found nonempty. ground (arith, found, nonempty, eq_iff value ""),
    λ e s' w failed set. ground (arith, failed, set),
    λ s' w empty set. ground (arith, empty, set),
  )
