-- ===== src/Scenarios/Amazon.antt =====
-- The AWS provider for the small cluster.
use mathlib.Core.Path.{subst}
use machine_controller.Base.{
  ◌==◌, if◌then◌else◌, all, String, ◌≡◌, refl, true, Option, none, some, List, [], ◌∷◌, arith,
  eq_refl,
}
use machine_controller.Base.Int.{pos}
use machine_controller.Outcome.{or_terminal, new_error, ok, err, ◌>>=◌, ◌>>◌, wrap}
use machine_controller.Outcome.Runs.{Holds}
use machine_controller.Outcome.Yields.{ok-inj}
use machine_controller.ProviderConfig.Resolution.{
  get_config_var_string_value, get_config_var_string_value_or_env,
}
use machine_controller.Providers.Common.{
  MachineConfig, decode_spec, configured, machine_config, resolve_each,
}
use machine_controller.Providers.Contract.{IsProvider}
use machine_controller.Providers.Aws.{
  ami_filters, RawConfig, Config, Image, Instance, Request, terminate_instance, Cloud,
}
use machine_controller.Providers.Aws.Settings.{
  get_default_root_device_path, get_tag_value, get_client, get_config, credentials_of,
}
use machine_controller.Providers.Aws.Images.{
  newest, later_of, newest_of, find_default_ami_id, get_default_ami_id,
}
use machine_controller.Providers.Aws.Instances.{
  first_instance, connect, ami_id_of, packed, run_instances_input, take_back, run_and_attach,
  create,
}
use machine_controller.Providers.Aws.Metrics.{credentials_key, collect}
use machine_controller.Providers.Aws.Laws.{has_uid, IsFiltering, aws, aws-IsProvider}
use machine_controller.Providers.Aws.Counting.{collect-first_only}
use machine_controller.Providers.Aws.Attachment.{IsModified, Unsettled, Panicked, create-takes_back}
use machine_controller.Scenarios.World.{worker, leaving}
use machine_controller.Scenarios.Settings.{in_place, decoder}

abbrev instance_of_worker : Instance
instance_of_worker = record {
  id = "i-1";
  tags = ("Name", "worker") ∷ ("Machine-UID", "1") ∷ [];
  state_name = some "running";
  public_ip_address = "10.0.0.1";
  public_dns_name = "";
  private_ip_address = "";
  private_dns_name = "";
}

abbrev raw_config : RawConfig
raw_config = record {
  access_key_id = in_place "a";
  secret_access_key = in_place "s";
  region = in_place "eu";
  availability_zone = in_place "eu-1";
  vpc_id = in_place "vpc";
  subnet_id = in_place "subnet";
  security_group_ids = in_place "sg-1" ∷ [];
  instance_profile = in_place "profile";
  is_spot_instance = none;
  instance_type = in_place "t2";
  ami = in_place "";
  disk_size = pos 25;
  disk_type = in_place "gp2";
  tags = [];
}

abbrev settings : Config
settings = record {
  access_key_id = "a";
  secret_access_key = "s";
  region = "eu";
  availability_zone = "eu-1";
  vpc_id = "vpc";
  subnet_id = "subnet";
  security_group_ids = "sg-1" ∷ [];
  instance_profile = "profile";
  is_spot_instance = none;
  instance_type = "t2";
  ami = "";
  disk_size = pos 25;
  disk_type = "gp2";
  tags = [];
}

abbrev older : Image
older = record { image_id = some "ami-1"; creation_date = some "2018" }

abbrev newer : Image
newer = record { image_id = some "ami-2"; creation_date = some "2019" }

abbrev cloud : Cloud
cloud = record {
  decoder = decoder raw_config;
  session = λ _ _. ok tt;
  images = λ _ _. ok (older ∷ newer ∷ []);
  image = λ _ _. ok tt;
  vpcs = λ _ _. ok 1;
  availability_zone = λ _ _. ok tt;
  region = λ _ _. ok tt;
  security_groups = λ _ _. ok tt;
  instance_profile = λ _ _. ok tt;
  instances =
      λ _ uid. ok ((record instance_of_worker { tags = ("Machine-UID", uid) ∷ [] } ∷ []) ∷ []);
  all_instances = λ _. ok ((instance_of_worker ∷ []) ∷ []);
  run = λ _ _. ok (instance_of_worker ∷ []);
  modified = λ _ _ _. err (new_error "no such group");
  terminated = λ _ _. ok (some tt);
  tagged = λ _ _ _. ok tt;
  cached = λ _ _. none;
  error_code = λ _. none;
  parse_time = λ date. if date == "2019" then 1 else 0;
  gzip = ok;
  base64 = λ s. s;
  ranged = λ tags. tags;
  encode = λ _. ok "{}";
  encode_raw = λ _. ok "{}";
  cloud_config_to_string = λ _ _ _. ok "[global]";
}

uid_tagged :
    (uid : String)
    → all
        (all (has_uid uid))
        ((record instance_of_worker { tags = ("Machine-UID", uid) ∷ [] } ∷ []) ∷ [])
      ≡ true
unfolding get_tag_value
uid_tagged uid = ground (arith, eq_refl uid)

cloud-IsFiltering : IsFiltering cloud
cloud-IsFiltering = record {
  instances_tagged =
      λ s uid rs e. subst (λ xs. all (all (has_uid uid)) xs ≡ true) (ok-inj e) (uid_tagged uid);
}

aws-IsProvider_example : IsProvider (aws cloud)
aws-IsProvider_example = aws-IsProvider cloud cloud-IsFiltering

abbrev ubuntu_config : MachineConfig
ubuntu_config = record { operating_system = "ubuntu"; cloud_provider_spec = "{}" }

worker_configured :
    configured cloud.decoder (get_config cloud worker.spec.provider_spec) []
    ≡ (ok (settings, ubuntu_config, raw_config), [])
unfolding configured get_config decode_spec resolve_each get_config_var_string_value
    get_config_var_string_value_or_env ◌>>=◌ wrap
worker_configured = refl

collect-first_only_example : collect cloud worker (worker ∷ leaving ∷ []) [] 0 [] ≡ (
  ok ((credentials_key (credentials_of cloud settings), credentials_of cloud settings) ∷ [], 0),
  [],
)
collect-first_only_example =
    collect-first_only cloud worker worker (leaving ∷ []) settings ubuntu_config raw_config []
      worker_configured

abbrev last_request : List Request → Option Request
last_request [] = none
last_request (request ∷ _) = some request

-- The groups are refused, and the instance is terminated.
groups_refused : last_request (create cloud worker "data" []).1 ≡ some (terminate_instance "i-1")
unfolding create connect get_client machine_config configured get_config ami_id_of packed
    get_default_ami_id find_default_ami_id newest_of run_and_attach run_instances_input take_back
    first_instance get_default_root_device_path decode_spec resolve_each get_config_var_string_value
    get_config_var_string_value_or_env ◌>>=◌ ◌>>◌ wrap or_terminal ami_filters newest later_of
groups_refused = refl

create-takes_back_example :
    Holds
      (Panicked cloud worker [])
      (λ i. IsModified cloud worker [] i (ok tt))
      (λ _. Unsettled cloud worker [])
      (create cloud worker "data" []).0
      (create cloud worker "data" []).1
create-takes_back_example = create-takes_back cloud worker [] "data"
