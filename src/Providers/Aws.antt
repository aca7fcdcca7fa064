-- ===== src/Providers/Aws.antt =====
-- pkg/cloudprovider/provider/aws/provider.go: what the provider reads and asks for. The
-- clients of aws-sdk-go are given by their answers.
pub mod Settings
pub mod Validation
pub mod Images
pub mod Instances
pub mod Metrics
pub mod Newest
pub mod Counting
pub mod Attachment
pub mod Laws
use machine_controller.Base.{
  ◌==◌, if◌then◌else◌, Pairs, ℕ, zero, String, Bool, Option, none, some, List, [], ◌∷◌, map,
}
use machine_controller.Base.Int.{ℤ}
use machine_controller.Outcome.{Error, Outcome}
use machine_controller.Kube.{Machine, MachineSpec}
use machine_controller.ProviderConfig.Values.{ConfigVar}
use machine_controller.Providers.Common.{MachineConfig, Decoder}

abbrev pub name_tag : String
name_tag = "Name"

abbrev pub machine_uid_tag : String
machine_uid_tag = "Machine-UID"

abbrev pub volume_types : List String
volume_types = "standard" ∷ "io1" ∷ "gp2" ∷ "sc1" ∷ "st1" ∷ []

pub record AmiFilter : Type 0 where
  pub description : String
  pub owner : String
  pub product_code : String

-- The map `amiFilters`
unfoldable pub ami_filters : String → Option AmiFilter
ami_filters os =
    if os == "coreos"
    then some record {
      description = "CoreOS Container Linux stable*";
      owner = "595879546273";
      product_code = "";
    }
    else if os == "centos"
    then some record {
      description = "CentOS Linux 7 x86_64 HVM EBS*";
      owner = "679593333241";
      product_code = "aw0evgkw8e5c1q413zgy5pjce";
    }
    else if os == "ubuntu"
    then some record {
      description = "Canonical, Ubuntu, 18.04 LTS, amd64 bionic image build on ????-??-??";
      owner = "099720109477";
      product_code = "";
    }
    else none

pub record RawConfig : Type 0 where
  pub access_key_id : ConfigVar String
  pub secret_access_key : ConfigVar String
  pub region : ConfigVar String
  pub availability_zone : ConfigVar String
  pub vpc_id : ConfigVar String
  pub subnet_id : ConfigVar String
  pub security_group_ids : List (ConfigVar String)
  pub instance_profile : ConfigVar String
  pub is_spot_instance : Option Bool
  pub instance_type : ConfigVar String
  pub ami : ConfigVar String
  pub disk_size : ℤ
  pub disk_type : ConfigVar String
  pub tags : Pairs

pub record Config : Type 0 where
  pub access_key_id : String
  pub secret_access_key : String
  pub region : String
  pub availability_zone : String
  pub vpc_id : String
  pub subnet_id : String
  pub security_group_ids : List String
  pub instance_profile : String
  pub is_spot_instance : Option Bool
  pub instance_type : String
  pub ami : String
  pub disk_size : ℤ
  pub disk_type : String
  pub tags : Pairs

-- `ec2.Image`; pointers may be nil
pub record Image : Type 0 where
  pub image_id : Option String
  pub creation_date : Option String

-- `ec2.Instance`, with the fields that are read; a nil string reads as "" where the source reads it
-- with `aws.StringValue`. The state's name is none where `State` or `State.Name` is nil.
pub record Instance : Type 0 where
  pub id : String
  pub tags : Pairs
  pub state_name : Option String
  pub public_ip_address : String
  pub public_dns_name : String
  pub private_ip_address : String
  pub private_dns_name : String

-- `ec2.RunInstancesInput`, with the fields that depend on the machine
pub record RunInstancesInput : Type 0 where
  pub image_id : String
  pub is_spot : Bool
  pub device_name : String
  pub volume_size : ℤ
  pub volume_type : String
  pub min_count : ℕ
  pub max_count : ℕ
  pub instance_type : String
  pub user_data : String
  pub availability_zone : String
  pub subnet_id : String
  pub instance_profile : String
  pub tags : Pairs

-- What a session is made of.
pub record Credentials : Type 0 where
  pub id : String
  pub secret : String
  pub region : String

pub data Request : Type 0 where
  new_session : Credentials → Request
  describe_images : AmiFilter → Request
  describe_image describe_vpcs describe_availability_zone describe_region : String → Request
  describe_security_groups : List String → Request
  get_instance_profile : String → Request
  -- with the UID of the filter
  describe_instances : String → Request
  describe_all_instances : Request
  run_instances : RunInstancesInput → Request
  modify_instance_groups : String → List String → Request
  terminate_instance : String → Request
  -- with the value of the tag for the UID
  create_tag : String → String → Request
  -- the process' own cache and metrics
  cache_get : String → Request
  cache_set : String → String → Request
  set_gauge : String → ℕ → Request

pub record Cloud : Type 0 where
  pub decoder : Decoder Request RawConfig
  pub session : List Request → Credentials → Outcome (Unit {0})
  pub images : List Request → AmiFilter → Outcome (List Image)
  pub image : List Request → String → Outcome (Unit {0})
  -- the number of VPCs with this id
  pub vpcs : List Request → String → Outcome ℕ
  pub availability_zone : List Request → String → Outcome (Unit {0})
  pub region : List Request → String → Outcome (Unit {0})
  pub security_groups : List Request → List String → Outcome (Unit {0})
  pub instance_profile : List Request → String → Outcome (Unit {0})
  -- the instances of each reservation
  pub instances : List Request → String → Outcome (List (List Instance))
  pub all_instances : List Request → Outcome (List (List Instance))
  pub run : List Request → RunInstancesInput → Outcome (List Instance)
  pub modified : List Request → String → List String → Outcome (Unit {0})
  -- none where the answer describes no state change, which `Cleanup` looks at
  pub terminated : List Request → String → Outcome (Option (Unit {0}))
  pub tagged : List Request → String → String → Outcome (Unit {0})
  pub cached : List Request → String → Option String
  -- the code of an `awserr.Error`, none for other errors
  pub error_code : Error → Option String
  -- `time.Parse(time.RFC3339, ...)`, as a number that orders times; the zero time if it fails
  pub parse_time : String → ℕ
  pub gzip : String → Outcome String
  pub base64 : String → String
  -- the order in which `range` goes over a map
  pub ranged : Pairs → Pairs
  -- `json.Marshal` and `CloudConfigToString`
  pub encode : MachineConfig → Outcome String
  pub encode_raw : RawConfig → Outcome String
  pub cloud_config_to_string : String → String → String → Outcome String
