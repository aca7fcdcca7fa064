-- ===== src/Kube/Objects.antt =====
-- The objects of the cluster, with the fields that the program reads or writes.
use machine_controller.Base.{ℕ, String, Bool, Option, List, Pairs, StringMap}

pub record ObjectReference : Type 0 where
  pub kind : String
  pub name : String
  pub uid : String

pub record Taint : Type 0 where
  pub key : String
  pub value : String
  pub effect : String

pub record Condition : Type 0 where
  pub type : String
  pub status : String

pub record MachineSpec : Type 0 where
  pub name : String
  -- `ProviderSpec.Value.Raw`; `none` where `Value` is nil
  pub provider_spec : Option String
  pub labels : Pairs
  pub annotations : Pairs
  pub taints : List Taint
  pub config_source : Option String
  pub kubelet_version : String

pub record MachineStatus : Type 0 where
  pub node_ref : Option ObjectReference
  pub error_reason : Option String
  pub error_message : Option String
  pub addresses : List String
  pub conditions : List Condition
  -- `Versions.Kubelet`; `none` where `Versions` is nil
  pub versions : Option String

pub record Machine : Type 0 where
  pub namespace : String
  pub name : String
  pub uid : String
  pub labels : StringMap
  pub annotations : StringMap
  pub finalizers : List String
  pub pending_initializers : List String
  pub creation_timestamp : ℕ
  pub deletion_timestamp : Option ℕ
  pub owner_references : List ObjectReference
  pub spec : MachineSpec
  pub status : MachineStatus

pub record Node : Type 0 where
  pub name : String
  pub labels : StringMap
  pub annotations : StringMap
  pub owner_references : List ObjectReference
  pub resource_version : String
  pub taints : List Taint
  pub unschedulable : Bool
  pub provider_id : String
  pub config_source : Option String
  pub addresses : List String
  pub conditions : List Condition
  pub kubelet_version : String

pub record Pod : Type 0 where
  pub namespace : String
  pub name : String
  pub phase : String
  -- the kind of the owner that is marked as controller
  pub controller_kind : Option String
  pub annotations : StringMap

pub record Secret : Type 0 where
  pub name : String
  pub labels : StringMap
  pub type : String
  pub contents : StringMap

-- pkg/cloudprovider/instance/instance.go: what the controller asks of an instance.
pub record Instance : Type 0 where
  pub id : String
  pub addresses : List String

-- A kubeconfig: its clusters by name, with server and CA data, and the token for "".
pub record ClusterEntry : Type 0 where
  pub name : String
  pub server : String
  pub ca_data : String

pub record Kubeconfig : Type 0 where
  pub clusters : List ClusterEntry
  pub token : Option String

-- An object that an informer hands over: its name and labels.
pub record ObjectMeta : Type 0 where
  pub name : String
  pub labels : StringMap

pub data Notification : Type 0 where
  object : ObjectMeta → Notification
  tombstone : Option ObjectMeta → Notification
  other : Notification
