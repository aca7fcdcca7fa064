-- ===== src/Migration.antt =====
-- pkg/apis/cluster/v1alpha1/migrations/migrations.go, with the conversion of conversions.go: the
-- migration of the old machine objects, of the group machines.k8s.io, to the group cluster.k8s.io.
pub mod Steps
pub mod Emission
pub mod Preparation
pub mod Handover
pub mod Safety
use machine_controller.Base.{
  ℕ, String, ◌≡◌, Bool, Option, List, Pairs, StringMap, none, some, put, [], ◌∷◌,
}
use machine_controller.Outcome.{Outcome, Act, pure, lift, wrap, ◌>>=◌}
use machine_controller.Kube.{ObjectReference, Taint, MachineSpec, MachineStatus, Machine, Node}
use machine_controller.Kube.Cluster.{ProviderConfig, attempts, polls}
use machine_controller.Admission.Machines.{type_revision_annotation, type_revision_current}

-- The old type: the configuration of the provider is in the spec, the version beside it.
pub record OldSpec : Type 0 where
  pub name : String
  pub labels : Pairs
  pub annotations : Pairs
  pub taints : List Taint
  pub provider_config : String
  pub versions : String
  pub config_source : Option String

pub record OldMachine : Type 0 where
  pub namespace : String
  pub name : String
  pub uid : String
  pub labels : StringMap
  pub annotations : StringMap
  pub finalizers : List String
  pub pending_initializers : List String
  pub creation_timestamp : ℕ
  pub deletion_timestamp : Option ℕ
  pub owner_references : List ObjectReference
  pub spec : OldSpec
  pub status : String

pub data MigrationCall : Type 0 where
  get_crd delete_crd : String → MigrationCall
  list_old_machines : MigrationCall
  get_cluster_machine : String → String → MigrationCall
  create_cluster_machine update_cluster_machine : Machine → MigrationCall
  get_cluster_node : String → MigrationCall
  update_cluster_node : Node → MigrationCall
  provider_migrate_uid : Machine → String → MigrationCall
  provider_find : Machine → MigrationCall
  -- the update takes the finalizers away
  update_old_machine delete_old_machine get_old_machine : String → MigrationCall

-- The API server, the provider and the JSON of the libraries.
pub record Migrator : Type 0 where
  pub crd : List MigrationCall → String → Outcome (Unit {0})
  pub deleted_crd : List MigrationCall → Outcome (Unit {0})
  pub old_machines : List MigrationCall → Outcome (List OldMachine)
  pub machine : List MigrationCall → String → String → Outcome Machine
  pub created_machine : List MigrationCall → Machine → Outcome Machine
  pub updated_machine : List MigrationCall → Machine → Outcome Machine
  pub node : List MigrationCall → String → Outcome Node
  pub updated_node : List MigrationCall → Node → Outcome (Unit {0})
  pub migrated_uid : List MigrationCall → Machine → String → Outcome (Unit {0})
  pub found : List MigrationCall → Machine → Outcome (Unit {0})
  pub updated_old : List MigrationCall → String → Outcome (Unit {0})
  pub deleted_old : List MigrationCall → String → Outcome (Unit {0})
  pub old_machine : List MigrationCall → String → Outcome (Unit {0})
  pub convert_status : String → Outcome MachineStatus
  pub convert_versions : String → Outcome String
  pub marshal_config : String → Outcome String
  pub parse_config : String → Outcome ProviderConfig
  pub equal_specs : MachineSpec → MachineSpec → Bool
  pub retry : Act MigrationCall (Unit {0}) → Act MigrationCall (Unit {0})
  pub poll : Act MigrationCall Bool → Act MigrationCall (Unit {0})

pub record IsLawfulMigrator (g : Migrator) : Type 0 where
  pub retry_attempts :
      (m : Act MigrationCall (Unit {0})) (s : List MigrationCall)
      → (n : ℕ) × (g.retry m s ≡ attempts n m s)
  pub poll_polls :
      (m : Act MigrationCall Bool) (s : List MigrationCall) → (n : ℕ) × (g.poll m s ≡ polls n m s)

abbrev pub revised : StringMap → StringMap
revised none = some (put type_revision_annotation type_revision_current [])
revised (some a) = some (put type_revision_annotation type_revision_current a)

-- `Convert_MachinesV1alpha1Machine_To_ClusterV1alpha1Machine`
unfoldable pub convert : Migrator → OldMachine → Outcome Machine
convert g o = elim (g.convert_status o.status) [
  | Outcome.err e ↦ Outcome.err e
  | Outcome.panicked ↦ Outcome.panicked
  | Outcome.ok status ↦ elim (g.marshal_config o.spec.provider_config) [
    | Outcome.err e ↦ Outcome.err e
    | Outcome.panicked ↦ Outcome.panicked
    | Outcome.ok raw ↦ elim (g.convert_versions o.spec.versions) [
      | Outcome.err e ↦ Outcome.err e
      | Outcome.panicked ↦ Outcome.panicked
      | Outcome.ok versions ↦ Outcome.ok (record {
        namespace = "kube-system";
        name = o.name;
        uid = "";
        labels = o.labels;
        annotations = revised o.annotations;
        finalizers = o.finalizers;
        pending_initializers = o.pending_initializers;
        creation_timestamp = 0;
        deletion_timestamp = o.deletion_timestamp;
        owner_references = o.owner_references;
        spec = record {
          name = o.spec.name;
          provider_spec = some raw;
          labels = o.spec.labels;
          annotations = o.spec.annotations;
          taints = o.spec.taints;
          config_source = o.spec.config_source;
          kubelet_version = versions;
        };
        status = status;
      })
    ]
  ]
]
