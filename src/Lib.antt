-- ===== src/Lib.antt =====
-- machine_controller: a Kubernetes controller that gives each Machine object an instance at a cloud
-- provider and follows it until its node has joined the cluster, and that evicts, cleans up and
-- forgets both when the Machine is deleted. A webhook defaults and validates the objects first.
--
-- The parts, and the files that state them:
-- - Base, Outcome, Kube: what all parts share. Base has the tests on numbers and strings and Go's
--   string maps (a nil map reads as empty and panics when written). Outcome has Go's results: a
--   value, an error (pkg/cloudprovider/errors/errors.go) or a panic; an action takes the list of the
--   calls made before it, the latest first, and adds its own. Kube has the API objects with the
--   fields that the program reads or writes, the sets of pkg/kubernetes/helper.go, the calls to the
--   outside, and Cluster: one record of the controller's settings, of what the API server, the
--   listers and the cloud provider answer (which may depend on all calls made before), and of the
--   library functions. IsLawful says what is relied on: retries on conflict and polls call their
--   function a finite number of times and pass its answer on, a set's list has the set's members, and
--   a taint matches itself.
-- - Controller: pkg/controller/machine/machine.go. Update writes machines and nodes (updateMachine,
--   updateMachineErrorIfTerminalError, ensureDeleteFinalizerExists, updateNode); Nodes finds nodes and
--   gives them what a machine asks for (getNode, ensureNodeLabelsAnnotationsAndTaints,
--   updateMachineStatus); Instances creates and keeps instances (ensureInstanceExistsForMachine,
--   ensureNodeOwnerRefAndConfigSource); Delete is the way out (shouldEvict, deleteMachine,
--   deleteCloudProviderInstance, deleteNodeForMachine); Sync is one reconciliation (sync,
--   syncHandler); Queue is the work queue and the informers' handlers (processNextWorkItem,
--   enqueueMachine, handleObject, ReadinessChecks). Benign, Emission, Lifecycle, Writes, Finalizers,
--   Labels, Matching and Results prove.
-- - Bootstrap: pkg/controller/machine/kubeconfig.go, the tokens that new machines join with.
-- - Eviction: pkg/node/eviction/eviction.go. The goroutines of evictPods and the three cases of its
--   select are moves of a scheduler; the schedule is an answer of the cluster, and where it ends, the
--   time out is next. The channel errCh has one place for each pod. Pods and Order prove.
-- - CloudProvider: pkg/cloudprovider/provider.go, and in Caching pkg/cloudprovider/validationwrapper.go
--   with pkg/cloudprovider/cache/cloudprovidercache.go. Backing proves.
-- - ProviderConfig: pkg/providerconfig/types.go. Values and Json are the values with references and
--   their JSON; Resolution resolves them from secrets, config maps and the environment.
-- - Admission: pkg/admission. Deployments validates machine deployments, Machines has the two
--   webhooks, Review the HTTP handler. Acceptance, Validity, Immutability, Validation and Answers
--   prove.
-- - ClusterInfo: pkg/clusterinfo/configmap.go, the kubeconfig of the cluster, which Bootstrap puts a
--   token into and the readiness check looks at. Fallback proves.
-- - Migration: pkg/apis/cluster/v1alpha1/migrations/migrations.go, which turns the old machine objects
--   into the new ones at start, with the conversion of
--   pkg/apis/cluster/v1alpha1/conversions/conversions.go. Steps has the steps, from one node to the
--   whole migration; its own API server and provider are the record Migrator. Emission, Preparation,
--   Handover and Safety prove.
-- - Providers: the cloud providers under pkg/cloudprovider/provider, each with the API client that it
--   uses as a record of answers. Contract states the interface of pkg/cloudprovider/types/types.go as
--   a specification: looking changes nothing and finds only what carries the machine's UID, a cleanup
--   is done exactly if nothing is found and else asks for the removal of what was found alone, and
--   what is created carries the UID. Hetzner, Linode, DigitalOcean, Packet and Aws are
--   hetzner/provider.go and so on: the file of that name has the data, the configuration and the
--   validation, Instances has Get, Cleanup, Create and MigrateUID, Laws proves the contract. Keys
--   follows the temporary SSH keys, Draining calls Cleanup until it is done, Tags is about Packet's
--   tags; Aws/Images, Newest, Metrics, Counting and Attachment are the choice of an image, the count
--   of instances, and a creation that is taken back. Azure is provider.go, create_delete_resources.go
--   (Resources) and get_client.go of azure, where the machine carries a finalizer for each kind of
--   resource: Machines has the methods, Creation follows the finalizers through Create, Deletion,
--   Listing, Sweeping and Releasing through Cleanup, and Tagging the UID. Kubevirt is
--   kubevirt/provider.go, with the methods in Instances, and Linking follows the secret with the user
--   data. Release joins the contract to the controller.
-- - Scenarios: the theorems at work on a small cluster.
--
-- sync calls ensureInstanceExistsForMachine, which calls Bootstrap; deleteMachine calls Eviction;
-- both ask CloudProvider which providers there are and ProviderConfig what a machine is configured
-- with, as do the webhooks of Admission.
--
-- Loops are structural on their lists. run_worker takes the number of items it works on; attempts and
-- polls the number of tries, which the libraries choose; numeral has its number as fuel, and rounds counts
-- the cleanups. Times and durations are in seconds.
--
-- A request carries the token of the client that makes it; reads of the configuration are not
-- recorded, and may depend on the requests before. Outcome/Emits and Yields say of an action
-- which calls it makes and what it gives, by one rule for each way to build it;
-- Outcome/Runs is a logic of what holds of the calls before and after.
--
-- Left out: the other cloud providers (OpenStack, GCE, vSphere, fake), the user-data plugins under
-- pkg/userdata and the libraries, whose answers are fields of Cluster, WebhookSources, Wrapped,
-- Migrator, InfoSources and Validators; logging and metrics; the set-up of informers and flags in
-- cmd; the rewriting of JSON from providerConfig to providerSpec in migrations.go; escapes in
-- pkg/ini; generated code under pkg/client and the types of pkg/machines.
pub mod Base
pub mod Outcome
pub mod Kube
pub mod Bootstrap
pub mod Eviction
pub mod CloudProvider
pub mod ProviderConfig
pub mod Controller
pub mod Admission
pub mod ClusterInfo
pub mod Migration
pub mod Providers
pub mod Scenarios
