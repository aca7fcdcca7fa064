-- ===== src/Controller.antt =====
-- pkg/controller/machine/machine.go: the controller that reconciles machines. Its functions are
-- in the modules Update to Queue; the others are about what these promise.
pub mod Update
pub mod Nodes
pub mod Instances
pub mod Delete
pub mod Sync
pub mod Queue
pub mod Benign
pub mod Emission
pub mod Lifecycle
pub mod Finalizers
pub mod Writes
pub mod Labels
pub mod Matching
pub mod Results
