-- ===== src/Kube.antt =====
-- The objects of the cluster, with the fields that the program reads or writes, and string sets.
-- The types are those of k8s.io/api and sigs.k8s.io/cluster-api.
pub mod Sets
pub mod Calls
pub mod Cluster
pub mod Objects
pub use Objects.*
