-- ===== src/Kube/Calls.antt =====
-- The calls of the machine controller to what it does not implement: the API server, the
-- listers, the work queue and the cloud provider.
use machine_controller.Base.{ℕ, String, Bool, true, false}
use machine_controller.Kube.Objects.{Machine, Node, Secret}

pub data Call : Type 0 where
  -- the API server and the listers that copy it
  list_machine_objects : Call
  get_machine_object : String → String → Call
  update_machine_object : Machine → Call
  delete_machine_object : String → String → Call
  get_lister_node get_api_node : String → Call
  list_nodes : Call
  update_node_object : Node → Call
  delete_node_object : String → Call
  list_pods : String → Call
  get_pod evict_pod : String → String → Call
  list_secrets : String → Call
  get_secret get_service_account : String → String → Call
  create_secret update_secret : Secret → Call
  record_event : String → Call
  -- the cloud provider
  provider_get provider_cleanup : Machine → Call
  provider_create : Machine → String → Call
  -- the work queue and the error handler
  queue_get : Call
  queue_done queue_forget queue_add_rate_limited : String → Call
  queue_add_after : String → ℕ → Call
  handle_error : Call

-- Calls that change no instance, evict no pod, delete nothing, and put no key back into the queue
-- for a failure.
abbrev pub is_benign : Call → Bool
is_benign (delete_machine_object _ _) = false
is_benign (delete_node_object _) = false
is_benign (evict_pod _ _) = false
is_benign (provider_cleanup _) = false
is_benign (provider_create _ _) = false
is_benign (queue_add_rate_limited _) = false
is_benign _ = true

abbrev pub is_delete_node : Call → Bool
is_delete_node (delete_node_object _) = true
is_delete_node _ = false

abbrev pub is_create : Call → Bool
is_create (provider_create _ _) = true
is_create _ = false

abbrev pub is_cleanup : Call → Bool
is_cleanup (provider_cleanup _) = true
is_cleanup _ = false

abbrev pub is_evict : Call → Bool
is_evict (evict_pod _ _) = true
is_evict _ = false

abbrev pub is_delete_machine : Call → Bool
is_delete_machine (delete_machine_object _ _) = true
is_delete_machine _ = false

abbrev pub is_rate_limited : Call → Bool
is_rate_limited (queue_add_rate_limited _) = true
is_rate_limited _ = false
