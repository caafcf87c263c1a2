-- ===== src/Web/Wire.antt =====
-- What the routes exchange. A protocol record that they pass on as it is, a `Payload`, is a type of
-- its own; its parse is part of the call that takes it.
use greenference_node.Base.{ℕ, String, Bool, true, false, Option, List}
use greenference_node.Allocator.{Status}
use greenference_node.Repository.Summary.{RuntimeSummary}
use greenference_node.Protocol.{Runtime, RuntimeStatus, WorkloadKind, other_kind, Lease}
use greenference_node.Access.Redaction.{Value}
use greenference_node.Agent.Exec.{Outcome}
use greenference_node.Agent.Recovery.{Recovery}

-- The control plane's client, the inference backend's `invoke`, the POST to a model's server
-- (`http_error` stands for HTTPError, URLError and TimeoutError), pod_stats.py, and the protocol's
-- dump of a record and its field runtime_url, which the service keeps as the backend gave it.
pub record Wire (Payload W : Type 0) : Type 0 where
  pub register_miner : Payload → W → Outcome Payload × W
  pub update_capacity : Payload → W → Outcome Payload × W
  pub record_heartbeat : Payload → W → Outcome Payload × W
  pub invoke : Runtime → Payload → W → Outcome Payload × W
  pub post_upstream : String → Payload → W → Outcome Payload × W
  pub collect_pod_stats : String → List ℕ → W → Outcome Payload × W
  pub model_dump : Runtime → Value
  pub runtime_url : Runtime → Option String

-- SSHAccessRecord, without the user's name and the fingerprint, which are copied.
pub record SshAccess : Type 0 where
  pub deployment_id : String
  pub host : String
  pub port : ℕ
  pub private_key : Option String
  pub ready : Bool

pub data Body (Payload : Type 0) : Type 0 where
  dumped : Payload → Body Payload
  leases : List Lease → Body Payload
  ok : Body Payload
  recovery : Recovery → Body Payload
  runtimes : List Value → Body Payload
  runtime : Value → Body Payload
  summary : RuntimeSummary → Body Payload
  healthy : String → Body Payload
  no_stats : Body Payload
  ssh : SshAccess → Body Payload
  terminated : Bool → Body Payload
  gpus : Status → Body Payload

-- What a client is answered: a body, or the status of an HTTPException; 500 is the server's own, for
-- an exception that nothing catches.
pub data Response (Payload : Type 0) : Type 0 where
  answer : Body Payload → Response Payload
  refuse : ℕ → Response Payload

unfoldable pub status_text : RuntimeStatus → String
status_text RuntimeStatus.accepted = "accepted"
status_text RuntimeStatus.preparing = "preparing"
status_text RuntimeStatus.starting = "starting"
status_text RuntimeStatus.ready = "ready"
status_text RuntimeStatus.suspended = "suspended"
status_text RuntimeStatus.failed = "failed"
status_text RuntimeStatus.terminated = "terminated"
status_text (RuntimeStatus.other_status s) = s

unfoldable pub kind_text : WorkloadKind → String
kind_text WorkloadKind.inference = "inference"
kind_text WorkloadKind.pod = "pod"
kind_text WorkloadKind.vm = "vm"
kind_text (other_kind s) = s

unfoldable pub is_ready : RuntimeStatus → Bool
is_ready RuntimeStatus.ready = true
is_ready _ = false

unfoldable pub is_pod : WorkloadKind → Bool
is_pod WorkloadKind.pod = true
is_pod _ = false

unfoldable pub is_inference : WorkloadKind → Bool
is_inference WorkloadKind.inference = true
is_inference _ = false
