-- ===== src/Agent/Kept.antt =====
-- The handlers of the service, gone through once for any property that the steps on the agent's parts
-- keep.
pub mod Starts
pub mod Pods
pub mod Passes
pub mod Recoveries
use greenference_node.Base.{
  ℕ, String, Bool, true, false, Option, none, some, List, [], ◌∷◌, if◌then◌else◌,
}
use greenference_node.Devices.{DeviceSet}
use greenference_node.Allocator.{Granted, granted, refused, GpuAllocationError}
use greenference_node.Protocol.{
  WorkloadKind, inference, pod, vm, other_kind, Runtime, RuntimeStatus, Workload, Settings, Failure,
  Volume, StatusUpdate, Lease, DeploymentState,
}
use greenference_node.Agent.Exec.{
  Agent, Exec, Outcome, Raised, still_running, http_error, ssh_error, volume_error, value_error,
  other_error, inference_error, pod_error, vm_error, pure, raise, modify,
}
use greenference_node.Agent.Host.{Host, StageRequest}
use greenference_node.Agent.Keeps.{Keeps, IsInner, keeps_rules, Keeps-raise, Keeps-pure}
use greenference_node.Agent.Parts.{
  file_volume, upsert_runtime, remove_runtime, release_gpus, allocate_gpus, allocate_specific_gpus,
  pop_volume, note_sent, send, log_http, log_any, get_runtime, on_granted,
}
use greenference_node.Agent.Lifecycle.{
  report_deployment_ready, report_state, fail_runtime, delete_if, drop_volume, stop_backend,
  terminate_runtime, suspend_backend, suspend_runtime,
}
use greenference_node.Agent.Start
use greenference_node.Agent.Pod
use greenference_node.Agent.Ports

-- The steps that never add an allocation keep `P`.
pub record IsLocal {W : Type 0} (P : Agent W → Type 0) : Type 0 where
  pub inner : IsInner P
  pub upserts : (rt : Runtime) → Keeps P (upsert_runtime rt)
  pub removes : (d : String) → Keeps P (remove_runtime d)
  pub releases : (d : String) → Keeps P (release_gpus d)
  pub pops : (d : String) → Keeps P (pop_volume d)
  pub files : (d : String) (v : Volume) → Keeps P (file_volume d v)
  pub notes : (u : StatusUpdate) → Keeps P (note_sent u)

-- All the steps on the agent's parts keep `P`.
pub record IsKept {W : Type 0} (P : Agent W → Type 0) : Type 0 where
  pub local : IsLocal P
  pub open local use *
  pub allocates : (d : String) (n : ℕ) (avoid : DeviceSet) → Keeps P (allocate_gpus d n avoid)
  pub reserves : (d : String) (l : List ℕ) → Keeps P (allocate_specific_gpus d l)

module _ {W : Type 0} {P : Agent W → Type 0} (k : IsLocal P) (host : Host W) where
  open k use {inner, upserts, releases, pops, notes}

  pub log_http-Keeps : (e : Raised) → Keeps P (log_http e)
  unfolding log_http
  log_http-Keeps http_error = Keeps-pure tt
  log_http-Keeps e = Keeps-raise e

  pub log_any-Keeps : (e : Raised) → Keeps P (log_any e)
  unfolding log_any
  log_any-Keeps e = Keeps-pure tt

  pub send-Keeps : (u : StatusUpdate) → Keeps P (send host u)
  unfolding send
  send-Keeps u = search (keeps_rules, notes, inner)

  pub report_deployment_ready-Keeps : (rt : Runtime) → Keeps P (report_deployment_ready host rt)
  unfolding report_deployment_ready
  report_deployment_ready-Keeps rt = search (keeps_rules, send-Keeps, log_http-Keeps)

  pub report_state-Keeps :
      (d : String) (state : DeploymentState) (e : Option Failure)
      → Keeps P (report_state host d state e)
  unfolding report_state
  report_state-Keeps d state e = search (keeps_rules, send-Keeps, log_http-Keeps)

  pub fail_runtime-Keeps : (rt : Runtime) (e : Failure) → Keeps P (fail_runtime host rt e)
  unfolding fail_runtime
  fail_runtime-Keeps rt e = search (keeps_rules, releases, upserts, report_state-Keeps)

  pub delete_if-Keeps :
      (o : Option String) (f : String → Exec W (Unit {0}))
      → ((p : String) → Keeps P (f p))
      → Keeps P (delete_if host o f)
  unfolding delete_if
  delete_if-Keeps none f kf = Keeps-pure tt
  delete_if-Keeps (some p) f kf = kf p

  pub drop_volume-Keeps : (o : Option Volume) → Keeps P (drop_volume host o)
  unfolding drop_volume
  drop_volume-Keeps none = Keeps-pure tt
  drop_volume-Keeps (some v) = search (keeps_rules, inner)

  pub stop_backend-Keeps :
      (kind : WorkloadKind) (rt : Runtime) → Keeps P (stop_backend host kind rt)
  unfolding stop_backend
  stop_backend-Keeps inference rt = search (keeps_rules, inner, delete_if-Keeps) depth 8
  stop_backend-Keeps pod rt = search (keeps_rules, inner, pops, drop_volume-Keeps) depth 8
  stop_backend-Keeps vm rt = search (keeps_rules, inner) depth 8
  stop_backend-Keeps (other_kind c) rt = Keeps-pure tt

  pub terminate_runtime-Keeps : (rt : Runtime) (b : Bool) → Keeps P (terminate_runtime host rt b)
  unfolding terminate_runtime
  terminate_runtime-Keeps rt b =
      search (keeps_rules, releases, upserts, stop_backend-Keeps, log_any-Keeps, report_state-Keeps)
        depth 9

  pub suspend_backend-Keeps :
      (kind : WorkloadKind) (rt : Runtime) → Keeps P (suspend_backend host kind rt)
  unfolding suspend_backend
  suspend_backend-Keeps inference rt = search (keeps_rules, inner) depth 8
  suspend_backend-Keeps pod rt = search (keeps_rules, inner)
  suspend_backend-Keeps vm rt = search (keeps_rules, inner) depth 8
  suspend_backend-Keeps (other_kind c) rt = Keeps-pure _

  pub suspend_runtime-Keeps : (rt : Runtime) → Keeps P (suspend_runtime host rt)
  unfolding suspend_runtime
  suspend_runtime-Keeps rt =
      search (keeps_rules, releases, upserts, suspend_backend-Keeps, report_state-Keeps) depth 9

  pub on_granted-Keeps :
      (g : Granted) (f : List ℕ → Exec W (Unit {0})) (h : GpuAllocationError → Exec W (Unit {0}))
      → ((l : List ℕ) → Keeps P (f l))
      → ((e : GpuAllocationError) → Keeps P (h e))
      → Keeps P (on_granted g f h)
  unfolding on_granted
  on_granted-Keeps (granted l) f h kf kh = kf l
  on_granted-Keeps (refused e) f h kf kh = kh e
