-- ===== src/Agent/Host.antt =====
-- What the service calls: the control plane's client (greencompute_protocol), and the backends, the
-- artifact store, the volume manager, the port probe and nvidia-smi of the host. Each call may
-- answer anything, raise anything and change the world outside.
use greenference_node.Base.{ℕ, String, Bool, Option, List}
use greenference_node.Devices.{DeviceSet}
use greenference_node.Dict.{Dict}
use greenference_node.Protocol.{Lease, Workload, Runtime, Volume, StatusUpdate, DeploymentState}
use greenference_node.Agent.Exec.{Outcome}

-- What `_start_inference_runtime` hands to the artifact store.
pub record StageRequest : Type 0 where
  pub deployment_id : String
  pub build_id : String
  pub image : String
  pub artifact_uri : String
  pub artifact_digest : String
  pub runtime_kind : String
  pub model_identifier : String
  pub serve_as_name : String
  pub tensor_parallel_size : ℕ
  pub multi_node : Option (Dict String)
  pub hf_token : Option (List ℕ)

pub record Host (W : Type 0) : Type 0 where
  pub list_leases : String → W → Outcome (List Lease) × W
  pub get_workload : String → W → Outcome (Option Workload) × W
  pub get_deployment : String → W → Outcome (Option DeploymentState) × W
  pub update_deployment_status : StatusUpdate → W → Outcome (Unit {0}) × W
  pub busy_gpu_devices : W → Outcome DeviceSet × W
  pub stage_artifact : StageRequest → W → Outcome String × W
  pub runtime_dir : String → W → Outcome String × W
  pub start_runtime : Runtime → StageRequest → W → Outcome Runtime × W
  pub stop_runtime : Runtime → W → Outcome Runtime × W
  pub delete_runtime_dir : String → W → Outcome (Unit {0}) × W
  pub delete_staged_artifact : String → W → Outcome (Unit {0}) × W
  pub choose_free_port : ℕ → ℕ → W → Outcome ℕ × W
  pub is_port_free : ℕ → W → Outcome Bool × W
  pub generate_ssh_keypair : W → Outcome (String × String) × W
  pub create_volume : String → ℕ → W → Outcome Volume × W
  pub delete_volume : Volume → W → Outcome (Unit {0}) × W
  pub start_pod : Runtime → Workload → W → Outcome Runtime × W
  pub wait_for_ready : Runtime → W → Outcome Bool × W
  pub stop_pod : Runtime → W → Outcome Runtime × W
  pub pause_pod : Runtime → W → Outcome Runtime × W
  pub resume_pod : Runtime → W → Outcome Runtime × W
  pub start_vm : Runtime → Workload → W → Outcome Runtime × W
  pub stop_vm : Runtime → W → Outcome Runtime × W
