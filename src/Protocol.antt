-- ===== src/Protocol.antt =====
-- The fields of greenference's protocol records that the agent reads or writes, and its own
-- settings. A metadata key that is absent is `none`; a text that Python tests for truth is empty
-- where the protocol has None.
use greenference_node.Base.{ℕ, String, Bool, Option, List}
use greenference_node.Allocator.{GpuAllocationError}
use greenference_node.Dict.{Dict}

pub data WorkloadKind : Type 0 where
  inference pod vm : WorkloadKind
  other_kind : String → WorkloadKind

-- The values of `runtime.status` that the code tests; any other text is `other_status`.
pub data RuntimeStatus : Type 0 where
  accepted preparing starting ready suspended failed terminated : RuntimeStatus
  other_status : String → RuntimeStatus

pub data DeploymentState : Type 0 where
  pending scheduled pulling starting ready draining suspended failed terminated : DeploymentState

-- LeaseAssignment
pub record Lease : Type 0 where
  pub deployment_id : String
  pub workload_id : String
  pub hotkey : String
  pub node_id : String
  pub status : String
  pub multi_node : Option (Dict String)

-- One entry of `requested_ports`: a number, or something that `int` refuses.
pub data RequestedPort : Type 0 where
  port : ℕ → RequestedPort
  not_a_number : RequestedPort

-- WorkloadSpec, with the keys of its metadata that the handlers read.
pub record Workload : Type 0 where
  pub kind : WorkloadKind
  pub name : String
  pub image : String
  pub model_identifier : Option String
  pub runtime_kind : String
  pub gpu_count : Option ℕ
  pub build_id : Option String
  pub artifact_uri : Option String
  pub artifact_digest : Option String
  pub metadata_runtime_kind : String
  pub tensor_parallel_size : Option ℕ
  pub hf_token : Option String
  pub template : String
  pub requested_ports : List RequestedPort
  pub volume_size_gb : Option ℕ
  pub ssh_public_keys : List String

-- Why a runtime failed, by the place that writes `last_error`.
pub data Failure : Type 0 where
  allocation_failed : GpuAllocationError → Failure
  staging_failed ssh_setup_failed volume_creation_failed : Failure
  backend_failed : String → Failure
  resume_failed : String → Failure
  unsupported_kind workload_not_found reconciliation_failed : Failure

-- UnifiedRuntimeRecord. The last group are keys of its metadata.
pub record Runtime : Type 0 where
  pub deployment_id : String
  pub workload_id : String
  pub hotkey : String
  pub node_id : String
  pub workload_kind : WorkloadKind
  pub status : RuntimeStatus
  pub current_stage : String
  pub gpu_fraction : ℕ
  pub endpoint : Option String
  pub last_error : Option Failure
  pub failure_class : Option String
  pub process_id : Option ℕ
  pub container_id : Option String
  pub vm_id : Option String
  pub runtime_dir : Option String
  pub staged_artifact_path : Option String
  pub image : Option String
  pub ssh_host : Option String
  pub ssh_port : Option ℕ
  pub volume_path : Option String
  pub port_mappings : List (ℕ × ℕ)
  pub gpu_devices : List ℕ
  pub gpu_count : Option ℕ
  pub multi_node : Option (Dict String)
  pub multi_node_role : Option String
  pub ssh_private_key : Option String
  pub ssh_public_keys : List String
  pub port_allocations : List (ℕ × ℕ)
  pub ssh_verified : Option Bool

-- VolumeRecord
pub record Volume : Type 0 where
  pub deployment_id : String
  pub path : String

-- DeploymentStatusUpdate
pub record StatusUpdate : Type 0 where
  pub deployment_id : String
  pub state : DeploymentState
  pub error : Option Failure
  pub endpoint : Option String
  pub ssh_private_key : Option String
  pub port_mappings : List (ℕ × ℕ)
  pub ready_instances : Option ℕ

-- The settings that the handlers read (config.py).
pub record Settings : Type 0 where
  pub node_id : String
  pub gpu_count : ℕ
  pub miner_api_base_url : String
  pub ssh_host : String
  pub ssh_port_range_start : ℕ
  pub ssh_port_range_end : ℕ
  pub user_port_range_start : ℕ
  pub user_port_range_end : ℕ
