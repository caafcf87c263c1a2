-- ===== src/Pods/Command.antt =====
-- The docker run of a pod: ProcessPodBackend.start_pod up to the call. The fields that the service
-- never looks at come in a record of their own; cores are counted in hundredths, and the mode of
-- the GPU flags is the one that the node settled on.
use greenference_node.Base.{
  ℕ, ◌/◌, ◌%◌, String, Option, none, some, List, [], ◌∷◌, ◌++◌, ltb, if◌then◌else◌, get_or,
}
use greenference_node.Dict.{Dict}
use greenference_node.Text.{show}
use greenference_node.Text.Words.{concat, join, is_empty}
use greenference_node.Protocol.{Runtime, Workload}
use greenference_node.Access.Passthrough.{GpuMode, flags}
use greenference_node.Pods.Docker.{nonempty, prefix}

-- DiskMode of domain/disk.py
pub data DiskMode : Type 0 where
  loop_mount loop_mount_sudo storage_opt no_enforcement : DiskMode

pub record PodOptions : Type 0 where
  pub cpu_cores_allocated : Option ℕ
  pub memory_gb_allocated : Option ℕ
  pub volume_size_gb : Option ℕ
  pub env_vars : Dict String

-- The backend's own fields, GREENCOMPUTE_HOST_REPO_DIR and the path beside the package.
pub record PodSettings : Type 0 where
  pub disk_mode : DiskMode
  pub gpu_mode : GpuMode
  pub host_repo : String
  pub entrypoint_path : String
  pub options : Runtime → PodOptions

-- `f"{n / 100:.2f}"`
hundredths : ℕ → String
hundredths n = concat (show (n / 100) ∷ "." ∷ show (n % 100 / 10) ∷ show (n % 10) ∷ [])

unfoldable pub container_name : Runtime → String
unfolding prefix
container_name runtime = concat ("greencompute-pod-" ∷ prefix 12 runtime.deployment_id ∷ [])

unfoldable pub pod_image : Runtime → Workload → String
unfolding nonempty
pod_image runtime workload = get_or (nonempty runtime.image) workload.image

-- `n and n > 0`, for an optional number
positive : Option ℕ → (ℕ → List String) → List String
positive none f = []
positive (some n) f = if ltb 0 n then f n else []

limit_flags : PodSettings → PodOptions → List String
unfolding hundredths positive
limit_flags s o =
    positive o.cpu_cores_allocated (λ n. "--cpus" ∷ hundredths n ∷ [])
    ++ (positive o.memory_gb_allocated (λ n. "--memory" ∷ concat (show n ∷ "g" ∷ []) ∷ [])
        ++ elim s.disk_mode [
          | storage_opt ↦
              positive o.volume_size_gb
                (λ n. "--storage-opt" ∷ concat ("size=" ∷ show n ∷ "G" ∷ []) ∷ [])
          | _ ↦ []
        ])

unfoldable pub publish : ℕ → ℕ → List String
publish host container = "-p" ∷ concat ("0.0.0.0:" ∷ show host ∷ ":" ∷ show container ∷ []) ∷ []

-- Every exposed port: a pair of a container port and a host port.
unfoldable pub publish_all : List (ℕ × ℕ) → List String
unfolding publish
publish_all [] = []
publish_all ((container, host) ∷ rest) = publish host container ++ publish_all rest

unfoldable pub port_flags : Runtime → List String
unfolding publish_all publish positive
port_flags runtime =
    positive runtime.ssh_port (λ p. publish p 22) ++ publish_all runtime.port_allocations

unfoldable pub pod_gpu_flags : PodSettings → Runtime → List String
unfolding flags
pod_gpu_flags s runtime = elim runtime.gpu_devices [
  | [] ↦ if ltb 0 runtime.gpu_fraction then flags s.gpu_mode [] else []
  | _ ↦ flags s.gpu_mode runtime.gpu_devices
]

env_flags : Dict String → List String
env_flags [] = []
env_flags ((key, value) ∷ env) = "-e" ∷ concat (key ∷ "=" ∷ value ∷ []) ∷ env_flags env

key_flags : List String → List String
unfolding join
key_flags [] = []
key_flags keys = "-e" ∷ concat ("AUTHORIZED_KEYS=" ∷ join "\n" keys ∷ []) ∷ []

volume_flags : Option String → List String
unfolding nonempty
volume_flags path = elim (nonempty path) [
  | none ↦ []
  | some p ↦ "-v" ∷ concat (p ∷ ":/workspace" ∷ []) ∷ []
]

entrypoint_flags : PodSettings → List String
unfolding is_empty
entrypoint_flags s =
    let entrypoint =
      if is_empty s.host_repo
      then s.entrypoint_path
      else concat (s.host_repo ∷ "/infra/docker/entrypoint.sh" ∷ []) in
    "-v"
    ∷ concat (entrypoint ∷ ":/greencompute-entrypoint.sh:ro" ∷ [])
    ∷ "--entrypoint"
    ∷ "/greencompute-entrypoint.sh"
    ∷ []

unfoldable pub pod_command : PodSettings → Runtime → Workload → List String
unfolding limit_flags port_flags volume_flags pod_gpu_flags env_flags key_flags entrypoint_flags
    container_name pod_image
pod_command s runtime workload =
    let o = s.options runtime in
    "docker"
      ∷ "run"
      ∷ "-d"
      ∷ "--name"
      ∷ container_name runtime
      ∷ "--restart"
      ∷ "unless-stopped"
      ∷ limit_flags s o
    ++ (port_flags runtime
        ++ (volume_flags runtime.volume_path
            ++ (pod_gpu_flags s runtime
                ++ (env_flags o.env_vars
                    ++ (key_flags runtime.ssh_public_keys
                        ++ (entrypoint_flags s ++ (pod_image runtime workload ∷ [])))))))
