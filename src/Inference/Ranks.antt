-- ===== src/Inference/Ranks.antt =====
-- What DockerInferenceBackend works with, and the docker run of a model or of one of its ranks.
use greenference_node.Base.{
  ℕ, String, Bool, false, not, Option, none, some, List, [], ◌∷◌, ◌++◌, get_or,
}
use greenference_node.Protocol.{Runtime}
use greenference_node.Agent.Exec.{Outcome, returned, raised, inference_error, other_error}
use greenference_node.Multinode.Payload.{read, refused, overflowed}
use greenference_node.Multinode.Params.{
  Role, head, worker, MultiNodeParams, is_head, parse_multi_node_params,
}
use greenference_node.Multinode.Topology.{Problem, validate_params}
use greenference_node.Multinode.Commands.{build_docker_command}
use greenference_node.Pods.Docker.{Docker, Call, nonempty}
use greenference_node.Inference.Command.{
  InferencePayload, InferenceSettings, image_of, run_flags, serve_args,
}

-- What the backend works with: docker, the kernel's choice of a port, the clock, and the GET of a
-- health page, which says whether the status is 200. `http_error` stands for HTTPError, URLError
-- and TimeoutError.
pub record Engine (W : Type 0) : Type 0 where
  pub docker : Docker W
  pub choose_free_port : Call W ℕ
  pub now : W → ℕ
  pub sleep : ℕ → W → W
  pub probe : String → Call W Bool

-- A runtime with its runtime_url.
pub record Launched : Type 0 where
  pub runtime : Runtime
  pub runtime_url : Option String

unfoldable pub role_name : Role → String
role_name head = "head"
role_name worker = "worker"

unfoldable pub is_worker : Option MultiNodeParams → Bool
unfolding is_head
is_worker none = false
is_worker (some p) = not (is_head p)

-- The refusal of a topology that cannot work.
unfoldable pub unless_problems : List Problem → List String → Outcome (List String)
unless_problems [] command = returned command
unless_problems (problem ∷ problems) command = raised (inference_error "runtime_start_failure")

unfoldable pub launch_command :
    InferenceSettings
    → InferencePayload
    → String
    → List ℕ
    → String
    → ℕ
    → Option MultiNodeParams
    → Outcome (List String)
unfolding run_flags image_of serve_args validate_params build_docker_command nonempty
    unless_problems
launch_command s p deployment_id gpu_devices model_id port none =
    returned
      (run_flags s p deployment_id gpu_devices port ++ image_of s p ∷ serve_args s p model_id)
launch_command s p deployment_id gpu_devices model_id port (some q) =
    unless_problems (validate_params q) (
      build_docker_command (run_flags s p deployment_id gpu_devices port) (image_of s p)
        (serve_args s p model_id) q
        (get_or (nonempty p.vllm_entry) "python3 -m vllm.entrypoints.openai.api_server"))

-- The parameters of a rank; the OverflowError of the parser is no InferenceRuntimeError.
unfoldable pub parsed : InferencePayload → Outcome (Option MultiNodeParams)
unfolding parse_multi_node_params
parsed p = elim (parse_multi_node_params p.multi_node) [
  | read q ↦ returned q
  | refused ↦ returned none
  | overflowed ↦ raised other_error
]
