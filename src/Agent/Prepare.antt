-- ===== src/Agent/Prepare.antt =====
-- What `_start_inference_runtime` works out from a workload before it starts anything: the kind of
-- runtime, the degree of parallelism and the request to the artifact store.
use greenference_node.Base.{
  ℕ, zero, suc, String, Bool, false, Option, none, some, List, [], ◌∷◌, if◌then◌else◌, str_eq,
  length, get_or,
}
use greenference_node.Text.{strip, codes, lower, contains}
use greenference_node.Protocol.{Runtime, Workload}
use greenference_node.Agent.Host.{StageRequest}
use Prim.Native.String.{◌++◌ as append}

-- `resolve_tensor_parallel_size` of domain/inference.py, where an override that is no number is none.
unfoldable pub resolve_tensor_parallel_size : ℕ → Option ℕ → ℕ
resolve_tensor_parallel_size gpu_count (some (suc value)) = suc value
resolve_tensor_parallel_size zero _ = 1
resolve_tensor_parallel_size (suc n) _ = suc n

-- `a or b` on texts
abbrev pub or_else : String → String → String
or_else a b = if str_eq a "" then b else a

-- `s[:n]`
unfoldable pub prefix : ℕ → String → String
prefix zero s = ""
prefix (suc n) String.[] = ""
prefix (suc n) (String.◌∷◌ c s) = String.◌∷◌ c (prefix n s)

-- the kind by the image's name, when nothing else says it
unfoldable pub kind_of_image : String → String
kind_of_image image =
    if contains (lower (codes image)) (codes "diffusion")
    then "diffusion"
    else if contains (lower (codes image)) (codes "vllm")
    then "vllm"
    else "hf-causal-lm"

unfoldable pub resolve_runtime_kind : Workload → String
unfolding kind_of_image
resolve_runtime_kind w =
    or_else w.runtime_kind
      (or_else w.metadata_runtime_kind (kind_of_image (or_else w.image "unknown")))

unfoldable pub non_empty : List ℕ → Option (List ℕ)
non_empty [] = none
non_empty (c ∷ s) = some (c ∷ s)

unfoldable pub token_of : Option String → Option (List ℕ)
unfolding non_empty
token_of none = none
token_of (some t) = non_empty (strip (codes t))

unfoldable pub stage_request : Runtime → Workload → List ℕ → StageRequest
unfolding token_of
stage_request runtime w gpu_devices =
    let image = or_else w.image "unknown" in
    record {
      deployment_id = runtime.deployment_id;
      build_id = get_or w.build_id runtime.deployment_id;
      image = image;
      artifact_uri = get_or w.artifact_uri (append "local://" image);
      artifact_digest =
          get_or w.artifact_digest (append "sha256:" (prefix 16 runtime.deployment_id));
      runtime_kind = resolve_runtime_kind w;
      model_identifier = get_or w.model_identifier w.image;
      serve_as_name = w.name;
      tensor_parallel_size =
          resolve_tensor_parallel_size (length gpu_devices) w.tensor_parallel_size;
      multi_node = runtime.multi_node;
      hf_token = token_of w.hf_token;
    }

-- `is_worker_runtime` of domain/multinode_launch.py, on the one key that it reads
unfoldable pub is_worker_runtime : Option String → Bool
is_worker_runtime none = false
is_worker_runtime (some role) = str_eq role "worker"
