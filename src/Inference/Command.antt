-- ===== src/Inference/Command.antt =====
-- The docker run of a model: DockerInferenceBackend.start_runtime up to the call. The payload's
-- members have the types that the service gives them.
use greenference_node.Base.{
  ℕ, String, Bool, true, false, ◌&&◌, ◌||◌, Option, none, some, List, [], ◌∷◌, ◌++◌, ltb, ◌==◌,
  str_eq, if◌then◌else◌, get_or,
}
use greenference_node.Dict.{Dict}
use greenference_node.Text.{show, codes, lower, same}
use greenference_node.Text.Words.{concat, is_empty, strip_text}
use greenference_node.Access.Passthrough.{GpuMode, flags}
use greenference_node.Multinode.Payload.{Value}
use greenference_node.Pods.Docker.{nonempty, prefix}
use greenference_node.Inference.Image.{uses_json_mm_limit, looks_like_vision_model}

-- The artifact's payload. `runtime_kind` and `serve_as_name` stand in its runtime manifest.
pub record InferencePayload : Type 0 where
  pub docker_image : Option String
  pub hf_token : Option String
  pub runtime_kind : String
  pub serve_as_name : Option String
  pub tensor_parallel_size : Option ℕ
  pub max_model_len : Option ℕ
  pub vllm_entry : Option String
  pub multi_node : Option (Dict Value)

-- The backend's fields and what it reads of its host: the two Hugging Face tokens of the
-- environment, the cache directory if there is one, and what _docker_host answers.
pub record InferenceSettings : Type 0 where
  pub default_image : String
  pub diffusion_default_image : String
  pub gpu_mode : GpuMode
  pub gpu_memory_utilization : String
  pub hf_token : String
  pub hugging_face_hub_token : String
  pub hf_cache : Option String
  pub docker_host : String
  pub health_timeout : ℕ

unfoldable pub is_diffusion : InferencePayload → Bool
unfolding lower same
is_diffusion p = same (lower (codes p.runtime_kind)) (codes "diffusion")

unfoldable pub inference_container : String → String
unfolding prefix
inference_container deployment_id = concat ("greencompute-inf-" ∷ prefix 12 deployment_id ∷ [])

-- `a or b`, for texts
or_text : String → String → String
unfolding is_empty
or_text a b = if is_empty a then b else a

unfoldable pub image_of : InferenceSettings → InferencePayload → String
unfolding is_diffusion nonempty or_text
image_of s p =
    if is_diffusion p
    then get_or (nonempty p.docker_image) s.diffusion_default_image
    else or_text s.default_image (get_or p.docker_image "")

-- The user's token if it is more than blanks, else the operator's.
unfoldable pub token_of : InferenceSettings → InferencePayload → String
unfolding or_text strip_text is_empty
token_of s p =
    let operator = or_text s.hf_token s.hugging_face_hub_token in
    elim p.hf_token [ none ↦ operator | some t ↦ if is_empty (strip_text t) then operator else t ]

token_flags : String → List String
unfolding is_empty
token_flags t =
    if is_empty t
    then []
    else "-e"
      ∷ concat ("HUGGING_FACE_HUB_TOKEN=" ∷ t ∷ [])
      ∷ "-e"
      ∷ concat ("HF_TOKEN=" ∷ t ∷ [])
      ∷ []

cache_flags : Option String → List String
cache_flags none = []
cache_flags (some dir) = "-v" ∷ concat (dir ∷ ":/root/.cache/huggingface" ∷ []) ∷ []

-- `cmd[:image_index]`
unfoldable pub run_flags : InferenceSettings → InferencePayload → String → List ℕ → ℕ → List String
unfolding inference_container flags token_of token_flags cache_flags
run_flags s p deployment_id gpu_devices port =
    "docker"
      ∷ "run"
      ∷ "-d"
      ∷ "--name"
      ∷ inference_container deployment_id
      ∷ "--shm-size"
      ∷ "8g"
      ∷ "-p"
      ∷ concat (s.docker_host ∷ ":" ∷ show port ∷ ":8000" ∷ [])
      ∷ flags s.gpu_mode gpu_devices
    ++ (token_flags (token_of s p) ++ cache_flags s.hf_cache)

served_names : String → Option String → List String
unfolding is_empty
served_names model_id none = model_id ∷ []
served_names model_id (some name) =
    if is_empty name || str_eq name model_id then model_id ∷ [] else model_id ∷ name ∷ []

parallel_args : Option ℕ → List String
parallel_args none = []
parallel_args (some n) = if ltb 1 n then "--tensor-parallel-size" ∷ show n ∷ [] else []

-- `max_model_len`, with the cap for vision models
unfoldable pub context_length : Option ℕ → Bool → ℕ
context_length none vision = if vision then 16384 else 0
context_length (some n) vision = if n == 0 && vision then 16384 else n

length_args : ℕ → List String
length_args n = if n == 0 then [] else "--max-model-len" ∷ show n ∷ []

media_args : Bool → String → List String
unfolding uses_json_mm_limit
media_args false image = []
media_args true image =
    "--limit-mm-per-prompt"
    ∷ (if uses_json_mm_limit image then "{\"image\": 4}" else "image=4")
    ∷ []

-- `cmd[image_index + 1:]`
unfoldable pub serve_args : InferenceSettings → InferencePayload → String → List String
unfolding is_diffusion looks_like_vision_model image_of served_names parallel_args context_length
    length_args media_args
serve_args s p model_id =
    let vision = looks_like_vision_model model_id in
    "--model"
    ∷ model_id
    ∷ "--host"
    ∷ "0.0.0.0"
    ∷ "--port"
    ∷ "8000"
    ∷ (if is_diffusion p
        then []
        else "--gpu-memory-utilization"
            ∷ s.gpu_memory_utilization
            ∷ "--trust-remote-code"
            ∷ "--served-model-name"
            ∷ served_names model_id p.serve_as_name
          ++ (parallel_args p.tensor_parallel_size
              ++ (length_args (context_length p.max_model_len vision)
                  ++ media_args vision (image_of s p))))
