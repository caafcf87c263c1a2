-- ===== src/Inference/Examples.antt =====
-- A model of one node, a host with an Ada and a Blackwell GPU, and a cache with two deployments.
use greenference_node.Base.{
  ℕ, ◌+◌, ◌≡◌, refl, String, true, false, none, some, List, [], ◌∷◌, pos, if◌then◌else◌, ltb,
}
use greenference_node.Text.{show}
use greenference_node.Text.Words.{one_of}
use greenference_node.Agent.Exec.{returned, raised, inference_error}
use greenference_node.Access.Passthrough.{gpus}
use greenference_node.Pods.Examples.{sample, quiet}
use greenference_node.Inference.Image.{Gpu, pick_from}
use greenference_node.Inference.Choice.{required_image, pick_from-required}
use greenference_node.Inference.Command.{InferencePayload, InferenceSettings}
use greenference_node.Inference.Launch.{start_runtime}
use greenference_node.Inference.Ranks.{Engine}
use greenference_node.Inference.Store.{
  ArtifactBundle, Cache, stage_artifact, has_digest, load_staged_artifact, evict_stale_cache,
}
use greenference_node.Inference.Eviction.{stage-evict-load}

abbrev host : List Gpu
host =
    record { capability = 8900; driver_major = pos 570 }
    ∷ record { capability = 12000; driver_major = pos 580 }
    ∷ []

pick_from-required_example : pick_from host ≡ required_image host
pick_from-required_example = pick_from-required host

-- A health page that never answers.
abbrev engine : Engine ℕ
engine = record {
  docker = quiet;
  choose_free_port = λ w. (returned 40000, w);
  now = λ w. w;
  sleep = λ ms w. w + ms;
  probe = λ url w. (returned false, w);
}

abbrev settings : InferenceSettings
settings = record {
  default_image = "vllm:v0.8.5";
  diffusion_default_image = "diffusion";
  gpu_mode = gpus;
  gpu_memory_utilization = "0.9";
  hf_token = "";
  hugging_face_hub_token = "";
  hf_cache = none;
  docker_host = "127.0.0.1";
  health_timeout = 4000;
}

abbrev payload : InferencePayload
payload = record {
  docker_image = none;
  hf_token = none;
  runtime_kind = "hf-causal-lm";
  serve_as_name = some "m";
  tensor_parallel_size = some 1;
  max_model_len = none;
  vllm_entry = none;
  multi_node = none;
}

-- A server that answers from the world 100 on.
abbrev answering : Engine ℕ
answering = record engine { probe = λ url w. (returned (ltb 100 w), w + 1) }

start_returns :
    (start_runtime answering 3 settings sample payload "org/m" 0).0
    ≡ returned (record {
      runtime = record sample { container_id = some "0.0.0.0:30022" };
      runtime_url = some "http://127.0.0.1:40000";
    })
unfolding start_runtime show
start_returns = refl

start_fails :
    (start_runtime engine 5 settings sample payload "org/m" 0).0
    ≡ raised (inference_error "health_check_failure")
unfolding start_runtime show
start_fails = refl

abbrev empty : Cache
empty = record { artifacts = []; runtime_dirs = ("d1", 10 ∷ []) ∷ ("d2", []) ∷ [] }

abbrev bundle : ArtifactBundle
bundle = record {
  build_id = "b";
  image = "i";
  artifact_uri = "s3://a";
  artifact_digest = "sha256:0";
  staged_artifact_path = "d1";
}

abbrev staged : Cache
staged = record empty { artifacts = ("d1", bundle) ∷ [] }

abbrev active : List String
active = "d1" ∷ []

stages : stage_artifact "d1" "b" "i" "s3://a" "sha256:0" empty ≡ (returned bundle, staged)
unfolding stage_artifact
stages = refl

d1_is_active : one_of "d1" active ≡ true
unfolding one_of
d1_is_active = refl

stage-evict-load_example : load_staged_artifact "d1" (evict_stale_cache active staged).1 ≡ (
    if has_digest bundle
    then returned bundle
    else raised (inference_error "artifact_validation_failure"))
stage-evict-load_example =
    stage-evict-load active "d1" "b" "i" "s3://a" "sha256:0" bundle empty staged stages d1_is_active
