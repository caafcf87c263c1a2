-- ===== src/Inference/Fallback/Local.antt =====
-- LocalArtifactInferenceBackend: a model in the agent's own process. The notes of times are left out.
use greenference_node.Base.{String, Bool, true, false, Option, none, some, if◌then◌else◌, get_or}
use greenference_node.Models.Create.{
  Manifest, Created, created, model_error, Library, Backend, create_text_generation_backend,
  local_cpu, fallback, causal_lm, diffusion, or_text,
}
use greenference_node.Inference.Fallback.Machine.{
  prepare_runtime, health_check, invoke_inference, other_fault, inference_fault, Result, ok, fault,
  Artifact, Hosted,
}

-- `backend.model_identifier`
unfoldable pub identifier_of : Backend → String
identifier_of (local_cpu b) = b.model_identifier
identifier_of (fallback b) = b.model_identifier
identifier_of (causal_lm model tokenizer) = model
identifier_of (diffusion model) = model

-- LocalArtifactInferenceBackend.stop_runtime
unfoldable pub local_stop : Hosted → Hosted
local_stop h = record h { backend_started = false }

reported : Created Backend → Result Bool
reported (created b) = ok true
reported (model_error e) = fault other_fault

unfoldable pub noted : String → Manifest → Hosted → Created Backend → Result Hosted
unfolding identifier_of
noted name manifest h (model_error e) =
    fault (inference_fault "artifact_validation_failure" prepare_runtime)
noted name manifest h (created b) = ok (record h {
  backend_name = name;
  runtime_mode = "fallback";
  model_identifier = identifier_of b;
  backend_started = true;
  runtime_manifest = some manifest;
})

module _ (library : Library) where
  unfoldable pub of_manifest : String → Hosted → String → Option Manifest → Result Hosted
  unfolding noted create_text_generation_backend
  of_manifest name h image none =
      fault (inference_fault "artifact_validation_failure" prepare_runtime)
  of_manifest name h image (some m) =
      noted name m h (create_text_generation_backend library m image true)

  -- LocalArtifactInferenceBackend.start_runtime
  unfoldable pub local_start : String → Hosted → Artifact → Result Hosted
  unfolding of_manifest
  local_start name h a = of_manifest name h a.image a.runtime_manifest

  manifest_health : Option Manifest → String → Result Bool
  unfolding reported create_text_generation_backend
  manifest_health none image =
      fault (inference_fault "artifact_validation_failure" invoke_inference)
  manifest_health (some m) image = reported (create_text_generation_backend library m image true)

  -- LocalArtifactInferenceBackend.health: every model that is made reports "ok".
  unfoldable pub local_health : Hosted → Result Bool
  unfolding manifest_health or_text
  local_health h =
      if h.backend_started
      then manifest_health h.runtime_manifest (or_text (get_or h.runtime.image "") "unknown-image")
      else fault (inference_fault "runtime_start_failure" health_check)
