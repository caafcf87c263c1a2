-- ===== src/Inference/Fallback/Machine.antt =====
-- What ProcessInferenceBackend works on: a hosted runtime, the processes that it has started, and the
-- system, which is a parameter. Times are in milliseconds.
use greenference_node.Base.{ℕ, ◌==◌, String, Bool, Option, List, [], ◌∷◌, if◌then◌else◌}
use greenference_node.Protocol.{Runtime}
use greenference_node.Models.Create.{Manifest}

-- The stages of an InferenceRuntimeError.
pub data Stage : Type 0 where
  prepare_runtime start_inference_backend health_check invoke_inference : Stage

-- The exceptions: an InferenceRuntimeError by its class and stage. `cut_off` is none of Python's: the
-- model's fuel ran out.
pub data Fault : Type 0 where
  permission_error other_fault cut_off : Fault
  inference_fault : String → Stage → Fault

pub data Result (A : Type 0) : Type 0 where
  ok : A → Result A
  fault : Fault → Result A

-- What a call of the system gives: a value, PermissionError, or another exception.
pub data Answer (A : Type 0) : Type 0 where
  answers : A → Answer A
  forbidden broken : Answer A

-- The system. `get_status` says whether the status of the answer is "ok", or is none where the
-- request fails by an exception that `_request_json` names. The directory and the payload are
-- written by one call. What becomes of a signal is swallowed.
pub record System (W : Type 0) : Type 0 where
  pub proc_exists : ℕ → W → Answer Bool × W
  pub write_payload : String → W → Answer (Unit {0}) × W
  pub choose_free_port : W → Answer ℕ × W
  pub popen : List String → W → Answer ℕ × W
  pub kill_term : ℕ → W → W
  pub get_status : String → W → Answer (Option Bool) × W
  pub now : W → ℕ
  pub sleep : ℕ → W → W

-- `children`: the processes that the backend has started and not told to end.
pub record Machine (W : Type 0) : Type 0 where
  pub children : List ℕ
  pub world : W

pub record Artifact : Type 0 where
  pub image : String
  pub runtime_manifest : Option Manifest

-- A runtime with what the backend notes in it.
pub record Hosted : Type 0 where
  pub runtime : Runtime
  pub runtime_url : Option String
  pub backend_name : String
  pub runtime_mode : String
  pub model_identifier : String
  pub backend_started : Bool
  pub runtime_manifest : Option Manifest

abbrev pub Run : Type 0 → Type 0 → Type 0
Run W A = Machine W → Result A × Machine W

unfoldable pub result_of : {A : Type 0} → Answer A → Result A
result_of (answers x) = ok x
result_of forbidden = fault permission_error
result_of broken = fault other_fault

module _ {W A : Type 0} where
  unfoldable pub pure : A → Run W A
  pure x m = (ok x, m)

  unfoldable pub raise : Fault → Run W A
  raise e m = (fault e, m)

  unfoldable pub call : (W → Answer A × W) → Run W A
  unfolding result_of
  call f m = let (r, w) = f m.world in (result_of r, record m { world = w })

unfoldable pub continue :
    {W A B : Type 0} → (A → Run W B) → Result A × Machine W → Result B × Machine W
continue f (ok x, m) = f x m
continue f (fault e, m) = (fault e, m)

infixl 5 ◌>>=◌
unfoldable pub ◌>>=◌ : {W A B : Type 0} → Run W A → (A → Run W B) → Run W B
unfolding continue
◌>>=◌ m f w = continue f (m w)

unfoldable pub without : ℕ → List ℕ → List ℕ
without p [] = []
without p (q ∷ rest) = let others = without p rest in if p == q then others else q ∷ others
