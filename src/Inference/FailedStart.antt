-- ===== src/Inference/FailedStart.antt =====
-- What a failed start of a model leaves behind.
use greenference_node.Base.{◌≡◌, String, Bool, true, false, none, some, List, [], ◌∷◌}
use greenference_node.Text.Words.{strip_text}
use greenference_node.Protocol.{Runtime}
use greenference_node.Agent.Exec.{Outcome, returned, raised, inference_error}
use greenference_node.Pods.Docker.{Completion, completed, missing, timed_out, nonempty}
use greenference_node.Inference.Command.{inference_container}
use greenference_node.Inference.Ranks.{Engine, Launched}
use greenference_node.Inference.Cleanup.{IsRemoved}

abbrev pub NotOwn : {A : Type 0} → Outcome A → Type 0
NotOwn (returned x) = Unit
NotOwn (raised (inference_error k)) = ⊥
NotOwn (raised e) = Unit

-- A docker run that gives a container gives its id.
abbrev pub is_started : Completion → Bool
is_started (completed ok out err) = ok
is_started missing = false
is_started timed_out = false

abbrev pub stale_removal : Runtime → List String
stale_removal rt = "docker" ∷ "rm" ∷ "-f" ∷ inference_container rt.deployment_id ∷ []

module _ {W : Type 0} (engine : Engine W) where
  -- Neither docker's command nor the choice of a port raises the backend's own error.
  pub record IsOrdinary : Type 0 where
    pub runs : (args : List String) (v : W) → NotOwn (engine.docker.run args v).0
    pub picks : (v : W) → NotOwn (engine.choose_free_port v).0

  -- How things stand after a failure: the last thing was the removal of an older container; or the docker run itself, which failed; or docker was last asked to remove
  -- by force the container that the docker run had started; or the docker run gave no id.
  pub data IsCleared (rt : Runtime) (w : W) : Type 0 where
    none_started : (v : W) → w ≡ (engine.docker.run (stale_removal rt) v).1 → IsCleared rt w
    run_failed :
        (command : List String) (v : W) (r : Completion)
        → engine.docker.run command v ≡ (returned r, w)
        → is_started r ≡ false
        → IsCleared rt w
    removed :
        (command : List String) (v u : W) (out err c : String)
        → engine.docker.run command v ≡ (returned (completed true out err), u)
        → nonempty (some (strip_text out)) ≡ some c
        → IsRemoved engine c w
        → IsCleared rt w
    nameless :
        (command : List String) (v u : W) (out err : String)
        → engine.docker.run command v ≡ (returned (completed true out err), u)
        → nonempty (some (strip_text out)) ≡ none
        → IsCleared rt w

  abbrev pub FailsCleared : Runtime → Outcome Launched × W → Type 0
  FailsCleared rt (returned l, w) = Unit
  FailsCleared rt (raised (inference_error k), w) = IsCleared rt w
  FailsCleared rt (raised e, w) = Unit
