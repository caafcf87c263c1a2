-- ===== src/Inference/Started.antt =====
-- What a started model stands for: a payload that passed the validation, and a server or a rank that
-- was seen.
use greenference_node.Base.{◌≡◌, String, Option, none, some, List, [], ◌∷◌}
use greenference_node.Protocol.{Runtime}
use greenference_node.Agent.Exec.{Outcome, returned, raised}
use greenference_node.Multinode.Params.{MultiNodeParams}
use greenference_node.Multinode.Topology.{validate_params}
use greenference_node.Inference.Command.{InferencePayload, inference_container}
use greenference_node.Inference.Seen.{IsConfirmed}
use greenference_node.Inference.Ranks.{Engine, Launched, is_worker, parsed}

module _ {W : Type 0} (engine : Engine W) where
  -- The parameters of a rank, if it is one, passed the validation.
  abbrev pub IsValid : Option MultiNodeParams → Type 0
  IsValid none = Unit
  IsValid (some q) = validate_params q ≡ []

  -- What a started model stands for, given its payload, in the world at its return.
  abbrev pub StandsFor : InferencePayload → Launched → W → Type 0
  StandsFor p l w =
      (q : Option MultiNodeParams) × (parsed p ≡ returned q)
      × IsValid q
      × IsConfirmed engine (is_worker q) l w

  abbrev Says : {A : Type 0} → (A → Type 0) → Outcome A → Type 0
  Says Q (returned x) = Q x
  Says Q (raised e) = Unit

  removal : Runtime → List String
  removal rt = "docker" ∷ "rm" ∷ "-f" ∷ inference_container rt.deployment_id ∷ []
