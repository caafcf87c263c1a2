-- ===== src/Agent/Parts.antt =====
-- The steps that the handlers of services.py share: the repository and the allocator as parts of
-- the agent, and the calls of the control plane.
use greenference_node.Base.{
  ℕ, String, Bool, false, not, str_eq, ◌==◌, Option, none, some, List, [], ◌∷◌,
}
use greenference_node.Dict
use greenference_node.Devices.{DeviceSet}
use greenference_node.Allocator
use greenference_node.Allocator.{refused, granted, GpuAllocationError, Granted}
use greenference_node.Repository
use greenference_node.Repository.{Codec, Codecs}
use greenference_node.Protocol.{Runtime, DeploymentState, Failure, StatusUpdate, Volume}
use greenference_node.Agent.Exec.{
  returned, Exec, Raised, http_error, pure, raise, gets, call, modify, ◌>>◌,
}
use greenference_node.Agent.Host.{Host}

-- An optional text or number under Python's `if`.
abbrev pub has_text : Option String → Bool
has_text none = false
has_text (some s) = not (str_eq s "")

abbrev pub has_number : Option ℕ → Bool
has_number none = false
has_number (some n) = not (n == 0)

unfoldable pub untouched : Codec Unit (Option Runtime)
untouched = record { model_dump = λ _. none; model_validate = λ _. some tt }

-- A runtime's record comes back from JSON as it was, but for the keys of `port_allocations`, which are
-- then texts: the model's field is what the readers make of them, which take `int` of each.
unfoldable pub codecs : Codecs Runtime Unit Unit Unit (Option Runtime)
unfolding untouched
codecs = record {
  runtime = record { model_dump = some; model_validate = λ x. x };
  placement = untouched;
  volume = untouched;
  collateral = untouched;
}

unfoldable pub ready_update : Runtime → StatusUpdate
ready_update runtime = record {
  deployment_id = runtime.deployment_id;
  state = DeploymentState.ready;
  error = none;
  endpoint = runtime.endpoint;
  ssh_private_key = runtime.ssh_private_key;
  port_mappings = runtime.port_mappings;
  ready_instances = some 1;
}

unfoldable pub state_update : String → DeploymentState → Option Failure → StatusUpdate
state_update deployment_id state error = record {
  deployment_id = deployment_id;
  state = state;
  error = error;
  endpoint = none;
  ssh_private_key = none;
  port_mappings = [];
  ready_instances = none;
}

module _ {W : Type 0} where
  unfoldable pub get_runtime : String → Exec W (Option Runtime)
  get_runtime deployment_id = gets (λ a. Repository.get_runtime deployment_id a.repository)

  -- the record is filed under its own deployment
  unfoldable pub upsert_runtime : Runtime → Exec W (Unit {0})
  unfolding codecs
  upsert_runtime runtime = modify λ a. record a {
    repository = Repository.upsert_runtime codecs runtime.deployment_id runtime a.repository;
  }

  unfoldable pub remove_runtime : String → Exec W (Unit {0})
  unfolding codecs
  remove_runtime deployment_id =
      modify
        λ a. record a { repository = Repository.remove_runtime codecs deployment_id a.repository }

  unfoldable pub release_gpus : String → Exec W (Unit {0})
  release_gpus deployment_id =
      modify λ a. record a { gpu_allocator = (Allocator.release deployment_id a.gpu_allocator).1 }

  unfoldable pub allocate_gpus : String → ℕ → DeviceSet → Exec W Granted
  allocate_gpus deployment_id gpu_count avoid a =
      let (result, allocator) =
        Allocator.allocate deployment_id gpu_count (some avoid) a.gpu_allocator in
      (returned result, record a { gpu_allocator = allocator })

  -- the devices, or the handler of GpuAllocationError
  unfoldable pub on_granted :
      Granted
      → (List ℕ → Exec W (Unit {0}))
      → (GpuAllocationError → Exec W (Unit {0}))
      → Exec W (Unit {0})
  on_granted (granted devices) f g = f devices
  on_granted (refused e) f g = g e

  unfoldable pub allocate_specific_gpus : String → List ℕ → Exec W Granted
  allocate_specific_gpus deployment_id devices a =
      let (result, allocator) = Allocator.allocate_specific deployment_id devices a.gpu_allocator in
      (returned result, record a { gpu_allocator = allocator })

  -- `self._volume_records.pop(deployment_id, None)`
  unfoldable pub pop_volume : String → Exec W (Option Volume)
  pop_volume deployment_id a = (
    returned (Dict.lookup deployment_id a.volume_records),
    record a { volume_records = Dict.erase deployment_id a.volume_records },
  )

  -- `self._volume_records[deployment_id] = volume`
  unfoldable pub file_volume : String → Volume → Exec W (Unit {0})
  file_volume deployment_id volume =
      modify λ a. record a { volume_records = Dict.insert deployment_id volume a.volume_records }

  -- `except ControlPlaneHTTPError: logger.exception(...)`
  unfoldable pub log_http : Raised → Exec W (Unit {0})
  log_http http_error = pure tt
  log_http e = raise e

  -- `except Exception: logger.exception(...)`
  unfoldable pub log_any : Raised → Exec W (Unit {0})
  log_any _ = pure tt

  unfoldable pub note_sent : StatusUpdate → Exec W (Unit {0})
  note_sent update = modify λ a. record a { sent = update ∷ a.sent }

module _ {W : Type 0} (host : Host W) where
  -- `self.control_plane.update_deployment_status(update)`
  unfoldable pub send : StatusUpdate → Exec W (Unit {0})
  unfolding note_sent
  send update = do note_sent update; call (host.update_deployment_status update)
