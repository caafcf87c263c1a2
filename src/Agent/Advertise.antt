-- ===== src/Agent/Advertise.antt =====
-- `build_capacity_update` of services.py: how many GPUs the node offers to the scheduler.
use greenference_node.Base.{ℕ, ◌+◌, ◌-◌, ◌==◌, List, [], ◌∷◌, if◌then◌else◌, length, get_or}
use greenference_node.Devices.{DeviceSet}
use greenference_node.Repository
use greenference_node.Protocol.{Runtime, Settings}
use greenference_node.Agent.Exec.{Exec, pure, gets, ◌>>=◌}
use greenference_node.Agent.Host.{Host}
use greenference_node.Agent.Start.{foreign_busy_devices}
use greenference_node.Agent.Recovery.{is_active}
use greenference_node.Agent.Resume.{or_one}

-- `len(devices) or int(metadata.get("gpu_count", 1) or 1)`
unfoldable pub reserved_by : Runtime → ℕ
reserved_by rt =
    if length rt.gpu_devices == 0 then or_one (get_or rt.gpu_count 1) else length rt.gpu_devices

unfoldable pub reserved_gpus : List Runtime → ℕ
reserved_gpus [] = 0
reserved_gpus (rt ∷ rest) =
    if is_active rt.status then reserved_by rt + reserved_gpus rest else reserved_gpus rest

-- `max(0, gpu_count - reserved - foreign)`; subtraction stops at 0
unfoldable pub available_gpus : Settings → List Runtime → DeviceSet → ℕ
available_gpus s runtimes foreign = s.gpu_count - reserved_gpus runtimes - length foreign

-- The `available_gpus` of the update; its other fields copy the settings.
unfoldable pub build_capacity_update : {W : Type 0} → Host W → Settings → Exec W ℕ
build_capacity_update host s = do
  runtimes ← gets (λ a. Repository.snapshot_runtimes a.repository)
  foreign ← foreign_busy_devices host s
  pure (available_gpus s runtimes foreign)
