-- ===== src/Agent/Probe.antt =====
-- How the answer of nvidia-smi guards an allocation.
use greenference_node.Base.{ℕ, ◌≡◌, ◌⊎◌, true, false, List}
use greenference_node.Devices.{DeviceSet, mem, diff}
use greenference_node.Allocator.{GpuAllocationError, allocated_devices}
use greenference_node.Protocol.{Settings, Runtime, allocation_failed}
use greenference_node.Agent.Exec.{
  Agent, Exec, Outcome, returned, call, gets, pure, try_, recover, continue, ◌>>=◌,
}
use greenference_node.Agent.Host.{Host}
use greenference_node.Agent.Lifecycle.{fail_runtime}
use greenference_node.Agent.Start.{foreign_busy_devices}

module _ {W : Type 0} (host : Host W) (s : Settings) where
  probed :
      (a : Agent W) (busy : DeviceSet)
      → (host.busy_gpu_devices a.world).0 ≡ returned busy
      → foreign_busy_devices host s a ≡ (
        returned (diff busy (allocated_devices a.gpu_allocator)),
        record a { world = (host.busy_gpu_devices a.world).1 },
      )
  unfolding foreign_busy_devices try_ recover call gets pure ◌>>=◌ continue
  probed a busy e = rw e

  -- A start goes on with devices of which none is busy, or it fails the runtime because the
  -- allocator refused.
  abbrev pub Handed :
      DeviceSet → Runtime → (List ℕ → Exec W (Unit {0})) → Outcome (Unit {0}) × Agent W → Type 0
  Handed busy rt next r =
      ((l : List ℕ) × (b : Agent W) × ((x : ℕ) → mem x l ≡ true → mem x busy ≡ false)
        × (r ≡ next l b))
      ⊎ ((e : GpuAllocationError) × (b : Agent W) × (r
            ≡ fail_runtime host rt (allocation_failed e) b))
