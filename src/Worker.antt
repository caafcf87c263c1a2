-- ===== src/Worker.antt =====
-- The process around the service (services/node-agent/src/greencompute_node_agent/main.py): the
-- start-up of the agent, its two background loops and its own routes. An iteration of a loop is one
-- step; the sleep between two of them is the choice of the next step. The stamp of a recovery is
-- read where `_bootstrap` stores it.
mod Ends
mod Schedule
mod Steady
mod StartUp
mod Beats
mod Liveness
mod Tests
use greenference_node.Base.{
  ℕ, String, Bool, true, false, ◌&&◌, Option, none, some, List, [], ◌∷◌, map, if◌then◌else◌,
}
use greenference_node.Text.Tokens.{lower_text}
use greenference_node.Text.Words.{strip_text, is_empty, one_of}
use greenference_node.Protocol.{WorkloadKind, inference, Settings}
use greenference_node.Agent.Exec.{
  Agent, Exec, Outcome, returned, raised, Raised, other_error, pure, raise, gets, call, ◌>>=◌, ◌>>◌,
}
use greenference_node.Agent.Host.{Host}
use greenference_node.Agent.Advertise.{build_capacity_update}
use greenference_node.Agent.Cleanup.{reconcile_once}
use greenference_node.Agent.Recovery.{Recovery, busy, recovered, Tally, recover_runtime_state}

-- The fields of the settings that main.py reads, without the address of ssh, which is a field of
-- Settings.
pub record WorkerSettings : Type 0 where
  pub service_name : String
  pub miner_hotkey : String
  pub bootstrap_miner : Bool
  pub enable_background_workers : Bool
  pub supported_workload_kinds : List String

-- MinerRegistration, without the fields that copy the settings.
pub record Registration : Type 0 where
  pub hotkey : String
  pub supported_workload_kinds : List WorkloadKind

pub record Heartbeat : Type 0 where
  pub hotkey : String
  pub healthy : Bool

-- The protocol's WorkloadKind of a text (none: ValueError), the calls of the control plane's client,
-- of which a capacity update is the number of GPUs on offer, and the clock.
pub record Client (W : Type 0) : Type 0 where
  pub workload_kind : String → Option WorkloadKind
  pub register_miner : Registration → W → Outcome (Unit {0}) × W
  pub record_heartbeat : Heartbeat → W → Outcome (Unit {0}) × W
  pub update_capacity : ℕ → W → Outcome (Unit {0}) × W
  pub now : W → String

-- _worker_state
pub record WorkerState : Type 0 where
  pub running : Bool
  pub last_iteration : Option String
  pub bootstrapped : Bool
  pub last_recovery_at : Option String
  pub resumed_runtimes : ℕ
  pub terminated_stale_runtimes : ℕ

pub record Node (W : Type 0) : Type 0 where
  pub agent : Agent W
  pub worker : WorkerState

abbrev pub fresh_state : WorkerState
fresh_state = record {
  running = false;
  last_iteration = none;
  bootstrapped = false;
  last_recovery_at = none;
  resumed_runtimes = 0;
  terminated_stale_runtimes = 0;
}

-- `raw.strip().lower()`
abbrev pub token : String → String
token raw = lower_text (strip_text raw)

-- Whether the node warns at its start that its pods cannot be reached.
unfoldable pub warns_unreachable_ssh_host : WorkerSettings → Settings → Bool
warns_unreachable_ssh_host c s =
    one_of "pod" (map token c.supported_workload_kinds)
    && one_of (strip_text s.ssh_host) ("" ∷ "127.0.0.1" ∷ "0.0.0.0" ∷ "localhost" ∷ "::1" ∷ [])

unfoldable pub add_kind : Option WorkloadKind → List WorkloadKind → List WorkloadKind
add_kind none kinds = kinds
add_kind (some k) kinds = k ∷ kinds

unfoldable pub known_kinds : (String → Option WorkloadKind) → List String → List WorkloadKind
unfolding add_kind
known_kinds workload_kind [] = []
known_kinds workload_kind (raw ∷ rest) =
    let kinds = known_kinds workload_kind rest in
    if is_empty (token raw) then kinds else add_kind (workload_kind (token raw)) kinds

unfoldable pub or_inference : List WorkloadKind → List WorkloadKind
or_inference [] = inference ∷ []
or_inference (k ∷ kinds) = k ∷ kinds

unfoldable pub supported_kinds : (String → Option WorkloadKind) → List String → List WorkloadKind
unfolding known_kinds or_inference
supported_kinds workload_kind raws = or_inference (known_kinds workload_kind raws)

-- What an iteration of a loop comes to: nothing to do, a tick, or an exception that is logged.
pub data Report : Type 0 where
  resting finished : Report
  failed : Raised → Report

-- The keys of a recovery are missing from the answer "busy": a KeyError.
unfoldable pub tallied : {W : Type 0} → Recovery → Exec W Tally
tallied busy = raise other_error
tallied (recovered t) = pure t

module _ {W : Type 0} (client : Client W) (host : Host W) (s : Settings) (draws : ℕ)
    (c : WorkerSettings) where
  -- publish_heartbeat, build_capacity_update and publish_capacity
  unfoldable pub heartbeat_tick : Exec W (Unit {0})
  heartbeat_tick = do
    call (client.record_heartbeat (record { hotkey = c.miner_hotkey; healthy = true }))
    capacity ← build_capacity_update host s
    call (client.update_capacity capacity)

  -- `_bootstrap`, up to what it stores
  unfoldable pub recovered_at_start : Exec W (Tally × String)
  unfolding tallied
  recovered_at_start = do
    call (
        client.register_miner (record {
          hotkey = c.miner_hotkey;
          supported_workload_kinds =
              supported_kinds client.workload_kind c.supported_workload_kinds;
        }))
    heartbeat_tick
    recovery ← recover_runtime_state host
    t ← tallied recovery
    stamp ← gets (λ a. client.now a.world)
    pure (t, stamp)

  unfoldable pub bootstrap_stores :
      WorkerState → Outcome (Tally × String) × Agent W → Report × Node W
  bootstrap_stores state (returned (t, stamp), a) = (
    finished,
    record {
      agent = a;
      worker = record state {
        last_recovery_at = some stamp;
        resumed_runtimes = t.resumed;
        terminated_stale_runtimes = t.torn_down;
        bootstrapped = true;
      };
    },
  )
  bootstrap_stores state (raised e, a) = (failed e, record { agent = a; worker = state })

  unfoldable pub bootstrap : Node W → Report × Node W
  unfolding bootstrap_stores
  bootstrap n = bootstrap_stores n.worker (recovered_at_start n.agent)

  unfoldable pub reconcile_stores : WorkerState → Outcome (Unit {0}) × Agent W → Report × Node W
  reconcile_stores state (returned u, a) = (
    finished,
    record { agent = a; worker = record state { last_iteration = some (client.now a.world) } },
  )
  reconcile_stores state (raised e, a) = (failed e, record { agent = a; worker = state })

  unfoldable pub reconcile_tick : Node W → Report × Node W
  unfolding reconcile_stores
  reconcile_tick n = reconcile_stores n.worker (reconcile_once host s draws c.miner_hotkey n.agent)

  -- An exception ends the iteration.
  unfoldable pub then_reconcile : Report × Node W → Report × Node W
  unfolding reconcile_tick
  then_reconcile (failed e, n) = (failed e, n)
  then_reconcile (_, n) = reconcile_tick n

  -- the body of `_worker_loop`
  unfoldable pub worker_iteration : Node W → Report × Node W
  unfolding bootstrap then_reconcile
  worker_iteration n =
      if c.bootstrap_miner
      then then_reconcile (if n.worker.bootstrapped then (resting, n) else bootstrap n)
      else (resting, n)

  unfoldable pub heartbeat_stores : WorkerState → Outcome (Unit {0}) × Agent W → Report × Node W
  heartbeat_stores state (returned u, a) = (finished, record { agent = a; worker = state })
  heartbeat_stores state (raised e, a) = (failed e, record { agent = a; worker = state })

  -- the body of `_heartbeat_loop`
  unfoldable pub heartbeat_iteration : Node W → Report × Node W
  unfolding heartbeat_stores heartbeat_tick
  heartbeat_iteration n =
      if c.bootstrap_miner && n.worker.bootstrapped
      then heartbeat_stores n.worker (heartbeat_tick n.agent)
      else (resting, n)
