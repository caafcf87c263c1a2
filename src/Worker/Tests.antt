-- ===== src/Worker/Tests.antt =====
-- The loops on the node of the service's examples, with a control plane that takes what is sent.
use greenference_node.Base.{
  ℕ, zero, suc, ◌≡◌, ◌≤◌, refl, arith, String, true, false, Option, none, some, [], ◌∷◌, str_eq,
  if◌then◌else◌,
}
use greenference_node.Text.Words.{strip_text, lstrip_text, rstrip_text, is_empty}
use greenference_node.Text.Tokens.{lower_text}
use greenference_node.Protocol.{WorkloadKind, pod, vm}
use greenference_node.Agent.Exec.{
  returned, locked, other_error, recover, try_, call, gets, pure, ◌>>=◌, continue, raise,
  unless_busy,
}
use greenference_node.Agent.Examples.{cut_off, settings, node}
use greenference_node.Agent.Advertise.{build_capacity_update}
use greenference_node.Agent.Start.{foreign_busy_devices}
use greenference_node.Agent.Recovery.{recover_runtime_state}
use greenference_node.Worker.{
  WorkerSettings, Client, Node, fresh_state, supported_kinds, known_kinds, add_kind, or_inference,
  failed, heartbeat_iteration, worker_iteration, bootstrap, bootstrap_stores, then_reconcile,
  recovered_at_start, heartbeat_tick, tallied,
}
use greenference_node.Worker.Schedule.{Event, works, beats, happen, node_at}
use greenference_node.Worker.Ends.{Ends, Caught, HttpOnly}
use greenference_node.Worker.Steady.{IsUp}
use greenference_node.Worker.Beats.{Beats}
use greenference_node.Worker.Liveness.{becomes_bootstrapped}

abbrev kind_of : String → Option WorkloadKind
kind_of word = if str_eq word "pod" then some pod else if str_eq word "vm" then some vm else none

abbrev worker_settings : WorkerSettings
worker_settings = record {
  service_name = "agent";
  miner_hotkey = "h";
  bootstrap_miner = true;
  enable_background_workers = true;
  supported_workload_kinds = " Pod" ∷ "gpu" ∷ "" ∷ "vm" ∷ [];
}

registered : supported_kinds kind_of worker_settings.supported_workload_kinds ≡ pod ∷ vm ∷ []
unfolding supported_kinds known_kinds add_kind or_inference is_empty strip_text lstrip_text
    rstrip_text lower_text
registered = refl

abbrev taking : Client Unit
taking = record {
  workload_kind = kind_of;
  register_miner = λ r w. (returned tt, w);
  record_heartbeat = λ h w. (returned tt, w);
  update_capacity = λ n w. (returned tt, w);
  now = λ w. "noon";
}

abbrev fresh : Node Unit
fresh = record { agent = node; worker = fresh_state }

-- While a client's pass holds the lock, a start-up fails on the keys that the answer "busy" lacks.
key_error :
    (worker_iteration taking cut_off settings 10 worker_settings
      (record fresh { agent = locked true node })).0
    ≡ failed other_error
unfolding worker_iteration bootstrap bootstrap_stores then_reconcile recovered_at_start
    heartbeat_tick tallied recover_runtime_state unless_busy build_capacity_update
    foreign_busy_devices supported_kinds try_ recover call gets pure raise ◌>>=◌ continue locked
key_error = refl

abbrev AnyWorld : Unit {0} → Type 0
AnyWorld w = Unit

taking-IsUp : IsUp taking cut_off AnyWorld
unfolding Ends Caught HttpOnly
taking-IsUp = record {
  registers = λ r w q. q;
  heartbeats = λ h w q. q;
  capacities = λ n w q. q;
  deployments = λ d w q. (tt, q);
  statuses = λ u w q. (tt, q);
  probes = λ w q. q;
  stops = λ rt w q. q;
  pods = λ rt w q. (tt, q);
  vms = λ rt w q. q;
  directories = λ d w q. q;
  artifacts = λ d w q. q;
  volumes = λ v w q. q;
}

abbrev second_turn : ℕ → Event
second_turn (suc zero) = works
second_turn _ = beats

lock_is_free :
    (node_at taking cut_off settings 10 worker_settings second_turn fresh 1).agent.reconciling
    ≡ false
unfolding node_at happen heartbeat_iteration
lock_is_free = refl

becomes_bootstrapped_example :
    (m : ℕ) × ((j : ℕ)
      → m ≤ j
      → ((node_at taking cut_off settings 10 worker_settings second_turn fresh
            j).worker.bootstrapped
          ≡ true)
        × Beats taking cut_off settings worker_settings
            (node_at taking cut_off settings 10 worker_settings second_turn fresh j).agent
            (heartbeat_iteration taking cut_off settings 10 worker_settings
              (node_at taking cut_off settings 10 worker_settings second_turn fresh j)))
becomes_bootstrapped_example =
    becomes_bootstrapped taking cut_off settings 10 worker_settings second_turn fresh 0 1
      taking-IsUp refl (λ j h. tt) (omega arith) refl lock_is_free
