-- ===== src/Worker/StartUp.antt =====
-- The start-up and the heartbeat, where the control plane answers and every call comes back.
use greenference_node.Base.{ℕ, Bool, true, false, refl}
use greenference_node.Repository
use greenference_node.Protocol.{Settings}
use greenference_node.Agent.Exec.{
  Agent, Outcome, returned, raised, pure, gets, ◌>>=◌, continue, unless_busy, let_go, locked,
}
use greenference_node.Agent.Host.{Host}
use greenference_node.Agent.Advertise.{build_capacity_update}
use greenference_node.Agent.Recovery.{Tally, recovered, recover_items, recover_runtime_state}
use greenference_node.Worker.{Client, WorkerSettings, tallied, heartbeat_tick, recovered_at_start}
use greenference_node.Worker.Ends.{
  Ends, Never, In, Ending, Ending-pure, Ending-bind, Ending-call, Ending-gets, Ending-assoc,
}
use greenference_node.Worker.Steady.{IsUp, foreign_busy_devices-Ending, recover_items-Ending}

module _ {W : Type 0} {client : Client W} {host : Host W} {Q : W → Type 0}
    (up : IsUp client host Q) where
  recovery_tallied :
      (r : Outcome Tally) (a : Agent W)
      → Ends Never (In Q true) (r, a)
      → Ends Never
          (In Q false)
          (continue tallied (let_go (continue (λ t. pure (recovered t)) (r, a))))
  unfolding continue tallied let_go locked pure Ends
  recovery_tallied (returned t) a p = record { world = p.world; lock = refl }
  recovery_tallied (raised e) a p = elim p.0 [ ]

  -- With the lock free a recovery is one that has counted the runtimes.
  recovery-Ending : Ending Never (In Q false) (recover_runtime_state host >>= tallied)
  unfolding recover_runtime_state unless_busy gets ◌>>=◌ continue locked
  recovery-Ending = record {
    at = λ a p.
        let items = Repository.snapshot_runtime_items a.repository in
        let (r, b) =
          recover_items host items (record { resumed = 0; torn_down = 0 }) (locked true a) in
        rw p.lock (
          recovery_tallied r b (
            (recover_items-Ending up true items (record { resumed = 0; torn_down = 0 })).at
              (locked true a) (record { world = p.world; lock = refl })));
  }

  module _ (s : Settings) (draws : ℕ) (c : WorkerSettings) where
    pub heartbeat_tick-Ending :
        (l : Bool) → Ending Never (In Q l) (heartbeat_tick client host s draws c)
    unfolding heartbeat_tick build_capacity_update
    heartbeat_tick-Ending l = Ending-bind _ _ (Ending-call Never Q l _ (up.heartbeats _)) λ _.
        Ending-bind _ _
          (Ending-bind _ _ (Ending-gets _)
            λ _. Ending-bind _ _ (foreign_busy_devices-Ending up l s) λ _. Ending-pure _)
          λ n. Ending-call Never Q l _ (up.capacities n)

    -- The start-up goes through where the lock is free.
    pub recovered_at_start-Ending :
        Ending Never (In Q false) (recovered_at_start client host s draws c)
    unfolding recovered_at_start
    recovered_at_start-Ending = Ending-bind _ _ (Ending-call Never Q false _ (up.registers _)) λ _.
        Ending-bind _ _ (heartbeat_tick-Ending false) λ _. Ending-assoc _ _ _ (
          Ending-bind _ _ recovery-Ending
            λ t. Ending-bind _ _ (Ending-gets _) λ stamp. Ending-pure _)
