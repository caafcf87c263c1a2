-- ===== src/Worker/Liveness.antt =====
-- The node comes up, and from then on its heartbeats go out.
use greenference_node.Base.{
  ℕ, zero, suc, ◌+◌, ◌-◌, ◌≤◌, ◌≡◌, refl, ◌∙◌, arith, String, Bool, true, false, ◌&&◌,
  if◌then◌else◌,
}
use greenference_node.Protocol.{Settings}
use greenference_node.Agent.Exec.{Agent, Outcome, returned, raised}
use greenference_node.Agent.Host.{Host}
use greenference_node.Agent.Recovery.{Tally}
use greenference_node.Worker.{
  WorkerSettings, Client, WorkerState, Node, Report, resting, finished, failed, heartbeat_tick,
  recovered_at_start, bootstrap_stores, bootstrap, reconcile_stores, reconcile_tick, then_reconcile,
  worker_iteration, heartbeat_stores, heartbeat_iteration,
}
use greenference_node.Worker.Schedule.{Event, works, beats, serves, locks, happen, node_at}
use greenference_node.Worker.Ends.{Ends, Never, In}
use greenference_node.Worker.Steady.{IsUp}
use greenference_node.Worker.Beats.{Beats, heartbeat_tick-Beats}
use greenference_node.Worker.StartUp.{heartbeat_tick-Ending, recovered_at_start-Ending}

module _ {W : Type 0} (client : Client W) (host : Host W) (s : Settings) (draws : ℕ)
    (c : WorkerSettings) where
  reconcile_stores_keeps :
      (state : WorkerState) (r : Outcome (Unit {0})) (a : Agent W)
      → (reconcile_stores client host s draws c state (r, a)).1.worker.bootstrapped
        ≡ state.bootstrapped
  unfolding reconcile_stores
  reconcile_stores_keeps state (returned u) a = refl
  reconcile_stores_keeps state (raised e) a = refl

  reconcile_keeps :
      (n : Node W)
      → (reconcile_tick client host s draws c n).1.worker.bootstrapped ≡ n.worker.bootstrapped
  unfolding reconcile_tick
  reconcile_keeps n = reconcile_stores_keeps n.worker _ _

  then_reconcile_keeps :
      (r : Report) (n : Node W)
      → (then_reconcile client host s draws c (r, n)).1.worker.bootstrapped ≡ n.worker.bootstrapped
  unfolding then_reconcile
  then_reconcile_keeps (failed e) n = refl
  then_reconcile_keeps resting n = reconcile_keeps n
  then_reconcile_keeps finished n = reconcile_keeps n

  bootstrap_stores_comes_up :
      (state : WorkerState) (r : Outcome (Tally × String)) (a : Agent W) (P : Agent W → Type 0)
      → Ends Never P (r, a)
      → (bootstrap_stores client host s draws c state (r, a)).1.worker.bootstrapped ≡ true
  unfolding bootstrap_stores Ends
  bootstrap_stores_comes_up state (returned x) a P p = refl
  bootstrap_stores_comes_up state (raised e) a P p = elim p.0 [ ]

  heartbeat_stores_keeps :
      (state : WorkerState) (r : Outcome (Unit {0})) (a : Agent W)
      → (heartbeat_stores client host s draws c state (r, a)).1.worker.bootstrapped
        ≡ state.bootstrapped
  unfolding heartbeat_stores
  heartbeat_stores_keeps state (returned u) a = refl
  heartbeat_stores_keeps state (raised e) a = refl

  worker_iteration_keeps :
      (n : Node W)
      → n.worker.bootstrapped ≡ true
      → (worker_iteration client host s draws c n).1.worker.bootstrapped ≡ true
  unfolding worker_iteration
  worker_iteration_keeps n up = go c.bootstrap_miner n.worker.bootstrapped up
    where
      go :
          (b d : Bool)
          → d ≡ true
          → (if b
              then then_reconcile client host s draws c
                  (if d then (resting, n) else bootstrap client host s draws c n)
              else (resting, n)).1.worker.bootstrapped
            ≡ true
      go true true e = then_reconcile_keeps resting n ∙ up
      go true false e = cc e
      go false d e = up

  -- The worker's iteration with a free lock, in a world that is up.
  worker_iteration_comes_up :
      {Q : W → Type 0}
      → IsUp client host Q
      → c.bootstrap_miner ≡ true
      → (n : Node W) → In Q false n.agent
      → (worker_iteration client host s draws c n).1.worker.bootstrapped ≡ true
  unfolding worker_iteration bootstrap
  worker_iteration_comes_up {Q = Q} up enabled n p =
      go c.bootstrap_miner n.worker.bootstrapped enabled refl
    where
      go :
          (b d : Bool)
          → b ≡ true
          → n.worker.bootstrapped ≡ d
          → (if b
              then then_reconcile client host s draws c
                  (if d then (resting, n) else bootstrap client host s draws c n)
              else (resting, n)).1.worker.bootstrapped
            ≡ true
      go false d h e = cc h
      go true true h e = then_reconcile_keeps resting n ∙ e
      go true false h e =
          let (r, a) = recovered_at_start client host s draws c n.agent in
          let (report, m) = bootstrap_stores client host s draws c n.worker (r, a) in
          then_reconcile_keeps report m
          ∙ bootstrap_stores_comes_up n.worker r a (In Q false)
              ((recovered_at_start-Ending up s draws c).at n.agent p)

  heartbeat_iteration_keeps :
      (n : Node W)
      → (heartbeat_iteration client host s draws c n).1.worker.bootstrapped ≡ n.worker.bootstrapped
  unfolding heartbeat_iteration
  heartbeat_iteration_keeps n = go (c.bootstrap_miner && n.worker.bootstrapped)
    where
      go :
          (b : Bool)
          → (if b
              then heartbeat_stores client host s draws c n.worker
                  (heartbeat_tick client host s draws c n.agent)
              else (resting, n)).1.worker.bootstrapped
            ≡ n.worker.bootstrapped
      go true = heartbeat_stores_keeps n.worker _ _
      go false = refl

  heartbeat_goes_out :
      {Q : W → Type 0}
      → IsUp client host Q
      → c.bootstrap_miner ≡ true
      → (n : Node W) → Q n.agent.world
      → n.worker.bootstrapped ≡ true
      → Beats client host s c n.agent (heartbeat_iteration client host s draws c n)
  unfolding heartbeat_iteration
  heartbeat_goes_out {Q = Q} up enabled n q e =
      go (c.bootstrap_miner && n.worker.bootstrapped) (cc (enabled, e))
    where
      go :
          (b : Bool)
          → b ≡ true
          → Beats client host s c n.agent (
              if b
              then heartbeat_stores client host s draws c n.worker
                  (heartbeat_tick client host s draws c n.agent)
              else (resting, n))
      go true h =
          heartbeat_tick-Beats client host s draws c (In Q n.agent.reconciling) n.worker n.agent (
            (heartbeat_tick-Ending up s draws c n.agent.reconciling).at n.agent
              (record { world = q; lock = refl }))
      go false h = cc h

  happen_keeps :
      (e : Event) (n : Node W)
      → n.worker.bootstrapped ≡ true
      → (happen client host s draws c e n).worker.bootstrapped ≡ true
  unfolding happen
  happen_keeps works n up = worker_iteration_keeps n up
  happen_keeps beats n up = heartbeat_iteration_keeps n ∙ up
  happen_keeps (serves ops) n up = up
  happen_keeps (locks b) n up = up

  stays_up :
      (schedule : ℕ → Event) (n : Node W) (m d j : ℕ)
      → j ≡ d + m
      → (node_at client host s draws c schedule n m).worker.bootstrapped ≡ true
      → (node_at client host s draws c schedule n j).worker.bootstrapped ≡ true
  unfolding node_at
  stays_up schedule n m zero j e up = let at_m : j ≡ m = omega arith in rw at_m up
  stays_up schedule n m (suc d) j e up =
      let next : j ≡ suc (d + m) = omega arith in
      rw next (happen_keeps (schedule (d + m)) _ (stays_up schedule n m d (d + m) refl up))

  comes_up :
      {Q : W → Type 0}
      → IsUp client host Q
      → c.bootstrap_miner ≡ true
      → (schedule : ℕ → Event) (n : Node W) (i : ℕ) → schedule i ≡ works
      → In Q false (node_at client host s draws c schedule n i).agent
      → (node_at client host s draws c schedule n (suc i)).worker.bootstrapped ≡ true
  unfolding node_at happen
  comes_up up enabled schedule n i e p = rw e (worker_iteration_comes_up up enabled _ p)

-- For a node that is to register itself: if from some event on the control plane answers and the
-- host's calls come back, and after that the worker loop once has its turn while no other pass or
-- recovery holds the lock, then from some event on the node is bootstrapped for good, and each turn
-- of the heartbeat loop has the control plane take the miner's heartbeat and then the capacity that
-- the node offers at that moment. This holds whatever came before, whatever clients ask for, and
-- whoever takes the lock afterwards.
pub becomes_bootstrapped :
    {W : Type 0} {Q : W → Type 0} (client : Client W) (host : Host W) (s : Settings) (draws : ℕ)
    (c : WorkerSettings) (schedule : ℕ → Event) (n : Node W) (k i : ℕ)
    → IsUp client host Q
    → c.bootstrap_miner ≡ true
    → ((j : ℕ) → k ≤ j → Q (node_at client host s draws c schedule n j).agent.world)
    → k ≤ i
    → schedule i ≡ works
    → (node_at client host s draws c schedule n i).agent.reconciling ≡ false
    → (m : ℕ) × ((j : ℕ)
        → m ≤ j
        → ((node_at client host s draws c schedule n j).worker.bootstrapped ≡ true)
          × Beats client host s c (node_at client host s draws c schedule n j).agent (
              heartbeat_iteration client host s draws c
                (node_at client host s draws c schedule n j)))
becomes_bootstrapped client host s draws c schedule n k i up enabled answers h turn free =
    let first =
      comes_up client host s draws c up enabled schedule n i turn
        (record { world = answers i h; lock = free }) in
    (
      suc i,
      λ j later.
          let at_j =
            stays_up client host s draws c schedule n (suc i) (j - suc i) j (omega arith) first in
          (
            at_j,
            heartbeat_goes_out client host s draws c up enabled _ (answers j (omega arith)) at_j,
          ),
    )
