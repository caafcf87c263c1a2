-- ===== src/Worker/Schedule.antt =====
-- What happens at the process over time, its start and its readiness.
use greenference_node.Base.{
  ℕ, zero, suc, String, Bool, true, Option, none, some, List, [], ◌∷◌, if◌then◌else◌,
}
use greenference_node.Protocol.{Settings}
use greenference_node.Repository.Summary.{RuntimeSummary, runtime_summary}
use greenference_node.Access.Security.{Secrets}
use greenference_node.Agent.Exec.{Agent, locked}
use greenference_node.Agent.Host.{Host}
use greenference_node.Agent.Safety.{Operation, run}
use greenference_node.Web.Wire.{status_text, kind_text}
use greenference_node.Web.Routes.{Server}
use greenference_node.Worker.{WorkerSettings, Client, Node, worker_iteration, heartbeat_iteration}

-- What happens next: an iteration of the worker loop or of the heartbeat loop, operations that
-- clients ask for, or another thread's pass taking the reconcile lock or giving it back.
pub data Event : Type 0 where
  works beats : Event
  serves : List Operation → Event
  locks : Bool → Event

module _ {W : Type 0} (client : Client W) (host : Host W) (s : Settings) (draws : ℕ)
    (c : WorkerSettings) where
  unfoldable pub happen : Event → Node W → Node W
  happen works n = (worker_iteration client host s draws c n).1
  happen beats n = (heartbeat_iteration client host s draws c n).1
  happen (serves ops) n = record n { agent = run host s draws ops n.agent }
  happen (locks b) n = record n { agent = locked b n.agent }

  -- The node before the event number `i` of a schedule.
  unfoldable pub node_at : (ℕ → Event) → Node W → ℕ → Node W
  unfolding happen
  node_at schedule n zero = n
  node_at schedule n (suc i) = happen (schedule i) (node_at schedule n i)

pub data Loop : Type 0 where
  worker_loop heartbeat_loop : Loop

-- `lifespan`: what the routes are given, and the loops that are started.
unfoldable pub lifespan : {W : Type 0} → WorkerSettings → Secrets → Agent W → Server W × List Loop
lifespan c secrets a = (
  record { settings = some secrets; service = some a },
  if c.enable_background_workers then worker_loop ∷ heartbeat_loop ∷ [] else [],
)

-- The first step of `_worker_loop`.
unfoldable pub start_worker : {W : Type 0} → Node W → Node W
start_worker n = record n { worker = record n.worker { running = true } }

-- What `/readyz` says of the loops and the runtimes.
pub record Workers : Type 0 where
  pub worker_running : Bool
  pub worker_last_iteration : Option String
  pub summary : RuntimeSummary
  pub last_recovery_at : Option String
  pub resumed_runtimes : ℕ
  pub terminated_stale_runtimes : ℕ

pub record Readiness : Type 0 where
  pub status : String
  pub service : String
  pub bootstrapped : Bool
  pub workers : Option Workers

unfoldable pub readiness : {W : Type 0} → WorkerSettings → Node W → Readiness
readiness c n = record {
  status = "ok";
  service = c.service_name;
  bootstrapped = if c.bootstrap_miner then n.worker.bootstrapped else true;
  workers =
      if c.enable_background_workers
      then some (record {
        worker_running = n.worker.running;
        worker_last_iteration = n.worker.last_iteration;
        summary =
            runtime_summary (λ rt. status_text rt.status) (λ rt. kind_text rt.workload_kind)
              n.agent.repository;
        last_recovery_at = n.worker.last_recovery_at;
        resumed_runtimes = n.worker.resumed_runtimes;
        terminated_stale_runtimes = n.worker.terminated_stale_runtimes;
      })
      else none;
}
