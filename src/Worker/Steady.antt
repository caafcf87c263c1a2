-- ===== src/Worker/Steady.antt =====
-- The methods that the start-up calls, where the control plane answers and every call of the host
-- comes back.
use greenference_node.Base.{ℕ, String, Bool, false, Option, none, some, List, [], ◌∷◌}
use greenference_node.Protocol.{
  Runtime, RuntimeStatus, Volume, Settings, StatusUpdate, WorkloadKind, inference, pod, vm,
  other_kind, DeploymentState, Failure,
}
use greenference_node.Agent.Exec.{Exec, Raised, http_error, modify}
use greenference_node.Agent.Host.{Host}
use greenference_node.Agent.Parts.{
  upsert_runtime, release_gpus, pop_volume, note_sent, send, log_any, log_http,
}
use greenference_node.Agent.Lifecycle.{
  report_state, delete_if, drop_volume, stop_backend, terminate_runtime,
}
use greenference_node.Agent.Start.{foreign_busy_devices, no_devices}
use greenference_node.Agent.Recovery.{
  Answer, unreachable, says, is_dead, Tally, ask, is_unreachable, settle, examine, recover_items,
}
use greenference_node.Worker.{Client, Registration, Heartbeat}
use greenference_node.Worker.Ends.{
  Ends, Never, HttpOnly, Caught, In, Ending, Ending-pure, Ending-bind, Ending-call, Ending-try,
  Ending-if, Ending-gets,
}

-- In the worlds of Q the control plane takes what is sent, and a question about a deployment or a
-- status update comes back or is an error of its client; each call of the host comes back, with
-- whatever exception.
pub record IsUp {W : Type 0} (client : Client W) (host : Host W) (Q : W → Type 0) : Type 0 where
  pub registers : (r : Registration) (w : W) → Q w → Ends Never Q (client.register_miner r w)
  pub heartbeats : (h : Heartbeat) (w : W) → Q w → Ends Never Q (client.record_heartbeat h w)
  pub capacities : (n : ℕ) (w : W) → Q w → Ends Never Q (client.update_capacity n w)
  pub deployments : (d : String) (w : W) → Q w → Ends HttpOnly Q (host.get_deployment d w)
  pub statuses :
      (u : StatusUpdate) (w : W) → Q w → Ends HttpOnly Q (host.update_deployment_status u w)
  pub probes : (w : W) → Q w → Ends Caught Q (host.busy_gpu_devices w)
  pub stops : (rt : Runtime) (w : W) → Q w → Ends Caught Q (host.stop_runtime rt w)
  pub pods : (rt : Runtime) (w : W) → Q w → Ends Caught Q (host.stop_pod rt w)
  pub vms : (rt : Runtime) (w : W) → Q w → Ends Caught Q (host.stop_vm rt w)
  pub directories : (d : String) (w : W) → Q w → Ends Caught Q (host.delete_runtime_dir d w)
  pub artifacts : (d : String) (w : W) → Q w → Ends Caught Q (host.delete_staged_artifact d w)
  pub volumes : (v : Volume) (w : W) → Q w → Ends Caught Q (host.delete_volume v w)

module _ {W : Type 0} {client : Client W} {host : Host W} {Q : W → Type 0} (up : IsUp client host Q)
    (l : Bool) where
  log_http-Ending : (e : Raised) → HttpOnly e → Ending Never (In Q l) (log_http {W = W} e)
  unfolding log_http HttpOnly
  log_http-Ending http_error h = Ending-pure tt
  log_http-Ending e h = elim h [ ]

  log_any-Ending : (e : Raised) → Caught e → Ending Never (In Q l) (log_any {W = W} e)
  unfolding log_any
  log_any-Ending e h = Ending-pure tt

  is_unreachable-Ending : (e : Raised) → HttpOnly e → Ending Never (In Q l) (is_unreachable host e)
  unfolding is_unreachable HttpOnly
  is_unreachable-Ending http_error h = Ending-pure _
  is_unreachable-Ending e h = elim h [ ]

  no_devices-Ending :
      (s : Settings) (e : Raised) → Caught e → Ending Never (In Q l) (no_devices host s e)
  unfolding no_devices
  no_devices-Ending s e h = Ending-pure _

  module _ {E : Raised → Type 0} where
    release_gpus-Ending : (d : String) → Ending E (In Q l) (release_gpus {W = W} d)
    unfolding release_gpus modify Ends
    release_gpus-Ending d = record { at = λ a p. record { world = p.world; lock = p.lock } }

    upsert_runtime-Ending : (rt : Runtime) → Ending E (In Q l) (upsert_runtime {W = W} rt)
    unfolding upsert_runtime modify Ends
    upsert_runtime-Ending rt = record { at = λ a p. record { world = p.world; lock = p.lock } }

    pop_volume-Ending : (d : String) → Ending E (In Q l) (pop_volume {W = W} d)
    unfolding pop_volume Ends
    pop_volume-Ending d = record { at = λ a p. record { world = p.world; lock = p.lock } }

    note_sent-Ending : (u : StatusUpdate) → Ending E (In Q l) (note_sent {W = W} u)
    unfolding note_sent modify Ends
    note_sent-Ending u = record { at = λ a p. record { world = p.world; lock = p.lock } }

  report_state-Ending :
      (d : String) (state : DeploymentState) (error : Option Failure)
      → Ending Never (In Q l) (report_state host d state error)
  unfolding report_state send HttpOnly
  report_state-Ending d state error =
      Ending-try _ _ (λ h. h)
        (Ending-bind _ _ (note_sent-Ending _) (λ u. Ending-call HttpOnly Q l _ (up.statuses _)))
        log_http-Ending

  delete_if-Ending :
      {E : Raised → Type 0} (o : Option String) (f : String → Exec W (Unit {0}))
      → ((p : String) → Ending E (In Q l) (f p))
      → Ending E (In Q l) (delete_if host o f)
  unfolding delete_if
  delete_if-Ending none f h = Ending-pure tt
  delete_if-Ending (some p) f h = h p

  drop_volume-Ending : (o : Option Volume) → Ending Caught (In Q l) (drop_volume host o)
  unfolding drop_volume
  drop_volume-Ending none = Ending-pure tt
  drop_volume-Ending (some v) = Ending-call Caught Q l _ (up.volumes v)

  stop_backend-Ending :
      (k : WorkloadKind) (rt : Runtime) → Ending Caught (In Q l) (stop_backend host k rt)
  unfolding stop_backend
  stop_backend-Ending inference rt =
      Ending-if _ _ _
        (Ending-bind _ _ (Ending-call Caught Q l _ (up.stops rt)) λ _.
          Ending-bind _ _ (delete_if-Ending _ _ λ d. Ending-call Caught Q l _ (up.directories d))
            λ _. delete_if-Ending _ _ λ d. Ending-call Caught Q l _ (up.artifacts d))
        (Ending-pure tt)
  stop_backend-Ending pod rt =
      Ending-if _ _ _
        (Ending-bind _ _ (Ending-call Caught Q l _ (up.pods rt))
          λ _. Ending-bind _ _ (pop_volume-Ending _) drop_volume-Ending)
        (Ending-pure tt)
  stop_backend-Ending vm rt =
      Ending-if _ _ _ (Ending-bind _ _ (Ending-call Caught Q l _ (up.vms rt)) λ _. Ending-pure tt)
        (Ending-pure tt)
  stop_backend-Ending (other_kind k) rt = Ending-pure tt

  terminate_runtime-Ending :
      (rt : Runtime) (report : Bool) → Ending Never (In Q l) (terminate_runtime host rt report)
  unfolding terminate_runtime Caught
  terminate_runtime-Ending rt report = Ending-bind _ _ (release_gpus-Ending _) λ _.
      Ending-bind _ _ (Ending-try _ _ (λ h. h) (stop_backend-Ending _ rt) log_any-Ending) λ _.
        Ending-bind _ _ (upsert_runtime-Ending _)
          λ _. Ending-if _ _ _ (report_state-Ending _ _ _) (Ending-pure tt)

  pub foreign_busy_devices-Ending :
      (s : Settings) → Ending Never (In Q l) (foreign_busy_devices host s)
  unfolding foreign_busy_devices Caught
  foreign_busy_devices-Ending s =
      Ending-try _ _ (λ h. h)
        (Ending-bind _ _ (Ending-call Caught Q l _ up.probes)
          λ _. Ending-bind _ _ (Ending-gets _) λ _. Ending-pure _)
        (no_devices-Ending s)

  ask-Ending : (d : String) → Ending Never (In Q l) (ask host d)
  unfolding ask HttpOnly
  ask-Ending d =
      Ending-try _ _ (λ h. h)
        (Ending-bind _ _ (Ending-call HttpOnly Q l _ (up.deployments d)) λ _. Ending-pure _)
        is_unreachable-Ending

  settle-Ending : (rt : Runtime) (answer : Answer) → Ending Never (In Q l) (settle host rt answer)
  unfolding settle
  settle-Ending rt unreachable = Ending-pure _
  settle-Ending rt (says none) =
      Ending-bind _ _ (terminate_runtime-Ending rt false) λ _. Ending-pure _
  settle-Ending rt (says (some state)) =
      Ending-if _ _ _ (Ending-pure _)
        (Ending-bind _ _ (terminate_runtime-Ending rt (is_dead state)) λ _. Ending-pure _)

  examine-Ending :
      (d : String) (rt : Runtime) (status : RuntimeStatus) (t : Tally)
      → Ending Never (In Q l) (examine host d rt status t)
  unfolding examine
  examine-Ending d rt RuntimeStatus.terminated t = Ending-pure _
  examine-Ending d rt RuntimeStatus.failed t = Ending-pure _
  examine-Ending d rt _ t =
      Ending-bind _ _ (ask-Ending d)
        λ answer. Ending-bind _ _ (settle-Ending rt answer) λ _. Ending-pure _

  pub recover_items-Ending :
      (items : List (String × Runtime)) (t : Tally)
      → Ending Never (In Q l) (recover_items host items t)
  unfolding recover_items
  recover_items-Ending [] t = Ending-pure _
  recover_items-Ending ((d, rt) ∷ rest) t =
      Ending-bind _ _ (examine-Ending d rt rt.status t) λ t'. recover_items-Ending rest t'
