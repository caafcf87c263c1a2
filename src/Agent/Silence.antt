-- ===== src/Agent/Silence.antt =====
-- What the control plane is not told.
use greenference_node.Base.{ℕ, String, true, false, Option, none, some, List, ◌≡◌, refl}
use greenference_node.Protocol.{
  WorkloadKind, inference, pod, vm, other_kind, Lease, Runtime, RuntimeStatus, Settings,
  StatusUpdate,
}
use greenference_node.Agent.Exec.{Agent, Exec, Raised, modify, locked}
use greenference_node.Agent.Host.{Host}
use greenference_node.Agent.Keeps.{Keeps, IsInner, Keeps-pure, keeps_rules}
use greenference_node.Agent.Parts.{upsert_runtime, release_gpus, pop_volume, log_any}
use greenference_node.Agent.Lifecycle.{delete_if, drop_volume, stop_backend, terminate_runtime}
use greenference_node.Agent.Reconcile.{has_lease}
use greenference_node.Agent.Cleanup.{clean, clean_item}

-- neither terminated nor suspended
abbrev IsLive : RuntimeStatus → Type 0
IsLive RuntimeStatus.terminated = ⊥
IsLive RuntimeStatus.suspended = ⊥
IsLive _ = Unit

module _ {W : Type 0} (l : List StatusUpdate) where
  -- The updates that were sent so far are those of `l`.
  abbrev pub HasSent : Agent W → Type 0
  HasSent a = a.sent ≡ l

  HasSent-inner : IsInner HasSent
  unfolding locked
  HasSent-inner = record { world = λ a w p. p; lock = λ a b p. p }

  upsert_runtime-silent : (rt : Runtime) → Keeps HasSent (upsert_runtime rt)
  unfolding upsert_runtime modify
  upsert_runtime-silent rt = record { at = λ a p. p }

  release_gpus-silent : (d : String) → Keeps HasSent (release_gpus d)
  unfolding release_gpus modify
  release_gpus-silent d = record { at = λ a p. p }

  pop_volume-silent : (d : String) → Keeps HasSent (pop_volume d)
  unfolding pop_volume
  pop_volume-silent d = record { at = λ a p. p }

  log_any-silent : (e : Raised) → Keeps HasSent (log_any e)
  unfolding log_any
  log_any-silent e = Keeps-pure tt

  module _ (host : Host W) where
    delete_if-silent :
        (o : Option String) (f : String → Exec W (Unit {0}))
        → ((p : String) → Keeps HasSent (f p))
        → Keeps HasSent (delete_if host o f)
    unfolding delete_if
    delete_if-silent none f kf = Keeps-pure tt
    delete_if-silent (some p) f kf = kf p

    drop_volume-silent : (o : Option _) → Keeps HasSent (drop_volume host o)
    unfolding drop_volume
    drop_volume-silent none = Keeps-pure tt
    drop_volume-silent (some v) = search (keeps_rules, HasSent-inner)

    stop_backend-silent :
        (kind : WorkloadKind) (rt : Runtime) → Keeps HasSent (stop_backend host kind rt)
    unfolding stop_backend
    stop_backend-silent inference rt = search (keeps_rules, HasSent-inner, delete_if-silent) depth 8
    stop_backend-silent pod rt =
        search (keeps_rules, HasSent-inner, pop_volume-silent, drop_volume-silent) depth 8
    stop_backend-silent vm rt = search (keeps_rules, HasSent-inner) depth 8
    stop_backend-silent (other_kind c) rt = Keeps-pure tt

    terminate_runtime-silent : (rt : Runtime) → Keeps HasSent (terminate_runtime host rt false)
    unfolding terminate_runtime
    terminate_runtime-silent rt =
        search
          (
            keeps_rules, release_gpus-silent, upsert_runtime-silent, stop_backend-silent,
            log_any-silent,
          )
          depth 9

module _ {W : Type 0} (host : Host W) (s : Settings) (draws : ℕ) where
  clean-silent :
      (l : List StatusUpdate) (d : String) (rt : Runtime) (status : RuntimeStatus)
      → IsLive status
      → Keeps (HasSent l) (clean host s draws d rt true status)
  unfolding clean
  clean-silent l d rt RuntimeStatus.terminated h = absurd h
  clean-silent l d rt RuntimeStatus.suspended h = absurd h
  clean-silent l d rt _ h = terminate_runtime-silent l host rt

  -- When a deployment's lease is with another node of the fleet, this node sheds its own copy,
  -- unless that is terminated or suspended, without telling the control plane anything: the live
  -- deployment is not reported as terminated.
  shed_is_silent :
      (fleet ours : List Lease) (d : String) (rt : Runtime) (a : Agent W)
      → has_lease d ours ≡ false
      → has_lease d fleet ≡ true
      → IsLive rt.status
      → (clean_item host s draws fleet ours (d, rt) a).1.sent ≡ a.sent
  unfolding clean_item
  shed_is_silent fleet ours d rt a mine theirs live =
      rw (mine, theirs) ((clean-silent a.sent d rt rt.status live).at a refl)
