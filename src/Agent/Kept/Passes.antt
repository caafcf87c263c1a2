-- ===== src/Agent/Kept/Passes.antt =====
-- A pass over the leases, a recovery and a termination keep what the steps keep.
use greenference_node.Base.{ℕ, String, Bool, true, false, Option, none, some, List, [], ◌∷◌}
use greenference_node.Protocol.{
  WorkloadKind, inference, pod, vm, other_kind, Runtime, RuntimeStatus, Workload, Settings, Lease,
}
use greenference_node.Agent.Exec.{Agent, Raised, pod_error, http_error}
use greenference_node.Agent.Host.{Host}
use greenference_node.Agent.Keeps.{Keeps, keeps_rules, Keeps-raise, Keeps-pure, Keeps-bind}
use greenference_node.Agent.Resume
use greenference_node.Agent.Reconcile
use greenference_node.Agent.Cleanup
use greenference_node.Agent.Parts.{get_runtime}
use greenference_node.Agent.Kept.{
  IsKept, fail_runtime-Keeps, log_any-Keeps, send-Keeps, report_deployment_ready-Keeps,
  terminate_runtime-Keeps, suspend_runtime-Keeps, on_granted-Keeps,
}
use greenference_node.Agent.Kept.Starts.{
  foreign_busy_devices-Keeps, start_inference_runtime-Keeps, start_vm_runtime-Keeps,
}
use greenference_node.Agent.Kept.Pods.{start_pod_runtime-Keeps}

module _ {W : Type 0} {P : Agent W → Type 0} (k : IsKept P) (host : Host W) (s : Settings) where
  open k use {allocates, reserves, local.{inner, upserts, removes, releases}}

  reacquire-Keeps :
      (kind : WorkloadKind) (l : List ℕ) (rt : Runtime)
      → Keeps P (Resume.reacquire host s kind l rt)
  unfolding Resume.reacquire
  reacquire-Keeps pod (d ∷ l) rt = reserves rt.deployment_id (d ∷ l)
  reacquire-Keeps _ l rt = search (keeps_rules, foreign_busy_devices-Keeps k host s, allocates)

  on_resume_error-Keeps : (rt : Runtime) (e : Raised) → Keeps P (Resume.on_resume_error host s rt e)
  unfolding Resume.on_resume_error
  on_resume_error-Keeps rt (pod_error m) = search (keeps_rules, releases, upserts)
  on_resume_error-Keeps rt e = Keeps-raise e

  resume_container-Keeps : (rt : Runtime) → Keeps P (Resume.resume_container host s rt)
  unfolding Resume.resume_container
  resume_container-Keeps rt =
      search
        (
          keeps_rules,
          inner,
          upserts,
          on_resume_error-Keeps,
          report_deployment_ready-Keeps k.local host,
        )
        depth 8

  no_workload-Keeps : (e : Raised) → Keeps P (Resume.no_workload host s e)
  unfolding Resume.no_workload
  no_workload-Keeps http_error = Keeps-pure none
  no_workload-Keeps e = Keeps-raise e

  start_again-Keeps :
      (kind : WorkloadKind) (rt : Runtime) (w : Workload)
      → Keeps P (Resume.start_again host s kind rt w)
  unfolding Resume.start_again
  start_again-Keeps inference rt w = start_inference_runtime-Keeps k host s rt w
  start_again-Keeps vm rt w = start_vm_runtime-Keeps k host s rt w
  start_again-Keeps _ rt w = Keeps-pure tt

  redispatch-Keeps : (rt : Runtime) → Keeps P (Resume.redispatch host s rt)
  unfolding Resume.redispatch
  redispatch-Keeps rt =
      search (keeps_rules, inner, releases, upserts, no_workload-Keeps, start_again-Keeps) depth 9

  resume_with-Keeps :
      (kind : WorkloadKind) (rt : Runtime) (l : List ℕ)
      → Keeps P (Resume.resume_with host s kind rt l)
  unfolding Resume.resume_with
  resume_with-Keeps pod rt l = resume_container-Keeps _
  resume_with-Keeps _ rt l = redispatch-Keeps rt

  resume_runtime-Keeps : (rt : Runtime) → Keeps P (Resume.resume_runtime host s rt)
  unfolding Resume.resume_runtime
  resume_runtime-Keeps rt =
      search (keeps_rules, reacquire-Keeps, on_granted-Keeps k.local host, resume_with-Keeps) depth
        8

  module _ (draws : ℕ) where
    start_by_kind-Keeps :
        (kind : WorkloadKind) (rt : Runtime) (w : Workload)
        → Keeps P (Reconcile.start_by_kind host s draws kind rt w)
    unfolding Reconcile.start_by_kind
    start_by_kind-Keeps inference rt w = start_inference_runtime-Keeps k host s rt w
    start_by_kind-Keeps pod rt w = start_pod_runtime-Keeps k host s draws rt w
    start_by_kind-Keeps vm rt w = start_vm_runtime-Keeps k host s rt w
    start_by_kind-Keeps (other_kind c) rt w = fail_runtime-Keeps k.local host rt _

    dispatch-Keeps :
        (lease : Lease) (w : Option Workload) → Keeps P (Reconcile.dispatch host s draws lease w)
    unfolding Reconcile.dispatch
    dispatch-Keeps lease none = send-Keeps k.local host _
    dispatch-Keeps lease (some w) = search (keeps_rules, upserts, start_by_kind-Keeps)

    reconcile_workload-Keeps :
        (lease : Lease) → Keeps P (Reconcile.reconcile_workload host s draws lease)
    unfolding Reconcile.reconcile_workload
    reconcile_workload-Keeps lease = search (keeps_rules, inner, dispatch-Keeps)

    report_failure-Keeps :
        (lease : Lease) (e : Raised) → Keeps P (Reconcile.report_failure host s draws lease e)
    unfolding Reconcile.report_failure
    report_failure-Keeps lease e =
        search (keeps_rules, send-Keeps k.local host, log_any-Keeps k.local host)

    launch-Keeps : (lease : Lease) → Keeps P (Reconcile.launch host s draws lease)
    unfolding Reconcile.launch
    launch-Keeps lease = search (keeps_rules, reconcile_workload-Keeps, report_failure-Keeps)

    retry-Keeps : (lease : Lease) (rt : Runtime) → Keeps P (Reconcile.retry host s draws lease rt)
    unfolding Reconcile.retry
    retry-Keeps lease rt =
        search (keeps_rules, terminate_runtime-Keeps k.local host, removes, launch-Keeps)

    follow_active-Keeps :
        (lease : Lease) (rt : Runtime) (status : RuntimeStatus)
        → Keeps P (Reconcile.follow_active host s draws lease rt status)
    unfolding Reconcile.follow_active
    follow_active-Keeps lease rt RuntimeStatus.suspended = resume_runtime-Keeps rt
    follow_active-Keeps lease rt RuntimeStatus.accepted = retry-Keeps lease rt
    follow_active-Keeps lease rt RuntimeStatus.starting = retry-Keeps lease rt
    follow_active-Keeps lease rt _ = Keeps-pure tt

    follow_suspended-Keeps :
        (rt : Runtime) (status : RuntimeStatus)
        → Keeps P (Reconcile.follow_suspended host s draws rt status)
    unfolding Reconcile.follow_suspended
    follow_suspended-Keeps rt RuntimeStatus.ready = suspend_runtime-Keeps k.local host rt
    follow_suspended-Keeps rt RuntimeStatus.starting = suspend_runtime-Keeps k.local host rt
    follow_suspended-Keeps rt _ = Keeps-pure tt

    follow-Keeps :
        (lease : Lease) (o : Option Runtime) → Keeps P (Reconcile.follow host s draws lease o)
    unfolding Reconcile.follow
    follow-Keeps lease none = search (keeps_rules, launch-Keeps)
    follow-Keeps lease (some rt) = search (keeps_rules, follow_active-Keeps, follow_suspended-Keeps)

    follow_lease-Keeps : (lease : Lease) → Keeps P (Reconcile.follow_lease host s draws lease)
    unfolding Reconcile.follow_lease get_runtime
    follow_lease-Keeps lease = search (keeps_rules, follow-Keeps)

    follow_leases-Keeps : (l : List Lease) → Keeps P (Reconcile.follow_leases host s draws l)
    unfolding Reconcile.follow_leases
    follow_leases-Keeps [] = Keeps-pure tt
    follow_leases-Keeps (lease ∷ l) =
        Keeps-bind _ _ (follow_lease-Keeps lease) (λ _. follow_leases-Keeps l)

    confirmed_terminated-Keeps :
        (d : String) → Keeps P (Cleanup.confirmed_terminated host s draws d)
    unfolding Cleanup.confirmed_terminated Cleanup.keep
    confirmed_terminated-Keeps d = search (keeps_rules, inner)

    clean-Keeps :
        (d : String) (rt : Runtime) (b : Bool) (status : RuntimeStatus)
        → Keeps P (Cleanup.clean host s draws d rt b status)
    unfolding Cleanup.clean
    clean-Keeps d rt b RuntimeStatus.terminated = Keeps-pure tt
    clean-Keeps d rt b RuntimeStatus.suspended =
        search
          (keeps_rules, confirmed_terminated-Keeps, terminate_runtime-Keeps k.local host, removes)
          depth 8
    clean-Keeps d rt true _ = terminate_runtime-Keeps k.local host rt false
    clean-Keeps d rt false _ = terminate_runtime-Keeps k.local host rt true

    clean_item-Keeps :
        (fleet ours : List Lease) (item : String × Runtime)
        → Keeps P (Cleanup.clean_item host s draws fleet ours item)
    unfolding Cleanup.clean_item
    clean_item-Keeps fleet ours (d, rt) = search (keeps_rules, clean-Keeps)

    clean_items-Keeps :
        (fleet ours : List Lease) (l : List (String × Runtime))
        → Keeps P (Cleanup.clean_items host s draws fleet ours l)
    unfolding Cleanup.clean_items
    clean_items-Keeps fleet ours [] = Keeps-pure tt
    clean_items-Keeps fleet ours (item ∷ l) =
        Keeps-bind _ _ (clean_item-Keeps fleet ours item) (λ _. clean_items-Keeps fleet ours l)

    no_leases-Keeps : (e : Raised) → Keeps P (Cleanup.no_leases host s draws e)
    unfolding Cleanup.no_leases
    no_leases-Keeps http_error = Keeps-pure []
    no_leases-Keeps e = Keeps-raise e

    reconcile_fleet-Keeps : (l : List Lease) → Keeps P (Cleanup.reconcile_fleet host s draws l)
    unfolding Cleanup.reconcile_fleet
    reconcile_fleet-Keeps l = search (keeps_rules, follow_leases-Keeps, clean_items-Keeps)

    pub reconcile_once-Keeps :
        (hotkey : String) → Keeps P (Cleanup.reconcile_once host s draws hotkey)
    unfolding Cleanup.reconcile_once Cleanup.reconcile_once_locked Cleanup.sync_leases
    reconcile_once-Keeps hotkey =
        search (keeps_rules, inner, no_leases-Keeps, reconcile_fleet-Keeps) depth 9
