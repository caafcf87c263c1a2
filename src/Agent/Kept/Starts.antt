-- ===== src/Agent/Kept/Starts.antt =====
-- The handlers that start a workload keep what the steps keep.
use greenference_node.Base.{ℕ, String, List}
use greenference_node.Protocol.{Runtime, Workload, Settings}
use greenference_node.Agent.Exec.{Agent, Exec, Raised, inference_error, pod_error, vm_error}
use greenference_node.Agent.Host.{Host, StageRequest}
use greenference_node.Agent.Keeps.{Keeps, keeps_rules, Keeps-raise}
use greenference_node.Agent.Start
use greenference_node.Agent.Kept.{
  IsKept, report_deployment_ready-Keeps, fail_runtime-Keeps, on_granted-Keeps,
}

module _ {W : Type 0} {P : Agent W → Type 0} (k : IsKept P) (host : Host W) (s : Settings) where
  open k use {allocates, reserves, local.{inner, upserts, removes, releases, pops, files, notes}}

  pub foreign_busy_devices-Keeps : Keeps P (Start.foreign_busy_devices host s)
  unfolding Start.foreign_busy_devices
  foreign_busy_devices-Keeps = search (keeps_rules, inner) depth 8

  pub with_gpus-Keeps :
      (rt : Runtime) (n : ℕ) (next : List ℕ → Exec W (Unit {0}))
      → ((l : List ℕ) → Keeps P (next l))
      → Keeps P (Start.with_gpus host s rt n next)
  unfolding Start.with_gpus
  with_gpus-Keeps rt n next kn =
      search
        (
          keeps_rules,
          foreign_busy_devices-Keeps,
          allocates,
          on_granted-Keeps k.local host,
          fail_runtime-Keeps k.local host,
        )
        depth 8

  pub on_inference_error-Keeps :
      (rt : Runtime) (e : Raised) → Keeps P (Start.on_inference_error host s rt e)
  unfolding Start.on_inference_error
  on_inference_error-Keeps rt (inference_error m) =
      search (keeps_rules, fail_runtime-Keeps k.local host)
  on_inference_error-Keeps rt e = Keeps-raise e

  pub on_staging_error-Keeps :
      (rt : Runtime) (e : Raised) → Keeps P (Start.on_staging_error host s rt e)
  unfolding Start.on_staging_error
  on_staging_error-Keeps rt (inference_error m) =
      search (keeps_rules, fail_runtime-Keeps k.local host)
  on_staging_error-Keeps rt e = Keeps-raise e

  pub on_pod_error-Keeps : (rt : Runtime) (e : Raised) → Keeps P (Start.on_pod_error host s rt e)
  unfolding Start.on_pod_error
  on_pod_error-Keeps rt (pod_error m) = search (keeps_rules, fail_runtime-Keeps k.local host)
  on_pod_error-Keeps rt e = Keeps-raise e

  pub on_vm_error-Keeps : (rt : Runtime) (e : Raised) → Keeps P (Start.on_vm_error host s rt e)
  unfolding Start.on_vm_error
  on_vm_error-Keeps rt (vm_error m) = search (keeps_rules, fail_runtime-Keeps k.local host)
  on_vm_error-Keeps rt e = Keeps-raise e

  pub publish-Keeps : (rt : Runtime) → Keeps P (Start.publish host s rt)
  unfolding Start.publish
  publish-Keeps rt = search (keeps_rules, upserts, report_deployment_ready-Keeps k.local host)

  pub serve_staged-Keeps :
      (rt : Runtime) (r : StageRequest) (path : String)
      → Keeps P (Start.serve_staged host s rt r path)
  unfolding Start.serve_staged
  serve_staged-Keeps rt r path =
      search (keeps_rules, inner, upserts, on_inference_error-Keeps, publish-Keeps) depth 10

  pub start_inference_runtime-Keeps :
      (rt : Runtime) (w : Workload) → Keeps P (Start.start_inference_runtime host s rt w)
  unfolding Start.start_inference_runtime
  start_inference_runtime-Keeps rt w =
      with_gpus-Keeps rt _ _
        λ l. search (keeps_rules, inner, on_staging_error-Keeps, serve_staged-Keeps) depth 10

  pub start_vm_runtime-Keeps :
      (rt : Runtime) (w : Workload) → Keeps P (Start.start_vm_runtime host s rt w)
  unfolding Start.start_vm_runtime
  start_vm_runtime-Keeps rt w =
      with_gpus-Keeps rt _ _
        λ l. search (keeps_rules, inner, upserts, on_vm_error-Keeps, publish-Keeps) depth 10
