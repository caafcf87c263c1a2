-- ===== src/Web/Routes.antt =====
-- The routes. The globals `_settings` and `_service` are a server's state; each route first asks for
-- the caller's secret, then runs on the service.
use greenference_node.Base.{
  ℕ, String, Bool, true, false, Option, none, some, List, map, if◌then◌else◌,
}
use greenference_node.Text.Words.{concat}
use greenference_node.Base.{[], ◌∷◌}
use greenference_node.Allocator
use greenference_node.Repository
use greenference_node.Repository.Summary.{runtime_summary}
use greenference_node.Protocol.{Runtime, Settings}
use greenference_node.Access.Redaction.{Value, redact}
use greenference_node.Access.Security.{
  Secrets, Verdict, allowed, unauthorized, unavailable, validate_auth,
}
use greenference_node.Agent.Exec.{
  Agent, Exec, Outcome, returned, raised, Raised, http_error, pure, raise, gets, call, try_, ◌>>=◌,
  ◌>>◌,
}
use greenference_node.Agent.Host.{Host}
use greenference_node.Agent.Parts.{get_runtime}
use greenference_node.Agent.Cleanup.{sync_leases, reconcile_once}
use greenference_node.Agent.Recovery.{recover_runtime_state, terminate_deployment}
use greenference_node.Pods.Docker.{nonempty}
use greenference_node.Web.Wire.{
  Wire, SshAccess, dumped, leases, ok, recovery, runtimes, runtime, summary, healthy, no_stats, ssh,
  terminated, gpus, Response, answer, refuse, status_text, kind_text, is_ready,
}
use greenference_node.Web.Access.{get_ssh_access, invoke_inference}

pub data Request (P : Type 0) : Type 0 where
  register publish_capacity publish_heartbeat : P → Request P
  list_leases reconcile recover : String → Request P
  list_runtimes summarize gpu_status fleet_status : Request P
  show_runtime check_health pod_stats terminate : String → Request P
  chat_completions inference_proxy : String → P → Request P
  ssh_access : String → Bool → Request P

-- The routes that are guarded also where no secret is configured.
unfoldable pub is_sensitive : {P : Type 0} → Request P → Bool
is_sensitive (check_health d) = false
is_sensitive (pod_stats d) = false
is_sensitive (inference_proxy d p) = false
is_sensitive _ = true

pub record Server (W : Type 0) : Type 0 where
  pub settings : Option Secrets
  pub service : Option (Agent W)

module _ {P W : Type 0} (wire : Wire P W) (host : Host W) (s : Settings) (draws : ℕ) where
  -- _runtime_public_dump
  unfoldable pub runtime_public_dump : Runtime → Value
  unfolding redact
  runtime_public_dump rt = redact (wire.model_dump rt)

  unfoldable pub dump_result : P → Exec W (Response P)
  dump_result p = pure (answer (dumped p))

  unfoldable pub found : Option Runtime → Response P
  unfolding runtime_public_dump
  found none = refuse 404
  found (some rt) = answer (runtime (runtime_public_dump rt))

  unfoldable pub completed : Option P → Response P
  completed none = refuse 404
  completed (some p) = answer (dumped p)

  unfoldable pub ssh_body : Option SshAccess → Response P
  ssh_body none = refuse 404
  ssh_body (some access) = answer (ssh access)

  -- A ready runtime that has a URL.
  unfoldable pub served_at : Option Runtime → Option String
  unfolding is_ready nonempty
  served_at none = none
  served_at (some rt) = if is_ready rt.status then nonempty (wire.runtime_url rt) else none

  unfoldable pub health_body : String → Option String → Response P
  health_body deployment_id none = refuse 503
  health_body deployment_id (some url) = answer (healthy deployment_id)

  unfoldable pub stats_in : Runtime → Option String → Exec W (Response P)
  unfolding is_ready
  stats_in rt none = pure (refuse 404)
  stats_in rt (some container) =
      if is_ready rt.status
      then call (wire.collect_pod_stats container rt.gpu_devices) >>= dump_result
      else pure (answer no_stats)

  unfoldable pub stats_of : Option Runtime → Exec W (Response P)
  unfolding stats_in nonempty
  stats_of none = pure (refuse 404)
  stats_of (some rt) = stats_in rt (nonempty rt.container_id)

  unfoldable pub bad_gateway : Raised → Exec W (Response P)
  bad_gateway http_error = pure (refuse 502)
  bad_gateway e = raise e

  unfoldable pub proxied : P → Option String → Exec W (Response P)
  unfolding bad_gateway
  proxied payload none = pure (refuse 404)
  proxied payload (some url) =
      try_
        (call (wire.post_upstream (concat (url ∷ "/v1/chat/completions" ∷ [])) payload)
          >>= dump_result)
        bad_gateway

  -- The body of each route, after the guard.
  unfoldable pub handler : Request P → Exec W (Response P)
  unfolding dump_result found completed ssh_body served_at health_body stats_of proxied
  handler (register p) = call (wire.register_miner p) >>= dump_result
  handler (publish_capacity p) = call (wire.update_capacity p) >>= dump_result
  handler (publish_heartbeat p) = call (wire.record_heartbeat p) >>= dump_result
  handler (list_leases hotkey) = sync_leases host s draws hotkey >>= λ l. pure (answer (leases l))
  handler (reconcile hotkey) = reconcile_once host s draws hotkey >> pure (answer ok)
  handler (recover hotkey) = recover_runtime_state host >>= λ r. pure (answer (recovery r))
  handler list_runtimes =
      gets
        λ a. answer (runtimes (map runtime_public_dump (Repository.snapshot_runtimes a.repository)))
  handler summarize = gets λ a. answer (
      summary (
        runtime_summary (λ rt. status_text rt.status) (λ rt. kind_text rt.workload_kind)
          a.repository))
  handler (show_runtime d) = get_runtime d >>= λ rt. pure (found rt)
  handler (chat_completions d p) = invoke_inference wire d p >>= λ r. pure (completed r)
  handler (check_health d) = get_runtime d >>= λ rt. pure (health_body d (served_at rt))
  handler (pod_stats d) = get_runtime d >>= stats_of
  handler (inference_proxy d p) = get_runtime d >>= λ rt. proxied p (served_at rt)
  handler (ssh_access d key) = get_ssh_access d key >>= λ access. pure (ssh_body access)
  handler (terminate d) = terminate_deployment host d >>= λ b. pure (answer (terminated b))
  handler gpu_status = gets λ a. answer (gpus (Allocator.status a.gpu_allocator))
  handler fleet_status = gets λ a. answer (
      summary (
        runtime_summary (λ rt. status_text rt.status) (λ rt. kind_text rt.workload_kind)
          a.repository))

  -- An exception that nothing catches is answered 500.
  unfoldable pub responded : Server W → Outcome (Response P) × Agent W → Response P × Server W
  responded server (returned r, a) = (r, record server { service = some a })
  responded server (raised e, a) = (refuse 500, record server { service = some a })

  unfoldable pub on_service :
      Server W → Exec W (Response P) → Option (Agent W) → Response P × Server W
  unfolding responded
  on_service server body none = (refuse 503, server)
  on_service server body (some a) = responded server (body a)

  unfoldable pub admit : Server W → Exec W (Response P) → Verdict → Response P × Server W
  unfolding on_service
  admit server body allowed = on_service server body server.service
  admit server body unauthorized = (refuse 401, server)
  admit server body unavailable = (refuse 503, server)

  unfoldable pub configured :
      Request P → Option String → Server W → Option Secrets → Response P × Server W
  unfolding admit handler is_sensitive
  configured r header server none = (refuse 503, server)
  configured r header server (some cfg) =
      admit server (handler r) (validate_auth header cfg (is_sensitive r))

  unfoldable pub handle : Request P → Option String → Server W → Response P × Server W
  unfolding configured
  handle r header server = configured r header server server.settings

  -- Requests one after the other, each with its header.
  unfoldable pub handle_all : List (Request P × Option String) → Server W → Server W
  unfolding handle
  handle_all [] server = server
  handle_all ((r, header) ∷ rest) server = handle_all rest (handle r header server).1
