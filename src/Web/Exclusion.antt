-- ===== src/Web/Exclusion.antt =====
-- The invariants of the service while clients call the routes.
use greenference_node.Base.{ℕ, ◌≡◌, sym, String, true, Option, none, some, List, [], ◌∷◌}
use greenference_node.Allocator.Invariant.{IsSound, holds}
use greenference_node.Protocol.{Settings, Runtime}
use greenference_node.Access.Security.{Secrets, Verdict, allowed, unauthorized, unavailable}
use greenference_node.Agent.Exec.{Agent, Outcome, returned, raised, Raised, http_error, pure, ◌>>=◌}
use greenference_node.Agent.Host.{Host}
use greenference_node.Agent.Keeps.{
  Keeps, Keeps-bind, Keeps-pure, Keeps-call, Keeps-raise, Keeps-gets, Keeps-if, Keeps-try,
}
use greenference_node.Agent.Kept.{IsKept}
use greenference_node.Agent.Safety.{HasSoundAllocator-kept}
use mathlib.Core.Path.{subst}
use greenference_node.Agent.Kept.Passes.{reconcile_once-Keeps}
use greenference_node.Agent.Kept.Recoveries.{
  recover_runtime_state-Keeps, terminate_deployment-Keeps,
}
use greenference_node.Agent.Parts.{get_runtime}
use greenference_node.Agent.Cleanup.{sync_leases, no_leases}
use greenference_node.Web.Wire.{Wire, Response}
use greenference_node.Web.Access.{get_ssh_access, invoke_on, invoke_inference}
use greenference_node.Web.Routes.{
  Request, register, publish_capacity, publish_heartbeat, list_leases, reconcile, recover,
  list_runtimes, summarize, gpu_status, fleet_status, show_runtime, check_health, pod_stats,
  terminate, chat_completions, inference_proxy, ssh_access, Server, dump_result, stats_in, stats_of,
  bad_gateway, proxied, handler, responded, on_service, admit, configured, handle, handle_all,
}

module _ {P W : Type 0} (wire : Wire P W) (host : Host W) (s : Settings) (draws : ℕ)
    {Q : Agent W → Type 0} (k : IsKept Q) where
  get_runtime-Keeps : (d : String) → Keeps Q (get_runtime d)
  unfolding get_runtime
  get_runtime-Keeps d = Keeps-gets _

  dump_result-Keeps : (p : P) → Keeps Q (dump_result wire host s draws p)
  unfolding dump_result
  dump_result-Keeps p = Keeps-pure _

  stats_in-Keeps : (rt : Runtime) (o : Option String) → Keeps Q (stats_in wire host s draws rt o)
  unfolding stats_in
  stats_in-Keeps rt none = Keeps-pure _
  stats_in-Keeps rt (some c) =
      Keeps-if _ _ _ (Keeps-bind _ _ (Keeps-call _ k.inner) dump_result-Keeps) (Keeps-pure _)

  stats_of-Keeps : (o : Option Runtime) → Keeps Q (stats_of wire host s draws o)
  unfolding stats_of
  stats_of-Keeps none = Keeps-pure _
  stats_of-Keeps (some rt) = stats_in-Keeps rt _

  bad_gateway-Keeps : (e : Raised) → Keeps Q (bad_gateway wire host s draws e)
  unfolding bad_gateway
  bad_gateway-Keeps http_error = Keeps-pure _
  bad_gateway-Keeps e = Keeps-raise e

  proxied-Keeps : (p : P) (o : Option String) → Keeps Q (proxied wire host s draws p o)
  unfolding proxied
  proxied-Keeps p none = Keeps-pure _
  proxied-Keeps p (some url) =
      Keeps-try _ _ (Keeps-bind _ _ (Keeps-call _ k.inner) dump_result-Keeps) bad_gateway-Keeps

  invoke_on-Keeps : (p : P) (o : Option Runtime) → Keeps Q (invoke_on wire p o)
  unfolding invoke_on
  invoke_on-Keeps p none = Keeps-pure _
  invoke_on-Keeps p (some rt) =
      Keeps-if _ _ _
        (Keeps-if _ _ _ (Keeps-bind _ _ (Keeps-call _ k.inner) (λ x. Keeps-pure _)) (Keeps-pure _))
        (Keeps-pure _)

  looked_up :
      {A : Type 0} (d : String) (f : Option Runtime → A)
      → Keeps Q (get_runtime d >>= λ rt. pure (f rt))
  looked_up d f = Keeps-bind _ _ (get_runtime-Keeps d) (λ rt. Keeps-pure _)

  no_leases-Keeps : (e : Raised) → Keeps Q (no_leases host s draws e)
  unfolding no_leases
  no_leases-Keeps http_error = Keeps-pure _
  no_leases-Keeps e = Keeps-raise e

  handler-Keeps : (r : Request P) → Keeps Q (handler wire host s draws r)
  unfolding handler sync_leases get_ssh_access invoke_inference
  handler-Keeps (register p) = Keeps-bind _ _ (Keeps-call _ k.inner) dump_result-Keeps
  handler-Keeps (publish_capacity p) = Keeps-bind _ _ (Keeps-call _ k.inner) dump_result-Keeps
  handler-Keeps (publish_heartbeat p) = Keeps-bind _ _ (Keeps-call _ k.inner) dump_result-Keeps
  handler-Keeps (list_leases hotkey) =
      Keeps-bind _ _ (Keeps-try _ _ (Keeps-call _ k.inner) no_leases-Keeps) (λ l. Keeps-pure _)
  handler-Keeps (reconcile hotkey) =
      Keeps-bind _ _ (reconcile_once-Keeps k host s draws hotkey) (λ u. Keeps-pure _)
  handler-Keeps (recover hotkey) =
      Keeps-bind _ _ (recover_runtime_state-Keeps k host) (λ r. Keeps-pure _)
  handler-Keeps list_runtimes = Keeps-gets _
  handler-Keeps summarize = Keeps-gets _
  handler-Keeps gpu_status = Keeps-gets _
  handler-Keeps fleet_status = Keeps-gets _
  handler-Keeps (show_runtime d) = looked_up d _
  handler-Keeps (check_health d) = looked_up d _
  handler-Keeps (pod_stats d) = Keeps-bind _ _ (get_runtime-Keeps d) stats_of-Keeps
  handler-Keeps (terminate d) =
      Keeps-bind _ _ (terminate_deployment-Keeps k host d) (λ b. Keeps-pure _)
  handler-Keeps (chat_completions d p) =
      Keeps-bind _ _ (Keeps-bind _ _ (get_runtime-Keeps d) (invoke_on-Keeps p)) (λ r. Keeps-pure _)
  handler-Keeps (inference_proxy d p) =
      Keeps-bind _ _ (get_runtime-Keeps d) (λ rt. proxied-Keeps p _)
  handler-Keeps (ssh_access d key) = Keeps-bind _ _ (looked_up d _) (λ a. Keeps-pure _)

  -- The service of the server, if there is one, has the property.
  abbrev OnService : Option (Agent W) → Type 0
  OnService none = Unit
  OnService (some a) = Q a

  responded-kept :
      (server : Server W) (r : Outcome (Response P)) (a : Agent W)
      → Q a
      → OnService (responded wire host s draws server (r, a)).1.service
  unfolding responded
  responded-kept server (returned x) a q = q
  responded-kept server (raised e) a q = q

  on_service-kept :
      (server : Server W) (r : Request P) (o : Option (Agent W))
      → OnService server.service
      → OnService o
      → OnService (on_service wire host s draws server (handler wire host s draws r) o).1.service
  unfolding on_service
  on_service-kept server r none q h = q
  on_service-kept server r (some a) q h = responded-kept server _ _ ((handler-Keeps r).at a h)

  admit-kept :
      (server : Server W) (r : Request P) (v : Verdict)
      → OnService server.service
      → OnService (admit wire host s draws server (handler wire host s draws r) v).1.service
  unfolding admit
  admit-kept server r allowed q = on_service-kept server r server.service q q
  admit-kept server r unauthorized q = q
  admit-kept server r unavailable q = q

  handle-kept :
      (r : Request P) (header : Option String) (server : Server W)
      → OnService server.service
      → OnService (handle wire host s draws r header server).1.service
  unfolding handle
  handle-kept r header server q = go server.settings
    where
      go :
          (o : Option Secrets)
          → OnService (configured wire host s draws r header server o).1.service
      go none = unfold configured in q
      go (some cfg) = unfold configured in admit-kept server r _ q

  pub handle_all-kept :
      (requests : List (Request P × Option String)) (server : Server W)
      → OnService server.service
      → OnService (handle_all wire host s draws requests server).service
  unfolding handle_all
  handle_all-kept [] server q = q
  handle_all-kept ((r, header) ∷ rest) server q =
      handle_all-kept rest (handle wire host s draws r header server).1
        (handle-kept r header server q)

-- Whatever requests clients send, with whatever header, to a server whose allocator is sound, and
-- whatever the control plane, the backends and the model servers answer or raise: no GPU comes to
-- belong to two deployments.
pub requests_exclusive :
    {P W : Type 0} (wire : Wire P W) (host : Host W) (s : Settings) (draws : ℕ)
    (requests : List (Request P × Option String)) (server : Server W) (a b : Agent W) (d e : String)
    (x : ℕ)
    → server.service ≡ some a
    → IsSound a.gpu_allocator
    → (handle_all wire host s draws requests server).service ≡ some b
    → holds d x b.gpu_allocator ≡ true
    → holds e x b.gpu_allocator ≡ true
    → d ≡ e
requests_exclusive wire host s draws requests server a b d e x before sound after =
    (subst (OnService wire host s draws HasSoundAllocator-kept) after (
        handle_all-kept wire host s draws HasSoundAllocator-kept requests server (
          subst (OnService wire host s draws HasSoundAllocator-kept) (sym before) sound))).exclusive
      d e x
