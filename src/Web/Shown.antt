-- ===== src/Web/Shown.antt =====
-- What the routes show of a runtime.
use greenference_node.Base.{
  ◌≡◌, refl, ℕ, String, Bool, true, false, Option, none, some, List, [], ◌∷◌, map, if◌then◌else◌,
}
use greenference_node.Protocol.{Settings, Runtime}
use greenference_node.Access.Redaction.{Value, IsRedacted, redact-IsRedacted}
use greenference_node.Access.Security.{Secrets, Verdict, allowed, unauthorized, unavailable}
use greenference_node.Agent.Exec.{
  Agent, Exec, Outcome, returned, raised, Raised, http_error, ◌>>=◌, pure, gets,
}
use greenference_node.Agent.Host.{Host}
use greenference_node.Agent.Gives.{
  Gives, Gives-bind, Gives-pure, Gives-raise, Gives-if, Gives-try, OnReturn, any-Gives,
}
use greenference_node.Web.Wire.{Wire, runtimes, runtime, ssh, Response, answer}
use greenference_node.Web.Access.{build_ssh_access, pod_access, get_ssh_access}
use greenference_node.Web.Routes.{
  Request, register, publish_capacity, publish_heartbeat, list_leases, reconcile, recover,
  list_runtimes, summarize, gpu_status, fleet_status, show_runtime, check_health, pod_stats,
  terminate, chat_completions, inference_proxy, ssh_access, Server, runtime_public_dump,
  dump_result, found, completed, ssh_body, health_body, stats_in, stats_of, bad_gateway, proxied,
  handler, responded, on_service, admit, configured, handle,
}

abbrev pub AllRedacted : List Value → Type 0
AllRedacted [] = Unit
AllRedacted (v ∷ vs) = IsRedacted v × AllRedacted vs

-- The request is one for a private key.
abbrev pub asks_key : {P : Type 0} → Request P → Bool
asks_key (ssh_access d key) = key
asks_key _ = false

-- A runtime is redacted, and a private key is shown to who asks for one.
abbrev pub IsShown : {P : Type 0} → Bool → Response P → Type 0
IsShown key (answer (runtime v)) = IsRedacted v
IsShown key (answer (runtimes vs)) = AllRedacted vs
IsShown key (answer (ssh access)) = key ≡ false → access.private_key ≡ none
IsShown key _ = Unit

module _ {P W : Type 0} (wire : Wire P W) (host : Host W) (s : Settings) (draws : ℕ) where
  dumps-AllRedacted :
      (l : List Runtime) → AllRedacted (map (runtime_public_dump wire host s draws) l)
  unfolding runtime_public_dump
  dumps-AllRedacted [] = tt
  dumps-AllRedacted (rt ∷ l) = (redact-IsRedacted (wire.model_dump rt), dumps-AllRedacted l)

  found-IsShown : (o : Option Runtime) → IsShown false (found wire host s draws o)
  unfolding found runtime_public_dump
  found-IsShown none = tt
  found-IsShown (some rt) = redact-IsRedacted (wire.model_dump rt)

  completed-IsShown : (o : Option P) → IsShown false (completed wire host s draws o)
  unfolding completed
  completed-IsShown none = tt
  completed-IsShown (some p) = tt

  health_body-IsShown :
      (d : String) (o : Option String) → IsShown false (health_body wire host s draws d o)
  unfolding health_body
  health_body-IsShown d none = tt
  health_body-IsShown d (some url) = tt

  -- The record that is built has the key that it is given only on request.
  keyless :
      (key : Bool) (rt : Runtime) (o : Option String)
      → key ≡ false
      → (build_ssh_access rt key o).private_key ≡ none
  unfolding build_ssh_access
  keyless true rt o e = cc
  keyless false rt o e = refl

  ssh_body-IsShown :
      (key b : Bool) (rt : Runtime) (o : Option String)
      → IsShown key
          (ssh_body wire host s draws (if b then some (build_ssh_access rt key o) else none))
  unfolding ssh_body
  ssh_body-IsShown key true rt o = keyless key rt o
  ssh_body-IsShown key false rt o = tt

  access-IsShown :
      (key : Bool) (o : Option Runtime)
      → IsShown key (ssh_body wire host s draws (pod_access key o))
  unfolding pod_access
  access-IsShown key none = unfold ssh_body in tt
  access-IsShown key (some rt) = ssh_body-IsShown key _ rt _

  dumped-Gives : (m : Exec W P) → Gives (IsShown false) (m >>= dump_result wire host s draws)
  unfolding dump_result
  dumped-Gives m = Gives-bind m _ (any-Gives m) (λ p _. Gives-pure _ tt)

  stats_in-Gives :
      (rt : Runtime) (o : Option String) → Gives (IsShown false) (stats_in wire host s draws rt o)
  unfolding stats_in
  stats_in-Gives rt none = Gives-pure _ tt
  stats_in-Gives rt (some c) = Gives-if _ _ _ (dumped-Gives _) (Gives-pure _ tt)

  stats_of-Gives : (o : Option Runtime) → Gives (IsShown false) (stats_of wire host s draws o)
  unfolding stats_of
  stats_of-Gives none = Gives-pure _ tt
  stats_of-Gives (some rt) = stats_in-Gives rt _

  bad_gateway-Gives : (e : Raised) → Gives (IsShown false) (bad_gateway wire host s draws e)
  unfolding bad_gateway
  bad_gateway-Gives http_error = Gives-pure _ tt
  bad_gateway-Gives e = Gives-raise e

  proxied-Gives :
      (p : P) (o : Option String) → Gives (IsShown false) (proxied wire host s draws p o)
  unfolding proxied
  proxied-Gives p none = Gives-pure _ tt
  proxied-Gives p (some url) = Gives-try _ _ (dumped-Gives _) bad_gateway-Gives

  gets-Gives :
      {A : Type 0} {Q : A → Type 0} (f : Agent W → A) → ((a : Agent W) → Q (f a)) → Gives Q (gets f)
  unfolding gets
  gets-Gives f h = record { at = h }

  pure-Gives :
      {A B : Type 0} {Q : B → Type 0} (m : Exec W A) (f : A → B)
      → ((x : A) → Q (f x))
      → Gives Q (m >>= λ x. pure (f x))
  pure-Gives m f h = Gives-bind m _ (any-Gives m) (λ x _. Gives-pure _ (h x))

  access-Gives :
      (d : String) (key : Bool)
      → Gives
          (λ access. IsShown key (ssh_body wire host s draws access))
          (get_ssh_access {W = W} d key)
  unfolding get_ssh_access
  access-Gives d key = pure-Gives _ _ (access-IsShown key)

  handler-Gives : (r : Request P) → Gives (IsShown (asks_key r)) (handler wire host s draws r)
  unfolding handler
  handler-Gives (register p) = dumped-Gives _
  handler-Gives (publish_capacity p) = dumped-Gives _
  handler-Gives (publish_heartbeat p) = dumped-Gives _
  handler-Gives (list_leases hotkey) = pure-Gives _ _ (λ l. tt)
  handler-Gives (reconcile hotkey) = pure-Gives _ _ (λ u. tt)
  handler-Gives (recover hotkey) = pure-Gives _ _ (λ r. tt)
  handler-Gives list_runtimes = gets-Gives _ (λ a. dumps-AllRedacted _)
  handler-Gives summarize = gets-Gives _ (λ a. tt)
  handler-Gives gpu_status = gets-Gives _ (λ a. tt)
  handler-Gives fleet_status = gets-Gives _ (λ a. tt)
  handler-Gives (show_runtime d) = pure-Gives _ _ found-IsShown
  handler-Gives (check_health d) = pure-Gives _ _ (λ rt. health_body-IsShown d _)
  handler-Gives (pod_stats d) = Gives-bind _ _ (any-Gives _) (λ rt _. stats_of-Gives rt)
  handler-Gives (terminate d) = pure-Gives _ _ (λ b. tt)
  handler-Gives (chat_completions d p) = pure-Gives _ _ completed-IsShown
  handler-Gives (inference_proxy d p) = Gives-bind _ _ (any-Gives _) (λ rt _. proxied-Gives p _)
  handler-Gives (ssh_access d key) =
      Gives-bind {R = λ access. IsShown key (ssh_body wire host s draws access)}
        (get_ssh_access d key) _ (access-Gives d key) (λ access h. Gives-pure _ h)

  responded-IsShown :
      (key : Bool) (server : Server W) (r : Outcome (Response P)) (a : Agent W)
      → OnReturn (IsShown key) r
      → IsShown key (responded wire host s draws server (r, a)).0
  unfolding responded
  responded-IsShown key server (returned x) a q = q
  responded-IsShown key server (raised e) a q = tt

  on_service-IsShown :
      (server : Server W) (r : Request P) (o : Option (Agent W))
      → IsShown (asks_key r) (on_service wire host s draws server (handler wire host s draws r) o).0
  unfolding on_service
  on_service-IsShown server r none = tt
  on_service-IsShown server r (some a) =
      responded-IsShown (asks_key r) server _ _ ((handler-Gives r).at a)

  admit-IsShown :
      (server : Server W) (r : Request P) (v : Verdict)
      → IsShown (asks_key r) (admit wire host s draws server (handler wire host s draws r) v).0
  unfolding admit
  admit-IsShown server r allowed = on_service-IsShown server r server.service
  admit-IsShown server r unauthorized = tt
  admit-IsShown server r unavailable = tt

  configured-IsShown :
      (r : Request P) (header : Option String) (server : Server W) (o : Option Secrets)
      → IsShown (asks_key r) (configured wire host s draws r header server o).0
  unfolding configured
  configured-IsShown r header server none = tt
  configured-IsShown r header server (some cfg) = admit-IsShown server r _

-- In whatever a route answers, to whatever caller, each record of a runtime is redacted, and the
-- record of an SSH access holds a private key only if the request asks for it.
pub handle-IsShown :
    {P W : Type 0} (wire : Wire P W) (host : Host W) (s : Settings) (draws : ℕ) (r : Request P)
    (header : Option String) (server : Server W)
    → IsShown (asks_key r) (handle wire host s draws r header server).0
unfolding handle
handle-IsShown wire host s draws r header server =
    configured-IsShown wire host s draws r header server server.settings
