-- ===== src/Web/Refusal.antt =====
-- Whom the routes serve.
use greenference_node.Base.{
  ℕ, ◌≡◌, ◌⊎◌, inl, inr, refl, sym, String, Bool, true, false, Option, none, some,
}
use mathlib.Core.Path.{subst}
use greenference_node.Protocol.{Settings}
use greenference_node.Access.Security.{
  Secrets, Verdict, allowed, unauthorized, unavailable, validate_auth, judge,
  effective_agent_secret, secret_decides,
}
use greenference_node.Agent.Exec.{Exec}
use greenference_node.Agent.Host.{Host}
use greenference_node.Web.Wire.{Wire, Response, refuse}
use greenference_node.Web.Routes.{
  Request, is_sensitive, Server, handler, on_service, admit, configured, handle,
}

-- A caller is entitled to a route by the secret in effect, or, where none is, to the routes that are
-- not sensitive.
abbrev pub IsEntitled : Option String → Bool → Option String → Type 0
IsEntitled none sensitive header = sensitive ≡ false
IsEntitled (some secret) sensitive header = header ≡ some secret

abbrev Decided : Option String → Bool → Option String → Verdict → Type 0
Decided secret sensitive header allowed = IsEntitled secret sensitive header
Decided secret sensitive header verdict = ¬ IsEntitled secret sensitive header

none-Decided :
    (header : Option String) (sensitive : Bool)
    → Decided none sensitive header (judge header none sensitive)
unfolding judge
none-Decided header true = λ e. cc
none-Decided header false = refl

-- With a secret in effect, by the verdict.
some-Decided :
    (header : Option String) (cfg : Secrets) (sensitive : Bool) (secret : String) (v : Verdict)
    → effective_agent_secret cfg ≡ some secret
    → validate_auth header cfg sensitive ≡ v
    → Decided (some secret) sensitive header v
some-Decided header cfg sensitive secret allowed e j =
    (secret_decides header cfg sensitive secret e).0 j
some-Decided header cfg sensitive secret unauthorized e j =
    λ sent. cc (j, (secret_decides header cfg sensitive secret e).1 sent)
some-Decided header cfg sensitive secret unavailable e j =
    λ sent. cc (j, (secret_decides header cfg sensitive secret e).1 sent)

decided :
    (header : Option String) (cfg : Secrets) (sensitive : Bool)
    → Decided (effective_agent_secret cfg) sensitive header (validate_auth header cfg sensitive)
unfolding validate_auth
decided header cfg sensitive =
    go (effective_agent_secret cfg) (λ secret e. some-Decided header cfg sensitive secret _ e refl)
      refl
  where
    go :
        (o : Option String)
        → ((secret : String)
            → effective_agent_secret cfg ≡ some secret
            → Decided
                (some secret)
                sensitive
                header
                (judge header (effective_agent_secret cfg) sensitive))
        → effective_agent_secret cfg ≡ o
        → Decided o sensitive header (judge header (effective_agent_secret cfg) sensitive)
    go none known e = rw e (none-Decided header sensitive)
    go (some secret) known e = known secret e

module _ {P W : Type 0} (wire : Wire P W) (host : Host W) (s : Settings) (draws : ℕ) where
  admit-Decided :
      (secret : Option String) (sensitive : Bool) (header : Option String) (server : Server W)
      (body : Exec W (Response P)) (v : Verdict)
      → Decided secret sensitive header v
      → (IsEntitled secret sensitive header
          × (admit wire host s draws server body v
              ≡ on_service wire host s draws server body server.service))
        ⊎ (¬ IsEntitled secret sensitive header)
          × ((code : ℕ) × (admit wire host s draws server body v ≡ (refuse code, server))
              × ((code ≡ 401) ⊎ (code ≡ 503)))
  unfolding admit
  admit-Decided secret sensitive header server body allowed d = inl (d, refl)
  admit-Decided secret sensitive header server body unauthorized d = inr (d, (401, refl, inl refl))
  admit-Decided secret sensitive header server body unavailable d = inr (d, (503, refl, inr refl))

-- Once the server has its settings, a caller who is entitled to a route is served by the service, or
-- is answered 503 where there is none; any other is refused with 401 or 503, and the server, with
-- the service and all that it keeps, stays as it was.
pub handle-decided :
    {P W : Type 0} (wire : Wire P W) (host : Host W) (s : Settings) (draws : ℕ) (r : Request P)
    (header : Option String) (server : Server W) (cfg : Secrets)
    → server.settings ≡ some cfg
    → (IsEntitled (effective_agent_secret cfg) (is_sensitive r) header
        × (handle wire host s draws r header server
            ≡ on_service wire host s draws server (handler wire host s draws r) server.service))
      ⊎ (¬ IsEntitled (effective_agent_secret cfg) (is_sensitive r) header)
        × ((code : ℕ) × (handle wire host s draws r header server ≡ (refuse code, server))
            × ((code ≡ 401) ⊎ (code ≡ 503)))
unfolding handle
handle-decided wire host s draws r header server cfg e =
    subst
      (λ o.
        (IsEntitled (effective_agent_secret cfg) (is_sensitive r) header
          × (configured wire host s draws r header server o
              ≡ on_service wire host s draws server (handler wire host s draws r) server.service))
        ⊎ (¬ IsEntitled (effective_agent_secret cfg) (is_sensitive r) header)
          × ((code : ℕ) × (configured wire host s draws r header server o ≡ (refuse code, server))
              × ((code ≡ 401) ⊎ (code ≡ 503))))
      (sym e)
      (admit-Decided wire host s draws (effective_agent_secret cfg) (is_sensitive r) header server
        (handler wire host s draws r) (validate_auth header cfg (is_sensitive r))
        (decided header cfg (is_sensitive r)))
