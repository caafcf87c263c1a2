-- ===== src/Access/Security.antt =====
-- services/node-agent/src/greencompute_node_agent/transport/security.py: who may call a route. Texts
-- are ASCII, as `hmac.compare_digest` wants them. The flags that keep a warning from being logged
-- twice are left out.
use greenference_node.Base.{
  ◌≡◌, ◌≢◌, ◌↔◌, refl, arith, String, Bool, true, false, Option, none, some, if◌then◌else◌, str_eq,
  eq_iff,
}

-- The three settings that may hold the secret.
pub record Secrets : Type 0 where
  pub agent_auth_secret : Option String
  pub inference_auth_secret : Option String
  pub compute_auth_secret : Option String

-- `None`, or the status of the HTTPException: 401 or 503.
pub data Verdict : Type 0 where
  allowed unauthorized unavailable : Verdict

-- `a if a else b` on optional texts
unfoldable pub or_next : Option String → Option String → Option String
or_next none o = o
or_next (some v) o = if str_eq v "" then o else some v

unfoldable pub effective_agent_secret : Secrets → Option String
unfolding or_next
effective_agent_secret cfg =
    or_next cfg.agent_auth_secret
      (or_next cfg.inference_auth_secret (or_next cfg.compute_auth_secret none))

-- `header and hmac.compare_digest(header, expected)`
unfoldable pub matches : Option String → String → Bool
matches none expected = false
matches (some header) expected = if str_eq header "" then false else str_eq header expected

unfoldable pub judge : Option String → Option String → Bool → Verdict
unfolding matches
judge header (some expected) sensitive = if matches header expected then allowed else unauthorized
judge header none sensitive = if sensitive then unavailable else allowed

unfoldable pub validate_auth : Option String → Secrets → Bool → Verdict
unfolding judge
validate_auth header cfg sensitive = judge header (effective_agent_secret cfg) sensitive

unfoldable pub validate_optional_auth : Option String → Option String → Verdict
unfolding matches
validate_optional_auth header none = allowed
validate_optional_auth header (some expected) =
    if matches header expected then allowed else unauthorized

matches_lem :
    (header : Option String) (expected : String)
    → matches header expected ≡ true
    → (header ≡ some expected) × (expected ≢ "")
unfolding matches
matches_lem none expected h = ground arith
matches_lem (some t) expected h = ground (arith, eq_iff t expected, eq_iff t "")

or_next_non_empty :
    (o p : Option String) (v : String) → (p ≡ some v → v ≢ "") → or_next o p ≡ some v → v ≢ ""
unfolding or_next
or_next_non_empty none p v h e = h e
or_next_non_empty (some u) p v h e = ground (arith, eq_iff u "")

judge_sensitive :
    (header secret : Option String)
    → judge header secret true ≡ allowed
    → (v : String) × (secret ≡ some v) × (header ≡ some v) × (v ≢ "")
unfolding judge
judge_sensitive header none h = ground arith
judge_sensitive header (some v) h =
    let (sent, some_text) = matches_lem header v (ground arith) in (v, refl, sent, some_text)

-- A route that is sensitive answers only a caller whose header is the configured secret, which is
-- then not empty; without a configured secret it answers nobody.
pub sensitive_wants_secret :
    (header : Option String) (cfg : Secrets)
    → validate_auth header cfg true ≡ allowed
    → (v : String) × (effective_agent_secret cfg ≡ some v) × (header ≡ some v) × (v ≢ "")
unfolding validate_auth
sensitive_wants_secret header cfg h = judge_sensitive header (effective_agent_secret cfg) h

matched : (v : String) → v ≢ "" → matches (some v) v ≡ true
unfolding matches
matched v ne = ground (arith, eq_iff v "", eq_iff v v)

secret_non_empty : (cfg : Secrets) (v : String) → effective_agent_secret cfg ≡ some v → v ≢ ""
unfolding effective_agent_secret
secret_non_empty cfg v e =
    or_next_non_empty cfg.agent_auth_secret _ v
      (or_next_non_empty cfg.inference_auth_secret _ v
        (or_next_non_empty cfg.compute_auth_secret none v (λ h. ground arith)))
      e

-- Whoever sends the secret that is in effect is let in everywhere, and anybody else is refused
-- everywhere, also where a route is not sensitive.
pub secret_decides :
    (header : Option String) (cfg : Secrets) (sensitive : Bool) (v : String)
    → effective_agent_secret cfg ≡ some v
    → (validate_auth header cfg sensitive ≡ allowed) ↔ (header ≡ some v)
unfolding validate_auth
secret_decides header cfg sensitive v e = rw e (judged header)
  where
    judged :
        (header : Option String) → (judge header (some v) sensitive ≡ allowed) ↔ (header ≡ some v)
    judged header = (
      λ h. unfold judge in (matches_lem header v (ground arith)).0,
      λ h. unfold judge in rw (h, matched v (secret_non_empty cfg v e)),
    )
