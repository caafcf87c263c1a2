-- ===== src/Access/Examples.antt =====
-- A node with a secret and a range of two ports.
use greenference_node.Base.{ℕ, ◌-◌, ◌<◌, ◌≡◌, refl, arith, Bool, true, false, none, some, [], ◌∷◌}
use greenference_node.Devices.{mem, add}
use greenference_node.Access.Security.{
  Secrets, allowed, or_next, effective_agent_secret, matches, judge, validate_auth,
}
use greenference_node.Access.FreePort.{found, exhausted, draw, choose_free_port}

abbrev secrets : Secrets
secrets = record {
  agent_auth_secret = some "";
  inference_auth_secret = some "s3cret";
  compute_auth_secret = none;
}

lets_in : validate_auth (some "s3cret") secrets true ≡ allowed
unfolding validate_auth effective_agent_secret or_next judge matches
lets_in = refl

abbrev binds_all : ℕ → Bool
binds_all p = true

abbrev binds_none : ℕ → Bool
binds_none p = false

finds : choose_free_port (30000 ∷ []) binds_all 30000 30002 (0 ∷ 0 ∷ 1 ∷ []) ≡ found 30001
unfolding choose_free_port draw mem add
finds = refl

gives_up : choose_free_port [] binds_none 30000 30002 (0 ∷ 1 ∷ []) ≡ exhausted
unfolding choose_free_port draw mem add
gives_up = refl

both_drawn : (d : ℕ) → d < 30002 - 30000 → mem d (1 ∷ 0 ∷ []) ≡ true
unfolding mem
both_drawn d h = ground arith
