-- ===== src/Agent/Ports.antt =====
-- The ports of a pod, in `_start_pod_runtime`: which container ports are asked for, and the host
-- port of each.
use greenference_node.Base.{
  some, none, Option, ℕ, zero, suc, ◌==◌, Bool, false, not, ◌&&◌, List, [], ◌∷◌, ◌++◌, length, leb,
  if◌then◌else◌,
}
use greenference_node.Devices.{mem}
use greenference_node.Protocol.{RequestedPort, port, not_a_number, Settings}
use greenference_node.Agent.Exec.{
  match_option, Exec, Raised, ssh_error, still_running, pure, raise, call, try_, ◌>>=◌,
}
use greenference_node.Agent.Host.{Host}

abbrev pub wanted : ℕ → List ℕ → Bool
wanted p requested = leb 1 p && leb p 65535 && not (p == 22) && not (mem p requested)

-- The loop over `requested_ports_raw`. The set `seen` holds what the list `requested` holds.
unfoldable pub normalize : List RequestedPort → List ℕ → List ℕ
normalize [] requested = requested
normalize (not_a_number ∷ rest) requested = normalize rest requested
normalize (port p ∷ rest) requested =
    let requested' = if wanted p requested then requested ++ p ∷ [] else requested in
    let further = normalize rest requested' in
    if leb 10 (length requested') then requested' else further

unfoldable pub requested_ports : List RequestedPort → List ℕ
unfolding normalize
requested_ports raw = normalize raw []

module _ {W : Type 0} (host : Host W) (s : Settings) where
  abbrev choose : Exec W ℕ
  choose = call (host.choose_free_port s.user_port_range_start s.user_port_range_end)

  -- A draw, and draws again while the port is used; the fuel is the number of draws.
  unfoldable pub draw_unused : ℕ → List ℕ → Exec W ℕ
  draw_unused zero used = raise still_running
  draw_unused (suc fuel) used = do
    host_port ← choose
    (let again = draw_unused fuel used in if mem host_port used then again else pure host_port)

  -- `container_port` itself where that is in the range, unused and free
  unfoldable pub keeps_number : ℕ → List ℕ → Exec W Bool
  keeps_number container_port used =
      if leb s.user_port_range_start container_port
        && leb container_port s.user_port_range_end
        && not (mem container_port used)
      then call (host.is_port_free container_port)
      else pure false

  -- `except SSHError`
  unfoldable pub no_port : Raised → Exec W (Option ℕ)
  no_port ssh_error = pure none
  no_port e = raise e

  -- The host port for a container port, or `none` where the range is exhausted.
  unfoldable pub host_port_for : ℕ → ℕ → List ℕ → Exec W (Option ℕ)
  unfolding keeps_number no_port
  host_port_for draws container_port used = do
    same ← keeps_number container_port used
    (if same
        then pure (some container_port)
        else try_ (draw_unused draws used >>= λ p. pure (some p)) no_port)

  -- The loop over the requested ports; it ends early where the range is exhausted.
  unfoldable pub allocate_ports : ℕ → List ℕ → List (ℕ × ℕ) → List ℕ → Exec W (List (ℕ × ℕ))
  allocate_ports draws [] given used = pure given
  allocate_ports draws (container_port ∷ rest) given used = do
    host_port ← host_port_for draws container_port used
    match_option host_port (pure given)
        λ p. allocate_ports draws rest (given ++ (container_port, p) ∷ []) (p ∷ used)
