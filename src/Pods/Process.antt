-- ===== src/Pods/Process.antt =====
-- ProcessPodBackend. A record's notes in its metadata and its times are left out.
use greenference_node.Base.{
  ℕ, zero, suc, ◌+◌, ◌==◌, String, Bool, true, false, ◌&&◌, Option, none, some, List, [], ◌∷◌, ltb,
  str_eq, if◌then◌else◌, pos, negsuc,
}
use greenference_node.Text.{show, codes, contains}
use greenference_node.Text.Words.{strip_text, split}
use greenference_node.Protocol.{Runtime, ready, suspended, terminated, Workload}
use greenference_node.Agent.Exec.{Outcome, returned, raised, still_running, pod_error}
use greenference_node.Multinode.Payload.{text, to_int, read, refused, overflowed}
use greenference_node.Pods.Docker.{
  Completion, completed, missing, timed_out, Docker, Call, ◌>>=◌, pure, raise, nonempty,
}
use greenference_node.Pods.Command.{PodSettings, container_name, pod_command}

-- The last of the pieces that `split` gives, if there are two.
last_piece : List String → Option String
last_piece [] = none
last_piece (p ∷ []) = none
last_piece (p ∷ q ∷ []) = some q
last_piece (p ∷ q ∷ r ∷ pieces) = last_piece (q ∷ r ∷ pieces)

-- `int(s)` with its ValueError; docker prints no negative port.
port_number : String → Option ℕ
unfolding to_int
port_number s = elim (to_int (text s)) [
  | read (pos n) ↦ some n
  | read (negsuc n) ↦ none
  | refused ↦ none
  | overflowed ↦ none
]

-- The port of the first line that has a colon; `none` if there is none or it is no number.
first_port : List String → Option ℕ
unfolding last_piece port_number split
first_port [] = none
first_port (line ∷ lines) = elim (last_piece (split b':' line)) [
  | none ↦ first_port lines
  | some s ↦ port_number s
]

-- What `docker port` says, or the port that was asked for.
unfoldable pub reported_port : ℕ → Completion → ℕ
unfolding first_port split strip_text
reported_port asked (completed true out err) = elim (first_port (split b'\n' (strip_text out))) [
  | none ↦ asked
  | some p ↦ p
]
reported_port asked (completed false out err) = asked
reported_port asked missing = asked
reported_port asked timed_out = asked

module _ {W : Type 0} (docker : Docker W) where
  unfoldable pub actual_port : String → ℕ → ℕ → Call W ℕ
  unfolding reported_port ◌>>=◌ pure
  actual_port container_id container_port asked =
      docker.run ("docker" ∷ "port" ∷ container_id ∷ show container_port ∷ []) >>= λ result.
      pure (reported_port asked result)

  unfoldable pub actual_ssh_port : String → Option ℕ → Call W (Option ℕ)
  unfolding actual_port ◌>>=◌ pure
  actual_ssh_port container_id none = pure none
  actual_ssh_port container_id (some p) =
      if p == 0 then pure (some p) else actual_port container_id 22 p >>= λ q. pure (some q)

  -- Later entries overwrite earlier ones of the same port in Python; the keys of a dict differ.
  unfoldable pub verified_ports : String → List (ℕ × ℕ) → Call W (List (ℕ × ℕ))
  unfolding actual_port ◌>>=◌ pure
  verified_ports container_id [] = pure []
  verified_ports container_id ((container, host) ∷ rest) =
      actual_port container_id container host >>= λ actual.
      verified_ports container_id rest >>= λ others.
      pure (if actual == 0 then others else (container, actual) ∷ others)

  -- The result of `docker run`: the new container.
  unfoldable pub started : Completion → Call W String
  unfolding pure raise strip_text
  started (completed true out err) = pure (strip_text out)
  started (completed false out err) = raise (pod_error "pod_start_failure")
  started missing = raise (pod_error "pod_start_failure")
  started timed_out = raise (pod_error "pod_start_failure")

  unfoldable pub start_pod : PodSettings → Runtime → Workload → Call W Runtime
  unfolding started actual_ssh_port verified_ports pod_command container_name ◌>>=◌ pure
  start_pod s runtime workload = do
    stale ← docker.run ("docker" ∷ "rm" ∷ "-f" ∷ container_name runtime ∷ [])
    result ← docker.run (pod_command s runtime workload)
    container_id ← started result
    ssh_port ← actual_ssh_port container_id runtime.ssh_port
    port_mappings ← verified_ports container_id runtime.port_allocations
    pure (record runtime {
      container_id = some container_id;
      ssh_port = ssh_port;
      port_mappings = port_mappings;
      status = ready;
      current_stage = "ready";
    })

  -- A call whose result nothing reads.
  unfoldable pub attempt : Option String → (String → List String) → Call W (Unit {0})
  unfolding ◌>>=◌ pure
  attempt none args = pure tt
  attempt (some c) args = docker.run (args c) >>= λ result. pure tt

  unfoldable pub stop_pod : Runtime → Call W Runtime
  unfolding attempt nonempty ◌>>=◌ pure
  stop_pod runtime =
      attempt (nonempty runtime.container_id) (λ c. "docker" ∷ "rm" ∷ "-f" ∷ c ∷ []) >>= λ _.
      pure
        (record runtime { status = terminated; current_stage = "terminated"; container_id = none })

  unfoldable pub pause_pod : Runtime → Call W Runtime
  unfolding attempt nonempty ◌>>=◌ pure
  pause_pod runtime =
      attempt (nonempty runtime.container_id) (λ c. "docker" ∷ "stop" ∷ c ∷ []) >>= λ _.
      pure (record runtime { status = suspended; current_stage = "suspended" })

  -- The result of `docker start`
  unfoldable pub restarted : Completion → Call W (Unit {0})
  unfolding pure raise
  restarted (completed true out err) = pure tt
  restarted (completed false out err) = raise (pod_error "pod_resume_failure")
  restarted missing = raise (pod_error "pod_resume_failure")
  restarted timed_out = raise (pod_error "pod_resume_failure")

  unfoldable pub restart : Option String → Call W (Unit {0})
  unfolding restarted ◌>>=◌ pure
  restart none = pure tt
  restart (some c) = docker.run ("docker" ∷ "start" ∷ c ∷ []) >>= restarted

  unfoldable pub resume_pod : Runtime → Call W Runtime
  unfolding restart nonempty ◌>>=◌ pure
  resume_pod runtime = restart (nonempty runtime.container_id) >>= λ _.
      pure (record runtime { status = ready; current_stage = "ready" })

  -- The status, and whether the pod is healthy.
  verdict : Completion → String × Bool
  unfolding strip_text
  verdict (completed true out err) = (strip_text out, str_eq (strip_text out) "running")
  verdict (completed false out err) = ("unknown", false)
  verdict missing = ("unknown", false)
  verdict timed_out = ("unknown", false)

  unfoldable pub health : Runtime → Call W (String × Bool)
  unfolding verdict nonempty ◌>>=◌ pure
  health runtime = elim (nonempty runtime.container_id) [
    | none ↦ pure ("not_started", false)
    | some c ↦
        docker.run ("docker" ∷ "inspect" ∷ "--format" ∷ "{{.State.Status}}" ∷ c ∷ []) >>= λ result.
        pure (verdict result)
  ]

  output : Completion → Call W String
  unfolding pure raise
  output (completed ok out err) = pure out
  output missing = raise (pod_error "pod_exec_failure")
  output timed_out = raise (pod_error "pod_exec_failure")

  unfoldable pub exec_command : Runtime → List String → Call W String
  unfolding output nonempty ◌>>=◌ raise
  exec_command runtime command = elim (nonempty runtime.container_id) [
    | none ↦ raise (pod_error "pod_exec_failure")
    | some c ↦ docker.run ("docker" ∷ "exec" ∷ c ∷ command) >>= output
  ]

  unfoldable pub sees_sshd : Outcome Completion → Bool
  unfolding contains
  sees_sshd (returned (completed ok out err)) = ok && contains (codes out) (codes "sshd")
  sees_sshd (returned missing) = false
  sees_sshd (returned timed_out) = false
  sees_sshd (raised e) = false

  -- Every OSError is caught here.
  unfoldable pub sshd_running : String → W → Bool × W
  unfolding sees_sshd
  sshd_running container_id w =
      let (r, w') = docker.run ("docker" ∷ "top" ∷ container_id ∷ []) w in (sees_sshd r, w')

  module _ (now : W → ℕ) (sleep : ℕ → W → W) where
    unfoldable pub poll : ℕ → ℕ → String → W → Outcome Bool × W
    unfolding sshd_running
    poll zero deadline c w = (raised still_running, w)
    poll (suc fuel) deadline c w =
        let (up, w') = sshd_running c w in
        let rest = poll fuel deadline c (sleep 1500 w') in
        if ltb (now w) deadline
        then (if up then (returned true, w') else rest)
        else (returned false, w)

    -- Times are in milliseconds; the timeout is 90 seconds where the service calls it.
    unfoldable pub wait_for_ready : ℕ → ℕ → Runtime → Call W Bool
    unfolding poll nonempty
    wait_for_ready fuel timeout runtime w = elim (nonempty runtime.container_id) [
      | none ↦ (returned true, w)
      | some c ↦ poll fuel (now w + timeout) c w
    ]
