-- ===== src/Inference/Launch.antt =====
-- DockerInferenceBackend. Times are in milliseconds. A record's notes in its metadata and its times
-- are left out, but for the role of a rank.
use greenference_node.Base.{
  ℕ, zero, suc, ◌+◌, ◌==◌, String, Bool, true, false, ◌&&◌, Option, none, some, List, [], ◌∷◌, ltb,
  str_eq, if◌then◌else◌, get_or,
}
use greenference_node.Text.{show, codes, lower, same}
use greenference_node.Text.Words.{concat, strip_text}
use greenference_node.Protocol.{Runtime}
use greenference_node.Agent.Exec.{
  Outcome, returned, raised, Raised, still_running, http_error, inference_error,
}
use greenference_node.Multinode.Params.{MultiNodeParams}
use greenference_node.Pods.Docker.{
  Completion, completed, missing, timed_out, Call, ◌>>=◌, pure, raise, nonempty,
}
use greenference_node.Pods.Process.{attempt}
use greenference_node.Inference.Command.{InferencePayload, InferenceSettings, inference_container}
use greenference_node.Inference.Ranks.{
  role_name, Engine, Launched, is_worker, launch_command, parsed,
}

module _ {W : Type 0} (engine : Engine W) where
  unfoldable pub raise_after : {A : Type 0} → Raised → Outcome (Unit {0}) × W → Outcome A × W
  raise_after e (returned u, v) = (raised e, v)
  raise_after e (raised f, v) = (raised f, v)

  unfoldable pub clean_after : {A : Type 0} → Call W (Unit {0}) → Outcome A × W → Outcome A × W
  unfolding raise_after
  clean_after clean (returned x, v) = (returned x, v)
  clean_after clean (raised (inference_error c), v) = raise_after (inference_error c) (clean v)
  clean_after clean (raised e, v) = (raised e, v)

  -- `except InferenceRuntimeError: clean; raise`
  unfoldable pub cleaning : {A : Type 0} → Call W (Unit {0}) → Call W A → Call W A
  unfolding clean_after
  cleaning clean m w = clean_after clean (m w)

  abbrev pub removal : String → List String
  removal c = "docker" ∷ "rm" ∷ "-f" ∷ c ∷ []

  abbrev pub stopped : Launched → Launched
  stopped l = record { runtime = record l.runtime { container_id = none }; runtime_url = none }

  unfoldable pub stop_runtime : Launched → Call W Launched
  unfolding attempt nonempty ◌>>=◌ pure
  stop_runtime l =
      attempt engine.docker (nonempty l.runtime.container_id) removal >>= λ _. pure (stopped l)

  unfoldable pub says_running : Outcome Completion → Bool
  unfolding strip_text lower same
  says_running (returned (completed ok out err)) =
      ok && same (lower (codes (strip_text out))) (codes "true")
  says_running (returned missing) = false
  says_running (returned timed_out) = false
  says_running (raised e) = false

  unfoldable pub container_running : Option String → W → Bool × W
  unfolding says_running nonempty
  container_running id w = elim (nonempty id) [
    | none ↦ (false, w)
    | some c ↦
        let (r, v) =
          engine.docker.run ("docker" ∷ "inspect" ∷ "-f" ∷ "{{.State.Running}}" ∷ c ∷ []) w in
        (says_running r, v)
  ]

  -- `attempts` tries, 5 seconds apart
  unfoldable pub wait_for_container_running : ℕ → Option String → W → Bool × W
  unfolding container_running
  wait_for_container_running zero id w = (false, w)
  wait_for_container_running (suc n) id w =
      let (up, v) = container_running id w in
      let rest = wait_for_container_running n id (if n == 0 then v else engine.sleep 5000 v) in
      if up then (true, v) else rest

  with_logs : Completion → Call W (Unit {0})
  unfolding pure raise
  with_logs (completed ok out err) = raise (inference_error "runtime_start_failure")
  with_logs missing = pure tt
  with_logs timed_out = pure tt

  -- The logs of a container that has exited, then the error.
  exited : String → Completion → Call W (Unit {0})
  unfolding with_logs ◌>>=◌ pure strip_text
  exited c (completed true out err) =
      if str_eq (strip_text out) "exited"
      then engine.docker.run ("docker" ∷ "logs" ∷ "--tail" ∷ "200" ∷ c ∷ []) >>= with_logs
      else pure tt
  exited c (completed false out err) = pure tt
  exited c missing = pure tt
  exited c timed_out = pure tt

  unfoldable pub inspect_exited : Option String → Call W (Unit {0})
  unfolding exited ◌>>=◌ pure
  inspect_exited none = pure tt
  inspect_exited (some c) =
      engine.docker.run ("docker" ∷ "inspect" ∷ "--format" ∷ "{{.State.Status}}" ∷ c ∷ [])
      >>= exited c

  -- `except (HTTPError, URLError, TimeoutError)`
  unfoldable pub probed : Outcome Bool × W → Outcome Bool × W
  probed (returned up, v) = (returned up, v)
  probed (raised http_error, v) = (returned false, v)
  probed (raised e, v) = (raised e, v)

  -- One round: whether the server answered.
  unfoldable pub health_round : Launched → Call W Bool
  unfolding inspect_exited nonempty probed ◌>>=◌
  health_round l = inspect_exited (nonempty l.runtime.container_id) >>= λ _ w.
      probed (engine.probe (concat (get_or l.runtime_url "None" ∷ "/health" ∷ [])) w)

  -- The last look at the logs, which changes nothing.
  unfoldable pub health_timed_out : Launched → Call W (Unit {0})
  unfolding attempt nonempty ◌>>=◌ raise
  health_timed_out l =
      attempt engine.docker (nonempty l.runtime.container_id)
        (λ c. "docker" ∷ "logs" ∷ "--tail" ∷ "200" ∷ c ∷ [])
      >>= λ _. raise (inference_error "health_check_failure")

  unfoldable pub poll_health : ℕ → ℕ → Launched → Call W (Unit {0})
  unfolding health_round health_timed_out ◌>>=◌ pure raise
  poll_health zero deadline l = raise still_running
  poll_health (suc fuel) deadline l = λ w.
      let rest = poll_health fuel deadline l in
      let round =
        health_round l >>= λ up v. if up then (returned tt, v) else rest (engine.sleep 2000 v) in
      if ltb (engine.now w) deadline then round w else health_timed_out l w

  unfoldable pub wait_for_health : ℕ → ℕ → Launched → Call W (Unit {0})
  unfolding poll_health
  wait_for_health fuel timeout l w = poll_health fuel (engine.now w + timeout) l w

  -- What follows the docker run.
  unfoldable pub await_worker : Launched → Call W Launched
  unfolding wait_for_container_running stop_runtime ◌>>=◌ raise
  await_worker l w =
      let (up, v) = wait_for_container_running 6 l.runtime.container_id w in
      let stopped = (stop_runtime l >>= λ _. raise (inference_error "runtime_start_failure")) v in
      if up then (returned l, v) else stopped

  unfoldable pub await_server : ℕ → ℕ → Launched → Call W Launched
  unfolding cleaning wait_for_health stop_runtime ◌>>=◌ pure
  await_server fuel timeout l =
      cleaning (stop_runtime l >>= λ _. pure tt) (wait_for_health fuel timeout l) >>= λ _. pure l

  unfoldable pub await_rank : Bool → ℕ → ℕ → Launched → Call W Launched
  unfolding await_worker await_server
  await_rank true fuel timeout l = await_worker l
  await_rank false fuel timeout l = await_server fuel timeout l

  unfoldable pub started : Completion → Call W String
  unfolding pure raise strip_text
  started (completed true out err) = pure (strip_text out)
  started (completed false out err) = raise (inference_error "runtime_start_failure")
  started missing = raise (inference_error "runtime_start_failure")
  started timed_out = raise (inference_error "runtime_start_failure")

  -- The record after the docker run.
  unfoldable pub launched :
      InferenceSettings → Option MultiNodeParams → Runtime → ℕ → String → Launched
  unfolding is_worker role_name
  launched s q runtime port container_id = record {
    runtime = record runtime {
      container_id = some container_id;
      process_id = none;
      multi_node_role = elim q [
        | none ↦ runtime.multi_node_role
        | some r ↦ some (role_name r.role)
      ];
    };
    runtime_url =
        if is_worker q
        then none
        else some (concat ("http://" ∷ s.docker_host ∷ ":" ∷ show port ∷ []));
  }

  unfoldable pub of_outcome : {A : Type 0} → Outcome A → Call W A
  unfolding pure raise
  of_outcome (returned x) = pure x
  of_outcome (raised e) = raise e

  unfoldable pub start_runtime :
      ℕ → InferenceSettings → Runtime → InferencePayload → String → Call W Launched
  unfolding parsed of_outcome launch_command started launched await_rank ◌>>=◌ inference_container
      is_worker
  start_runtime fuel s runtime p model_id = do
    port ← engine.choose_free_port
    stale ←
        engine.docker.run ("docker" ∷ "rm" ∷ "-f" ∷ inference_container runtime.deployment_id ∷ [])
    q ← of_outcome (parsed p)
    command ←
        of_outcome (launch_command s p runtime.deployment_id runtime.gpu_devices model_id port q)
    result ← engine.docker.run command
    container_id ← started result
    await_rank (is_worker q) fuel s.health_timeout (launched s q runtime port container_id)

  -- The status of a rank that serves nothing, or what the health page says.
  answered : Outcome Bool × W → Outcome (String × Bool) × W
  answered (returned up, v) = (returned ("ok", true), v)
  answered (raised http_error, v) = (returned ("unhealthy", false), v)
  answered (raised e, v) = (raised e, v)

  serves_nothing : Option String → Bool
  serves_nothing none = false
  serves_nothing (some role) = str_eq role "worker"

  served : Option String → W → Outcome (String × Bool) × W
  unfolding answered
  served none w = (returned ("not_started", false), w)
  served (some url) w = answered (engine.probe (concat (url ∷ "/health" ∷ [])) w)

  unfoldable pub health : Launched → Call W (String × Bool)
  unfolding serves_nothing container_running served
  health l w =
      let (up, v) = container_running l.runtime.container_id w in
      if serves_nothing l.runtime.multi_node_role
      then (returned ((if up then "ok" else "unhealthy"), up), v)
      else served l.runtime_url w
