-- ===== src/Inference/Fallback/Process.antt =====
-- ProcessInferenceBackend. Of what it notes in the metadata, the start, the manifest and the mode
-- are kept.
use greenference_node.Base.{
  ℕ, zero, suc, ◌+◌, ◌==◌, String, Bool, true, false, Option, none, some, List, [], ◌∷◌, ltb,
  if◌then◌else◌, str_eq,
}
use greenference_node.Text.{show}
use greenference_node.Text.Words.{concat}
use greenference_node.Models.Create.{Manifest, Library, or_text}
use greenference_node.Inference.Fallback.Machine.{
  Stage, prepare_runtime, start_inference_backend, health_check, invoke_inference, permission_error,
  other_fault, cut_off, inference_fault, Result, ok, fault, answers, forbidden, broken, System,
  Machine, Artifact, Hosted, Run, pure, raise, result_of, call, continue, ◌>>=◌, without,
}
use greenference_node.Inference.Fallback.Local.{local_start, local_stop, local_health}

manifest_identifier : Option Manifest → String
manifest_identifier none = ""
manifest_identifier (some m) = m.model_identifier

-- The record once the process runs.
unfoldable pub running : String → String → ℕ → ℕ → Hosted → Artifact → Hosted
unfolding or_text manifest_identifier
running name host port pid h a = record {
  runtime = record h.runtime { process_id = some pid };
  runtime_url = some (concat ("http://" ∷ host ∷ ":" ∷ show port ∷ []));
  backend_name = name;
  runtime_mode = "process";
  model_identifier = or_text (manifest_identifier a.runtime_manifest) a.image;
  backend_started = true;
  runtime_manifest = a.runtime_manifest;
}

-- What the backend is set up with: sys.executable, what _docker_host answers, the timeout, and
-- the name of the fallback backend, if there is one.
pub record Setup : Type 0 where
  pub executable : String
  pub docker_host : String
  pub backend_name : String
  pub health_timeout : ℕ
  pub fallback_backend : Option String

-- sys.executable and the arguments of the runtime server
unfoldable pub server_command : String → Hosted → Artifact → String → ℕ → List String
server_command executable h a dir port =
    executable
    ∷ "-m"
    ∷ "greencompute_node_agent.runtime_server"
    ∷ "--port"
    ∷ show port
    ∷ "--deployment-id"
    ∷ h.runtime.deployment_id
    ∷ "--hotkey"
    ∷ h.runtime.hotkey
    ∷ "--image"
    ∷ a.image
    ∷ "--payload-path"
    ∷ concat (dir ∷ "/artifact-payload.json" ∷ [])
    ∷ []

unfoldable pub reused : Setup → Hosted → Hosted
reused s h = record h { backend_name = s.backend_name; backend_started = true }

abbrev pub detached : Hosted → Hosted
detached h = record h { runtime = record h.runtime { process_id = none }; runtime_url = none }

unfoldable pub stands_in : Result Hosted → Result Hosted
stands_in (ok h) =
    ok (record h { backend_name = "fallback-local-artifact-backend"; runtime_mode = "fallback" })
stands_in (fault e) = fault e

-- The stages after which the fallback takes over.
unfoldable pub takes_over : Stage → Bool
takes_over prepare_runtime = false
takes_over start_inference_backend = true
takes_over health_check = true
takes_over invoke_inference = false

-- `runtime.runtime_mode == "fallback" and self.fallback_backend is not None`
unfoldable pub falls_back : Setup → Hosted → Bool
falls_back s h = elim s.fallback_backend [
  | none ↦ false
  | some name ↦ str_eq h.runtime_mode "fallback"
]

module _ {W : Type 0} (system : System W) where
  -- _terminate_pid
  unfoldable pub terminate_pid : ℕ → Machine W → Machine W
  unfolding without
  terminate_pid pid m =
      if pid == 0
      then m
      else record { children = without pid m.children; world = system.kill_term pid m.world }

  unfoldable pub terminate : Option ℕ → Machine W → Machine W
  unfolding terminate_pid
  terminate none m = m
  terminate (some pid) m = terminate_pid pid m

  -- _pid_alive
  unfoldable pub pid_alive : Option ℕ → Run W Bool
  unfolding pure call
  pid_alive none = pure false
  pid_alive (some pid) = if pid == 0 then pure false else call (system.proc_exists pid)

  unfoldable pub popen : List String → Run W ℕ
  unfolding result_of
  popen command m =
      let (r, w) = system.popen command m.world in
      elim r [
        | answers pid ↦ (ok pid, record { children = pid ∷ m.children; world = w })
        | forbidden ↦ (fault permission_error, record m { world = w })
        | broken ↦ (fault other_fault, record m { world = w })
      ]

  unfoldable pub status_or : Option Bool → Run W Bool
  unfolding pure raise
  status_or none = raise (inference_fault "health_check_failure" health_check)
  status_or (some up) = pure up

  -- `_request_json(runtime, "/healthz", ...)`
  unfoldable pub request_health : Option String → Run W Bool
  unfolding call status_or raise ◌>>=◌
  request_health none = raise (inference_fault "health_check_failure" health_check)
  request_health (some url) =
      call (system.get_status (concat (url ∷ "/healthz" ∷ []))) >>= status_or

  -- `except InferenceRuntimeError`
  unfoldable pub caught : Result Bool × Machine W → Result Bool × Machine W
  caught (ok up, m) = (ok up, m)
  caught (fault (inference_fault c s), m) = (ok false, m)
  caught (fault e, m) = (fault e, m)

  abbrev pub slept : ℕ → Machine W → Machine W
  slept t m = record m { world = system.sleep t m.world }

  unfoldable pub rest_unless : Run W (Unit {0}) → Bool → Run W (Unit {0})
  rest_unless rest up m = if up then (ok tt, m) else rest (slept 200 m)

  unfoldable pub timed_out_or : Bool → Result (Unit {0}) × Machine W → Run W (Unit {0})
  timed_out_or true round m = round
  timed_out_or false round m = (fault (inference_fault "health_check_failure" health_check), m)

  unfoldable pub poll : ℕ → ℕ → Option String → Run W (Unit {0})
  unfolding caught request_health continue rest_unless timed_out_or
  poll zero deadline url m = (fault cut_off, m)
  poll (suc fuel) deadline url m =
      timed_out_or (ltb (system.now m.world) deadline)
        (continue (rest_unless (poll fuel deadline url)) (caught (request_health url m))) m

  -- ProcessInferenceBackend._wait_for_health
  unfoldable pub wait_for_health : ℕ → ℕ → Option String → Run W (Unit {0})
  unfolding poll
  wait_for_health fuel timeout url m = poll fuel (system.now m.world + timeout) url m

  -- _start_process_runtime, once no process of the runtime is alive
  unfoldable pub spawn : ℕ → Setup → Hosted → Artifact → String → Run W Hosted
  unfolding ◌>>=◌ call popen server_command running wait_for_health pure
  spawn fuel s h a dir = do
    written ← call (system.write_payload dir)
    port ← call system.choose_free_port
    pid ← popen (server_command s.executable h a dir port)
    let started = running s.backend_name s.docker_host port pid h a
    healthy ← wait_for_health fuel s.health_timeout started.runtime_url
    pure started

  unfoldable pub in_directory : ℕ → Setup → Hosted → Artifact → Option String → Run W Hosted
  unfolding ◌>>=◌ pid_alive pure raise spawn reused
  in_directory fuel s h a none =
      raise (inference_fault "runtime_start_failure" start_inference_backend)
  in_directory fuel s h a (some dir) = pid_alive h.runtime.process_id >>= λ alive.
      if alive then pure (reused s h) else spawn fuel s h a dir

  -- ProcessInferenceBackend._start_process_runtime
  unfoldable pub start_process_runtime : ℕ → Setup → Hosted → Artifact → Run W Hosted
  unfolding in_directory
  start_process_runtime fuel s h a = in_directory fuel s h a h.runtime.runtime_dir

  unfoldable pub fall_to : Library → Hosted → Artifact → Option String → Run W Hosted
  unfolding terminate stands_in local_start
  fall_to library h a none m =
      (fault (inference_fault "runtime_start_failure" start_inference_backend), m)
  fall_to library h a (some name) m =
      (stands_in (local_start library name (detached h) a), terminate h.runtime.process_id m)

  -- ProcessInferenceBackend._start_fallback_runtime
  unfoldable pub start_fallback_runtime : Library → Setup → Hosted → Artifact → Run W Hosted
  unfolding fall_to
  start_fallback_runtime library s h a = fall_to library h a s.fallback_backend

  unfoldable pub after_start : Run W Hosted → Result Hosted × Machine W → Result Hosted × Machine W
  unfolding takes_over
  after_start fallen (ok h, m) = (ok h, m)
  after_start fallen (fault permission_error, m) = fallen m
  after_start fallen (fault (inference_fault c stage), m) =
      if takes_over stage then fallen m else (fault (inference_fault c stage), m)
  after_start fallen (fault other_fault, m) = (fault other_fault, m)
  after_start fallen (fault cut_off, m) = (fault cut_off, m)

  -- ProcessInferenceBackend.start_runtime
  unfoldable pub start_runtime : ℕ → Library → Setup → Hosted → Artifact → Run W Hosted
  unfolding after_start start_process_runtime start_fallback_runtime
  start_runtime fuel library s h a m =
      after_start (start_fallback_runtime library s h a) (start_process_runtime fuel s h a m)

  -- ProcessInferenceBackend.stop_runtime
  unfoldable pub stop_runtime : Setup → Hosted → Machine W → Hosted × Machine W
  unfolding falls_back terminate local_stop
  stop_runtime s h m = if falls_back s h then (local_stop h, m) else (
    record h {
      runtime = record h.runtime { process_id = none };
      runtime_url = none;
      backend_started = false;
    },
    terminate h.runtime.process_id m,
  )

  -- ProcessInferenceBackend.health: whether the status is "ok"
  unfoldable pub health : Library → Setup → Hosted → Run W Bool
  unfolding falls_back local_health request_health
  health library s h m =
      if falls_back s h then (local_health library h, m) else request_health h.runtime_url m
