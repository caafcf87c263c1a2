-- ===== src/Inference/Fallback/Tests.antt =====
-- Tests of the backend of processes: a process that never answers, and a clock of its own.
use greenference_node.Base.{◌≡◌, refl, ℕ, ◌+◌, some, none, true, false, [], ◌∷◌, arith}
use greenference_node.Pods.Examples.{sample}
use greenference_node.Models.Corpus.{one_text}
use greenference_node.Models.Create.{Manifest, Library}
use greenference_node.Inference.Fallback.Machine.{
  System, Machine, Artifact, Hosted, answers, inference_fault, fault, health_check, ok,
}
use greenference_node.Inference.Fallback.Local.{local_start}
use greenference_node.Inference.Fallback.Process.{
  Setup, detached, start_process_runtime, start_runtime, wait_for_health,
}
use greenference_node.Inference.Fallback.Timeout.{KeepsTime, IsEnd, wait_for_health-IsEnd}
use greenference_node.Inference.Fallback.Leak.{health_failure_leaks}

-- The world is the time.
abbrev dead : System ℕ
dead = record {
  proc_exists = λ p w. (answers false, w);
  write_payload = λ d w. (answers tt, w);
  choose_free_port = λ w. (answers 4000, w);
  popen = λ c w. (answers 77, w);
  kill_term = λ p w. w;
  get_status = λ u w. (answers none, w);
  now = λ w. w;
  sleep = λ t w. w + t;
}

dead_time : KeepsTime dead
dead_time = record { asks = λ u w. omega arith; rests = λ t w. omega arith }

abbrev idle : Machine ℕ
idle = record { children = 5 ∷ []; world = 0 }

wait_for_health-IsEnd_example :
    IsEnd dead
      (some "http://127.0.0.1:4000")
      1000
      0
      (wait_for_health dead 6 1000 (some "http://127.0.0.1:4000") idle)
wait_for_health-IsEnd_example =
    wait_for_health-IsEnd dead 5 1000 (some "http://127.0.0.1:4000") idle dead_time (omega arith)

abbrev manifest : Manifest
manifest = record {
  runtime_kind = "local-cpu-textgen";
  model_identifier = "toy";
  model_revision = none;
  tokenizer_identifier = "";
  seed_corpus = one_text "the cat sat on the mat";
}

abbrev library : Library
library = record {
  load_causal_lm = λ m t r. some "hf runtime dependency missing: torch";
  load_diffusion = λ m r. some "no";
  complete = λ g m p n t. ("", "");
  draw = λ g m p. "";
}

abbrev artifact : Artifact
artifact = record { image = "toy-image"; runtime_manifest = some manifest }

abbrev fresh : Hosted
fresh = record {
  runtime = record sample { runtime_dir = some "/tmp/d.runtime"; container_id = none };
  runtime_url = none;
  backend_name = "";
  runtime_mode = "";
  model_identifier = "";
  backend_started = false;
  runtime_manifest = none;
}

abbrev setup : Setup
setup = record {
  executable = "/usr/bin/python3";
  docker_host = "127.0.0.1";
  backend_name = "process-local-runtime";
  health_timeout = 1000;
  fallback_backend = some "local";
}

abbrev started : Hosted
started = record (detached fresh) {
  backend_name = "local";
  runtime_mode = "fallback";
  model_identifier = "toy";
  backend_started = true;
  runtime_manifest = some manifest;
}

abbrev leaked : Machine ℕ
leaked = record { children = 77 ∷ 5 ∷ []; world = 1000 }

local : local_start library "local" (detached fresh) artifact ≡ ok started
unfolding local_start
local = refl

failed :
    start_process_runtime dead 6 setup fresh artifact idle
    ≡ (fault (inference_fault "health_check_failure" health_check), leaked)
unfolding start_process_runtime
failed = refl

health_failure_leaks_example :
    (pid : ℕ) × (start_runtime dead 6 library setup fresh artifact idle ≡ (
      ok (record started {
        backend_name = "fallback-local-artifact-backend";
        runtime_mode = "fallback";
      }),
      leaked,
    ))
    × (leaked.children ≡ pid ∷ idle.children)
    × (started.runtime.process_id ≡ none)
health_failure_leaks_example =
    health_failure_leaks library dead 6 setup "local" fresh started artifact idle leaked
      "health_check_failure" refl refl local failed
