-- ===== src/Inference/Fallback/Leak.antt =====
-- What becomes of a process that does not become healthy.
use greenference_node.Base.{
  arith, ℕ, zero, suc, ◌≡◌, refl, ap, ◌∙◌, String, Bool, true, false, Option, none, some, List, ◌∷◌,
  ltb,
}
use mathlib.Core.Path.{subst}
use greenference_node.Models.Create.{Manifest, Created, created, model_error, Library, Backend}
use greenference_node.Inference.Fallback.Machine.{
  health_check, prepare_runtime, start_inference_backend, invoke_inference, permission_error,
  other_fault, cut_off, inference_fault, Result, ok, fault, Answer, answers, forbidden, broken,
  System, Machine, Artifact, Hosted, Run, pure, raise, result_of, call, continue, ◌>>=◌,
}
use greenference_node.Inference.Fallback.Local.{of_manifest, local_start, noted}
use greenference_node.Inference.Fallback.Process.{
  Setup, running, server_command, terminate, pid_alive, popen, status_or, request_health, caught,
  slept, rest_unless, timed_out_or, poll, wait_for_health, spawn, start_process_runtime, detached,
  stands_in, in_directory, fall_to, start_fallback_runtime, after_start, start_runtime,
}

-- A failed health check leaves one process more than there was.
abbrev Left : {W A : Type 0} → Machine W → Result A × Machine W → Type 0
Left before (fault (inference_fault c health_check), m) =
    (pid : ℕ) × (m.children ≡ pid ∷ before.children)
Left before _ = Unit

module _ {W A B : Type 0} where
  call-Left :
      (before m : Machine W) (f : W → Answer A × W) (k : A → Run W B)
      → ((x : A) (w : W) → Left before (k x (record m { world = w })))
      → Left before (continue k (call f m))
  unfolding continue call result_of
  call-Left before m f k h = go (f m.world)
    where
      go : (r : Answer A × W) → Left before (continue k (result_of r.0, record m { world = r.1 }))
      go (answers x, w) = h x w
      go (forbidden, w) = tt
      go (broken, w) = tt

-- A run that starts no process and ends none.
abbrev pub KeepsChildren : {W A : Type 0} → Run W A → Type 0
KeepsChildren {W} run = (m : Machine W) → (run m).1.children ≡ m.children

module _ {W A B : Type 0} where
  continue-children :
      (k : A → Run W B) (r : Result A) (m : Machine W)
      → ((x : A) → KeepsChildren (k x))
      → (continue k (r, m)).1.children ≡ m.children
  unfolding continue
  continue-children k (ok x) m h = h x m
  continue-children k (fault e) m h = refl

module _ {W : Type 0} (system : System W) where
  call-children : {A : Type 0} (f : W → Answer A × W) → KeepsChildren (call f)
  unfolding call
  call-children f m = refl

  status_or-children : (o : Option Bool) → KeepsChildren (status_or system o)
  unfolding status_or pure raise
  status_or-children none m = refl
  status_or-children (some up) m = refl

  request_health-children : (url : Option String) → KeepsChildren (request_health system url)
  unfolding request_health raise ◌>>=◌ call
  request_health-children none m = refl
  request_health-children (some url) m =
      continue-children (status_or system) _ _ (status_or-children)

  caught-children :
      (r : Result Bool) (m : Machine W) → (caught system (r, m)).1.children ≡ m.children
  unfolding caught
  caught-children (ok up) m = refl
  caught-children (fault permission_error) m = refl
  caught-children (fault other_fault) m = refl
  caught-children (fault cut_off) m = refl
  caught-children (fault (inference_fault c s)) m = refl

  rest_unless-children :
      (rest : Run W (Unit {0}))
      → KeepsChildren rest
      → (up : Bool) → KeepsChildren (rest_unless system rest up)
  unfolding rest_unless
  rest_unless-children rest h true m = refl
  rest_unless-children rest h false m = h (slept system 200 m)

  timed_out_or-children :
      (b : Bool) (round : Result (Unit {0}) × Machine W) (m : Machine W)
      → round.1.children ≡ m.children
      → (timed_out_or system b round m).1.children ≡ m.children
  unfolding timed_out_or
  timed_out_or-children true round m h = h
  timed_out_or-children false round m h = refl

  poll-children :
      (fuel deadline : ℕ) (url : Option String) → KeepsChildren (poll system fuel deadline url)
  unfolding poll
  poll-children zero deadline url m = refl
  poll-children (suc fuel) deadline url m =
      timed_out_or-children (ltb (system.now m.world) deadline) _ m (
        continue-children (rest_unless system (poll system fuel deadline url))
          (caught system (request_health system url m)).0
          (caught system (request_health system url m)).1
          (rest_unless-children (poll system fuel deadline url) (poll-children fuel deadline url))
        ∙ caught-children (request_health system url m).0 (request_health system url m).1
        ∙ request_health-children url m)

  popen-Left :
      {B : Type 0} (command : List String) (k : ℕ → Run W B) (m : Machine W)
      → ((pid : ℕ) (w : W) → Left m (k pid (record { children = pid ∷ m.children; world = w })))
      → Left m (continue k (popen system command m))
  unfolding continue popen
  popen-Left command k m h = go (system.popen command m.world)
    where
      go :
          (r : Answer ℕ × W)
          → Left m (
              continue k (elim r.0 [
                | answers pid ↦ (ok pid, record { children = pid ∷ m.children; world = r.1 })
                | forbidden ↦ (fault permission_error, record m { world = r.1 })
                | broken ↦ (fault other_fault, record m { world = r.1 })
              ]))
      go (answers pid, w) = h pid w
      go (forbidden, w) = tt
      go (broken, w) = tt

  -- Whatever fails after the process was started, the process is there.
  kept-Left :
      {A B : Type 0} (before : Machine W) (pid : ℕ) (k : A → Run W B) (run : Run W A)
      (m : Machine W)
      → KeepsChildren run
      → ((x : A) (n : Machine W) → Left before (k x n))
      → m.children ≡ pid ∷ before.children
      → Left before (continue k (run m))
  unfolding continue
  kept-Left {A} {B} before pid k run m keeps h e = go (run m) (keeps m ∙ e)
    where
      go :
          (r : Result A × Machine W)
          → r.1.children ≡ pid ∷ before.children
          → Left before (continue k r)
      go (ok x, n) c = h x n
      go (fault permission_error, n) c = tt
      go (fault other_fault, n) c = tt
      go (fault cut_off, n) c = tt
      go (fault (inference_fault c health_check), n) e = (pid, e)
      go (fault (inference_fault c prepare_runtime), n) e = tt
      go (fault (inference_fault c start_inference_backend), n) e = tt
      go (fault (inference_fault c invoke_inference), n) e = tt

  spawn-Left :
      (fuel : ℕ) (s : Setup) (h : Hosted) (a : Artifact) (dir : String) (m : Machine W)
      → Left m (spawn system fuel s h a dir m)
  unfolding spawn ◌>>=◌ wait_for_health pure
  spawn-Left fuel s h a dir m = call-Left m m (system.write_payload dir) _ (λ u w.
      call-Left m (record m { world = w }) system.choose_free_port _
        (λ port w2.
          popen-Left (server_command s.executable h a dir port) _ (record m { world = w2 })
            (λ pid w3.
              kept-Left m pid _
                (wait_for_health system fuel s.health_timeout
                  (running s.backend_name s.docker_host port pid h a).runtime_url)
                _ (λ n. poll-children fuel _ _ n) (λ x n. tt) refl)))

  start-Left :
      (fuel : ℕ) (s : Setup) (h : Hosted) (a : Artifact) (m : Machine W)
      → h.runtime.process_id ≡ none
      → Left m (start_process_runtime system fuel s h a m)
  unfolding start_process_runtime
  start-Left fuel s h a m new = go h.runtime.runtime_dir
    where
      go : (dir : Option String) → Left m (in_directory system fuel s h a dir m)
      go none = unfold in_directory raise in tt
      go (some dir) =
          unfold in_directory pid_alive ◌>>=◌ continue pure in rw new (spawn-Left fuel s h a dir m)

noted-runtime :
    (name : String) (m : Manifest) (h started : Hosted) (c : Created Backend)
    → noted name m h c ≡ ok started
    → started.runtime ≡ h.runtime
unfolding noted
noted-runtime name m h started (model_error e) eq = cc
noted-runtime name m h started (created b) eq = ground (arith)

of_manifest-runtime :
    (library : Library) (name : String) (h started : Hosted) (image : String) (m : Option Manifest)
    → of_manifest library name h image m ≡ ok started
    → started.runtime ≡ h.runtime
unfolding of_manifest
of_manifest-runtime library name h started image none eq = cc
of_manifest-runtime library name h started image (some m) eq = noted-runtime name m h started _ eq

-- A new runtime whose process does not become healthy, where there is a fallback: the process that
-- was started for it runs on, the record that comes back names no process, and none is told to end.
pub health_failure_leaks :
    (library : Library) {W : Type 0} (system : System W) (fuel : ℕ) (s : Setup) (name : String)
    (h started : Hosted) (a : Artifact) (m m' : Machine W) (class : String)
    → h.runtime.process_id ≡ none
    → s.fallback_backend ≡ some name
    → local_start library name (detached h) a ≡ ok started
    → start_process_runtime system fuel s h a m ≡ (fault (inference_fault class health_check), m')
    → (pid : ℕ) × (start_runtime system fuel library s h a m ≡ (
      ok (record started {
        backend_name = "fallback-local-artifact-backend";
        runtime_mode = "fallback";
      }),
      m',
    ))
      × (m'.children ≡ pid ∷ m.children)
      × (started.runtime.process_id ≡ none)
unfolding start_runtime
health_failure_leaks library system fuel s name h started a m m' class new some_fallback local
      failed =
    let (pid, kept) = subst (Left m) failed (start-Left system fuel s h a m new) in
    (
      pid,
      ap (after_start system (start_fallback_runtime system library s h a)) failed
          ∙ ap (λ o. fall_to system library h a o m') some_fallback
          ∙ ap (λ r. (stands_in r, terminate system h.runtime.process_id m')) local
          ∙ ap (λ p. (stands_in (ok started), terminate system p m')) new,
      kept,
      ap (λ r. r.process_id)
          (of_manifest-runtime library name (detached h) started a.image a.runtime_manifest local),
    )
