-- ===== src/Inference/Cleanup.antt =====
-- A container whose start failed is removed.
use greenference_node.Base.{
  ℕ, ◌≡◌, refl, ap, ◌∙◌, String, Bool, true, false, Option, some, List, [], ◌∷◌, if◌then◌else◌,
}
use greenference_node.Agent.Exec.{Outcome, returned, raised, inference_error}
use greenference_node.Pods.Docker.{Call, ◌>>=◌, continue, pure, raise, nonempty}
use greenference_node.Pods.Process.{attempt}
use greenference_node.Inference.Launch.{
  cleaning, clean_after, raise_after, removal, stopped, stop_runtime, wait_for_container_running,
  wait_for_health, await_worker, await_server, await_rank,
}
use greenference_node.Inference.Ranks.{Engine, Launched}

module _ {W : Type 0} (engine : Engine W) where
  -- The last thing that happened was a removal of the container.
  abbrev pub IsRemoved : String → W → Type 0
  IsRemoved c w = (v : W) × (w ≡ (engine.docker.run ("docker" ∷ "rm" ∷ "-f" ∷ c ∷ []) v).1)

  -- An end by the backend's own error leaves the container removed.
  abbrev pub IsClean : String → Outcome Launched × W → Type 0
  IsClean c (returned l, w) = Unit
  IsClean c (raised (inference_error k), w) = IsRemoved c w
  IsClean c (raised e, w) = Unit

  continue-world :
      {A B : Type 0} (f : A → Call W B) (r : Outcome A × W)
      → ((x : A) (v : W) → (f x v).1 ≡ v)
      → (continue f r).1 ≡ r.1
  unfolding continue
  continue-world f (returned x, v) still = still x v
  continue-world f (raised e, v) still = refl

  attempt-world :
      (o : Option String) (c : String) (args : String → List String) (w : W)
      → o ≡ some c
      → (attempt engine.docker o args w).1 ≡ (engine.docker.run (args c) w).1
  unfolding attempt ◌>>=◌ pure
  attempt-world o c args w e =
      ap (λ x. (attempt engine.docker x args w).1) e
      ∙ continue-world (λ result. pure tt) (engine.docker.run (args c) w) (λ x v. refl)

  -- Stopping a runtime and what follows it leave the world as the removal does.
  stop-world :
      {A : Type 0} (l : Launched) (c : String) (f : Launched → Call W A) (w : W)
      → nonempty l.runtime.container_id ≡ some c
      → ((x : Launched) (v : W) → (f x v).1 ≡ v)
      → ((stop_runtime engine l >>= f) w).1
        ≡ (engine.docker.run ("docker" ∷ "rm" ∷ "-f" ∷ c ∷ []) w).1
  unfolding stop_runtime ◌>>=◌ pure
  stop-world l c f w here still =
      continue-world f (stop_runtime engine l w) still
      ∙ (continue-world (λ r. pure (stopped engine l))
            (attempt engine.docker (nonempty l.runtime.container_id) (removal engine) w)
            (λ x v. refl)
          ∙ attempt-world (nonempty l.runtime.container_id) c (removal engine) w here)

  removed-IsClean : (c : String) (r : Outcome Launched × W) → IsRemoved c r.1 → IsClean c r
  removed-IsClean c (returned l, w) h = tt
  removed-IsClean c (raised (inference_error k), w) h = h
  removed-IsClean c (raised e, w) h = tt

  raise_after-IsClean :
      (k c : String) (r : Outcome (Unit {0}) × W)
      → IsRemoved c r.1
      → (l : Launched)
      → IsClean c (continue {A = Unit {0}} (λ u. pure l) (raise_after engine (inference_error k) r))
  unfolding raise_after continue
  raise_after-IsClean k c (returned u, v) removed l = removed
  raise_after-IsClean k c (raised f, v) removed l = removed-IsClean c (raised f, v) removed

  await_server-IsClean :
      (fuel timeout : ℕ) (l : Launched) (c : String) (w : W)
      → nonempty l.runtime.container_id ≡ some c
      → IsClean c (await_server engine fuel timeout l w)
  unfolding await_server cleaning clean_after ◌>>=◌ continue pure
  await_server-IsClean fuel timeout l c w here = go (wait_for_health engine fuel timeout l w)
    where
      go :
          (r : Outcome (Unit {0}) × W)
          → IsClean c (
              continue
                (λ u. pure l)
                (clean_after engine (stop_runtime engine l >>= λ x. pure tt) r))
      go (returned u, v) = tt
      go (raised (inference_error k), v) =
          raise_after-IsClean k c ((stop_runtime engine l >>= λ x. pure tt) v)
            (v, stop-world l c (λ x. pure tt) v here (λ x u. refl)) l
      go (raised e, v) = tt

  await_worker-IsClean :
      (l : Launched) (c : String) (w : W)
      → nonempty l.runtime.container_id ≡ some c
      → IsClean c (await_worker engine l w)
  unfolding await_worker raise
  await_worker-IsClean l c w here =
      let (up, v) = wait_for_container_running engine 6 l.runtime.container_id w in
      go up v ((stop_runtime engine l >>= λ x. raise (inference_error "runtime_start_failure")) v) (
        removed-IsClean c _ (
          v,
          stop-world l c (λ x. raise (inference_error "runtime_start_failure")) v here
              (λ x u. refl),
        ))
    where
      go :
          (up : Bool) (v : W) (r : Outcome Launched × W)
          → IsClean c r
          → IsClean c (if up then (returned l, v) else r)
      go true v r h = tt
      go false v r h = h

  -- When what follows a docker run that started a container ends by the backend's own error, be it
  -- a server that did not become healthy or a rank that exited, then the last thing that happened
  -- was that docker was asked to remove the new container by force.
  pub failed_start-removes :
      (serves_nothing : Bool) (fuel timeout : ℕ) (l : Launched) (c : String) (w : W)
      → nonempty l.runtime.container_id ≡ some c
      → IsClean c (await_rank engine serves_nothing fuel timeout l w)
  unfolding await_rank
  failed_start-removes true fuel timeout l c w here = await_worker-IsClean l c w here
  failed_start-removes false fuel timeout l c w here = await_server-IsClean fuel timeout l c w here
