-- ===== src/Inference/Seen.antt =====
-- What the backend sees of a container before it counts as started.
use greenference_node.Base.{
  ℕ, zero, suc, ◌+◌, ◌==◌, ◌≡◌, refl, String, Bool, true, false, Option, none, some, List, [], ◌∷◌,
  ltb, if◌then◌else◌, get_or,
}
use greenference_node.Text.{codes, lower, same}
use greenference_node.Text.Words.{concat, strip_text}
use greenference_node.Agent.Exec.{Outcome, returned, raised, Raised, http_error, inference_error}
use greenference_node.Pods.Docker.{
  Completion, completed, missing, timed_out, Call, ◌>>=◌, continue, pure, raise, nonempty,
}
use greenference_node.Pods.Process.{attempt}
use greenference_node.Inference.Launch.{
  says_running, cleaning, clean_after, raise_after, stop_runtime, container_running,
  wait_for_container_running, health_round, health_timed_out, poll_health, wait_for_health,
  await_worker, await_server, probed, inspect_exited,
}
use greenference_node.Inference.Ranks.{Engine, Launched}

module _ {W : Type 0} where
  -- What holds of a value and of the world at its return.
  abbrev pub Returns : {A : Type 0} → (A → W → Type 0) → Outcome A × W → Type 0
  Returns Q (returned x, w) = Q x w
  Returns Q (raised e, w) = Unit

  pub record Leads {A : Type 0} (Q : A → W → Type 0) (m : Call W A) : Type 0 where
    pub at : (w : W) → Returns Q (m w)

module _ {W A : Type 0} where
  -- Any call, where nothing is said of its result.
  pub Leads-any : (m : Call W A) → Leads (λ x w. Unit {0}) m
  Leads-any m = record { at = λ w. any (m w) }
    where
      any : (r : Outcome A × W) → Returns (λ x w. Unit {0}) r
      any (returned x, w) = tt
      any (raised e, w) = tt

  pub Leads-raise : {Q : A → W → Type 0} (e : Raised) → Leads Q (raise e)
  unfolding raise
  Leads-raise e = record { at = λ w. tt }

module _ {W A B : Type 0} where
  pub Leads-bind :
      (R : A → W → Type 0) (Q : B → W → Type 0) (m : Call W A) (f : A → Call W B)
      → Leads R m
      → ((x : A) (w : W) → R x w → Returns Q (f x w))
      → Leads Q (m >>= f)
  unfolding ◌>>=◌ continue
  Leads-bind R Q m f h next = record { at = λ w. go (m w) (h.at w) }
    where
      go : (r : Outcome A × W) → Returns R r → Returns Q (continue f r)
      go (returned x, v) p = next x v p
      go (raised e, v) p = tt

module _ {W : Type 0} (engine : Engine W) where
  abbrev pub page : Launched → String
  page l = concat (get_or l.runtime_url "None" ∷ "/health" ∷ [])

  abbrev pub inspect_running : String → List String
  inspect_running c = "docker" ∷ "inspect" ∷ "-f" ∷ "{{.State.Running}}" ∷ c ∷ []

  -- The last thing that happened before `w`: the server answered its health page.
  abbrev pub JustAnswered : Launched → W → Type 0
  JustAnswered l w = (v : W) × (engine.probe (page l) v ≡ (returned true, w))

  -- The last thing that happened before `w`: docker said that the container is running.
  abbrev pub JustRunning : Option String → W → Type 0
  JustRunning none w = ⊥
  JustRunning (some c) w =
      (v : W) × (out : String) × (err : String) × (engine.docker.run (inspect_running c) v
        ≡ (returned (completed true out err), w))
      × (same (lower (codes (strip_text out))) (codes "true") ≡ true)

  -- What was seen of a rank before it counts as started.
  abbrev pub IsConfirmed : Bool → Launched → W → Type 0
  IsConfirmed true l w = (l.runtime_url ≡ none) × JustRunning (nonempty l.runtime.container_id) w
  IsConfirmed false l w = JustAnswered l w

  health_round-Leads :
      (l : Launched) → Leads (λ up w. up ≡ true → JustAnswered l w) (health_round engine l)
  unfolding health_round
  health_round-Leads l =
      Leads-bind _ _ _ _ (Leads-any (inspect_exited engine (nonempty l.runtime.container_id)))
        (λ u v p. go v (engine.probe (page l) v) refl)
    where
      go :
          (v : W) (r : Outcome Bool × W)
          → engine.probe (page l) v ≡ r
          → Returns (λ up w. up ≡ true → JustAnswered l w) (probed engine r)
      go v (returned true, u) e = unfold probed in λ up. (v, e)
      go v (returned false, u) e = unfold probed in λ up. cc
      go v (raised http_error, u) e = unfold probed in λ up. cc
      go v (raised x, u) e = unfold probed in tt

  health_timed_out-Leads :
      (l : Launched) {Q : Unit {0} → W → Type 0} → Leads Q (health_timed_out engine l)
  unfolding health_timed_out
  health_timed_out-Leads l {Q} =
      Leads-bind {A = Unit {0}} {B = Unit {0}} (λ u w. Unit {0}) Q
        (attempt engine.docker (nonempty l.runtime.container_id)
          (λ c. "docker" ∷ "logs" ∷ "--tail" ∷ "200" ∷ c ∷ []))
        (λ u. raise (inference_error "health_check_failure")) (Leads-any _)
        (λ u v p.
          (Leads-raise {A = Unit {0}} {Q = Q} (inference_error "health_check_failure")).at v)

  poll_health-Leads :
      (fuel deadline : ℕ) (l : Launched)
      → Leads (λ u w. JustAnswered l w) (poll_health engine fuel deadline l)
  unfolding poll_health
  poll_health-Leads zero deadline l = Leads-raise _
  poll_health-Leads (suc fuel) deadline l = record {
    at = λ w.
        by_case (ltb (engine.now w) deadline) _ _
          ((Leads-bind _ _ _ _ (health_round-Leads l)
              (λ up v seen. next up v seen (poll_health-Leads fuel deadline l))).at
            w)
          ((health_timed_out-Leads l).at w);
  }
    where
      next :
          (up : Bool) (v : W)
          → (up ≡ true → JustAnswered l v)
          → Leads (λ u w. JustAnswered l w) (poll_health engine fuel deadline l)
          → Returns
              (λ u w. JustAnswered l w)
              (if up
                then (returned tt, v)
                else poll_health engine fuel deadline l (engine.sleep 2000 v))
      next true v seen rest = seen refl
      next false v seen rest = rest.at (engine.sleep 2000 v)

      by_case :
          (b : Bool) (round late : Outcome (Unit {0}) × W)
          → Returns (λ u w. JustAnswered l w) round
          → Returns (λ u w. JustAnswered l w) late
          → Returns (λ u w. JustAnswered l w) (if b then round else late)
      by_case true round late h k = h
      by_case false round late h k = k

  -- A clean-up after an error changes nothing of what a return says.
  cleaning-Leads :
      {A : Type 0} {Q : A → W → Type 0} (clean : Call W (Unit {0})) (m : Call W A)
      → Leads Q m
      → Leads Q (cleaning engine clean m)
  unfolding cleaning clean_after raise_after
  cleaning-Leads {A} {Q} clean m h = record { at = λ w. go (m w) (h.at w) }
    where
      raised_after :
          (x : Raised) (r : Outcome (Unit {0}) × W) → Returns Q (raise_after engine {A = A} x r)
      raised_after x (returned u, v) = tt
      raised_after x (raised f, v) = tt

      go : (r : Outcome A × W) → Returns Q r → Returns Q (clean_after engine clean r)
      go (returned x, v) q = q
      go (raised (inference_error c), v) q = raised_after (inference_error c) (clean v)
      go (raised e, v) q = tt

  pub await_server-Leads :
      (fuel timeout : ℕ) (l : Launched)
      → Leads (λ x w. IsConfirmed false x w) (await_server engine fuel timeout l)
  unfolding await_server wait_for_health pure
  await_server-Leads fuel timeout l =
      Leads-bind (λ u w. JustAnswered l w) _ _ _
        (cleaning-Leads _ _
          (record { at = λ w. (poll_health-Leads fuel (engine.now w + timeout) l).at w }))
        (λ u v seen. seen)

  says_running-seen :
      (c : String) (v : W) (r : Outcome Completion × W)
      → engine.docker.run (inspect_running c) v ≡ r
      → says_running engine r.0 ≡ true
      → JustRunning (some c) r.1
  unfolding says_running
  says_running-seen c v (returned (completed true out err), w) e says = (v, out, err, e, says)
  says_running-seen c v (returned (completed false out err), w) e says = cc says
  says_running-seen c v (returned missing, w) e says = cc says
  says_running-seen c v (returned timed_out, w) e says = cc says
  says_running-seen c v (raised x, w) e says = cc says

  -- A look that says yes saw the container running.
  abbrev SawRunning : Option String → Bool × W → Type 0
  SawRunning c look = look.0 ≡ true → JustRunning c look.1

  running-seen :
      (id : Option String) (w : W) → SawRunning (nonempty id) (container_running engine id w)
  unfolding container_running
  running-seen id w = go (nonempty id)
    where
      go :
          (c : Option String)
          → SawRunning c (elim c [
            | none ↦ (false, w)
            | some x ↦
                let (r, v) = engine.docker.run (inspect_running x) w in (says_running engine r, v)
          ])
      go none = λ e. cc e
      go (some c) = says_running-seen c w (engine.docker.run (inspect_running c) w) refl

  -- A wait that saw the container running saw it last.
  wait-seen :
      (n : ℕ) (id : Option String) (w : W)
      → SawRunning (nonempty id) (wait_for_container_running engine n id w)
  unfolding wait_for_container_running
  wait-seen zero id w = λ e. cc e
  wait-seen (suc n) id w =
      let (up, v) = container_running engine id w in
      let w' = if n == 0 then v else engine.sleep 5000 v in
      now_or_later up v (wait_for_container_running engine n id w') (running-seen id w)
        (wait-seen n id w')
    where
      now_or_later :
          (up : Bool) (v : W) (rest : Bool × W)
          → SawRunning (nonempty id) (up, v)
          → SawRunning (nonempty id) rest
          → SawRunning (nonempty id) (if up then (true, v) else rest)
      now_or_later true v rest seen after = seen
      now_or_later false v rest seen after = after

  pub await_worker-Leads :
      (l : Launched)
      → l.runtime_url ≡ none
      → Leads (λ x w. IsConfirmed true x w) (await_worker engine l)
  unfolding await_worker
  await_worker-Leads l unset = record {
    at = λ w.
        let (up, v) = wait_for_container_running engine 6 l.runtime.container_id w in
        settled up v _ (wait-seen 6 l.runtime.container_id w) (
          (Leads-bind {B = Launched} (λ x u. Unit {0}) (λ x u. IsConfirmed true x u)
              (stop_runtime engine l) (λ x. raise (inference_error "runtime_start_failure"))
              (Leads-any _)
              (λ x u p.
                (Leads-raise {A = Launched} {Q = λ x u. IsConfirmed true x u}
                    (inference_error "runtime_start_failure")).at
                  u)).at
            v);
  }
    where
      settled :
          (up : Bool) (v : W) (stopped : Outcome Launched × W)
          → (up ≡ true → JustRunning (nonempty l.runtime.container_id) v)
          → Returns (λ x w. IsConfirmed true x w) stopped
          → Returns (λ x w. IsConfirmed true x w) (if up then (returned l, v) else stopped)
      settled true v stopped seen h = (unset, seen refl)
      settled false v stopped seen h = h
