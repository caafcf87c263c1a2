-- ===== src/Pods/Waiting.antt =====
-- The wait for a pod's sshd.
use greenference_node.Base.{
  ℕ, zero, suc, ◌+◌, ◌*◌, ◌/◌, ◌≤◌, ◌<◌, ◌≡◌, refl, ap, ◌∙◌, sym, arith, String, Bool, true, false,
  Option, none, some, ltb, if◌then◌else◌, List, [], ◌∷◌,
}
use mathlib.Core.Path.{subst}
use native.Mathlib.Nat.{div-add-mod, mod-lt}
use greenference_node.Text.{codes, contains}
use greenference_node.Agent.Exec.{Outcome, returned, raised}
use greenference_node.Protocol.{Runtime}
use greenference_node.Pods.Docker.{Completion, completed, missing, timed_out, Docker, nonempty}
use greenference_node.Pods.Process.{sees_sshd, sshd_running, poll, wait_for_ready}

abbrev pub top : String → List String
top c = "docker" ∷ "top" ∷ c ∷ []

-- The listing of a container's processes succeeded, and names sshd.
abbrev pub ShowsSshd : Outcome Completion → Type 0
ShowsSshd r =
    (out : String) × (err : String) × (r ≡ returned (completed true out err))
    × (contains (codes out) (codes "sshd") ≡ true)

module _ {W : Type 0} (docker : Docker W) (now : W → ℕ) (sleep : ℕ → W → W) (c : String)
    (deadline : ℕ) (start : W) where
  -- The worlds in which a wait that began in `start` looks at its clock: each earlier look was
  -- before the deadline, saw no sshd, and was followed by a sleep.
  pub data Looks : W → Type 0 where
    first : Looks start
    later :
        (v : W)
        → Looks v
        → now v < deadline
        → (ShowsSshd (docker.run (top c) v).0 → ⊥)
        → Looks (sleep 1500 (docker.run (top c) v).1)

  -- Yes comes right after a look, before the deadline, that saw sshd; no comes at a look that the
  -- deadline had passed.
  abbrev pub IsBacked : Outcome Bool × W → Type 0
  IsBacked (returned true, w) =
      (v : W) × Looks v
      × (now v < deadline)
      × ShowsSshd (docker.run (top c) v).0
      × (w ≡ (docker.run (top c) v).1)
  IsBacked (returned false, w) = Looks w × (deadline ≤ now w)
  IsBacked (raised e, w) = ⊥

-- The answer for a runtime that may have no container.
abbrev pub IsAnswer :
    {W : Type 0}
    → Docker W
    → (W → ℕ)
    → (ℕ → W → W)
    → Option String
    → ℕ
    → W
    → Outcome Bool × W
    → Type 0
IsAnswer docker now sleep none deadline w answer = answer ≡ (returned true, w)
IsAnswer docker now sleep (some c) deadline w answer = IsBacked docker now sleep c deadline w answer

module _ {W : Type 0} (docker : Docker W) where
  sshd_running-true :
      (c : String) (w : W) → (sshd_running docker c w).0 ≡ true → ShowsSshd (docker.run (top c) w).0
  unfolding sshd_running
  sshd_running-true c w = go (docker.run (top c) w)
    where
      go : (r : Outcome Completion × W) → sees_sshd docker r.0 ≡ true → ShowsSshd r.0
      go (returned (completed true out err), v) e = (out, err, refl, unfold sees_sshd in e)
      go (returned (completed false out err), v) e = unfold sees_sshd in cc e
      go (returned missing, v) e = unfold sees_sshd in cc e
      go (returned timed_out, v) e = unfold sees_sshd in cc e
      go (raised x, v) e = unfold sees_sshd in cc e

  sshd_running-false :
      (c : String) (w : W)
      → (sshd_running docker c w).0 ≡ false
      → ShowsSshd (docker.run (top c) w).0
      → ⊥
  unfolding sshd_running
  sshd_running-false c w e (out, err, eq, has) =
      let sees : sees_sshd docker (docker.run (top c) w).0 ≡ true =
        ap (sees_sshd docker) eq ∙ unfold sees_sshd in has in
      cc

  sshd_running-world : (c : String) (w : W) → (sshd_running docker c w).1 ≡ (docker.run (top c) w).1
  unfolding sshd_running
  sshd_running-world c w = refl

module _ {W : Type 0} (docker : Docker W) (now : W → ℕ) (sleep : ℕ → W → W) where
  round-IsBacked :
      (early up : Bool) (deadline : ℕ) (c : String) (start w v : W) (rest : Outcome Bool × W)
      → Looks docker now sleep c deadline start w
      → v ≡ (docker.run (top c) w).1
      → (early ≡ true → now w < deadline)
      → (early ≡ false → deadline ≤ now w)
      → (up ≡ true → ShowsSshd (docker.run (top c) w).0)
      → (up ≡ false → early ≡ true → IsBacked docker now sleep c deadline start rest)
      → IsBacked docker now sleep c deadline start
          (if early then (if up then (returned true, v) else rest) else (returned false, w))
  round-IsBacked true true deadline c start w v rest looks at soon late seen next =
      (w, looks, soon refl, seen refl, at)
  round-IsBacked true false deadline c start w v rest looks at soon late seen next = next refl refl
  round-IsBacked false up deadline c start w v rest looks at soon late seen next =
      (looks, late refl)

  poll-IsBacked :
      (fuel deadline : ℕ) (c : String) (start w : W)
      → ((ms : ℕ) (v : W) → now v + ms ≤ now (sleep ms v))
      → ((args : List String) (v : W) → now v ≤ now (docker.run args v).1)
      → Looks docker now sleep c deadline start w
      → deadline ≤ now w + fuel * 1500
      → IsBacked docker now sleep c deadline start (poll docker now sleep (suc fuel) deadline c w)
  unfolding poll
  poll-IsBacked zero deadline c start w rests monotone looks enough =
      round-IsBacked (ltb (now w) deadline) (sshd_running docker c w).0 deadline c start w
        (sshd_running docker c w).1
        (poll docker now sleep zero deadline c (sleep 1500 (sshd_running docker c w).1)) looks
        (sshd_running-world docker c w) (λ e. ground arith) (λ e. ground arith)
        (sshd_running-true docker c w) (λ u e. ground arith)
  poll-IsBacked (suc fuel) deadline c start w rests monotone looks enough =
      let v = (sshd_running docker c w).1 in
      let at = sshd_running-world docker c w in
      round-IsBacked (ltb (now w) deadline) (sshd_running docker c w).0 deadline c start w v
        (poll docker now sleep (suc fuel) deadline c (sleep 1500 v)) looks at (λ e. ground arith)
        (λ e. ground arith) (sshd_running-true docker c w)
        (λ u e.
          poll-IsBacked fuel deadline c start (sleep 1500 v) rests monotone
            (subst (λ x. Looks docker now sleep c deadline start (sleep 1500 x)) (sym at)
              (later w looks (ground arith) (sshd_running-false docker c w u)))
            (omega (arith, rests 1500 v, monotone (top c) w, ap now at)))

  -- With a clock that sleeping moves on and that docker does not turn back, the wait ends where it
  -- is given one round for each 1.5 seconds of its timeout and one more. It answers yes at once
  -- where there is no container. Else it looks every 1.5 seconds whether docker top lists sshd: it
  -- answers yes right after the first look that shows it, if that was before the timeout was over,
  -- and no at the first look at which the timeout was over.
  pub wait_for_ready-IsAnswer :
      (timeout : ℕ) (rt : Runtime) (w : W)
      → ((ms : ℕ) (v : W) → now v + ms ≤ now (sleep ms v))
      → ((args : List String) (v : W) → now v ≤ now (docker.run args v).1)
      → IsAnswer docker now sleep
          (nonempty rt.container_id)
          (now w + timeout)
          w
          (wait_for_ready docker now sleep (suc (suc (timeout / 1500))) timeout rt w)
  unfolding wait_for_ready
  wait_for_ready-IsAnswer timeout rt w rests monotone = go (nonempty rt.container_id)
    where
      go :
          (c : Option String)
          → IsAnswer docker now sleep c (now w + timeout) w (elim c [
            | none ↦ (returned true, w)
            | some x ↦ poll docker now sleep (suc (suc (timeout / 1500))) (now w + timeout) x w
          ])
      go none = refl
      go (some c) =
          poll-IsBacked (suc (timeout / 1500)) (now w + timeout) c w w rests monotone first
            (omega (arith, div-add-mod timeout 1500, mod-lt timeout))
