-- ===== src/Pods/Suspension.antt =====
-- A pod that is suspended and resumed: what the service gets back, and what docker was asked.
use greenference_node.Base.{
  sym, ◌≡◌, ◌∙◌, ◌⊎◌, inl, inr, refl, ap, sym, true, false, String, Option, none, some, List, [],
  ◌∷◌,
}
use mathlib.Core.Path.{subst}
use greenference_node.Protocol.{Runtime, ready, suspended}
use greenference_node.Agent.Exec.{Outcome, returned, raised, Raised, pod_error}
use greenference_node.Pods.Docker.{
  Completion, completed, missing, timed_out, Docker, Call, ◌>>=◌, continue, pure, raise, nonempty,
}
use greenference_node.Pods.Process.{attempt, restart, restarted, pause_pod, resume_pod}
use greenference_node.Pods.Command.{PodSettings}
use greenference_node.Pods.Refinement.{Escapes, process_backend-IsPodBackend}
use greenference_node.Pods.Contract.{
  PodBackend, process_backend, Ends, Ensures, Ensures-bind, IsPodBackend,
}

contract_suspend_resume :
    {W : Type 0} (Escapes : Raised → Type 0) (b : PodBackend W) (rt : Runtime)
    → IsPodBackend Escapes b
    → Ensures
        (λ after. after ≡ record rt { status = ready; current_stage = "ready" })
        (λ e. (e ≡ pod_error "pod_resume_failure") ⊎ Escapes e)
        (b.pause_pod rt >>= b.resume_pod)
contract_suspend_resume Escapes b rt laws =
    Ensures-bind _ _ (laws.pauses rt) (λ e x. inr x)
      (λ paused p.
        subst
          (λ q.
            Ensures (λ after. after ≡ record rt { status = ready; current_stage = "ready" })
              (λ e. (e ≡ pod_error "pod_resume_failure") ⊎ Escapes e) (b.resume_pod q))
          (sym p) (laws.resumes (record rt { status = suspended; current_stage = "suspended" })))

-- With ProcessPodBackend and any docker, a pod that was suspended and then resumed is the runtime
-- that it was, with its container, its ports and its devices, and ready; or the error is the one
-- class of a resume, or one that docker's command can raise.
suspend_resume :
    {W : Type 0} (docker : Docker W) (s : PodSettings) (rt : Runtime)
    → let b = process_backend docker s in
      Ensures
        (λ after. after ≡ record rt { status = ready; current_stage = "ready" })
        (λ e. (e ≡ pod_error "pod_resume_failure") ⊎ Escapes docker e)
        (b.pause_pod rt >>= b.resume_pod)
suspend_resume docker s rt =
    contract_suspend_resume (Escapes docker) (process_backend docker s) rt
      (process_backend-IsPodBackend docker s)

-- A docker that notes every command that it is given, the latest first.
unfoldable pub logged : {W : Type 0} → Docker W → Docker (List (List String) × W)
logged docker = record { run = λ args v. let (r, w) = docker.run args v.1 in (r, (args ∷ v.0, w)) }

abbrev pub All : (List String → Type 0) → List (List String) → Type 0
All P [] = Unit
All P (args ∷ log) = P args × All P log

-- Every command that `m` gives satisfies P, and every value that it returns satisfies Q.
record Asks {W A : Type 0} (P : List String → Type 0) (Q : A → Type 0)
    (m : Call (List (List String) × W) A) : Type 0 where
  at :
      (log : List (List String)) (w : W)
      → All P log
      → All P (m (log, w)).1.0 × Ends Q (λ e. Unit {0}) (m (log, w)).0

module _ {W A B : Type 0} {P : List String → Type 0} {R : A → Type 0} {Q : B → Type 0} where
  Asks-bind :
      (m : Call (List (List String) × W) A) (f : A → Call (List (List String) × W) B)
      → Asks P R m
      → ((x : A) → R x → Asks P Q (f x))
      → Asks P Q (m >>= f)
  unfolding ◌>>=◌ continue
  Asks-bind m f h next = record { at = λ log w all. go (m (log, w)) (h.at log w all) }
    where
      go :
          (r : Outcome A × (List (List String) × W))
          → All P r.1.0 × Ends R (λ e. Unit {0}) r.0
          → All P (continue f r).1.0 × Ends Q (λ e. Unit {0}) (continue f r).0
      go (returned x, v) all = (next x all.1).at v.0 v.1 all.0
      go (raised e, v) all = all

Asks-pure :
    {W A : Type 0} {P : List String → Type 0} {Q : A → Type 0} (x : A)
    → Q x
    → Asks {W = W} P Q (pure x)
unfolding pure
Asks-pure x q = record { at = λ log w all. (all, q) }

Asks-raise :
    {W A : Type 0} {P : List String → Type 0} {Q : A → Type 0} (e : Raised)
    → Asks {W = W} P Q (raise e)
unfolding raise
Asks-raise e = record { at = λ log w all. (all, tt) }

module _ {W : Type 0} {P : List String → Type 0} (docker : Docker W) where
  Asks-run : (args : List String) → P args → Asks P (λ r. Unit {0}) ((logged docker).run args)
  unfolding logged
  Asks-run args p = record { at = λ log w all. ((p, all), any (docker.run args w).0) }
    where
      any : (r : Outcome Completion) → Ends (λ r. Unit {0}) (λ e. Unit {0}) r
      any (returned x) = tt
      any (raised e) = tt

  Asks-attempt :
      (c : Option String) (args : String → List String)
      → ((x : String) → c ≡ some x → P (args x))
      → Asks P (λ r. Unit {0}) (attempt (logged docker) c args)
  unfolding attempt
  Asks-attempt none args h = Asks-pure tt tt
  Asks-attempt (some x) args h =
      Asks-bind _ _ (Asks-run (args x) (h x refl)) (λ r _. Asks-pure tt tt)

  Asks-restarted : (r : Completion) → Asks P (λ r. Unit {0}) (restarted (logged docker) r)
  unfolding restarted
  Asks-restarted (completed true out err) = Asks-pure tt tt
  Asks-restarted (completed false out err) = Asks-raise _
  Asks-restarted missing = Asks-raise _
  Asks-restarted timed_out = Asks-raise _

  Asks-restart :
      (c : Option String)
      → ((x : String) → c ≡ some x → P ("docker" ∷ "start" ∷ x ∷ []))
      → Asks P (λ r. Unit {0}) (restart (logged docker) c)
  unfolding restart
  Asks-restart none h = Asks-pure tt tt
  Asks-restart (some x) h = Asks-bind _ _ (Asks-run _ (h x refl)) (λ r _. Asks-restarted r)

-- A command that stops or starts the container of a runtime.
abbrev pub StopsOrStarts : Runtime → List String → Type 0
StopsOrStarts rt args =
    (c : String) × (nonempty rt.container_id ≡ some c)
    × ((args ≡ "docker" ∷ "stop" ∷ c ∷ []) ⊎ (args ≡ "docker" ∷ "start" ∷ c ∷ []))

module _ {W : Type 0} (docker : Docker W) (rt : Runtime) where
  pause_pod-Asks :
      Asks {W = W}
        (StopsOrStarts rt)
        (λ paused. paused.container_id ≡ rt.container_id)
        (pause_pod (logged docker) rt)
  unfolding pause_pod
  pause_pod-Asks =
      Asks-bind _ _ (Asks-attempt docker (nonempty rt.container_id) _ (λ c e. (c, e, inl refl)))
        (λ r _. Asks-pure _ refl)

  resume_pod-Asks :
      (paused : Runtime)
      → paused.container_id ≡ rt.container_id
      → Asks {W = W} (StopsOrStarts rt) (λ after. Unit {0}) (resume_pod (logged docker) paused)
  unfolding resume_pod
  resume_pod-Asks paused same =
      Asks-bind _ _
        (Asks-restart docker (nonempty paused.container_id)
          (λ c e. (c, ap nonempty (sym same) ∙ e, inr refl)))
        (λ r _. Asks-pure _ tt)

-- Suspending and resuming a pod asks docker to stop and to start the pod's own container and asks
-- nothing else of it: the container is never removed.
pub suspend_resume-asks :
    {W : Type 0} (docker : Docker W) (rt : Runtime) (w : W)
    → All
        (StopsOrStarts rt)
        ((pause_pod (logged docker) rt >>= resume_pod (logged docker)) ([], w)).1.0
suspend_resume-asks docker rt w =
    ((Asks-bind _ _ (pause_pod-Asks docker rt)
        (λ paused same. resume_pod-Asks docker rt paused same)).at
      [] w tt).0
