-- ===== src/Pods/Contract.antt =====
-- What the service relies on of a pod backend, and that both backends keep it.
use greenference_node.Base.{◌⊎◌, ℕ, ◌≡◌, ◌⊎◌, String, Option, none, some, List}
use greenference_node.Protocol.{Runtime, ready, suspended, terminated, Workload}
use greenference_node.Agent.Exec.{Outcome, returned, raised, Raised, pod_error}
use greenference_node.Pods.Docker.{Docker, Call, ◌>>=◌, pure, raise, continue}
use greenference_node.Pods.Command.{PodSettings}
use greenference_node.Pods.Process.{start_pod, stop_pod, pause_pod, resume_pod}
use greenference_node.Pods.Stub.{stub_start_pod, stub_stop_pod, stub_pause_pod, stub_resume_pod}

-- PodBackend
pub record PodBackend (W : Type 0) : Type 0 where
  pub start_pod : Runtime → Workload → Call W Runtime
  pub stop_pod : Runtime → Call W Runtime
  pub pause_pod : Runtime → Call W Runtime
  pub resume_pod : Runtime → Call W Runtime

unfoldable pub process_backend : {W : Type 0} → Docker W → PodSettings → PodBackend W
process_backend docker s = record {
  start_pod = start_pod docker s;
  stop_pod = stop_pod docker;
  pause_pod = pause_pod docker;
  resume_pod = resume_pod docker;
}

unfoldable pub stub_backend : {W : Type 0} → PodBackend W
stub_backend = record {
  start_pod = stub_start_pod;
  stop_pod = stub_stop_pod;
  pause_pod = stub_pause_pod;
  resume_pod = stub_resume_pod;
}

-- What an operation may end with: a value that Q holds of, or an error that E holds of.
abbrev pub Ends : {A : Type 0} → (A → Type 0) → (Raised → Type 0) → Outcome A → Type 0
Ends Q E (returned x) = Q x
Ends Q E (raised e) = E e

pub record Ensures {W A : Type 0} (Q : A → Type 0) (E : Raised → Type 0) (m : Call W A)
    : Type 0 where
  pub at : (w : W) → Ends Q E (m w).0

-- A started pod is the same runtime, with a container, the ports that are published, and ready.
abbrev pub IsStarted : Runtime → Runtime → Type 0
IsStarted before after =
    (c : String) × (p : Option ℕ) × (m : List (ℕ × ℕ)) × (after ≡ record before {
      container_id = some c;
      ssh_port = p;
      port_mappings = m;
      status = ready;
      current_stage = "ready";
    })

-- The contract, where `Escapes` names the errors that come from below. Suspending and stopping
-- raise no error of their own; starting and resuming raise one class each.
pub record IsPodBackend {W : Type 0} (Escapes : Raised → Type 0) (b : PodBackend W) : Type 0 where
  pub starts :
      (rt : Runtime) (wl : Workload)
      → Ensures
          (IsStarted rt)
          (λ e. (e ≡ pod_error "pod_start_failure") ⊎ Escapes e)
          (b.start_pod rt wl)
  pub stops :
      (rt : Runtime)
      → Ensures
          (λ after.
            after
            ≡ record rt { status = terminated; current_stage = "terminated"; container_id = none })
          Escapes
          (b.stop_pod rt)
  pub pauses :
      (rt : Runtime)
      → Ensures
          (λ after. after ≡ record rt { status = suspended; current_stage = "suspended" })
          Escapes
          (b.pause_pod rt)
  pub resumes :
      (rt : Runtime)
      → Ensures
          (λ after. after ≡ record rt { status = ready; current_stage = "ready" })
          (λ e. (e ≡ pod_error "pod_resume_failure") ⊎ Escapes e)
          (b.resume_pod rt)

module _ {W A B : Type 0} {R : A → Type 0} {Q : B → Type 0} {E F : Raised → Type 0} where
  pub Ensures-bind :
      (m : Call W A) (f : A → Call W B)
      → Ensures R E m
      → ((e : Raised) → E e → F e)
      → ((x : A) → R x → Ensures Q F (f x))
      → Ensures Q F (m >>= f)
  unfolding ◌>>=◌ continue
  Ensures-bind m f h up next = record { at = λ w. go (m w) (h.at w) }
    where
      go : (r : Outcome A × W) → Ends R E r.0 → Ends Q F (continue f r).0
      go (returned x, v) q = (next x q).at v
      go (raised e, v) q = up e q

pub Ensures-pure :
    {W A : Type 0} {Q : A → Type 0} {E : Raised → Type 0} (x : A)
    → Q x
    → Ensures {W = W} Q E (pure x)
unfolding pure
Ensures-pure x q = record { at = λ w. q }

pub Ensures-raise :
    {W A : Type 0} {Q : A → Type 0} {E : Raised → Type 0} (e : Raised)
    → E e
    → Ensures {W = W} Q E (raise e)
unfolding raise
Ensures-raise e h = record { at = λ w. h }

pub Ensures-map :
    {W A : Type 0} {Q R : A → Type 0} {E : Raised → Type 0} (m : Call W A)
    → ((x : A) → Q x → R x)
    → Ensures Q E m
    → Ensures R E m
Ensures-map {W} {A} {Q} {R} {E} m f h = record { at = λ w. go (m w).0 (h.at w) }
  where
    go : (r : Outcome A) → Ends Q E r → Ends R E r
    go (returned x) q = f x q
    go (raised e) q = q
