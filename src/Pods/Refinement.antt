-- ===== src/Pods/Refinement.antt =====
-- ProcessPodBackend and StubPodBackend keep the contract of a pod backend.
use greenference_node.Base.{
  ℕ, ◌≡◌, ◌⊎◌, inl, inr, refl, String, Bool, true, false, Option, none, some, List, [], ◌∷◌, ◌==◌,
  if◌then◌else◌,
}
use greenference_node.Protocol.{Runtime, Workload}
use greenference_node.Agent.Exec.{Outcome, returned, raised, Raised, pod_error}
use greenference_node.Pods.Docker.{Completion, completed, missing, timed_out, Docker, ◌>>=◌, pure}
use greenference_node.Pods.Command.{PodSettings}
use greenference_node.Pods.Process.{
  attempt, started, restart, restarted, actual_port, actual_ssh_port, verified_ports, start_pod,
  stop_pod, pause_pod, resume_pod,
}
use greenference_node.Pods.Stub.{stub_start_pod, stub_stop_pod, stub_pause_pod, stub_resume_pod}
use greenference_node.Pods.Contract.{
  process_backend, stub_backend, Ends, Ensures, Ensures-bind, Ensures-pure, Ensures-raise,
  IsStarted, IsPodBackend,
}

stub_backend-IsPodBackend : {W : Type 0} → IsPodBackend {W = W} (λ e. ⊥) stub_backend
unfolding stub_backend stub_start_pod stub_stop_pod stub_pause_pod stub_resume_pod
stub_backend-IsPodBackend = record {
  starts = λ rt wl. Ensures-pure _ (_, rt.ssh_port, rt.port_mappings, refl);
  stops = λ rt. Ensures-pure _ refl;
  pauses = λ rt. Ensures-pure _ refl;
  resumes = λ rt. Ensures-pure _ refl;
}

module _ {W : Type 0} (docker : Docker W) where
  -- An error of docker's that is neither a missing binary nor a timeout.
  pub Escapes : Raised → Type 0
  Escapes e = (args : List String) × (w : W) × ((docker.run args w).0 ≡ raised e)

  run-Ensures : (args : List String) → Ensures (λ r. Unit {0}) Escapes (docker.run args)
  unfolding Escapes
  run-Ensures args = record { at = λ w. go w (docker.run args w).0 refl }
    where
      go :
          (w : W) (r : Outcome Completion)
          → (docker.run args w).0 ≡ r
          → Ends (λ x. Unit {0}) Escapes r
      go w (returned x) e = tt
      go w (raised x) e = (args, w, e)

  attempt-Ensures :
      (c : Option String) (args : String → List String)
      → Ensures (λ r. Unit {0}) Escapes (attempt docker c args)
  unfolding attempt
  attempt-Ensures none args = Ensures-pure tt tt
  attempt-Ensures (some c) args =
      Ensures-bind _ _ (run-Ensures (args c)) (λ e x. x) (λ r _. Ensures-pure tt tt)

  actual_port-Ensures :
      (id : String) (container asked : ℕ)
      → Ensures (λ p. Unit {0}) Escapes (actual_port docker id container asked)
  unfolding actual_port
  actual_port-Ensures id container asked =
      Ensures-bind _ _ (run-Ensures _) (λ e x. x) (λ r _. Ensures-pure _ tt)

  actual_ssh_port-Ensures :
      (id : String) (p : Option ℕ) → Ensures (λ p. Unit {0}) Escapes (actual_ssh_port docker id p)
  unfolding actual_ssh_port
  actual_ssh_port-Ensures id none = Ensures-pure _ tt
  actual_ssh_port-Ensures id (some p) = by_case (p == 0)
    where
      by_case :
          (b : Bool)
          → Ensures
              (λ p. Unit {0})
              Escapes
              (if b then pure (some p) else actual_port docker id 22 p >>= λ q. pure (some q))
      by_case true = Ensures-pure _ tt
      by_case false =
          Ensures-bind _ _ (actual_port-Ensures id 22 p) (λ e x. x) (λ q _. Ensures-pure _ tt)

  verified_ports-Ensures :
      (id : String) (asked : List (ℕ × ℕ))
      → Ensures (λ m. Unit {0}) Escapes (verified_ports docker id asked)
  unfolding verified_ports
  verified_ports-Ensures id [] = Ensures-pure _ tt
  verified_ports-Ensures id ((container, host) ∷ rest) =
      Ensures-bind _ _ (actual_port-Ensures id container host) (λ e x. x)
        (λ actual _.
          Ensures-bind _ _ (verified_ports-Ensures id rest) (λ e x. x)
            (λ others _. Ensures-pure _ tt))

  started-Ensures :
      (r : Completion)
      → Ensures
          (λ c. Unit {0})
          (λ e. (e ≡ pod_error "pod_start_failure") ⊎ Escapes e)
          (started docker r)
  unfolding started
  started-Ensures (completed true out err) = Ensures-pure _ tt
  started-Ensures (completed false out err) = Ensures-raise _ (inl refl)
  started-Ensures missing = Ensures-raise _ (inl refl)
  started-Ensures timed_out = Ensures-raise _ (inl refl)

  start_pod-Ensures :
      (s : PodSettings) (rt : Runtime) (wl : Workload)
      → Ensures
          (IsStarted rt)
          (λ e. (e ≡ pod_error "pod_start_failure") ⊎ Escapes e)
          (start_pod docker s rt wl)
  unfolding start_pod
  start_pod-Ensures s rt wl =
      Ensures-bind _ _ (run-Ensures _) (λ e x. inr x)
        (λ stale _.
          Ensures-bind _ _ (run-Ensures _) (λ e x. inr x)
            (λ result _.
              Ensures-bind _ _ (started-Ensures result) (λ e x. x)
                (λ c _.
                  Ensures-bind _ _ (actual_ssh_port-Ensures c rt.ssh_port) (λ e x. inr x)
                    (λ p _.
                      Ensures-bind _ _ (verified_ports-Ensures c rt.port_allocations) (λ e x. inr x)
                        (λ m _. Ensures-pure _ (c, p, m, refl))))))

  restarted-Ensures :
      (r : Completion)
      → Ensures
          (λ c. Unit {0})
          (λ e. (e ≡ pod_error "pod_resume_failure") ⊎ Escapes e)
          (restarted docker r)
  unfolding restarted
  restarted-Ensures (completed true out err) = Ensures-pure _ tt
  restarted-Ensures (completed false out err) = Ensures-raise _ (inl refl)
  restarted-Ensures missing = Ensures-raise _ (inl refl)
  restarted-Ensures timed_out = Ensures-raise _ (inl refl)

  restart-Ensures :
      (c : Option String)
      → Ensures
          (λ c. Unit {0})
          (λ e. (e ≡ pod_error "pod_resume_failure") ⊎ Escapes e)
          (restart docker c)
  unfolding restart
  restart-Ensures none = Ensures-pure _ tt
  restart-Ensures (some c) =
      Ensures-bind _ _ (run-Ensures _) (λ e x. inr x) (λ r _. restarted-Ensures r)

  -- ProcessPodBackend keeps the contract with any docker: it starts and resumes a pod or raises
  -- the one error class of that operation, suspending and stopping raise none of their own, and
  -- each operation changes the fields of the runtime that the contract names and no other.
  pub process_backend-IsPodBackend :
      (s : PodSettings) → IsPodBackend Escapes (process_backend docker s)
  unfolding process_backend stop_pod pause_pod resume_pod
  process_backend-IsPodBackend s = record {
    starts = start_pod-Ensures s;
    stops = λ rt. Ensures-bind _ _ (attempt-Ensures _ _) (λ e x. x) (λ r _. Ensures-pure _ refl);
    pauses = λ rt. Ensures-bind _ _ (attempt-Ensures _ _) (λ e x. x) (λ r _. Ensures-pure _ refl);
    resumes = λ rt. Ensures-bind _ _ (restart-Ensures _) (λ e x. x) (λ r _. Ensures-pure _ refl);
  }
