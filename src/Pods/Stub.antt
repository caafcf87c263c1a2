-- ===== src/Pods/Stub.antt =====
-- StubPodBackend, and the VM backends of vm.py. The Firecracker backend starts no machine: it asks
-- the binary for its version.
use greenference_node.Base.{
  ℕ, String, Bool, true, false, Option, none, some, List, [], ◌∷◌, if◌then◌else◌, ◌==◌, get_or,
}
use greenference_node.Text.Words.{concat, join}
use greenference_node.Protocol.{Runtime, ready, suspended, terminated, Workload}
use greenference_node.Agent.Exec.{vm_error}
use greenference_node.Pods.Docker.{
  Completion, completed, missing, timed_out, Docker, Call, ◌>>=◌, pure, raise, nonempty, prefix,
}

unfoldable pub stub_start_pod : {W : Type 0} → Runtime → Workload → Call W Runtime
unfolding prefix pure
stub_start_pod runtime workload = pure (record runtime {
  container_id = some (concat ("stub-container-" ∷ prefix 8 runtime.deployment_id ∷ []));
  status = ready;
  current_stage = "ready";
})

unfoldable pub stub_stop_pod : {W : Type 0} → Runtime → Call W Runtime
unfolding pure
stub_stop_pod runtime =
    pure (record runtime { status = terminated; current_stage = "terminated"; container_id = none })

unfoldable pub stub_pause_pod : {W : Type 0} → Runtime → Call W Runtime
unfolding pure
stub_pause_pod runtime = pure (record runtime { status = suspended; current_stage = "suspended" })

unfoldable pub stub_resume_pod : {W : Type 0} → Runtime → Call W Runtime
unfolding pure
stub_resume_pod runtime = pure (record runtime { status = ready; current_stage = "ready" })

unfoldable pub stub_health : {W : Type 0} → Runtime → Call W (String × Bool)
unfolding pure
stub_health runtime = pure ("running", true)

unfoldable pub stub_exec_command : {W : Type 0} → Runtime → List String → Call W String
unfolding pure join
stub_exec_command runtime command =
    pure (concat ("stub output for: " ∷ join " " command ∷ "\n" ∷ []))

-- `runtime.ssh_port or 22`
port_or : Option ℕ → ℕ → ℕ
port_or none d = d
port_or (some p) d = if p == 0 then d else p

unfoldable pub stub_start_vm : {W : Type 0} → Runtime → Workload → Call W Runtime
unfolding prefix pure nonempty port_or
stub_start_vm runtime workload = pure (record runtime {
  vm_id = some (concat ("stub-vm-" ∷ prefix 8 runtime.deployment_id ∷ []));
  status = ready;
  current_stage = "ready";
  ssh_host = some (get_or (nonempty runtime.ssh_host) "127.0.0.1");
  ssh_port = some (port_or runtime.ssh_port 22);
})

unfoldable pub stop_vm : {W : Type 0} → Runtime → Call W Runtime
unfolding pure
stop_vm runtime =
    pure (record runtime { status = terminated; current_stage = "terminated"; vm_id = none })

unfoldable pub stub_vm_health : {W : Type 0} → Runtime → Call W (String × Bool)
unfolding pure
stub_vm_health runtime = pure ("running", true)

version_checked : {W : Type 0} → Completion → Call W (Unit {0})
unfolding pure raise
version_checked (completed true out err) = pure tt
version_checked (completed false out err) = raise (vm_error "vm_start_failure")
version_checked missing = raise (vm_error "vm_start_failure")
version_checked timed_out = raise (vm_error "vm_start_failure")

unfoldable pub firecracker_start_vm : {W : Type 0} → Docker W → Runtime → Workload → Call W Runtime
unfolding version_checked prefix ◌>>=◌ pure
firecracker_start_vm docker runtime workload = do
  result ← docker.run ("firecracker" ∷ "--version" ∷ [])
  checked ← version_checked result
  pure (record runtime {
    vm_id = some (concat ("fc-" ∷ prefix 8 runtime.deployment_id ∷ []));
    status = ready;
    current_stage = "ready";
  })

unfoldable pub firecracker_health : {W : Type 0} → Runtime → Call W (String × Bool)
unfolding nonempty pure
firecracker_health runtime = elim (nonempty runtime.vm_id) [
  | none ↦ pure ("not_started", false)
  | some v ↦ pure ("running", true)
]
