-- ===== src/Agent/Kept/Pods.antt =====
-- The start of a pod keeps what the steps keep.
use greenference_node.Base.{ℕ, zero, suc, String, none, List, [], ◌∷◌}
use greenference_node.Protocol.{Runtime, Workload, Settings}
use greenference_node.Agent.Exec.{Agent, Raised, ssh_error, volume_error}
use greenference_node.Agent.Host.{Host}
use greenference_node.Agent.Keeps.{
  Keeps, keeps_rules, Keeps-raise, Keeps-pure, Keeps-bind, Keeps-call, Keeps-if,
}
use greenference_node.Devices.{mem}
use greenference_node.Agent.Ports
use greenference_node.Agent.Pod
use greenference_node.Agent.Kept.{IsKept, fail_runtime-Keeps}
use greenference_node.Agent.Kept.Starts.{with_gpus-Keeps, on_pod_error-Keeps, publish-Keeps}

module _ {W : Type 0} {P : Agent W → Type 0} (k : IsKept P) (host : Host W) (s : Settings) where
  open k use {local.{inner, upserts, files}}

  draw_unused-Keeps : (fuel : ℕ) (used : List ℕ) → Keeps P (Ports.draw_unused host s fuel used)
  unfolding Ports.draw_unused
  draw_unused-Keeps zero used = Keeps-raise _
  draw_unused-Keeps (suc fuel) used =
      Keeps-bind _ _ (Keeps-call _ inner)
        λ p. Keeps-if (mem p used) _ _ (draw_unused-Keeps fuel used) (Keeps-pure p)

  keeps_number-Keeps : (c : ℕ) (used : List ℕ) → Keeps P (Ports.keeps_number host s c used)
  unfolding Ports.keeps_number
  keeps_number-Keeps c used = search (keeps_rules, inner)

  no_port-Keeps : (e : Raised) → Keeps P (Ports.no_port host s e)
  unfolding Ports.no_port
  no_port-Keeps ssh_error = Keeps-pure none
  no_port-Keeps e = Keeps-raise e

  host_port_for-Keeps :
      (draws c : ℕ) (used : List ℕ) → Keeps P (Ports.host_port_for host s draws c used)
  unfolding Ports.host_port_for
  host_port_for-Keeps draws c used =
      search (keeps_rules, keeps_number-Keeps, draw_unused-Keeps, no_port-Keeps) depth 8

  allocate_ports-Keeps :
      (draws : ℕ) (l : List ℕ) (given : List (ℕ × ℕ)) (used : List ℕ)
      → Keeps P (Ports.allocate_ports host s draws l given used)
  unfolding Ports.allocate_ports
  allocate_ports-Keeps draws [] given used = Keeps-pure given
  allocate_ports-Keeps draws (c ∷ l) given used =
      search (keeps_rules, host_port_for-Keeps, allocate_ports-Keeps draws l)

  on_ssh_error-Keeps :
      (draws : ℕ) (rt : Runtime) (e : Raised) → Keeps P (Pod.on_ssh_error host s draws rt e)
  unfolding Pod.on_ssh_error
  on_ssh_error-Keeps draws rt ssh_error = search (keeps_rules, fail_runtime-Keeps k.local host)
  on_ssh_error-Keeps draws rt e = Keeps-raise e

  on_volume_error-Keeps :
      (draws : ℕ) (rt : Runtime) (e : Raised) → Keeps P (Pod.on_volume_error host s draws rt e)
  unfolding Pod.on_volume_error
  on_volume_error-Keeps draws rt volume_error =
      search (keeps_rules, fail_runtime-Keeps k.local host)
  on_volume_error-Keeps draws rt e = Keeps-raise e

  run_pod-Keeps :
      (draws : ℕ) (rt : Runtime) (w : Workload) → Keeps P (Pod.run_pod host s draws rt w)
  unfolding Pod.run_pod
  run_pod-Keeps draws rt w =
      search (keeps_rules, inner, upserts, on_pod_error-Keeps k host s, publish-Keeps k host s)
        depth 10

  new_volume-Keeps : (draws : ℕ) (rt : Runtime) (n : ℕ) → Keeps P (Pod.new_volume host s draws rt n)
  unfolding Pod.new_volume
  new_volume-Keeps draws rt n = search (keeps_rules, inner, files)

  place_pod-Keeps :
      (draws : ℕ) (rt : Runtime) (w : Workload) (keys : ℕ × String × String)
      → Keeps P (Pod.place_pod host s draws rt w keys)
  unfolding Pod.place_pod
  place_pod-Keeps draws rt w (p, a, b) =
      search
        (
          keeps_rules,
          allocate_ports-Keeps,
          with_gpus-Keeps k host s,
          new_volume-Keeps,
          on_volume_error-Keeps,
          run_pod-Keeps,
        )
        depth 10

  ssh_setup-Keeps : (draws : ℕ) → Keeps P (Pod.ssh_setup host s draws)
  unfolding Pod.ssh_setup
  ssh_setup-Keeps draws = search (keeps_rules, inner)

  pub start_pod_runtime-Keeps :
      (draws : ℕ) (rt : Runtime) (w : Workload) → Keeps P (Pod.start_pod_runtime host s draws rt w)
  unfolding Pod.start_pod_runtime
  start_pod_runtime-Keeps draws rt w =
      search (keeps_rules, ssh_setup-Keeps, on_ssh_error-Keeps, place_pod-Keeps) depth 8
