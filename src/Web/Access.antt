-- ===== src/Web/Access.antt =====
-- `build_ssh_access` of domain/ssh.py, and the methods of services.py that look a runtime up for a
-- route: get_ssh_access and invoke_inference.
use greenference_node.Base.{ℕ, zero, suc, String, Bool, Option, none, some, if◌then◌else◌, get_or}
use greenference_node.Protocol.{Runtime}
use greenference_node.Agent.Exec.{Exec, pure, call, ◌>>=◌}
use greenference_node.Agent.Parts.{get_runtime}
use greenference_node.Pods.Docker.{nonempty}
use greenference_node.Web.Wire.{Wire, SshAccess, is_ready, is_pod, is_inference}

-- `port or 22`
port_or_22 : Option ℕ → ℕ
port_or_22 none = 22
port_or_22 (some zero) = 22
port_or_22 (some (suc n)) = suc n

unfoldable pub build_ssh_access : Runtime → Bool → Option String → SshAccess
unfolding nonempty port_or_22 is_ready
build_ssh_access rt include_private_key private_key = record {
  deployment_id = rt.deployment_id;
  host = get_or (nonempty rt.ssh_host) "127.0.0.1";
  port = port_or_22 rt.ssh_port;
  private_key = if include_private_key then private_key else none;
  ready = is_ready rt.status;
}

unfoldable pub pod_access : Bool → Option Runtime → Option SshAccess
unfolding is_pod build_ssh_access
pod_access include_private_key none = none
pod_access include_private_key (some rt) =
    if is_pod rt.workload_kind
    then some (
        build_ssh_access rt include_private_key
          (if include_private_key then rt.ssh_private_key else none))
    else none

unfoldable pub get_ssh_access : {W : Type 0} → String → Bool → Exec W (Option SshAccess)
unfolding pod_access
get_ssh_access deployment_id include_private_key = do
  rt ← get_runtime deployment_id
  pure (pod_access include_private_key rt)

unfoldable pub invoke_on : {P W : Type 0} → Wire P W → P → Option Runtime → Exec W (Option P)
unfolding is_inference is_ready
invoke_on wire payload none = pure none
invoke_on wire payload (some rt) =
    if is_inference rt.workload_kind
    then (if is_ready rt.status
        then (call (wire.invoke rt payload) >>= λ p. pure (some p))
        else pure none)
    else pure none

unfoldable pub invoke_inference : {P W : Type 0} → Wire P W → String → P → Exec W (Option P)
unfolding invoke_on
invoke_inference wire deployment_id payload = do
  rt ← get_runtime deployment_id
  invoke_on wire payload rt
