-- ===== src/Agent/Examples/Exposure.antt =====
-- The ports of a pod on the node of the examples.
use greenference_node.Agent.Host.{Host}
use greenference_node.Base.{◌≡◌, refl, [], ◌∷◌, none, some}
use greenference_node.Devices.{mem}
use greenference_node.Protocol.{port, not_a_number, inference, Workload}
use greenference_node.Agent.Exec.{
  returned, raised, still_running, pure, call, try_, ◌>>=◌, continue, recover, match_option,
}
use greenference_node.Agent.Ports.{
  requested_ports, draw_unused, keeps_number, host_port_for, allocate_ports,
}
use greenference_node.Agent.Exposed.{IsDistinct, IsPortList, requested_ports-IsPortList}
use greenference_node.Agent.HostPorts.{allocate_ports-IsDistinct, draws_never_end}
use greenference_node.Agent.Examples.{cut_off, settings, node}

requested_ports-IsPortList_example :
    IsPortList (requested_ports (port 8888 ∷ port 22 ∷ not_a_number ∷ port 8888 ∷ []))
requested_ports-IsPortList_example =
    requested_ports-IsPortList (port 8888 ∷ port 22 ∷ not_a_number ∷ port 8888 ∷ [])

two_ports :
    (allocate_ports cut_off settings 10 (30001 ∷ 8888 ∷ []) [] [] node).0
    ≡ returned ((30001, 30001) ∷ (8888, 30000) ∷ [])
unfolding allocate_ports host_port_for keeps_number draw_unused call try_ recover ◌>>=◌ continue
    pure match_option mem
two_ports = refl

allocate_ports-IsDistinct_example : IsDistinct (30001 ∷ 30000 ∷ [])
unfolding mem
allocate_ports-IsDistinct_example =
    allocate_ports-IsDistinct cut_off settings 10 (30001 ∷ 8888 ∷ []) node
      ((30001, 30001) ∷ (8888, 30000) ∷ []) two_ports

draws_never_end_example :
    (draw_unused cut_off settings 1000 (30000 ∷ []) node).0 ≡ raised still_running
unfolding mem
draws_never_end_example =
    draws_never_end cut_off settings 30000 (30000 ∷ []) (λ w. refl) refl 1000 node

-- the same host, where something runs on the devices 1 and 2
abbrev squatted : Host Unit
squatted = record cut_off { busy_gpu_devices = λ w. (returned (1 ∷ 2 ∷ []), w) }

abbrev job : Workload
job = record {
  kind = inference;
  name = "n";
  image = "i";
  model_identifier = none;
  runtime_kind = "hf-causal-lm";
  gpu_count = some 1;
  build_id = none;
  artifact_uri = none;
  artifact_digest = none;
  metadata_runtime_kind = "";
  tensor_parallel_size = none;
  hf_token = none;
  template = "";
  requested_ports = [];
  volume_size_gb = none;
  ssh_public_keys = [];
}
