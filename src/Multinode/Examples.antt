-- ===== src/Multinode/Examples.antt =====
-- Two nodes with four GPUs each.
use greenference_node.Base.{
  ◌≡◌, ◌≤ℤ◌, ◌*ℤ◌, negate, arith, refl, String, false, none, some, List, [], ◌∷◌, pos,
}
use greenference_node.Dict.{Dict, lookup}
use greenference_node.Multinode.Payload.{Value, number, text, infinite, read, overflowed}
use greenference_node.Multinode.Params.{MultiNodeParams, head, parse_multi_node_params}
use greenference_node.Multinode.Topology.{
  validate_params, stages_cover_nodes, negative_degrees_pass,
}
use greenference_node.Multinode.Commands.{rank_flags}
use greenference_node.Multinode.Flags.{IsFree, ports, shm, given, server_words, rank_flags-given}

abbrev first_rank : MultiNodeParams
first_rank = record {
  role = head;
  rank = pos 0;
  head_host = "";
  tensor_parallel_size = pos 4;
  pipeline_parallel_size = pos 2;
  gpus_per_node = pos 4;
  node_count = pos 2;
  replica_id = "";
  head_port = pos 6379;
  cluster_wait_seconds = pos 1800;
}

first_rank_valid : validate_params first_rank ≡ []
unfolding validate_params ◌*ℤ◌
first_rank_valid = refl

stages_cover_nodes_example : (pos 2 ≤ℤ pos 2) × (pos 2 ≤ℤ pos 2)
stages_cover_nodes_example = stages_cover_nodes first_rank first_rank_valid (omega arith)

negative_degrees_pass_example :
    validate_params (record first_rank {
      tensor_parallel_size = negate (pos 4);
      pipeline_parallel_size = negate (pos 2);
    })
    ≡ []
negative_degrees_pass_example = negative_degrees_pass first_rank first_rank_valid (omega arith)

abbrev endless : Dict Value
endless =
    ("role", text "worker")
    ∷ ("node_count", infinite false)
    ∷ ("gpus_per_node", number (pos 4))
    ∷ []

raises : parse_multi_node_params (some endless) ≡ overflowed
unfolding parse_multi_node_params lookup
raises = refl

abbrev plain : Dict Value
plain = ("role", text "Head") ∷ ("node_count", text " 2 ") ∷ ("gpus_per_node", number (pos 4)) ∷ []

parses : parse_multi_node_params (some plain) ≡ read (some first_rank)
unfolding parse_multi_node_params lookup
parses = refl

abbrev serve : List String
serve = "--model" ∷ "m" ∷ "--tensor-parallel-size" ∷ "8" ∷ []

abbrev single_node : List String
single_node = "docker" ∷ "run" ∷ "--shm-size" ∷ "8g" ∷ "-p" ∷ "127.0.0.1:9000:8000" ∷ []

abbrev argv : List String
argv = server_words ("vllm" ∷ "serve" ∷ []) serve first_rank

rank_flags-given_example :
    IsFree ports (rank_flags single_node)
    × (given shm "--shm-size" none (rank_flags single_node) ≡ "32g" ∷ [])
rank_flags-given_example = rank_flags-given single_node
