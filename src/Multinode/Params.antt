-- ===== src/Multinode/Params.antt =====
-- MultiNodeParams and parse_multi_node_params.
use greenference_node.Base.{
  String, Bool, true, false, Option, none, some, ℤ, pos, if◌then◌else◌, ◌*ℤ◌,
}
use greenference_node.Dict.{Dict, lookup}
use greenference_node.Text.{codes, lower, same}
use greenference_node.Text.Words.{strip_text}
use greenference_node.Multinode.Payload.{
  Value, null, text, number, Reading, read, refused, overflowed, ◌>>=◌, to_int, to_str, truth,
}

pub data Role : Type 0 where
  head worker : Role

pub record MultiNodeParams : Type 0 where
  pub role : Role
  pub rank : ℤ
  pub head_host : String
  pub tensor_parallel_size : ℤ
  pub pipeline_parallel_size : ℤ
  pub gpus_per_node : ℤ
  pub node_count : ℤ
  pub replica_id : String
  pub head_port : ℤ
  pub cluster_wait_seconds : ℤ

unfoldable pub leads : Role → Bool
leads head = true
leads worker = false

unfoldable pub is_head : MultiNodeParams → Bool
unfolding leads
is_head p = leads p.role

unfoldable pub world_size : MultiNodeParams → ℤ
world_size p = p.tensor_parallel_size *ℤ p.pipeline_parallel_size

unfoldable pub total_gpus : MultiNodeParams → ℤ
total_gpus p = p.node_count *ℤ p.gpus_per_node

-- `role not in {HEAD, WORKER}` returns None.
unfoldable pub role_of : String → Reading Role
unfolding lower same
role_of s =
    let c = lower (codes s) in
    if same c (codes "head")
    then read head
    else if same c (codes "worker")
    then read worker
    else refused

-- `raw[key]`, with its KeyError
unfoldable pub required : String → Dict Value → Reading Value
required key raw = elim (lookup key raw) [ none ↦ refused | some v ↦ read v ]

-- `raw.get(key, default)`
unfoldable pub get_default : String → Value → Dict Value → Value
get_default key default raw = elim (lookup key raw) [ none ↦ default | some v ↦ v ]

-- `int(raw.get(key) or default)`
unfoldable pub int_or : String → ℤ → Dict Value → Reading ℤ
unfolding get_default truth to_int
int_or key default raw =
    let v = get_default key null raw in if truth v then to_int v else read default

-- The parser on the dict under "multi_node".
unfoldable pub parse_raw : Dict Value → Reading MultiNodeParams
unfolding role_of required get_default int_or to_int to_str ◌>>=◌ strip_text
parse_raw raw = do
  role ← role_of (to_str (get_default "role" (text "") raw))
  raw_nodes ← required "node_count" raw
  node_count ← to_int raw_nodes
  raw_gpus ← required "gpus_per_node" raw
  gpus_per_node ← to_int raw_gpus
  rank ← to_int (get_default "rank" (number (pos 0)) raw)
  tensor_parallel_size ← int_or "tensor_parallel_size" gpus_per_node raw
  pipeline_parallel_size ← int_or "pipeline_parallel_size" node_count raw
  head_port ← int_or "head_port" (pos 6379) raw
  cluster_wait_seconds ← int_or "cluster_wait_seconds" (pos 1800) raw
  read record {
    role = role;
    rank = rank;
    head_host = strip_text (to_str (get_default "head_host" (text "") raw));
    tensor_parallel_size = tensor_parallel_size;
    pipeline_parallel_size = pipeline_parallel_size;
    gpus_per_node = gpus_per_node;
    node_count = node_count;
    replica_id = to_str (get_default "replica_id" (text "") raw);
    head_port = head_port;
    cluster_wait_seconds = cluster_wait_seconds;
  }

-- The dict under "multi_node", if the payload is a dict that holds one there. `none` beside
-- `read` is the parser's None; an OverflowError leaves it.
unfoldable pub parse_multi_node_params : Option (Dict Value) → Reading (Option MultiNodeParams)
unfolding parse_raw
parse_multi_node_params none = read none
parse_multi_node_params (some raw) = elim (parse_raw raw) [
  | read params ↦ read (some params)
  | refused ↦ read none
  | overflowed ↦ overflowed
]
