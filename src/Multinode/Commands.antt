-- ===== src/Multinode/Commands.antt =====
-- The shell commands of a rank, and the rewrite of a single-node docker run. Hosts are ASCII.
use greenference_node.Base.{ℕ, ◌+◌, ◌*◌, ◌/◌, ◌%◌, String, List, [], ◌∷◌, ◌++◌, take, if◌then◌else◌}
use greenference_node.Text.{codes}
use greenference_node.Text.Words.{concat, join, split, show_int}
use greenference_node.Multinode.Params.{MultiNodeParams, is_head, total_gpus}
use greenference_node.Multinode.Options.{
  set_shm_size, strip_port_publish, strip_parallelism_flags, docker_network_flags,
  docker_ulimit_flags, build_distributed_vllm_flags,
}
use Prim.Native.Char.{Char}
use Prim.Native.String.{char_at}

-- One digit of base64.
unfoldable pub sextet : ℕ → Char
sextet n = char_at "ABCDEFGHIJKLMNOPQRSTUVWXYZabcdefghijklmnopqrstuvwxyz0123456789+/" n

-- `base64.b64encode` of ASCII
unfoldable pub b64encode : List ℕ → String
unfolding sextet
b64encode [] = ""
b64encode (a ∷ []) = String.◌∷◌ (sextet (a / 4)) (String.◌∷◌ (sextet (a % 4 * 16)) "==")
b64encode (a ∷ b ∷ []) =
    String.◌∷◌ (sextet (a / 4))
      (String.◌∷◌ (sextet (a % 4 * 16 + b / 16)) (String.◌∷◌ (sextet (b % 16 * 4)) "="))
b64encode (a ∷ b ∷ c ∷ rest) = String.◌∷◌ (sextet (a / 4)) (
    String.◌∷◌ (sextet (a % 4 * 16 + b / 16))
      (String.◌∷◌ (sextet (b % 16 * 4 + c / 64)) (String.◌∷◌ (sextet (c % 64)) (b64encode rest))))

unfoldable pub ray_bootstrap : String
ray_bootstrap = "command -v ray >/dev/null 2>&1 || pip install -q \"ray[default]\""

-- _NIC_PROBE, with the prefix in its place
unfoldable pub nic_probe : String → String
nic_probe prefix = concat (
    "import socket,fcntl,struct,os\n" ∷ "p=\"" ∷ prefix ∷ "\"\n" ∷ "r=\"\"\n"
    ∷ "for i in sorted(os.listdir(\"/sys/class/net\")):\n" ∷ "    try:\n"
    ∷ "        s=socket.socket(socket.AF_INET,socket.SOCK_DGRAM)\n"
    ∷ "        a=socket.inet_ntoa(fcntl.ioctl(s.fileno(),0x8915,struct.pack(\"256s\",i[:15].encode()))[20:24])\n"
    ∷ "        if a.startswith(p):\n" ∷ "            r=i\n" ∷ "            break\n"
    ∷ "    except OSError:\n" ∷ "        pass\n" ∷ "print(r)\n" ∷ [])

-- `".".join(head_host.split(".")[:3]) + "."`
unfoldable pub cluster_prefix : String → String
unfolding split join
cluster_prefix head_host = concat (join "." (take 3 (split b'.' head_host)) ∷ "." ∷ [])

unfoldable pub build_nic_pin_command : String → String
unfolding b64encode nic_probe cluster_prefix
build_nic_pin_command head_host = concat (
    "echo "
    ∷ b64encode (codes (nic_probe (cluster_prefix head_host)))
    ∷ " | base64 -d > /tmp/gc_nic.py; "
    ∷ "GC_NIC=$(python3 /tmp/gc_nic.py); "
    ∷ "[ -n \"$GC_NIC\" ] && export NCCL_SOCKET_IFNAME=$GC_NIC "
    ∷ "GLOO_SOCKET_IFNAME=$GC_NIC NCCL_IB_DISABLE=1; "
    ∷ "echo \"greencompute: pinned NCCL/Gloo to ${GC_NIC:-auto}\""
    ∷ [])

unfoldable pub build_ray_start_command : MultiNodeParams → String
unfolding is_head show_int
build_ray_start_command p =
    let common = concat (
      "--num-gpus="
      ∷ show_int p.gpus_per_node
      ∷ " --disable-usage-stats "
      ∷ "--object-store-memory=8589934592"
      ∷ []) in
    if is_head p
    then concat ("ray start --head --port=" ∷ show_int p.head_port ∷ " " ∷ common ∷ [])
    else concat
        ("ray start --address=" ∷ p.head_host ∷ ":" ∷ show_int p.head_port ∷ " " ∷ common ∷ [])

unfoldable pub build_cluster_wait_command : MultiNodeParams → String
unfolding total_gpus show_int join
build_cluster_wait_command p = concat (
    "python3 -c \""
    ∷ join "\n" (
        "import ray, sys, time"
        ∷ "ray.init(address='auto')"
        ∷ concat ("expected = " ∷ show_int (total_gpus p) ∷ [])
        ∷ concat ("deadline = time.time() + " ∷ show_int p.cluster_wait_seconds ∷ [])
        ∷ "gpus = lambda: ray.cluster_resources().get('GPU', 0)"
        ∷ "while gpus() < expected and time.time() < deadline:"
        ∷ "    time.sleep(5)"
        ∷ "sys.exit(0 if gpus() >= expected else 1)"
        ∷ [])
    ∷ "\""
    ∷ [])

build_worker_entrypoint : MultiNodeParams → List String
unfolding ray_bootstrap build_nic_pin_command build_ray_start_command show_int
build_worker_entrypoint p =
    let address = concat (p.head_host ∷ ":" ∷ show_int p.head_port ∷ []) in
    let wait = show_int p.cluster_wait_seconds in
    "sh"
    ∷ "-c"
    ∷ concat (
        ray_bootstrap
        ∷ "; "
        ∷ build_nic_pin_command p.head_host
        ∷ "; "
        ∷ "deadline=$(( $(date +%s) + "
        ∷ wait
        ∷ " )); "
        ∷ "until "
        ∷ build_ray_start_command p
        ∷ " --block; do "
        ∷ "  if [ $(date +%s) -ge $deadline ]; then "
        ∷ "    echo \"multi-node worker: head "
        ∷ address
        ∷ " unreachable after "
        ∷ wait
        ∷ "s\" >&2; exit 1; "
        ∷ "  fi; "
        ∷ "  echo \"waiting for ray head "
        ∷ address
        ∷ "...\"; "
        ∷ "  sleep 10; "
        ∷ "done"
        ∷ [])
    ∷ []

build_head_entrypoint : MultiNodeParams → List String → List String
unfolding ray_bootstrap build_nic_pin_command build_ray_start_command build_cluster_wait_command
    join
build_head_entrypoint p vllm_argv =
    "sh"
    ∷ "-c"
    ∷ join " && " (
        ray_bootstrap
        ∷ build_nic_pin_command p.head_host
        ∷ build_ray_start_command p
        ∷ build_cluster_wait_command p
        ∷ join " " vllm_argv
        ∷ [])
    ∷ []

-- The server's command on the head.
unfoldable pub head_argv : String → List String → MultiNodeParams → List String
unfolding strip_parallelism_flags build_distributed_vllm_flags
head_argv vllm_entry serve_argv p =
    vllm_entry ∷ strip_parallelism_flags serve_argv ++ build_distributed_vllm_flags p

-- The docker flags of a rank.
unfoldable pub rank_flags : List String → List String
unfolding set_shm_size strip_port_publish docker_network_flags docker_ulimit_flags
rank_flags docker_flags =
    set_shm_size (strip_port_publish docker_flags)
    ++ (docker_network_flags ++ (docker_ulimit_flags ++ ("--entrypoint" ∷ "sh" ∷ [])))

-- `argv[1:]`
tail : List String → List String
tail [] = []
tail (a ∷ argv) = argv

unfoldable pub build_docker_command :
    List String → String → List String → MultiNodeParams → String → List String
unfolding rank_flags head_argv tail is_head build_head_entrypoint build_worker_entrypoint
build_docker_command docker_flags image serve_argv p vllm_entry =
    let argv =
      if is_head p
      then build_head_entrypoint p (head_argv vllm_entry serve_argv p)
      else build_worker_entrypoint p in
    rank_flags docker_flags ++ image ∷ tail argv
