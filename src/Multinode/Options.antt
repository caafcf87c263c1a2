-- ===== src/Multinode/Options.antt =====
-- The flags of a docker run and of a server: set_shm_size, strip_port_publish,
-- strip_parallelism_flags, and the flags that a distributed rank adds.
use greenference_node.Base.{String, Bool, true, false, ◌&&◌, List, [], ◌∷◌, str_eq, if◌then◌else◌}
use greenference_node.Text.Words.{one_of, show_int}
use greenference_node.Multinode.Params.{MultiNodeParams}

-- The loop that the three functions share: a flag of `drop` goes, and so does what follows it.
unfoldable pub keep : Bool → String → List String → List String
keep true flag rest = rest
keep false flag rest = flag ∷ rest

unfoldable pub strip_flags : List String → Bool → List String → List String
unfolding keep one_of
strip_flags drop skip_next [] = []
strip_flags drop true (flag ∷ flags) = strip_flags drop false flags
strip_flags drop false (flag ∷ flags) =
    keep (one_of flag drop) flag (strip_flags drop (one_of flag drop) flags)

-- `[*out[:idx], "--shm-size", size, *out[idx:]]`
unfoldable pub after_docker_run : String → List String → List String
after_docker_run size (a ∷ b ∷ out) =
    if str_eq a "docker" && str_eq b "run"
    then a ∷ b ∷ "--shm-size" ∷ size ∷ out
    else "--shm-size" ∷ size ∷ a ∷ b ∷ out
after_docker_run size out = "--shm-size" ∷ size ∷ out

unfoldable pub set_shm_size : List String → List String
unfolding strip_flags after_docker_run
set_shm_size docker_flags =
    after_docker_run "32g" (strip_flags ("--shm-size" ∷ []) false docker_flags)

unfoldable pub strip_port_publish : List String → List String
unfolding strip_flags
strip_port_publish docker_flags = strip_flags ("-p" ∷ "--publish" ∷ []) false docker_flags

abbrev pub parallelism_flags : List String
parallelism_flags =
    "--tensor-parallel-size" ∷ "--pipeline-parallel-size" ∷ "--distributed-executor-backend" ∷ []

unfoldable pub strip_parallelism_flags : List String → List String
unfolding strip_flags
strip_parallelism_flags serve_argv = strip_flags parallelism_flags false serve_argv

unfoldable pub docker_network_flags : List String
docker_network_flags = "--network" ∷ "host" ∷ []

unfoldable pub docker_ulimit_flags : List String
docker_ulimit_flags = "--ulimit" ∷ "nofile=65536:524288" ∷ []

unfoldable pub build_distributed_vllm_flags : MultiNodeParams → List String
unfolding show_int
build_distributed_vllm_flags p =
    "--tensor-parallel-size"
    ∷ show_int p.tensor_parallel_size
    ∷ "--pipeline-parallel-size"
    ∷ show_int p.pipeline_parallel_size
    ∷ "--distributed-executor-backend"
    ∷ "ray"
    ∷ []
