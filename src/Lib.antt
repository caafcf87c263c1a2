-- ===== src/Lib.antt =====
-- The node agent of the Green Compute subnet (services/node-agent), which rents out the GPUs of one
-- machine: it takes leases from a control plane, starts a container or a VM for each, and gives the
-- devices back when the lease ends.
--
-- The parts and the files that model them, with paths from the repository's root; P stands for
-- services/node-agent/src/greencompute_node_agent.
--   Base, Dict, Devices, Text  shared names, Python's dicts, sets of device indices and texts.
--   Allocator                  P/domain/gpu_allocator.py: GpuAllocator, one function per method.
--   Repository                 P/infrastructure/repository.py: NodeAgentRepository and its file.
--   Templates                  P/domain/templates.py.
--   Protocol                   the fields of greencompute_protocol's records that the agent uses.
--   Agent                      P/application/services.py: NodeAgentService.
--   Web                        P/transport/routes.py: the routes and their guards; get_ssh_access and
--                              invoke_inference of the service, and build_ssh_access of P/domain/ssh.py.
--   Access                     P/transport/redaction.py, P/transport/security.py, choose_free_port of
--                              P/domain/ssh.py, and P/domain/gpu_docker.py.
--   Pods                       P/domain/pod.py: ProcessPodBackend and StubPodBackend; P/domain/vm.py.
--   Multinode                  P/domain/multinode_launch.py: the parameters of one node of a
--                              distributed replica, their validation, and the commands of its ranks.
--   Inference                  P/domain/inference.py: the choice of the vLLM image,
--                              DockerInferenceBackend and StagedArtifactStore; Inference/Fallback is
--                              ProcessInferenceBackend and LocalArtifactInferenceBackend.
--   Models                     P/domain/model_backend.py, P/runtime_server.py, and invoke and stream
--                              of LocalArtifactInferenceBackend.
--   Disk                       P/domain/disk.py: the quota mode and the loop volumes;
--                              P/domain/volume.py: LocalVolumeManager.
--   Worker                     P/main.py: the start-up, the two background loops and the readiness.
--   Config                     P/config.py: the parsers of the node labels and of a Boolean variable.
--
-- A method of the service is a function from the agent to an outcome, which is a value or an
-- exception, and the agent after it (Agent/Exec). The agent holds the repository, the allocator,
-- the volume records, the lock of a pass, the status updates that were sent, and the world outside.
-- Agent/Host is the interface to that world: the control plane's client, the backends, the artifact
-- store, the volumes, the port probe and nvidia-smi. Each of its calls may return anything, raise
-- anything and change the world. The handlers keep the names of the Python methods, without the
-- leading underscore: Lifecycle (_fail_runtime, _terminate_runtime, _suspend_runtime, the reports),
-- Ports and Pod (_start_pod_runtime), Prepare and Start (_start_inference_runtime,
-- _start_vm_runtime, _foreign_busy_devices), Resume (_resume_runtime), Reconcile and Cleanup
-- (reconcile_once, sync_leases, _reconcile_once_locked, _reconcile_workload), Recovery
-- (_rehydrate_gpu_allocator, recover_runtime_state, terminate_deployment), Advertise
-- (build_capacity_update). Agent/Keeps and Agent/Gives reason about methods by how they are built;
-- Agent/Kept goes through the handlers once, for any property that the steps on the agent's parts
-- keep.
--
-- A route is a constructor of Request (Web/Routes): handle reads the settings, asks for the secret
-- where the route is a sensitive one, and runs the handler on the agent; an exception that no
-- handler catches is a response 500. Web/Wire is what the routes rely on of the rest of the
-- process: the payloads of the protocol, the requests that are forwarded and the model behind a
-- runtime.
--
-- An iteration of a loop of the process is one step (Worker), which ends in the exception that the
-- loop logs. A schedule (Worker/Schedule) chooses at each moment among the loops, the operations
-- that clients ask for, and another thread's pass that takes the reconcile lock or gives it back.
-- Worker/Ends has the rules by which a method ends in a world that answers.
--
-- A backend's operation is a function from the world to an outcome and the world after it
-- (Pods/Docker). Every run of the docker command line, or of a tool of the host, goes through one
-- interface, whose runs may succeed, fail, time out, miss the binary, raise anything else and
-- change the world. Pods/Contract states what the service relies on of a pod backend; the functions
-- of Pods/Process and Pods/Stub have the types of the calls of Agent/Host. Inference/Command builds
-- the docker run of a model and Multinode/Commands rewrites it for a rank; Inference/Launch runs it
-- and waits. Pods/Contract (Ensures), Inference/Seen (Leads), Disk/Volumes (After) and
-- Multinode/Payload (Reads) have one rule for each way to build an operation, as Agent/Gives has
-- for the methods. A payload's member is one of the values of JSON, with Python's int, str and
-- truth of it.
--
-- Bounds: the loop that draws a host port until it finds an unused one takes the number of draws
-- (`draws`) as fuel, and is then still running: the exception `still_running`, which no handler
-- catches and which leaves the lock taken. The number is a parameter throughout, since the loop in
-- the code has no bound. In Access/FreePort the random numbers are a list, which may run out before
-- the loop ends: still_drawing. The wait for a pod's sshd takes one round for each 1.5 seconds of
-- its timeout, and one more; the wait for a server takes its rounds as a parameter and is still
-- running where they are too few. The wait for a process takes a round for each 200 ms of its
-- timeout, and one more, as each round sleeps for 200 ms. Random numbers and the hash that seeds
-- them are parameters of the models of text. Device indices and counts are naturals, and the
-- numbers of a payload are integers; Python's integers do not overflow.
--
-- The allocator's and the repository's methods hold their lock throughout, so a method is one step
-- and the calls of several threads are a sequence (Allocator/Interleaving). Passes and recoveries
-- hold the reconcile lock; terminate_deployment does not, and an interleaving of it with a pass is
-- not modelled. The service takes the port probe as any function of the world; it does not use
-- Access/FreePort.
--
-- Not modelled: an error of the disk when the state file is written; a header that is not ASCII, on
-- which the comparison of secrets raises; what docker, Firecracker and the host's tools do,
-- sockets, key generation, since these are effects on the host; what the transformers, torch and
-- diffusers libraries load and generate; the HTTP calls of invoke and stream of the Docker and
-- process backends, and the gateway address of _docker_host; the parse of a request by the web
-- framework and the body of a proxied stream; a pod's share of CPU and memory and the figures of
-- pod_stats.py, gpu_probe.py and telemetry.py, which are computed with floats (the docker run takes
-- the shares as its arguments, and the others are calls of Agent/Host and Web/Wire); load_settings,
-- which copies variables into fields; images/diffusion/server.py, a program of its own around
-- diffusers; time stamps of records and the notes in their metadata; the fields of records that
-- nothing else in the agent reads.
pub mod Base
pub mod Dict
pub mod Config
pub mod Models
pub mod Web
pub mod Worker
pub mod Devices
pub mod Allocator
pub mod Repository
pub mod Text
pub mod Protocol
pub mod Agent
pub mod Access
pub mod Templates
pub mod Multinode
pub mod Pods
pub mod Inference
pub mod Disk
