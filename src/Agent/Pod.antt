-- ===== src/Agent/Pod.antt =====
-- `_start_pod_runtime` of services.py.
use greenference_node.Base.{
  ℕ, String, Option, none, some, List, [], ◌∷◌, if◌then◌else◌, get_or, str_eq, ◌==◌,
}
use greenference_node.Text.{codes, show, strip}
use greenference_node.Templates.{TemplateSpec, get_template}
use greenference_node.Protocol.{
  Runtime, RuntimeStatus, Workload, Settings, ssh_setup_failed, volume_creation_failed, Volume,
}
use greenference_node.Agent.Exec.{
  match_option, Exec, Raised, ssh_error, volume_error, pure, raise, call, try_, ◌>>=◌, ◌>>◌,
}
use greenference_node.Agent.Host.{Host}
use greenference_node.Agent.Parts.{file_volume, upsert_runtime}
use greenference_node.Agent.Lifecycle.{fail_runtime}
use greenference_node.Agent.Ports.{requested_ports, allocate_ports}
use greenference_node.Agent.Start.{with_gpus, with_devices, on_pod_error, publish}
use Prim.Native.String.{◌++◌ as append}

unfoldable pub no_gpu : Option TemplateSpec → ℕ → ℕ
no_gpu none gpu_count = gpu_count
no_gpu (some tpl) gpu_count = if tpl.gpu_percent == 0 then 0 else gpu_count

-- A template without a GPU takes none, whatever the requirements say.
unfoldable pub pod_gpu_count : Workload → ℕ
unfolding no_gpu
pod_gpu_count w = no_gpu (get_template w.template) (get_or w.gpu_count 1)

-- `[k for k in keys if k.strip()]`
unfoldable pub usable_keys : List String → List String
usable_keys [] = []
usable_keys (k ∷ rest) = elim (strip (codes k)) [
  | [] ↦ usable_keys rest
  | c ∷ t ↦ k ∷ usable_keys rest
]

unfoldable pub template_image : Option TemplateSpec → Option String
template_image none = none
template_image (some tpl) = some tpl.image

-- the workload's image, or else the template's
unfoldable pub pod_image : Workload → Option String
unfolding template_image
pod_image w = if str_eq w.image "" then template_image (get_template w.template) else some w.image

-- an optional value in an f-string
abbrev text_of : Option String → String
text_of none = "None"
text_of (some t) = t

abbrev port_text : Option ℕ → String
port_text none = "None"
port_text (some p) = show p

unfoldable pub ssh_endpoint : Runtime → String
ssh_endpoint runtime =
    append "ssh://root@"
      (append (text_of runtime.ssh_host) (append ":" (port_text runtime.ssh_port)))

module _ {W : Type 0} (host : Host W) (s : Settings) (draws : ℕ) where
  unfoldable pub on_ssh_error : Runtime → Raised → Exec W (Option (ℕ × String × String))
  on_ssh_error runtime ssh_error = fail_runtime host runtime ssh_setup_failed >> pure none
  on_ssh_error runtime e = raise e

  unfoldable pub on_volume_error : Runtime → Raised → Exec W (Option Volume)
  on_volume_error runtime volume_error =
      fail_runtime host runtime volume_creation_failed >> pure none
  on_volume_error runtime e = raise e

  unfoldable pub ssh_setup : Exec W (Option (ℕ × String × String))
  ssh_setup = do
    ssh_port ← call (host.choose_free_port s.ssh_port_range_start s.ssh_port_range_end)
    keys ← call host.generate_ssh_keypair
    pure (some (ssh_port, keys.0, keys.1))

  unfoldable pub new_volume : Runtime → ℕ → Exec W (Option Volume)
  new_volume runtime size_gb = do
    volume ← call (host.create_volume runtime.deployment_id size_gb)
    file_volume runtime.deployment_id volume
    pure (some volume)

  unfoldable pub pod_record :
      Runtime → Workload → ℕ → String → String → List (ℕ × ℕ) → Volume → Runtime
  unfolding pod_image
  pod_record runtime w ssh_port private_key public_key ports volume = record runtime {
    status = RuntimeStatus.starting;
    current_stage = "start_pod";
    gpu_fraction = pod_gpu_count w;
    image = pod_image w;
    ssh_host = some s.ssh_host;
    ssh_port = some ssh_port;
    volume_path = some volume.path;
    ssh_private_key = some private_key;
    ssh_public_keys = public_key ∷ usable_keys w.ssh_public_keys;
    port_allocations = ports;
  }

  -- The pod has a volume and devices: it is started, waited for and published.
  unfoldable pub run_pod : Runtime → Workload → Exec W (Unit {0})
  unfolding ssh_endpoint
  run_pod starting w = do
    upsert_runtime starting
    started ←
        try_ (call (host.start_pod starting w) >>= λ r. pure (some r))
          (on_pod_error host s starting)
    match_option started (pure tt) λ r. (do
      verified ← call (host.wait_for_ready r)
      publish host s (record r { endpoint = some (ssh_endpoint r); ssh_verified = some verified }))

  -- with the SSH port and keys at hand
  unfoldable pub place_pod : Runtime → Workload → ℕ × String × String → Exec W (Unit {0})
  unfolding new_volume on_volume_error pod_record run_pod
  place_pod runtime w (ssh_port, private_key, public_key) = do
    ports ← allocate_ports host s draws (requested_ports w.requested_ports) [] []
    with_gpus host s runtime (pod_gpu_count w) λ devices. do
      created ← try_ (new_volume runtime (get_or w.volume_size_gb 50)) (on_volume_error runtime)
      match_option created (pure tt) λ volume.
          run_pod
            (with_devices (pod_record runtime w ssh_port private_key public_key ports volume)
              devices (pod_gpu_count w))
            w

  unfoldable pub start_pod_runtime : Runtime → Workload → Exec W (Unit {0})
  unfolding ssh_setup on_ssh_error place_pod
  start_pod_runtime runtime w = do
    setup ← try_ ssh_setup (on_ssh_error runtime)
    match_option setup (pure tt) λ keys. place_pod runtime w keys
