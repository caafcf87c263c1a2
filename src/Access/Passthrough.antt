-- ===== src/Access/Passthrough.antt =====
-- services/node-agent/src/greencompute_node_agent/domain/gpu_docker.py: how a container is given its
-- GPUs. The three docker runs that probe the host are parameters; each may change the world.
use greenference_node.Base.{
  sym, ap, ℕ, ◌≡◌, refl, String, Bool, true, false, Option, none, some, List, [], ◌∷◌,
  if◌then◌else◌,
}
use greenference_node.Text.{show}
use Prim.Native.String.{◌++◌ as append}

pub data GpuMode : Type 0 where
  gpus runtime env_only : GpuMode

-- `",".join(str(d) for d in device_ids)`
unfoldable pub device_str : List ℕ → String
device_str [] = ""
device_str (d ∷ []) = show d
device_str (d ∷ e ∷ rest) = append (show d) (append "," (device_str (e ∷ rest)))

-- `None` and the empty list both mean all devices.
unfoldable pub flags : GpuMode → List ℕ → List String
unfolding device_str
flags gpus [] = "--gpus" ∷ "all" ∷ []
flags gpus (d ∷ rest) = "--gpus" ∷ append "\"device=" (append (device_str (d ∷ rest)) "\"") ∷ []
flags runtime [] = "--runtime=nvidia" ∷ "-e" ∷ "NVIDIA_VISIBLE_DEVICES=all" ∷ []
flags runtime (d ∷ rest) =
    "--runtime=nvidia" ∷ "-e" ∷ append "NVIDIA_VISIBLE_DEVICES=" (device_str (d ∷ rest)) ∷ []
flags env_only [] = "-e" ∷ "NVIDIA_VISIBLE_DEVICES=all" ∷ []
flags env_only (d ∷ rest) = "-e" ∷ append "NVIDIA_VISIBLE_DEVICES=" (device_str (d ∷ rest)) ∷ []

module _ {W : Type 0} (try_gpus try_runtime generate_cdi_specs : W → Bool × W) where
  -- after the specs were generated, or not
  unfoldable pub retry_gpus : Bool × W → GpuMode × W
  retry_gpus (false, w) = (env_only, w)
  retry_gpus (true, w) = let (works, w') = try_gpus w in (if works then gpus else env_only, w')

  unfoldable pub after_runtime : Bool × W → GpuMode × W
  unfolding retry_gpus
  after_runtime (true, w) = (runtime, w)
  after_runtime (false, w) = retry_gpus (generate_cdi_specs w)

  unfoldable pub after_gpus : Bool × W → GpuMode × W
  unfolding after_runtime
  after_gpus (true, w) = (gpus, w)
  after_gpus (false, w) = after_runtime (try_runtime w)

  unfoldable pub probe_gpu_mode : W → GpuMode × W
  unfolding after_gpus
  probe_gpu_mode w = after_gpus (try_gpus w)

  -- The mode, with the cache and the world after the call.
  unfoldable pub get_gpu_mode : Option GpuMode → W → GpuMode × Option GpuMode × W
  get_gpu_mode (some mode) w = (mode, some mode, w)
  get_gpu_mode none w = let (mode, w') = probe_gpu_mode w in (mode, some mode, w')

  unfoldable pub gpu_docker_flags : List ℕ → Option GpuMode → W → List String × Option GpuMode × W
  unfolding flags get_gpu_mode
  gpu_docker_flags device_ids cache w =
      let (mode, cache', w') = get_gpu_mode cache w in (flags mode device_ids, cache', w')

  -- Whether a docker run with `--gpus` was seen to work.
  abbrev pub SeenWorking : (W → Bool × W) → Type 0
  SeenWorking run = (w : W) × ((run w).0 ≡ true)

  -- A mode other than the last resort was seen working.
  abbrev pub IsVerified : GpuMode → Type 0
  IsVerified gpus = SeenWorking try_gpus
  IsVerified runtime = SeenWorking try_runtime
  IsVerified env_only = Unit

  retried : (w : W) (r : Bool × W) → r ≡ try_gpus w → IsVerified (if r.0 then gpus else env_only)
  retried w (true, v) e = (w, ap (λ r. r.0) (sym e))
  retried w (false, v) e = tt

  retry-IsVerified : (r : Bool × W) → IsVerified (retry_gpus r).0
  unfolding retry_gpus
  retry-IsVerified (false, w) = tt
  retry-IsVerified (true, w) = retried w (try_gpus w) refl

  after_runtime-IsVerified :
      (w : W) (r : Bool × W) → r ≡ try_runtime w → IsVerified (after_runtime r).0
  unfolding after_runtime
  after_runtime-IsVerified w (true, v) e = (w, ap (λ r. r.0) (sym e))
  after_runtime-IsVerified w (false, v) e = retry-IsVerified (generate_cdi_specs v)

  after_gpus-IsVerified : (w : W) (r : Bool × W) → r ≡ try_gpus w → IsVerified (after_gpus r).0
  unfolding after_gpus
  after_gpus-IsVerified w (true, v) e = (w, ap (λ r. r.0) (sym e))
  after_gpus-IsVerified w (false, v) e = after_runtime-IsVerified v (try_runtime v) refl

  -- A node that has not probed yet comes to use `--gpus` or the nvidia runtime only if a container
  -- that was started that way has worked; and from then on every call, in whatever world, gives
  -- the flags of that mode and probes no more.
  mode_settles :
      (w later : W) (device_ids others : List ℕ)
      → IsVerified (probe_gpu_mode w).0
        × (gpu_docker_flags others (gpu_docker_flags device_ids none w).1 later
            ≡ (flags (probe_gpu_mode w).0 others, some (probe_gpu_mode w).0, later))
  unfolding gpu_docker_flags probe_gpu_mode
  mode_settles w later device_ids others = (after_gpus-IsVerified w (try_gpus w) refl, refl)
