-- ===== src/Agent/Safety.antt =====
-- Two invariants of the running service: on who owns a device, and on the state file.
use greenference_node.Base.{ℕ, String, some, List, [], ◌∷◌, ◌≡◌, refl, true}
use greenference_node.Allocator.Invariant.{
  IsSound, holds, allocate-IsSound, allocate_specific-IsSound, release-IsSound,
}
use greenference_node.Repository
use greenference_node.Repository.{open_repository}
use greenference_node.Repository.Persistence.{
  AreFaithful, HasUniqueKeys, Write, upserts, removes, Write-HasUniqueKeys, reopen-Write,
}
use greenference_node.Protocol.{Settings}
use greenference_node.Agent.Exec.{Agent, modify, locked}
use greenference_node.Agent.Host.{Host}
use greenference_node.Agent.Parts.{
  codecs, upsert_runtime, remove_runtime, release_gpus, allocate_gpus, allocate_specific_gpus,
  pop_volume, file_volume, note_sent,
}
use greenference_node.Agent.Kept.{IsKept, IsLocal}
use greenference_node.Agent.Kept.Passes.{reconcile_once-Keeps}
use greenference_node.Agent.Kept.Recoveries.{
  recover_runtime_state-Keeps, terminate_deployment-Keeps,
}
use greenference_node.Agent.Cleanup.{reconcile_once}
use greenference_node.Agent.Recovery.{recover_runtime_state, terminate_deployment}

-- What the worker loop and the routes ask of the service.
pub data Operation : Type 0 where
  reconciles : String → Operation
  recovers : Operation
  terminates : String → Operation

module _ {W : Type 0} (host : Host W) (s : Settings) (draws : ℕ) where
  abbrev pub perform : Operation → Agent W → Agent W
  perform (reconciles hotkey) a = (reconcile_once host s draws hotkey a).1
  perform recovers a = (recover_runtime_state host a).1
  perform (terminates d) a = (terminate_deployment host d a).1

  -- The operations in order, each from where the one before it ended, also if it raised.
  unfoldable pub run : List Operation → Agent W → Agent W
  run [] a = a
  run (op ∷ ops) a = run ops (perform op a)

  perform-kept :
      {P : Agent W → Type 0} (k : IsKept P) (op : Operation) (a : Agent W) → P a → P (perform op a)
  perform-kept k (reconciles hotkey) a p = (reconcile_once-Keeps k host s draws hotkey).at a p
  perform-kept k recovers a p = (recover_runtime_state-Keeps k host).at a p
  perform-kept k (terminates d) a p = (terminate_deployment-Keeps k host d).at a p

  pub run-kept :
      {P : Agent W → Type 0} (k : IsKept P) (ops : List Operation) (a : Agent W)
      → P a
      → P (run ops a)
  unfolding run
  run-kept k [] a p = p
  run-kept k (op ∷ ops) a p = run-kept k ops (perform op a) (perform-kept k op a p)

module _ {W : Type 0} where
  abbrev pub HasSoundAllocator : Agent W → Type 0
  HasSoundAllocator a = IsSound a.gpu_allocator

  HasSoundAllocator-local : IsLocal HasSoundAllocator
  unfolding upsert_runtime remove_runtime release_gpus pop_volume file_volume note_sent modify
      locked
  HasSoundAllocator-local = record {
    inner = record { world = λ a w p. p; lock = λ a b p. p };
    upserts = λ rt. record { at = λ a p. p };
    removes = λ d. record { at = λ a p. p };
    releases = λ d. record { at = λ a p. release-IsSound d a.gpu_allocator p };
    pops = λ d. record { at = λ a p. p };
    files = λ d v. record { at = λ a p. p };
    notes = λ u. record { at = λ a p. p };
  }

  pub HasSoundAllocator-kept : IsKept HasSoundAllocator
  unfolding allocate_gpus allocate_specific_gpus
  HasSoundAllocator-kept = record {
    local = HasSoundAllocator-local;
    allocates =
        λ d n avoid. record { at = λ a p. allocate-IsSound d n (some avoid) a.gpu_allocator p };
    reserves = λ d l. record { at = λ a p. allocate_specific-IsSound d l a.gpu_allocator p };
  }

-- Whatever passes, recoveries and terminations run from a sound allocator, and whatever the control
-- plane and the backends answer or raise, no GPU comes to belong to two deployments.
run_exclusive :
    {W : Type 0} (host : Host W) (s : Settings) (draws : ℕ) (ops : List Operation) (a : Agent W)
    (d e : String) (x : ℕ)
    → IsSound a.gpu_allocator
    → holds d x (run host s draws ops a).gpu_allocator ≡ true
    → holds e x (run host s draws ops a).gpu_allocator ≡ true
    → d ≡ e
run_exclusive host s draws ops a d e x sound =
    (run-kept host s draws HasSoundAllocator-kept ops a sound).exclusive d e x

codecs-AreFaithful : AreFaithful codecs
unfolding codecs
codecs-AreFaithful = record {
  runtime = record { round = λ r. refl };
  placement = record { round = λ r. refl };
  volume = record { round = λ r. refl };
  collateral = record { round = λ r. refl };
}

module _ {W : Type 0} where
  -- The keys are unique, and a restart would read the repository that is in memory.
  abbrev pub IsPersisted : Agent W → Type 0
  IsPersisted a =
      HasUniqueKeys codecs a.repository × (open_repository codecs a.repository.file ≡ a.repository)

  IsPersisted-local : IsLocal IsPersisted
  unfolding upsert_runtime remove_runtime release_gpus pop_volume file_volume note_sent modify
      locked
  IsPersisted-local = record {
    inner = record { world = λ a w p. p; lock = λ a b p. p };
    upserts = λ rt. record {
      at = λ a p.
          let w : Write codecs a.repository
              (Repository.upsert_runtime codecs rt.deployment_id rt a.repository) =
            upserts rt.deployment_id rt a.repository in
          (Write-HasUniqueKeys codecs w p.0, reopen-Write codecs w codecs-AreFaithful p.0);
    };
    removes = λ d. record {
      at = λ a p.
          let w : Write codecs a.repository (Repository.remove_runtime codecs d a.repository) =
            removes d a.repository in
          (Write-HasUniqueKeys codecs w p.0, reopen-Write codecs w codecs-AreFaithful p.0);
    };
    releases = λ d. record { at = λ a p. p };
    pops = λ d. record { at = λ a p. p };
    files = λ d v. record { at = λ a p. p };
    notes = λ u. record { at = λ a p. p };
  }

  IsPersisted-kept : IsKept IsPersisted
  unfolding allocate_gpus allocate_specific_gpus
  IsPersisted-kept = record {
    local = IsPersisted-local;
    allocates = λ d n avoid. record { at = λ a p. p };
    reserves = λ d l. record { at = λ a p. p };
  }

-- After any operations on a service whose state file was current and whose tables repeated no key,
-- of which every write of the file went through, a restart reads back from the file exactly the
-- runtimes that were in memory. Of the keys of port_allocations, which are texts in the file, this
-- says it of the numbers that their readers make of them.
pub run_restart :
    {W : Type 0} (host : Host W) (s : Settings) (draws : ℕ) (ops : List Operation) (a : Agent W)
    → HasUniqueKeys codecs a.repository
    → open_repository codecs a.repository.file ≡ a.repository
    → open_repository codecs (run host s draws ops a).repository.file
      ≡ (run host s draws ops a).repository
run_restart host s draws ops a u e = (run-kept host s draws IsPersisted-kept ops a (u, e)).1
