-- ===== src/Agent/Exec.antt =====
-- A method of the service: it changes the agent, and returns or raises. What was written before a
-- raise stays written, so the agent comes back beside the exception too.
use greenference_node.Base.{
  none, some, some, false, true, String, Option, List, Bool, if◌then◌else◌,
}
use greenference_node.Dict.{Dict}
use greenference_node.Allocator.{GpuAllocator}
use greenference_node.Repository.{Repository}
use greenference_node.Protocol.{Runtime, Volume, StatusUpdate}

-- The exceptions, by the classes that the handlers tell apart. `still_running` is none of Python's:
-- it says that a loop was cut off by the model's fuel, and no handler catches it.
pub data Raised : Type 0 where
  still_running : Raised
  http_error ssh_error volume_error value_error other_error : Raised
  inference_error pod_error vm_error : String → Raised

pub data Outcome (A : Type 0) : Type 0 where
  returned : A → Outcome A
  raised : Raised → Outcome A

-- The service writes the runtimes of the repository alone; a dumped record is its runtime, and the
-- tables that the service never touches have nothing to dump.
abbrev pub RuntimeRepository : Type 0
RuntimeRepository = Repository Runtime Unit Unit Unit (Option Runtime)

-- The service's state. `sent` lists the status updates that it has asked the control plane to
-- record, the latest first; `reconciling` says that `_reconcile_lock` is held; `world` is all that
-- lies outside the process.
pub record Agent (W : Type 0) : Type 0 where
  pub repository : RuntimeRepository
  pub gpu_allocator : GpuAllocator
  pub volume_records : Dict Volume
  pub sent : List StatusUpdate
  pub reconciling : Bool
  pub world : W

abbrev pub Exec : Type 0 → Type 0 → Type 0
Exec W A = Agent W → Outcome A × Agent W

module _ {W A : Type 0} where
  unfoldable pub pure : A → Exec W A
  pure x a = (returned x, a)

  unfoldable pub raise : Raised → Exec W A
  raise e a = (raised e, a)

  -- a read of the agent
  unfoldable pub gets : (Agent W → A) → Exec W A
  gets f a = (returned (f a), a)

  -- a call that leaves the process
  unfoldable pub call : (W → Outcome A × W) → Exec W A
  call f a = let (r, w) = f a.world in (r, record a { world = w })

  unfoldable pub recover : (Raised → Exec W A) → Outcome A × Agent W → Outcome A × Agent W
  recover h (returned x, a) = (returned x, a)
  recover h (raised still_running, a) = (raised still_running, a)
  recover h (raised e, a) = h e a

  -- `try: m except: h`, where `h` raises again what the clause does not name
  unfoldable pub try_ : Exec W A → (Raised → Exec W A) → Exec W A
  unfolding recover
  try_ m h a = recover h (m a)

unfoldable pub modify : {W : Type 0} → (Agent W → Agent W) → Exec W (Unit {0})
modify f a = (returned tt, f a)

module _ {W A B : Type 0} where
  unfoldable pub continue : (A → Exec W B) → Outcome A × Agent W → Outcome B × Agent W
  continue f (returned x, a) = f x a
  continue f (raised e, a) = (raised e, a)

  infixl 5 ◌>>=◌ ◌>>◌
  unfoldable pub ◌>>=◌ : Exec W A → (A → Exec W B) → Exec W B
  unfolding continue
  ◌>>=◌ m f a = continue f (m a)

  abbrev pub ◌>>◌ : Exec W A → Exec W B → Exec W B
  m >> n = m >>= λ _. n

unfoldable pub locked : {W : Type 0} → Bool → Agent W → Agent W
locked b a = record a { reconciling = b }

module _ {W A : Type 0} where
  -- A loop that is still running holds the lock.
  unfoldable pub let_go : Outcome A × Agent W → Outcome A × Agent W
  unfolding locked
  let_go (raised still_running, a) = (raised still_running, a)
  let_go (r, a) = (r, locked false a)

  -- `if not lock.acquire(blocking=False): return busy`, and `finally: lock.release()`
  unfoldable pub unless_busy : A → Exec W A → Exec W A
  unfolding let_go
  unless_busy busy m a = if a.reconciling then (returned busy, a) else let_go (m (locked true a))

-- `if o is None: m`, else `f` of the value
unfoldable pub match_option : {W A B : Type 0} → Option A → Exec W B → (A → Exec W B) → Exec W B
match_option none m f = m
match_option (some x) m f = f x

-- `if b: m`
abbrev pub when : {W : Type 0} → Bool → Exec W (Unit {0}) → Exec W (Unit {0})
when b m = if b then m else pure tt
