-- ===== src/Agent/Unreachable.antt =====
-- A recovery during an outage of the control plane, and the lock that passes and recoveries share.
use greenference_node.Base.{
  ◌≢◌, inr, inl, Bool-cases, ℕ, String, Bool, true, false, List, [], ◌∷◌, ◌≡◌, refl, arith,
}
use greenference_node.Allocator.{GpuAllocator}
use greenference_node.Protocol.{Runtime, RuntimeStatus, Settings, StatusUpdate}
use greenference_node.Agent.Exec.{
  Agent, Exec, Outcome, returned, raised, still_running, http_error, RuntimeRepository, pure, call,
  try_, ◌>>=◌, continue, recover, locked, let_go, unless_busy,
}
use greenference_node.Agent.Host.{Host}
use greenference_node.Agent.Keeps.{Keeps, IsInner, Keeps-pure, Keeps-bind, keeps_rules}
use greenference_node.Agent.Cleanup.{reconcile_once}
use greenference_node.Agent.Recovery.{
  unreachable, Tally, busy, ask, is_unreachable, settle, examine, recover_items,
  recover_runtime_state,
}

-- The agent's own records are these.
pub record Has {W : Type 0} (r : RuntimeRepository) (g : GpuAllocator) (l : List StatusUpdate)
    (a : Agent W) : Type 0 where
  pub repository : a.repository ≡ r
  pub gpu_allocator : a.gpu_allocator ≡ g
  pub sent : a.sent ≡ l

module _ {W : Type 0} (r : RuntimeRepository) (g : GpuAllocator) (l : List StatusUpdate) where
  Has-inner : IsInner {W = W} (Has r g l)
  unfolding locked
  Has-inner = record {
    world = λ a w p. record {
      repository = p.repository;
      gpu_allocator = p.gpu_allocator;
      sent = p.sent;
    };
    lock = λ a b p. record {
      repository = p.repository;
      gpu_allocator = p.gpu_allocator;
      sent = p.sent;
    };
  }

  module _ (host : Host W)
      (out : (d : String) (w : W) → (host.get_deployment d w).0 ≡ raised http_error) where
    ask_lem :
        (d : String) (a : Agent W)
        → ask host d a
          ≡ (returned unreachable, record a { world = (host.get_deployment d a.world).1 })
    unfolding ask try_ recover call is_unreachable pure ◌>>=◌ continue
    ask_lem d a = rw (out d a.world)

    asked_Keeps :
        (d : String) (rt : Runtime) (f : Bool → Tally)
        → Keeps
            (Has r g l)
            (ask host d >>= λ answer. settle host rt answer >>= λ kept. pure (f kept))
    unfolding ◌>>=◌ continue settle pure
    asked_Keeps d rt f = record { at = λ a p. rw (ask_lem d a) (Has-inner.world a _ p) }

    examine-Keeps :
        (d : String) (rt : Runtime) (status : RuntimeStatus) (t : Tally)
        → Keeps (Has r g l) (examine host d rt status t)
    unfolding examine
    examine-Keeps d rt RuntimeStatus.terminated t = Keeps-pure t
    examine-Keeps d rt RuntimeStatus.failed t = Keeps-pure t
    examine-Keeps d rt _ t = asked_Keeps d rt _

    recover_items-Keeps :
        (items : List (String × Runtime)) (t : Tally)
        → Keeps (Has r g l) (recover_items host items t)
    unfolding recover_items
    recover_items-Keeps [] t = Keeps-pure t
    recover_items-Keeps ((d, rt) ∷ rest) t =
        Keeps-bind _ _ (examine-Keeps d rt rt.status t) λ t'. recover_items-Keeps rest t'

    recover_runtime_state-Has : Keeps (Has r g l) (recover_runtime_state host)
    unfolding recover_runtime_state
    recover_runtime_state-Has = search (keeps_rules, Has-inner, recover_items-Keeps)

-- If no deployment can be asked for, a recovery keeps every runtime: it changes neither the records
-- nor the devices, and reports nothing.
pub recovery_outage_keeps :
    {W : Type 0} (host : Host W)
    → ((d : String) (w : W) → (host.get_deployment d w).0 ≡ raised http_error)
    → (a : Agent W) → Has a.repository a.gpu_allocator a.sent (recover_runtime_state host a).1
recovery_outage_keeps host out a =
    (recover_runtime_state-Has a.repository a.gpu_allocator a.sent host out).at a
      (record { repository = refl; gpu_allocator = refl; sent = refl })

module _ {W A : Type 0} where
  let_go_frees :
      (r : Outcome A) (a : Agent W)
      → (r ≡ raised still_running → ⊥)
      → (let_go (r, a)).1.reconciling ≡ false
  unfolding let_go locked
  let_go_frees (returned x) a h = refl
  let_go_frees (raised still_running) a h = absurd (h refl)
  let_go_frees (raised e) a h = refl

  let_go_outcome : (r : Outcome A) (a : Agent W) → (let_go (r, a)).0 ≡ r
  unfolding let_go locked
  let_go_outcome (returned x) a = refl
  let_go_outcome (raised still_running) a = refl
  let_go_outcome (raised e) a = refl

  unless_busy-frees :
      (x : A) (m : Exec W A) (a : Agent W)
      → a.reconciling ≡ false
      → ((unless_busy x m a).0 ≡ raised still_running → ⊥)
      → (unless_busy x m a).1.reconciling ≡ false
  unfolding unless_busy
  unless_busy-frees x m a idle ended = elim (Bool-cases a.reconciling) [
    | inl b ↦ ground arith
    | inr b ↦ rw b (
        let_go_frees (m (locked true a)).0 (m (locked true a)).1
          λ e. ended (rw (b, let_go_outcome (m (locked true a)).0 (m (locked true a)).1) e))
  ]

-- While a pass or a recovery runs, another pass changes nothing, and another recovery changes
-- nothing and says that it is busy.
pub busy_changes_nothing :
    {W : Type 0} (host : Host W) (s : Settings) (draws : ℕ) (hotkey : String) (a : Agent W)
    → a.reconciling ≡ true
    → (reconcile_once host s draws hotkey a ≡ (returned tt, a))
      × (recover_runtime_state host a ≡ (returned busy, a))
unfolding reconcile_once recover_runtime_state unless_busy
busy_changes_nothing host s draws hotkey a b = (rw b, rw b)

-- A pass that ends, by a return or a raise, leaves the lock free.
pub pass_frees_lock :
    {W : Type 0} (host : Host W) (s : Settings) (draws : ℕ) (hotkey : String) (a : Agent W)
    → a.reconciling ≡ false
    → (reconcile_once host s draws hotkey a).0 ≢ raised still_running
    → (reconcile_once host s draws hotkey a).1.reconciling ≡ false
unfolding reconcile_once
pass_frees_lock host s draws hotkey a = unless_busy-frees tt _ a
