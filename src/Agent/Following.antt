-- ===== src/Agent/Following.antt =====
-- What a pass leaves alone.
use greenference_node.Base.{ℕ, String, List, [], ◌∷◌, true, false, none, some, ◌≡◌, refl}
use greenference_node.Repository
use greenference_node.Protocol.{Lease, Runtime, RuntimeStatus, Settings}
use greenference_node.Agent.Exec.{Agent, returned, pure, gets, call, try_, recover, ◌>>=◌, continue}
use greenference_node.Agent.Host.{Host}
use greenference_node.Agent.Parts.{get_runtime}
use greenference_node.Repository.{snapshot_runtime_items}
use greenference_node.Agent.Reconcile.{
  is_suspended_lease, follow_lease, follow_active, follow_leases, our_leases, has_lease,
}
use greenference_node.Agent.Cleanup.{
  clean_item, clean_items, sync_leases, reconcile_fleet, reconcile_once_locked,
}

-- A runtime that is up, or that has come to an end; the pass leaves it to others.
abbrev pub IsSettled : RuntimeStatus → Type 0
IsSettled RuntimeStatus.accepted = ⊥
IsSettled RuntimeStatus.starting = ⊥
IsSettled RuntimeStatus.suspended = ⊥
IsSettled _ = Unit

module _ {W : Type 0} (host : Host W) (s : Settings) (draws : ℕ) (lease : Lease) (a : Agent W) where
  settled_active :
      (rt : Runtime) (status : RuntimeStatus)
      → IsSettled status
      → follow_active host s draws lease rt status a ≡ (returned tt, a)
  unfolding follow_active pure
  settled_active rt RuntimeStatus.accepted h = absurd h
  settled_active rt RuntimeStatus.starting h = absurd h
  settled_active rt RuntimeStatus.suspended h = absurd h
  settled_active rt _ h = refl

  pub healthy_untouched :
      (rt : Runtime)
      → is_suspended_lease lease ≡ false
      → Repository.get_runtime lease.deployment_id a.repository ≡ some rt
      → IsSettled rt.status
      → follow_lease host s draws lease a ≡ (returned tt, a)
  unfolding follow_lease get_runtime gets ◌>>=◌
  healthy_untouched rt active known settled =
      rw (known, active) (settled_active rt rt.status settled)

  -- A lease that is marked suspended starts nothing: where the node has no runtime for it, the pass
  -- does nothing.
  pub suspended_not_started :
      is_suspended_lease lease ≡ true
      → Repository.get_runtime lease.deployment_id a.repository ≡ none
      → follow_lease host s draws lease a ≡ (returned tt, a)
  unfolding follow_lease get_runtime gets ◌>>=◌ pure
  suspended_not_started suspended unknown = rw (unknown, suspended)

-- Every one of the leases is followed by a runtime of the node that is up, or that has come to an
-- end, and none is marked suspended.
abbrev pub AreFollowed : {W : Type 0} → Agent W → List Lease → Type 0
AreFollowed a [] = Unit
AreFollowed a (lease ∷ rest) =
    ((is_suspended_lease lease ≡ false)
      × ((rt : Runtime) × (Repository.get_runtime lease.deployment_id a.repository ≡ some rt)
          × IsSettled rt.status))
    × AreFollowed a rest

-- Every runtime of the node has one of the leases.
abbrev pub AreLeased : List Lease → List (String × Runtime) → Type 0
AreLeased ours [] = Unit
AreLeased ours ((d, rt) ∷ rest) = (has_lease d ours ≡ true) × AreLeased ours rest

module _ {W : Type 0} (host : Host W) (s : Settings) (draws : ℕ) (a : Agent W) where
  follow_leases_lem :
      (leases : List Lease)
      → AreFollowed a leases
      → follow_leases host s draws leases a ≡ (returned tt, a)
  unfolding follow_leases pure ◌>>=◌ continue
  follow_leases_lem [] h = refl
  follow_leases_lem (lease ∷ rest) ((active, (rt, known, settled)), h) =
      rw (healthy_untouched host s draws lease a rt active known settled) (follow_leases_lem rest h)

  clean_items_lem :
      (fleet ours : List Lease) (items : List (String × Runtime))
      → AreLeased ours items
      → clean_items host s draws fleet ours items a ≡ (returned tt, a)
  unfolding clean_items clean_item pure ◌>>=◌ continue
  clean_items_lem fleet ours [] h = refl
  clean_items_lem fleet ours ((d, rt) ∷ rest) h = rw h.0 (clean_items_lem fleet ours rest h.1)

-- A pass does nothing but ask for the leases, if the control plane answers, each lease of this node
-- is unsuspended and has a runtime that is neither accepted, starting nor suspended (so a ready
-- one), and each runtime of the node has a lease: no record and no device changes, nothing is
-- stopped, started or sent, and no other call is made.
pub steady_pass :
    {W : Type 0} (host : Host W) (s : Settings) (draws : ℕ) (hotkey : String) (a : Agent W) (w : W)
    (fleet : List Lease)
    → host.list_leases hotkey a.world ≡ (returned fleet, w)
    → AreFollowed a (our_leases s fleet)
    → AreLeased (our_leases s fleet) a.repository.runtimes
    → reconcile_once_locked host s draws hotkey a ≡ (returned tt, record a { world = w })
unfolding reconcile_once_locked sync_leases reconcile_fleet try_ recover call gets ◌>>=◌ continue
    snapshot_runtime_items
steady_pass host s draws hotkey a w fleet answers followed leased = rw (
  answers,
  follow_leases_lem host s draws (record a { world = w }) (our_leases s fleet) followed,
  clean_items_lem host s draws (record a { world = w }) fleet (our_leases s fleet)
      a.repository.runtimes leased,
)
