-- ===== src/Worker/Beats.antt =====
-- What a turn of the heartbeat loop says to the control plane.
use greenference_node.Base.{ℕ, ◌≡◌, refl, true}
use greenference_node.Protocol.{Settings}
use greenference_node.Agent.Exec.{Agent, Outcome, returned, raised, call, ◌>>=◌, continue}
use greenference_node.Agent.Host.{Host}
use greenference_node.Agent.Advertise.{build_capacity_update}
use greenference_node.Worker.{
  WorkerSettings, Client, WorkerState, Node, Heartbeat, Report, finished, heartbeat_tick,
  heartbeat_stores,
}
use greenference_node.Worker.Ends.{Ends, Never}

module _ {W : Type 0} (client : Client W) (host : Host W) (s : Settings) (c : WorkerSettings)
    (a : Agent W) where
  -- The heartbeat of the node's miner, and the agent after the control plane has had it.
  abbrev pub beat : Heartbeat
  beat = record { hotkey = c.miner_hotkey; healthy = true }

  abbrev pub after_beat : Agent W
  after_beat = record a { world = (client.record_heartbeat beat a.world).1 }

  -- A turn that starts with the agent `a`: the control plane takes the heartbeat, then the capacity
  -- that the node offers at that moment; nothing else happens, and the turn is finished.
  pub record Beats (r : Report × Node W) : Type 0 where
    pub capacity : ℕ
    pub counted : Agent W
    pub heartbeat_taken : (client.record_heartbeat beat a.world).0 ≡ returned tt
    pub offers : build_capacity_update host s after_beat ≡ (returned capacity, counted)
    pub capacity_taken : (client.update_capacity capacity counted.world).0 ≡ returned tt
    pub ends : r.0 ≡ finished
    pub after :
        r.1.agent ≡ record counted { world = (client.update_capacity capacity counted.world).1 }

module _ {W : Type 0} (client : Client W) (host : Host W) (s : Settings) (draws : ℕ)
    (c : WorkerSettings) (P : Agent W → Type 0) where
  -- The end of the tick, from the capacity on.
  abbrev offered : Outcome ℕ × Agent W → Outcome (Unit {0}) × Agent W
  offered r = continue (λ n. call (client.update_capacity n)) r

  published :
      (state : WorkerState) (a b : Agent W) (n : ℕ) (r : Outcome (Unit {0}))
      → (client.update_capacity n b.world).0 ≡ r
      → (client.record_heartbeat (beat client host s c a) a.world).0 ≡ returned tt
      → build_capacity_update host s (after_beat client host s c a) ≡ (returned n, b)
      → Ends Never P (r, record b { world = (client.update_capacity n b.world).1 })
      → Beats client host s c a (
          heartbeat_stores client host s draws c state
            (r, record b { world = (client.update_capacity n b.world).1 }))
  unfolding heartbeat_stores Ends
  published state a b n (returned u) said taken counts p = record {
    capacity = n;
    counted = b;
    heartbeat_taken = taken;
    offers = counts;
    capacity_taken = said;
    ends = refl;
    after = refl;
  }
  published state a b n (raised e) said taken counts p = elim p.0 [ ]

  counted_then :
      (state : WorkerState) (a : Agent W) (r : Outcome ℕ × Agent W)
      → build_capacity_update host s (after_beat client host s c a) ≡ r
      → (client.record_heartbeat (beat client host s c a) a.world).0 ≡ returned tt
      → Ends Never P (offered r)
      → Beats client host s c a (heartbeat_stores client host s draws c state (offered r))
  unfolding call continue Ends
  counted_then state a (returned n, b) counts taken p =
      published state a b n (client.update_capacity n b.world).0 refl taken counts p
  counted_then state a (raised e, b) counts taken p = elim p.0 [ ]

  beat_then :
      (state : WorkerState) (a : Agent W) (r : Outcome (Unit {0}))
      → (client.record_heartbeat (beat client host s c a) a.world).0 ≡ r
      → Ends Never P (
          continue
            (λ u b. offered (build_capacity_update host s b))
            (r, after_beat client host s c a))
      → Beats client host s c a (
          heartbeat_stores client host s draws c state (
            continue
              (λ u b. offered (build_capacity_update host s b))
              (r, after_beat client host s c a)))
  unfolding continue Ends
  beat_then state a (returned u) taken p =
      counted_then state a (build_capacity_update host s (after_beat client host s c a)) refl taken
        p
  beat_then state a (raised e) taken p = elim p.0 [ ]

  -- A tick that raises nothing has said both.
  pub heartbeat_tick-Beats :
      (state : WorkerState) (a : Agent W)
      → Ends Never P (heartbeat_tick client host s draws c a)
      → Beats client host s c a
          (heartbeat_stores client host s draws c state (heartbeat_tick client host s draws c a))
  unfolding heartbeat_tick ◌>>=◌ call
  heartbeat_tick-Beats state a p =
      beat_then state a (client.record_heartbeat (beat client host s c a) a.world).0 refl p
