-- ===== src/Agent/HostPorts.antt =====
-- The host ports that `_start_pod_runtime` hands out.
use greenference_node.Base.{
  ℕ, zero, suc, ◌≡◌, refl, Bool, true, false, Option, none, some, List, [], ◌∷◌, ◌++◌,
  if◌then◌else◌, arith, Bool-cases, inl, inr,
}
use greenference_node.Devices.{mem}
use greenference_node.Protocol.{Settings}
use greenference_node.Agent.Exec.{
  Agent, Exec, Outcome, returned, raised, Raised, still_running, ssh_error, pure, raise, call,
  ◌>>=◌, continue, match_option,
}
use greenference_node.Agent.Host.{Host}
use greenference_node.Agent.Gives.{
  OnReturn, Gives, Gives-bind, Gives-pure, Gives-raise, Gives-try, any-Gives,
}
use greenference_node.Agent.Exposed.{IsDistinct, IsDistinct-snoc, mem-snoc}
use greenference_node.Agent.Ports.{
  draw_unused, keeps_number, no_port, host_port_for, allocate_ports,
}
use mathlib.Core.Path.{subst}

-- `none`, or an unused port
abbrev IsUnused : List ℕ → Option ℕ → Type 0
IsUnused used none = Unit
IsUnused used (some p) = mem p used ≡ false

-- The host ports that were handed out are distinct, and are the used ones.
abbrev pub host_ports : List (ℕ × ℕ) → List ℕ
host_ports [] = []
host_ports ((_, p) ∷ l) = p ∷ host_ports l

module _ {W : Type 0} (host : Host W) (s : Settings) where
  draw_unused-Gives :
      (fuel : ℕ) (used : List ℕ) → Gives (λ p. mem p used ≡ false) (draw_unused host s fuel used)
  unfolding draw_unused
  draw_unused-Gives zero used = Gives-raise still_running
  draw_unused-Gives (suc fuel) used =
      Gives-bind (call (host.choose_free_port s.user_port_range_start s.user_port_range_end)) _
        (any-Gives _)
        λ p u. elim (Bool-cases (mem p used)) [
          | inl old ↦ rw old (draw_unused-Gives fuel used)
          | inr new ↦ rw new (Gives-pure p new)
        ]

  truth_only :
      (b : Bool) (m : Exec W Bool) (p : ℕ) (used : List ℕ)
      → (b ≡ true → mem p used ≡ false)
      → Gives (λ r. r ≡ true → mem p used ≡ false) (if b then m else pure false)
  truth_only true m p used h = record { at = λ a. any (m a).0 }
    where
      any : (r : Outcome Bool) → OnReturn (λ r. r ≡ true → mem p used ≡ false) r
      any (returned x) = λ e. h refl
      any (raised e) = tt
  truth_only false m p used h = Gives-pure false (λ e. ground arith)

  keeps_number-Gives :
      (p : ℕ) (used : List ℕ)
      → Gives (λ b. b ≡ true → mem p used ≡ false) (keeps_number host s p used)
  unfolding keeps_number
  keeps_number-Gives p used = truth_only _ (call (host.is_port_free p)) p used (λ e. ground arith)

  no_port-Gives : (used : List ℕ) (e : Raised) → Gives (IsUnused used) (no_port host s e)
  unfolding no_port
  no_port-Gives used ssh_error = Gives-pure none tt
  no_port-Gives used e = Gives-raise e

  host_port_for-Gives :
      (draws p : ℕ) (used : List ℕ) → Gives (IsUnused used) (host_port_for host s draws p used)
  unfolding host_port_for
  host_port_for-Gives draws p used = Gives-bind _ _ (keeps_number-Gives p used) λ b h.
      elim (Bool-cases b) [
        | inl same ↦ rw same (Gives-pure (some p) (h same))
        | inr other ↦ rw other (
            Gives-try _ _
              (Gives-bind _ _ (draw_unused-Gives draws used) λ q u. Gives-pure (some q) u)
              (no_port-Gives used))
      ]

  -- what the loop has handed out so far
  record IsHandedOut (given : List (ℕ × ℕ)) (used : List ℕ) : Type 0 where
    distinct : IsDistinct (host_ports given)
    covered : (p : ℕ) → mem p used ≡ false → mem p (host_ports given) ≡ false

  host_ports-snoc :
      (given : List (ℕ × ℕ)) (c p : ℕ)
      → host_ports (given ++ (c, p) ∷ []) ≡ host_ports given ++ p ∷ []
  host_ports-snoc [] c p = refl
  host_ports-snoc ((d, q) ∷ given) c p = rw (host_ports-snoc given c p)

  IsHandedOut-snoc :
      (given : List (ℕ × ℕ)) (used : List ℕ) (c p : ℕ)
      → IsHandedOut given used
      → mem p used ≡ false
      → IsHandedOut (given ++ (c, p) ∷ []) (p ∷ used)
  unfolding mem
  IsHandedOut-snoc given used c p h u = record {
    distinct =
        rw (host_ports-snoc given c p)
          (IsDistinct-snoc p (host_ports given) h.distinct (h.covered p u));
    covered = λ q n.
        rw (host_ports-snoc given c p)
          (mem-snoc q p (host_ports given) (h.covered q (ground arith)) (ground arith));
  }

  handed_on :
      (o : Option ℕ) (given : List (ℕ × ℕ)) (f : ℕ → Exec W (List (ℕ × ℕ))) (U : Option ℕ → Type 0)
      → IsDistinct (host_ports given)
      → U o
      → ((p : ℕ) → U (some p) → Gives (λ l. IsDistinct (host_ports l)) (f p))
      → Gives (λ l. IsDistinct (host_ports l)) (match_option o (pure given) f)
  unfolding match_option
  handed_on none given f U d u k = Gives-pure given d
  handed_on (some p) given f U d u k = k p u

  allocate_ports-Gives :
      (draws : ℕ) (ports : List ℕ) (given : List (ℕ × ℕ)) (used : List ℕ)
      → IsHandedOut given used
      → Gives (λ l. IsDistinct (host_ports l)) (allocate_ports host s draws ports given used)
  unfolding allocate_ports
  allocate_ports-Gives draws [] given used h = Gives-pure given h.distinct
  allocate_ports-Gives draws (c ∷ rest) given used h =
      Gives-bind _ _ (host_port_for-Gives draws c used) λ o u.
        handed_on o given _ (IsUnused used) h.distinct u λ p v.
          allocate_ports-Gives draws rest (given ++ (c, p) ∷ []) (p ∷ used)
            (IsHandedOut-snoc given used c p h v)

  -- Where the loop over a pod's ports returns, no host port was handed out twice, whatever the
  -- port probe answered.
  pub allocate_ports-IsDistinct :
      (draws : ℕ) (ports : List ℕ) (a : Agent W) (given : List (ℕ × ℕ))
      → (allocate_ports host s draws ports [] [] a).0 ≡ returned given
      → IsDistinct (host_ports given)
  unfolding mem
  allocate_ports-IsDistinct draws ports a given e =
      subst (OnReturn (λ l. IsDistinct (host_ports l))) e (
        (allocate_ports-Gives draws ports [] []
            (record { distinct = tt; covered = λ p h. refl })).at
          a)

  -- If the probe always finds the same free port, and that is used already, then the draws never
  -- end: for every number of draws the loop is still running.
  pub draws_never_end :
      (p : ℕ) (used : List ℕ)
      → ((w : W)
          → (host.choose_free_port s.user_port_range_start s.user_port_range_end w).0 ≡ returned p)
      → mem p used ≡ true
      → (draws : ℕ) (a : Agent W) → (draw_unused host s draws used a).0 ≡ raised still_running
  unfolding draw_unused raise ◌>>=◌ call continue
  draws_never_end p used only old zero a = refl
  draws_never_end p used only old (suc n) a =
      rw (only a.world, old) (draws_never_end p used only old n (record a { world = _ }))
