-- ===== src/Inference/Fallback/Timeout.antt =====
-- How long ProcessInferenceBackend waits for a process, and for what.
use greenference_node.Base.{
  arith, ℕ, zero, suc, ◌+◌, ◌*◌, ◌≤◌, ◌<◌, ◌≡◌, ◌⊎◌, inl, inr, refl, String, Bool, true, false,
  Option, none, some, ltb, ◌∷◌, [],
}
use greenference_node.Text.Words.{concat}
use greenference_node.Inference.Fallback.Machine.{
  permission_error, other_fault, cut_off, inference_fault, Result, ok, fault, Answer, answers,
  forbidden, broken, System, Machine, Run, pure, raise, result_of, call, continue, ◌>>=◌,
}
use greenference_node.Inference.Fallback.Process.{
  status_or, request_health, caught, slept, rest_unless, timed_out_or, poll, wait_for_health,
}

-- The clock does not go back, and a sleep takes its time.
pub record KeepsTime {W : Type 0} (system : System W) : Type 0 where
  pub asks : (url : String) (w : W) → system.now w ≤ system.now (system.get_status url w).1
  pub rests : (t : ℕ) (w : W) → system.now w + t ≤ system.now (system.sleep t w)

module _ {W : Type 0} (system : System W) where
  abbrev pub page : String → String
  page url = concat (url ∷ "/healthz" ∷ [])

  -- The process says in the world `w` that its status is "ok".
  abbrev pub IsHealthy : Option String → W → Type 0
  IsHealthy none w = ⊥
  IsHealthy (some url) w = (system.get_status (page url) w).0 ≡ answers (some true)

  -- The world after the process was asked; without a URL nothing is asked.
  abbrev pub asked : Option String → W → W
  asked none w = w
  asked (some url) w = (system.get_status (page url) w).1

  -- An error of the request that the wait does not catch.
  abbrev pub IsBroken : Option String → W → Type 0
  IsBroken none w = ⊥
  IsBroken (some url) w =
      ((system.get_status (page url) w).0 ≡ forbidden)
      ⊎ ((system.get_status (page url) w).0 ≡ broken)

module _ {W : Type 0} (system : System W) (url : Option String) (deadline : ℕ) (start : W) where
  -- The worlds in which a wait that began in `start` looks at its clock: each earlier look was
  -- before the deadline, found the process not healthy, and was followed by a sleep.
  pub data Looks : W → Type 0 where
    first : Looks start
    later :
        (v : W)
        → Looks v
        → system.now v < deadline
        → (IsHealthy system url v → ⊥)
        → Looks (system.sleep 200 (asked system url v))

  -- A wait that returns does so at once after a look before the deadline at which the process was
  -- healthy; one that fails by the timeout does so at a look that the deadline had passed; any
  -- other exception came from the request of its last look.
  abbrev pub IsEnd : Result (Unit {0}) × Machine W → Type 0
  IsEnd (ok u, m) =
      (v : W) × Looks v
      × (system.now v < deadline)
      × IsHealthy system url v
      × (m.world ≡ asked system url v)
  IsEnd (fault cut_off, m) = ⊥
  IsEnd (fault (inference_fault c s), m) =
      Looks m.world × (deadline ≤ system.now m.world) × (c ≡ "health_check_failure")
  IsEnd (fault permission_error, m) =
      (v : W) × Looks v × IsBroken system url v × (m.world ≡ asked system url v)
  IsEnd (fault other_fault, m) =
      (v : W) × Looks v × IsBroken system url v × (m.world ≡ asked system url v)

-- One look before the deadline, and what follows it.
round-IsEnd :
    {W : Type 0} (system : System W) (url : Option String) (deadline : ℕ) (start : W)
    (m : Machine W) (rest : Run W (Unit {0}))
    → Looks system url deadline start m.world
    → system.now m.world < deadline
    → ((IsHealthy system url m.world → ⊥)
        → IsEnd system url deadline start
            (rest (slept system 200 (record m { world = asked system url m.world }))))
    → IsEnd system url deadline start
        (continue (rest_unless system rest) (caught system (request_health system url m)))
unfolding request_health raise ◌>>=◌ continue call caught rest_unless
round-IsEnd system none deadline start m rest looks early next = next (λ h. h)
round-IsEnd system (some url) deadline start m rest looks early next =
    go (system.get_status (page system url) m.world).0 refl
  where
    go :
        (r : Answer (Option Bool))
        → (system.get_status (page system url) m.world).0 ≡ r
        → IsEnd system (some url) deadline start (
            continue (rest_unless system rest) (
              caught system (
                continue (status_or system) (
                  result_of r,
                  record m { world = (system.get_status (page system url) m.world).1 },
                ))))
    go (answers none) e = unfold status_or result_of raise in next (λ h. cc)
    go (answers (some true)) e = unfold status_or result_of pure in (m.world, looks, early, e, refl)
    go (answers (some false)) e = unfold status_or result_of pure in next (λ h. cc)
    go forbidden e = unfold result_of in (m.world, looks, inl e, refl)
    go broken e = unfold result_of in (m.world, looks, inr e, refl)

timed_out_or-IsEnd :
    {W : Type 0} (system : System W) (url : Option String) (deadline : ℕ) (start : W) (b : Bool)
    (round : Result (Unit {0}) × Machine W) (m : Machine W)
    → Looks system url deadline start m.world
    → (b ≡ true → IsEnd system url deadline start round)
    → (b ≡ false → deadline ≤ system.now m.world)
    → IsEnd system url deadline start (timed_out_or system b round m)
unfolding timed_out_or
timed_out_or-IsEnd system url deadline start true round m looks h late = h refl
timed_out_or-IsEnd system url deadline start false round m looks h late = (looks, late refl, refl)

asked-later :
    {W : Type 0} (system : System W) (url : Option String) (w : W)
    → KeepsTime system
    → system.now w ≤ system.now (asked system url w)
asked-later system none w time = omega arith
asked-later system (some url) w time = time.asks (page system url) w

poll-IsEnd :
    {W : Type 0} (system : System W) (url : Option String) (deadline : ℕ) (start : W) (spare : ℕ)
    (m : Machine W)
    → KeepsTime system
    → Looks system url deadline start m.world
    → deadline ≤ system.now m.world + 200 * spare
    → IsEnd system url deadline start (poll system (suc spare) deadline url m)
unfolding poll
poll-IsEnd system url deadline start zero m time looks enough =
    timed_out_or-IsEnd system url deadline start (ltb (system.now m.world) deadline) _ m looks
      (λ early. absurd (late early (omega arith))) (λ late. ground arith)
  where
    late : ltb (system.now m.world) deadline ≡ true → deadline ≤ system.now m.world → ⊥
    late early over = ground arith
poll-IsEnd system url deadline start (suc spare) m time looks enough =
    timed_out_or-IsEnd system url deadline start (ltb (system.now m.world) deadline) _ m looks
      (λ early.
        let soon : system.now m.world < deadline = ground arith in
        round-IsEnd system url deadline start m (poll system (suc spare) deadline url) looks soon
          (λ ill.
            poll-IsEnd system url deadline start spare
              (slept system 200 (record m { world = asked system url m.world })) time
              (later m.world looks soon ill)
              (omega (
                arith,
                time.rests 200 (asked system url m.world),
                asked-later system url m.world time,
              ))))
      (λ late. ground arith)

-- The wait for a process ends, given a round for each 200 milliseconds of the timeout and one more,
-- with a clock that does not go back. It returns right after a look, before the timeout was over, at
-- which the process said that it is healthy; or it fails by the timeout at a look when that was
-- over, no look before having found the process healthy; or an exception that it does not catch
-- came from the request of its last look. Between two looks it sleeps for 200 milliseconds.
pub wait_for_health-IsEnd :
    {W : Type 0} (system : System W) (fuel timeout : ℕ) (url : Option String) (m : Machine W)
    → KeepsTime system
    → timeout ≤ 200 * fuel
    → IsEnd system url
        (system.now m.world + timeout)
        m.world
        (wait_for_health system (suc fuel) timeout url m)
unfolding wait_for_health
wait_for_health-IsEnd system fuel timeout url m time enough =
    poll-IsEnd system url (system.now m.world + timeout) m.world fuel m time first (omega arith)
