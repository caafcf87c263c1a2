-- ===== src/Access/FreePort.antt =====
-- services/node-agent/src/greencompute_node_agent/domain/ssh.py: `choose_free_port`. What Docker
-- publishes and what the kernel lets bind are parameters, and so are the random numbers that the
-- loop draws, one after the other.
use greenference_node.Base.{
  ℕ, ◌≢◌, ap, ◌∙◌, ◌+◌, ◌-◌, ◌<◌, ◌≤◌, ◌≡◌, arith, Bool, true, false, not, ◌||◌, ◌&&◌, List, [],
  ◌∷◌, length, ltb, if◌then◌else◌, Bool-cases, inl, inr, ◌==◌,
}
use greenference_node.Devices.{DeviceSet, mem, add, diff, range, IsAscending}
use greenference_node.Devices.Laws.{mem-add, mem-diff, mem-range}
use greenference_node.Devices.Order.{add-IsAscending, range-IsAscending}
use greenference_node.Devices.Count.{eq_of_mem, length-diff, length-range}

-- `still_drawing`: the numbers ran out before the loop ended.
pub data Search : Type 0 where
  found : ℕ → Search
  exhausted still_drawing : Search

module _ (docker_used : DeviceSet) (binds : ℕ → Bool) (start : ℕ) where
  -- Docker has not published the port, and `sock.bind` does not raise.
  abbrev pub is_free : ℕ → Bool
  is_free p = not (mem p docker_used) && binds p

  -- the loop; `tried` holds the numbers that were drawn, each the distance of its port from `start`
  unfoldable pub draw : ℕ → List ℕ → DeviceSet → Search
  draw size [] tried = if ltb (length tried) size then still_drawing else exhausted
  draw size (d ∷ draws) tried =
      let again = draw size draws tried in
      let further = draw size draws (add d tried) in
      if ltb (length tried) size
      then (if mem d tried
          then again
          else if is_free (start + d)
          then found (start + d)
          else further)
      else exhausted

  unfoldable pub choose_free_port : ℕ → List ℕ → Search
  unfolding draw
  choose_free_port end draws = draw (end - start) draws []

  -- `secrets.randbelow(size)`
  abbrev pub AreBelow : ℕ → List ℕ → Type 0
  AreBelow size [] = Unit
  AreBelow size (d ∷ draws) = (d < size) × AreBelow size draws

  draw_found :
      (size : ℕ) (draws : List ℕ) (tried : DeviceSet) (p : ℕ)
      → AreBelow size draws
      → draw size draws tried ≡ found p
      → (start ≤ p) × (p < start + size) × (is_free p ≡ true)
  unfolding draw
  draw_found size [] tried p b h = ground arith
  draw_found size (d ∷ draws) tried p b h = elim (Bool-cases (ltb (length tried) size)) [
    | inl open_ ↦ elim (Bool-cases (mem d tried)) [
      | inl old ↦ draw_found size draws tried p b.1 (ground arith)
      | inr new ↦ elim (Bool-cases (is_free (start + d))) [
        | inl free ↦ ground arith
        | inr used ↦ draw_found size draws (add d tried) p b.1 (ground arith)
      ]
    ]
    | inr closed ↦ ground arith
  ]

  -- What is tried is in range, and not free.
  record IsTried (size : ℕ) (tried : DeviceSet) : Type 0 where
    ascending : IsAscending tried
    below : (d : ℕ) → mem d tried ≡ true → mem d (range size) ≡ true
    taken : (d : ℕ) → mem d tried ≡ true → is_free (start + d) ≡ false

  IsTried-add :
      (size d : ℕ) (tried : DeviceSet)
      → IsTried size tried
      → d < size
      → is_free (start + d) ≡ false
      → IsTried size (add d tried)
  IsTried-add size d tried t b used = record {
    ascending = add-IsAscending d tried t.ascending;
    below = λ e h. ground (arith, mem-add e d tried, mem-range e size, mem-range d size, t.below e);
    taken = λ e h. elim (Bool-cases (e == d)) [
      | inl same ↦ ground arith
      | inr other ↦ t.taken e (ground (arith, mem-add e d tried))
    ];
  }

  -- When as many were tried as there are, all were tried.
  all_tried :
      (size : ℕ) (tried : DeviceSet)
      → IsTried size tried
      → ltb (length tried) size ≡ false
      → (d : ℕ) → d < size
      → is_free (start + d) ≡ false
  all_tried size tried t full d b =
      t.taken d (missing (diff (range size) tried) left (mem-diff d (range size) tried))
    where
      left : length (diff (range size) tried) ≡ 0
      left = ground (
        arith,
        length-diff (range size) tried (range-IsAscending size) t.ascending t.below,
        length-range size,
      )

      missing :
          (rest : DeviceSet)
          → length rest ≡ 0
          → mem d rest ≡ (mem d (range size) && not (mem d tried))
          → mem d tried ≡ true
      missing [] e h = unfold mem in ground (arith, mem-range d size)
      missing (x ∷ rest) e h = ground arith

  draw_exhausted :
      (size : ℕ) (draws : List ℕ) (tried : DeviceSet)
      → AreBelow size draws
      → IsTried size tried
      → draw size draws tried ≡ exhausted
      → (d : ℕ) → d < size
      → is_free (start + d) ≡ false
  unfolding draw
  draw_exhausted size [] tried b t h = all_tried size tried t (ground arith)
  draw_exhausted size (d ∷ draws) tried b t h = elim (Bool-cases (ltb (length tried) size)) [
    | inl open_ ↦ elim (Bool-cases (mem d tried)) [
      | inl old ↦ draw_exhausted size draws tried b.1 t (ground arith)
      | inr new ↦ elim (Bool-cases (is_free (start + d))) [
        | inl free ↦ λ e c. ground arith
        | inr used ↦
            draw_exhausted size draws (add d tried) b.1 (IsTried-add size d tried t b.0 used)
              (ground arith)
      ]
    ]
    | inr closed ↦ all_tried size tried t closed
  ]

  -- A port that is found lies in [start, end), is not published by Docker and can be bound.
  pub choose_free_port-found :
      (end p : ℕ) (draws : List ℕ)
      → AreBelow (end - start) draws
      → choose_free_port end draws ≡ found p
      → (start ≤ p) × (p < end) × (is_free p ≡ true)
  unfolding choose_free_port
  choose_free_port-found end p draws b h = ground (arith, draw_found (end - start) draws [] p b h)

  -- The search gives up only if no port of [start, end) is free.
  pub choose_free_port-exhausted :
      (end p : ℕ) (draws : List ℕ)
      → AreBelow (end - start) draws
      → choose_free_port end draws ≡ exhausted
      → start ≤ p
      → p < end
      → is_free p ≡ false
  unfolding choose_free_port
  choose_free_port-exhausted end p draws b h low high = ground (
    arith,
    draw_exhausted (end - start) draws [] b
        (record {
          ascending = tt;
          below = λ d e. unfold mem in ground arith;
          taken = λ d e. unfold mem in ground arith;
        })
        h (p - start) (omega arith),
  )

  -- Every number below `size` was tried already or is drawn.
  abbrev Covers : ℕ → List ℕ → DeviceSet → Type 0
  Covers size draws tried = (d : ℕ) → d < size → (mem d tried || mem d draws) ≡ true

  full_of_Covers :
      (size : ℕ) (tried : DeviceSet)
      → IsTried size tried
      → Covers size [] tried
      → length tried ≡ size
  full_of_Covers size tried t c = ap length same ∙ length-range size
    where
      both : (d : ℕ) → mem d tried ≡ mem d (range size)
      both d = ground (arith, t.below d, mem-range d size, covered d)
        where
          covered : (d : ℕ) → d < size → mem d tried ≡ true
          covered d b = unfold mem in ground (arith, c d b)

      same : tried ≡ range size
      same = eq_of_mem tried (range size) t.ascending (range-IsAscending size) both

  draw_ends :
      (size : ℕ) (draws : List ℕ) (tried : DeviceSet)
      → AreBelow size draws
      → IsTried size tried
      → Covers size draws tried
      → draw size draws tried ≢ still_drawing
  unfolding draw mem
  draw_ends size [] tried b t c h = ground (arith, full_of_Covers size tried t c)
  draw_ends size (d ∷ draws) tried b t c h = elim (Bool-cases (ltb (length tried) size)) [
    | inl open_ ↦ elim (Bool-cases (mem d tried)) [
      | inl old ↦ draw_ends size draws tried b.1 t (λ e l. ground (arith, c e l)) (ground arith)
      | inr new ↦ elim (Bool-cases (is_free (start + d))) [
        | inl free ↦ ground arith
        | inr used ↦
            draw_ends size draws (add d tried) b.1 (IsTried-add size d tried t b.0 used)
              (λ e l. ground (arith, mem-add e d tried, c e l)) (ground arith)
      ]
    ]
    | inr closed ↦ ground arith
  ]

  -- The search ends once every number of the range was drawn.
  pub choose_free_port-ends :
      (end : ℕ) (draws : List ℕ)
      → AreBelow (end - start) draws
      → ((d : ℕ) → d < end - start → mem d draws ≡ true)
      → choose_free_port end draws ≢ still_drawing
  unfolding choose_free_port
  choose_free_port-ends end draws b c =
      draw_ends (end - start) draws [] b
        (record {
          ascending = tt;
          below = λ d e. unfold mem in ground arith;
          taken = λ d e. unfold mem in ground arith;
        })
        (λ d l. unfold mem in ground (arith, c d l))
