-- ===== src/Repository/Summary.antt =====
-- `runtime_summary`: how many runtimes there are of each status and kind.
use greenference_node.Base.{
  ℕ, suc, ◌+◌, ◌≡◌, String, List, [], ◌∷◌, length, if◌then◌else◌, str_eq, get_or, arith, eq_iff,
}
use greenference_node.Dict.{Dict, lookup, insert, lookup-insert}
use greenference_node.Repository.{Repository, snapshot_runtimes}

-- `d[k] = d.get(k, 0) + 1`
unfoldable pub bump : String → Dict ℕ → Dict ℕ
bump k d = insert k (get_or (lookup k d) 0 + 1) d

pub record RuntimeSummary : Type 0 where
  pub total : ℕ
  pub by_status : Dict ℕ
  pub by_kind : Dict ℕ
  pub failed : ℕ

module _ {R : Type 0} (status kind : R → String) where
  -- the body of the loop over the runtimes
  abbrev tally : R → RuntimeSummary → RuntimeSummary
  tally rt s = record s {
    by_status = bump (status rt) s.by_status;
    by_kind = bump (kind rt) s.by_kind;
    failed = if str_eq (status rt) "failed" then s.failed + 1 else s.failed;
  }

  summarize : List R → RuntimeSummary → RuntimeSummary
  summarize [] s = s
  summarize (rt ∷ rest) s = summarize rest (tally rt s)

  unfoldable pub runtime_summary : {P V C J : Type 0} → Repository R P V C J → RuntimeSummary
  unfolding summarize
  runtime_summary r =
      summarize (snapshot_runtimes r)
        (record { total = length r.runtimes; by_status = []; by_kind = []; failed = 0 })

  -- how many of the runtimes have the word under `f`
  pub count : (R → String) → String → List R → ℕ
  count f k [] = 0
  count f k (rt ∷ rest) = if str_eq (f rt) k then suc (count f k rest) else count f k rest

  get_bump :
      (j k : String) (d : Dict ℕ)
      → get_or (lookup j (bump k d)) 0
        ≡ (if str_eq k j then get_or (lookup j d) 0 + 1 else get_or (lookup j d) 0)
  unfolding bump
  get_bump j k d = rw lookup-insert (ground (arith, eq_iff k j))

  summarize_lem :
      (l : List R) (s : RuntimeSummary) (k : String)
      → (get_or (lookup k (summarize l s).by_status) 0
          ≡ get_or (lookup k s.by_status) 0 + count status k l)
        × (get_or (lookup k (summarize l s).by_kind) 0
            ≡ get_or (lookup k s.by_kind) 0 + count kind k l)
        × ((summarize l s).failed ≡ s.failed + count status "failed" l)
        × ((summarize l s).total ≡ s.total)
  unfolding summarize count
  summarize_lem [] s k = omega arith
  summarize_lem (rt ∷ rest) s k = ground (
    arith,
    summarize_lem rest (tally rt s) k,
    get_bump k (status rt) s.by_status,
    get_bump k (kind rt) s.by_kind,
  )

  -- The summary counts the runtimes of every status and of every kind, and `failed` is the count
  -- of the status "failed".
  pub runtime_summary_lem :
      {P V C J : Type 0} (r : Repository R P V C J) (k : String)
      → (get_or (lookup k (runtime_summary r).by_status) 0 ≡ count status k (snapshot_runtimes r))
        × (get_or (lookup k (runtime_summary r).by_kind) 0 ≡ count kind k (snapshot_runtimes r))
        × ((runtime_summary r).failed ≡ count status "failed" (snapshot_runtimes r))
        × ((runtime_summary r).total ≡ length r.runtimes)
  unfolding runtime_summary lookup
  runtime_summary_lem r k = omega (
    arith,
    summarize_lem (snapshot_runtimes r)
        (record { total = length r.runtimes; by_status = []; by_kind = []; failed = 0 }) k,
  )
