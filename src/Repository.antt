-- ===== src/Repository.antt =====
-- services/node-agent/src/greencompute_node_agent/infrastructure/repository.py: the records that
-- survive a restart. Each method holds the lock, so it is one step. The record types and their
-- JSON forms belong to greencompute_protocol, and are parameters.
pub mod Persistence
pub mod Summary
mod Examples
use greenference_node.Base.{
  ℕ, zero, suc, ◌+◌, String, Bool, Option, none, some, List, [], ◌∷◌, length, if◌then◌else◌, get_or,
}
use greenference_node.Dict.{Dict, lookup, insert, erase, values}

-- `model_dump` and `model_validate`; `none` is a validation error.
pub record Codec (R J : Type 0) : Type 0 where
  pub model_dump : R → J
  pub model_validate : J → Option R

-- The JSON file at `state_path`.
pub record StateFile (J : Type 0) : Type 0 where
  pub runtimes : Dict J
  pub placements : Dict J
  pub volumes : Dict J
  pub collateral : Dict J

pub record Repository (R P V C J : Type 0) : Type 0 where
  pub runtimes : Dict R
  pub placements : Dict P
  pub volumes : Dict V
  pub collateral : Dict C
  pub file : Option (StateFile J)

pub record Codecs (R P V C J : Type 0) : Type 0 where
  pub runtime : Codec R J
  pub placement : Codec P J
  pub volume : Codec V J
  pub collateral : Codec C J

-- `{k: v.model_dump(mode="json") for k, v in table.items()}`
unfoldable pub dump_table : {R J : Type 0} → Codec R J → Dict R → Dict J
dump_table c [] = []
dump_table c ((k, v) ∷ d) = (k, c.model_dump v) ∷ dump_table c d

-- One `for` loop of `_load`: what was read before a record that does not validate stays read, and
-- the exception (`false`) ends the loading.
unfoldable pub load_table : {R J : Type 0} → Codec R J → Dict J → Dict R → Dict R × Bool
load_table c [] table = (table, Bool.true)
load_table c ((key, raw) ∷ rest) table = elim (c.model_validate raw) [
  | none ↦ (table, Bool.false)
  | some r ↦ load_table c rest (insert key r table)
]

module _ {R P V C J : Type 0} (codecs : Codecs R P V C J) where
  -- The dump replaces the file in one `os.replace`. An OSError of the write, which would leave the
  -- memory ahead of the file, is left out.
  unfoldable pub save : Repository R P V C J → Repository R P V C J
  save r = record r {
    file = some (record {
      runtimes = dump_table codecs.runtime r.runtimes;
      placements = dump_table codecs.placement r.placements;
      volumes = dump_table codecs.volume r.volumes;
      collateral = dump_table codecs.collateral r.collateral;
    });
  }

  load_collateral : StateFile J → Repository R P V C J → Repository R P V C J
  load_collateral f r =
      let (table, _) = load_table codecs.collateral f.collateral r.collateral in
      record r { collateral = table }

  load_volumes : StateFile J → Repository R P V C J → Repository R P V C J
  load_volumes f r =
      let (table, fine) = load_table codecs.volume f.volumes r.volumes in
      let r' = record r { volumes = table } in if fine then load_collateral f r' else r'

  load_placements : StateFile J → Repository R P V C J → Repository R P V C J
  unfolding load_volumes load_collateral
  load_placements f r =
      let (table, fine) = load_table codecs.placement f.placements r.placements in
      let r' = record r { placements = table } in if fine then load_volumes f r' else r'

  load_from : StateFile J → Repository R P V C J → Repository R P V C J
  unfolding load_placements
  load_from f r =
      let (table, fine) = load_table codecs.runtime f.runtimes r.runtimes in
      let r' = record r { runtimes = table } in if fine then load_placements f r' else r'

  empty_with : Option (StateFile J) → Repository R P V C J
  empty_with file = record {
    runtimes = [];
    placements = [];
    volumes = [];
    collateral = [];
    file = file;
  }

  -- `__init__` on a path where `file` stands, or nothing
  unfoldable pub open_repository : Option (StateFile J) → Repository R P V C J
  unfolding load_from empty_with
  open_repository none = empty_with none
  open_repository (some f) = load_from f (empty_with (some f))

  -- `upsert_runtime` of a record whose `deployment_id` is the key
  unfoldable pub upsert_runtime : String → R → Repository R P V C J → Repository R P V C J
  unfolding save
  upsert_runtime deployment_id runtime r =
      save (record r { runtimes = insert deployment_id runtime r.runtimes })

  unfoldable pub remove_runtime : String → Repository R P V C J → Repository R P V C J
  unfolding save
  remove_runtime deployment_id r = save (record r { runtimes = erase deployment_id r.runtimes })

module _ {R P V C J : Type 0} where
  unfoldable pub get_runtime : String → Repository R P V C J → Option R
  get_runtime deployment_id r = lookup deployment_id r.runtimes

  unfoldable pub snapshot_runtime_items : Repository R P V C J → List (String × R)
  snapshot_runtime_items r = r.runtimes

  unfoldable pub snapshot_runtimes : Repository R P V C J → List R
  snapshot_runtimes r = values r.runtimes
