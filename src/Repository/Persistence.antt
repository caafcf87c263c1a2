-- ===== src/Repository/Persistence.antt =====
-- What a restart finds in the state file.
use greenference_node.Base.{◌≡◌, String, true, false, none, some, [], ◌∷◌, ◌++◌}
use greenference_node.Dict.{
  erase, insert, Dict, IsUnique, Fresh, insert_new, Fresh-snoc, Fresh-nil, insert-IsUnique,
  erase-IsUnique,
}
use greenference_node.Repository.{
  Codec, Codecs, StateFile, Repository, dump_table, load_table, save, open_repository,
  upsert_runtime, remove_runtime,
}
use mathlib.Core.List.{append_assoc, append-nil}

-- A dumped record validates to itself.
pub record IsFaithful {R J : Type 0} (c : Codec R J) : Type 0 where
  pub round : (r : R) → c.model_validate (c.model_dump r) ≡ some r

module _ {R J : Type 0} (c : Codec R J) where
  load-dump_onto :
      (d table : Dict R)
      → IsFaithful c
      → IsUnique d
      → Fresh table d
      → load_table c (dump_table c d) table ≡ (table ++ d, true)
  unfolding dump_table load_table
  load-dump_onto [] table faithful u f = rw append-nil
  load-dump_onto ((k, v) ∷ d) table faithful u f =
      rw (faithful.round v, insert_new k v table f.0)
        (rw (
          load-dump_onto d (table ++ (k, v) ∷ []) faithful u.1 (Fresh-snoc table d k v f.1 u.0),
          append_assoc,
        ))

  pub load-dump :
      (d : Dict R) → IsFaithful c → IsUnique d → load_table c (dump_table c d) [] ≡ (d, true)
  load-dump d faithful u = load-dump_onto d [] faithful u (Fresh-nil d)

module _ {R P V C J : Type 0} (codecs : Codecs R P V C J) where
  pub record AreFaithful : Type 0 where
    pub runtime : IsFaithful codecs.runtime
    pub placement : IsFaithful codecs.placement
    pub volume : IsFaithful codecs.volume
    pub collateral : IsFaithful codecs.collateral

  pub record HasUniqueKeys (r : Repository R P V C J) : Type 0 where
    pub runtimes : IsUnique r.runtimes
    pub placements : IsUnique r.placements
    pub volumes : IsUnique r.volumes
    pub collateral : IsUnique r.collateral

  -- Opening the file that `save` wrote gives the tables that were saved.
  pub open-save :
      (r : Repository R P V C J)
      → AreFaithful
      → HasUniqueKeys r
      → open_repository codecs (save codecs r).file ≡ save codecs r
  unfolding save open_repository
  open-save r faithful u = rw (
    load-dump codecs.runtime r.runtimes faithful.runtime u.runtimes,
    load-dump codecs.placement r.placements faithful.placement u.placements,
    load-dump codecs.volume r.volumes faithful.volume u.volumes,
    load-dump codecs.collateral r.collateral faithful.collateral u.collateral,
  )

  pub data Write : Repository R P V C J → Repository R P V C J → Type 0 where
    upserts :
        (k : String) (v : R) (r : Repository R P V C J) → Write r (upsert_runtime codecs k v r)
    removes : (k : String) (r : Repository R P V C J) → Write r (remove_runtime codecs k r)

  pub data Writes (r : Repository R P V C J) : Repository R P V C J → Type 0 where
    first : {s : Repository R P V C J} → Write r s → Writes r s
    later : {s t : Repository R P V C J} → Writes r s → Write s t → Writes r t

  pub Write-HasUniqueKeys :
      {r s : Repository R P V C J} → Write r s → HasUniqueKeys r → HasUniqueKeys s
  unfolding upsert_runtime remove_runtime
  Write-HasUniqueKeys (upserts k v r) u = record {
    runtimes = insert-IsUnique k v r.runtimes u.runtimes;
    placements = u.placements;
    volumes = u.volumes;
    collateral = u.collateral;
  }
  Write-HasUniqueKeys (removes k r) u = record {
    runtimes = erase-IsUnique k r.runtimes u.runtimes;
    placements = u.placements;
    volumes = u.volumes;
    collateral = u.collateral;
  }

  Writes-HasUniqueKeys :
      {r s : Repository R P V C J} → Writes r s → HasUniqueKeys r → HasUniqueKeys s
  Writes-HasUniqueKeys (first w) u = Write-HasUniqueKeys w u
  Writes-HasUniqueKeys (later ws w) u = Write-HasUniqueKeys w (Writes-HasUniqueKeys ws u)

  pub reopen-Write :
      {r s : Repository R P V C J}
      → Write r s
      → AreFaithful
      → HasUniqueKeys r
      → open_repository codecs s.file ≡ s
  unfolding upsert_runtime remove_runtime
  reopen-Write (upserts k v r) faithful u =
      open-save (record r { runtimes = insert k v r.runtimes }) faithful
        (record {
          runtimes = insert-IsUnique k v r.runtimes u.runtimes;
          placements = u.placements;
          volumes = u.volumes;
          collateral = u.collateral;
        })
  reopen-Write (removes k r) faithful u =
      open-save (record r { runtimes = erase k r.runtimes }) faithful
        (record {
          runtimes = erase-IsUnique k r.runtimes u.runtimes;
          placements = u.placements;
          volumes = u.volumes;
          collateral = u.collateral;
        })

  -- After any writes to tables without repeated keys, a restart reads back from the file exactly
  -- the tables that were in memory, if dumped records validate to themselves.
  restart_recovers :
      {r s : Repository R P V C J}
      → AreFaithful
      → HasUniqueKeys r
      → Writes r s
      → open_repository codecs s.file ≡ s
  restart_recovers faithful u (first w) = reopen-Write w faithful u
  restart_recovers faithful u (later ws w) = reopen-Write w faithful (Writes-HasUniqueKeys ws u)

module _ {R J : Type 0} (c : Codec R J) where
  load_stops :
      (good table : Dict R) (key : String) (raw : J) (rest : Dict J)
      → IsFaithful c
      → IsUnique good
      → Fresh table good
      → c.model_validate raw ≡ none
      → load_table c (dump_table c good ++ (key, raw) ∷ rest) table ≡ (table ++ good, false)
  unfolding dump_table load_table
  load_stops [] table key raw rest faithful u f bad = rw (bad, append-nil)
  load_stops ((k, v) ∷ good) table key raw rest faithful u f bad =
      rw (faithful.round v, insert_new k v table f.0)
        (rw (
          load_stops good (table ++ (k, v) ∷ []) key raw rest faithful u.1
              (Fresh-snoc table good k v f.1 u.0) bad,
          append_assoc,
        ))

-- If one runtime in the file does not validate, a restart keeps the runtimes before it, loses
-- those after it and all placements, volumes and collateral, and the next write of a runtime
-- makes the loss permanent: the file then holds the kept runtimes with that one, and empty tables.
pub corrupt_record_loses_rest :
    {R P V C J : Type 0} (codecs : Codecs R P V C J) (good : Dict R) (key : String) (raw : J)
    (f : StateFile J) (rest : Dict J) (k : String) (v : R)
    → IsFaithful codecs.runtime
    → IsUnique good
    → codecs.runtime.model_validate raw ≡ none
    → f.runtimes ≡ dump_table codecs.runtime good ++ (key, raw) ∷ rest
    → (upsert_runtime codecs k v (open_repository codecs (some f))).file
      ≡ some (record {
        runtimes = dump_table codecs.runtime (insert k v good);
        placements = [];
        volumes = [];
        collateral = [];
      })
unfolding upsert_runtime open_repository dump_table
corrupt_record_loses_rest codecs good key raw f rest k v faithful u bad e =
    rw (e, load_stops codecs.runtime good [] key raw rest faithful u (Fresh-nil good) bad)
