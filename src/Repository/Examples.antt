-- ===== src/Repository/Examples.antt =====
-- The repository's theorems on small tables. A record is a text that is its own dump, and the text
-- "bad" does not validate.
use greenference_node.Base.{ℕ, zero, suc, ◌≡◌, refl, String, Option, none, some, [], ◌∷◌}
use greenference_node.Dict.{insert, lookup}
use greenference_node.Repository.{
  Codec, Codecs, StateFile, Repository, dump_table, open_repository, upsert_runtime, remove_runtime,
}
use greenference_node.Repository.Persistence.{
  IsFaithful, AreFaithful, HasUniqueKeys, corrupt_record_loses_rest,
}

abbrev pub plain : Codec ℕ (Option ℕ)
plain = record { model_dump = some; model_validate = λ x. x }

abbrev pub plain_codecs : Codecs ℕ ℕ ℕ ℕ (Option ℕ)
plain_codecs = record { runtime = plain; placement = plain; volume = plain; collateral = plain }

plain-IsFaithful : IsFaithful plain
plain-IsFaithful = record { round = λ r. refl }

plain_codecs-AreFaithful : AreFaithful plain_codecs
plain_codecs-AreFaithful = record {
  runtime = plain-IsFaithful;
  placement = plain-IsFaithful;
  volume = plain-IsFaithful;
  collateral = plain-IsFaithful;
}

abbrev small : Repository ℕ ℕ ℕ ℕ (Option ℕ)
small = record {
  runtimes = ("a", 1) ∷ ("b", 2) ∷ [];
  placements = ("p", 3) ∷ [];
  volumes = [];
  collateral = [];
  file = none;
}

small-HasUniqueKeys : HasUniqueKeys plain_codecs small
unfolding lookup
small-HasUniqueKeys = record {
  runtimes = (refl, (refl, tt));
  placements = (refl, tt);
  volumes = tt;
  collateral = tt;
}

abbrev written : Repository ℕ ℕ ℕ ℕ (Option ℕ)
written = remove_runtime plain_codecs "a" (upsert_runtime plain_codecs "c" 7 small)

abbrev damaged : StateFile (Option ℕ)
damaged = record {
  runtimes = ("a", some 1) ∷ ("b", none) ∷ ("c", some 3) ∷ [];
  placements = ("p", some 4) ∷ [];
  volumes = [];
  collateral = [];
}

corrupt_record_loses_rest_example :
    (upsert_runtime plain_codecs "d" 9 (open_repository plain_codecs (some damaged))).file
    ≡ some (record {
      runtimes = dump_table plain (insert "d" 9 (("a", 1) ∷ []));
      placements = [];
      volumes = [];
      collateral = [];
    })
unfolding lookup dump_table
corrupt_record_loses_rest_example =
    corrupt_record_loses_rest plain_codecs (("a", 1) ∷ []) "b" none damaged (("c", some 3) ∷ []) "d"
      9 plain-IsFaithful (refl, tt) refl refl

abbrev status_of : ℕ → String
status_of (suc zero) = "failed"
status_of _ = "ready"
