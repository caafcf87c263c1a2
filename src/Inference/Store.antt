-- ===== src/Inference/Store.antt =====
-- StagedArtifactStore. The files `<deployment>.artifact.json` and the directories
-- `<deployment>.runtime` of the cache directory are given by their deployment, and a path by the
-- deployment that it names.
use greenference_node.Base.{
  ◌≢◌, ℕ, ◌≡◌, ap, arith, String, Bool, true, false, Option, none, some, List, [], ◌∷◌, str_eq,
  eq_iff, if◌then◌else◌, ◌↔◌,
}
use greenference_node.Dict.{Dict, lookup, insert, erase}
use greenference_node.Text.{codes, starts_with}
use greenference_node.Text.Words.{is_empty, one_of}
use greenference_node.Agent.Exec.{Outcome, returned, raised, inference_error}

-- ArtifactBundle, without the manifests and the payload, which the store passes on as they are.
pub record ArtifactBundle : Type 0 where
  pub build_id : String
  pub image : String
  pub artifact_uri : String
  pub artifact_digest : String
  pub staged_artifact_path : String

-- The staged artifacts, and the sizes of the files of each runtime directory.
pub record Cache : Type 0 where
  pub artifacts : Dict ArtifactBundle
  pub runtime_dirs : Dict (List ℕ)

-- The two checks of a staging, before it writes.
abbrev pub unless_missing :
    Bool → Bool → ArtifactBundle → Cache → Cache → Outcome ArtifactBundle × Cache
unless_missing true no_digest bundle cache written =
    (raised (inference_error "artifact_fetch_failure"), cache)
unless_missing false true bundle cache written =
    (raised (inference_error "artifact_validation_failure"), cache)
unless_missing false false bundle cache written = (returned bundle, written)

unfoldable pub stage_artifact :
    String → String → String → String → String → Cache → Outcome ArtifactBundle × Cache
unfolding is_empty insert
stage_artifact deployment_id build_id image artifact_uri artifact_digest cache =
    let bundle : ArtifactBundle = record {
      build_id = build_id;
      image = image;
      artifact_uri = artifact_uri;
      artifact_digest = artifact_digest;
      staged_artifact_path = deployment_id;
    } in
    let written = record cache { artifacts = insert deployment_id bundle cache.artifacts } in
    unless_missing (is_empty artifact_uri) (is_empty artifact_digest) bundle cache written

unfoldable pub has_digest : ArtifactBundle → Bool
unfolding starts_with
has_digest bundle = starts_with (codes bundle.artifact_digest) (codes "sha256:")

-- What a load answers, given what the file holds.
unfoldable pub checked : Option ArtifactBundle → Outcome ArtifactBundle
unfolding has_digest
checked none = raised (inference_error "artifact_fetch_failure")
checked (some bundle) =
    if has_digest bundle
    then returned bundle
    else raised (inference_error "artifact_validation_failure")

unfoldable pub load_staged_artifact : String → Cache → Outcome ArtifactBundle
unfolding lookup checked
load_staged_artifact path cache = checked (lookup path cache.artifacts)

unfoldable pub delete_staged_artifact : Option String → Cache → Cache
unfolding erase
delete_staged_artifact none cache = cache
delete_staged_artifact (some path) cache = record cache { artifacts = erase path cache.artifacts }

-- `mkdir(exist_ok=True)`
unfoldable pub runtime_dir : String → Cache → String × Cache
unfolding lookup insert
runtime_dir deployment_id cache = elim (lookup deployment_id cache.runtime_dirs) [
  | none ↦
      (deployment_id, record cache { runtime_dirs = insert deployment_id [] cache.runtime_dirs })
  | some files ↦ (deployment_id, cache)
]

unfoldable pub delete_runtime_dir : Option String → Cache → Cache
unfolding erase
delete_runtime_dir none cache = cache
delete_runtime_dir (some path) cache = record cache { runtime_dirs = erase path cache.runtime_dirs }

named : Bool → String → List String → List String
named true k rest = rest
named false k rest = k ∷ rest

same_key :
    (active : List String) (k j : String) → str_eq k j ≡ true → one_of k active ≡ one_of j active
same_key active k j e = ap (λ x. one_of x active) ((eq_iff k j).0 e)

-- The entries of the deployments that are active, and the names of the others, in order.
module _ {V : Type 0} where
  kept : Bool → String × V → Dict V → Dict V
  kept true entry rest = entry ∷ rest
  kept false entry rest = rest

  unfoldable pub keep_active : List String → Dict V → Dict V
  unfolding kept one_of
  keep_active active [] = []
  keep_active active ((k, v) ∷ d) = kept (one_of k active) (k, v) (keep_active active d)

  unfoldable pub stale : List String → Dict V → List String
  unfolding named one_of
  stale active [] = []
  stale active ((k, v) ∷ d) = named (one_of k active) k (stale active d)

  pub lookup-keep_active :
      (active : List String) (j : String) (d : Dict V)
      → lookup j (keep_active active d) ≡ (if one_of j active then lookup j d else none)
  unfolding lookup keep_active kept
  lookup-keep_active active j [] = ground arith
  lookup-keep_active active j ((k, v) ∷ d) =
      ground (arith, lookup-keep_active active j d, same_key active k j)

  pub stale_iff :
      (active : List String) (j : String) (d : Dict V)
      → (one_of j (stale active d) ≡ true) ↔ ((one_of j active ≡ false) × (lookup j d ≢ none))
  unfolding lookup stale named one_of
  stale_iff active j [] = ground arith
  stale_iff active j ((k, v) ∷ d) =
      ground (arith, stale_iff active j d, same_key active k j, eq_iff k j, eq_iff j k)

pub record Evicted : Type 0 where
  pub evicted_artifacts : List String
  pub evicted_runtime_dirs : List String

-- The counts of the answer are the lengths of its lists.
unfoldable pub evict_stale_cache : List String → Cache → Evicted × Cache
unfolding keep_active stale
evict_stale_cache active cache = (
  record {
    evicted_artifacts = stale active cache.artifacts;
    evicted_runtime_dirs = stale active cache.runtime_dirs;
  },
  record {
    artifacts = keep_active active cache.artifacts;
    runtime_dirs = keep_active active cache.runtime_dirs;
  },
)
