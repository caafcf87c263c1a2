-- ===== src/Inference/Eviction.antt =====
-- What is left in the cache of artifacts after an eviction.
use greenference_node.Base.{
  ◌≡◌, ◌↔◌, ◌≢◌, sym, arith, String, Bool, true, false, none, some, List, if◌then◌else◌,
  str_eq_self, ap, ◌∙◌,
}
use greenference_node.Dict.{lookup, insert, lookup-insert}
use greenference_node.Text.Words.{one_of, is_empty}
use greenference_node.Agent.Exec.{Outcome, returned, raised, inference_error}
use greenference_node.Inference.Store.{
  ArtifactBundle, Cache, unless_missing, stage_artifact, has_digest, checked, load_staged_artifact,
  evict_stale_cache, keep_active, lookup-keep_active, stale_iff,
}

-- An eviction leaves each active deployment's artifact and runtime directory as they were and
-- leaves no other, and it names those that it took away: the ones that were there and not active.
evict-keeps_active :
    (active : List String) (cache : Cache) (j : String)
    → let (evicted, after) = evict_stale_cache active cache in
      (lookup j after.artifacts ≡ (if one_of j active then lookup j cache.artifacts else none))
      × (lookup j after.runtime_dirs
          ≡ (if one_of j active then lookup j cache.runtime_dirs else none))
      × ((one_of j evicted.evicted_artifacts ≡ true)
          ↔ ((one_of j active ≡ false) × (lookup j cache.artifacts ≢ none)))
      × ((one_of j evicted.evicted_runtime_dirs ≡ true)
          ↔ ((one_of j active ≡ false) × (lookup j cache.runtime_dirs ≢ none)))
unfolding evict_stale_cache
evict-keeps_active active cache j = (
  lookup-keep_active active j cache.artifacts,
  lookup-keep_active active j cache.runtime_dirs,
  stale_iff active j cache.artifacts,
  stale_iff active j cache.runtime_dirs,
)

-- What a successful staging returned, it wrote.
written :
    (no_uri no_digest : Bool) (id : String) (b bundle : ArtifactBundle) (cache staged : Cache)
    → unless_missing no_uri no_digest b cache
        (record cache { artifacts = insert id b cache.artifacts })
      ≡ (returned bundle, staged)
    → lookup id staged.artifacts ≡ some bundle
written true no_digest id b bundle cache staged e = ground (arith, ap (λ r. r.0) e)
written false true id b bundle cache staged e = ground (arith, ap (λ r. r.0) e)
written false false id b bundle cache staged e =
    ap (λ r. lookup id r.1.artifacts) (sym e)
    ∙ (lookup-insert id id b cache.artifacts
        ∙ rw (str_eq_self id) (ap some (ap (λ r. value_or b r.0) e)))
  where
    value_or : ArtifactBundle → Outcome ArtifactBundle → ArtifactBundle
    value_or d (returned x) = x
    value_or d (raised x) = d

-- An artifact that was staged for an active deployment is loaded again after an eviction, the same
-- bundle, if its digest names sha256; with any other digest, which staging takes, loading refuses
-- it.
pub stage-evict-load :
    (active : List String) (id build image uri digest : String) (bundle : ArtifactBundle)
    (cache staged : Cache)
    → stage_artifact id build image uri digest cache ≡ (returned bundle, staged)
    → one_of id active ≡ true
    → load_staged_artifact id (evict_stale_cache active staged).1 ≡ (
        if has_digest bundle
        then returned bundle
        else raised (inference_error "artifact_validation_failure"))
unfolding stage_artifact load_staged_artifact evict_stale_cache checked
stage-evict-load active id build image uri digest bundle cache staged e here =
    let there = written (is_empty uri) (is_empty digest) id _ bundle cache staged e in
    let survives : lookup id (keep_active active staged.artifacts) ≡ some bundle =
      lookup-keep_active active id staged.artifacts ∙ rw here there in
    ap checked survives
