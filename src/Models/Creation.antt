-- ===== src/Models/Creation.antt =====
-- When create_text_generation_backend makes a model.
use greenference_node.Base.{◌≡◌, ◌≢◌, String, Bool, true, false, [], ◌||◌, str_eq, if◌then◌else◌}
use greenference_node.Models.Corpus.{Graph, normalize_corpus}
use greenference_node.Models.Graph.{corpus_followers}
use greenference_node.Models.Generate.{Fallback}
use greenference_node.Models.Create.{
  Manifest, unsupported_kind, Created, created, model_error, Library, Backend, local_cpu, fallback,
  causal_lm_backend, diffusion_backend,
}

-- Some word of the seed corpus has a word after it.
abbrev pub HasPair : Manifest → Type 0
HasPair m = (w : String) × (corpus_followers w (normalize_corpus m.seed_corpus) ≢ [])

-- The kind that counts: an empty one is the causal language model.
abbrev pub kind_of : Manifest → String
kind_of m = if str_eq m.runtime_kind "" then "hf-causal-lm" else m.runtime_kind

-- What comes of a load, where the fallback is allowed or not: the model that was loaded, else the
-- fallback, else the error of the load.
abbrev pub Loaded : Bool → Created Backend → Created Backend → Type 0
Loaded allow (created x) result = result ≡ created x
Loaded true (model_error e) result = (f : Fallback) × (result ≡ created (fallback f))
Loaded false (model_error e) result = result ≡ model_error e

module _ (library : Library) (m : Manifest) (image : String) (allow : Bool) where
  -- What comes of a kind.
  abbrev pub IsChoice : String → Created Backend → Type 0
  IsChoice kind result =
      if str_eq kind "local-cpu-textgen"
      then ((f : Fallback) × (result ≡ created (local_cpu f)))
      else if str_eq kind "diffusion"
      then Loaded allow (diffusion_backend library m) result
      else if str_eq kind "hf-causal-lm" || str_eq kind "vllm"
      then Loaded allow (causal_lm_backend library m) result
      else result ≡ model_error (unsupported_kind kind)
