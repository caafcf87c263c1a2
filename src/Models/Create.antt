-- ===== src/Models/Create.antt =====
-- The backends of model_backend.py and the choice between them. The libraries that load and run a
-- model are a parameter. A text that Python tests for truth is empty where the manifest has none.
use greenference_node.Base.{
  ℕ, String, Bool, true, false, Option, none, some, List, [], ◌∷◌, str_eq, if◌then◌else◌, ◌||◌,
}
use greenference_node.Text.Words.{concat, join, is_empty, strip_text}
use greenference_node.Text.Tokens.{words}
use greenference_node.Models.Corpus.{
  SeedCorpus, Graph, normalize_corpus, build_bigram_graph, keys, sorted,
}
use greenference_node.Models.Generate.{
  Rng, Message, ChatRequest, Fallback, token_budget, generate_text,
}

-- The runtime manifest of an artifact.
pub record Manifest : Type 0 where
  pub runtime_kind : String
  pub model_identifier : String
  pub model_revision : Option String
  pub tokenizer_identifier : String
  pub seed_corpus : SeedCorpus

-- The reasons of a ModelBackendError.
pub data ModelError : Type 0 where
  missing_seed_corpus empty_language_graph missing_model_identifier : ModelError
  not_loaded : String → ModelError
  unsupported_kind : String → ModelError

pub data Created (A : Type 0) : Type 0 where
  created : A → Created A
  model_error : ModelError → Created A

-- A load of a model is a reason why it failed, or none. `complete` gives the decoded continuation
-- and the decoded whole output; `draw` gives the base64 text of an image. Both sample, so two
-- generations may differ: their first argument is the number of the generation.
pub record Library : Type 0 where
  pub load_causal_lm : String → String → Option String → Option String
  pub load_diffusion : String → Option String → Option String
  pub complete : ℕ → String → String → ℕ → Option String → String × String
  pub draw : ℕ → String → String → String

-- `str(exc)`
unfoldable pub show_error : ModelError → String
show_error missing_seed_corpus = "runtime manifest missing seed_corpus"
show_error empty_language_graph = "runtime manifest produced an empty language graph"
show_error missing_model_identifier = "runtime manifest missing model_identifier"
show_error (not_loaded reason) = reason
show_error (unsupported_kind kind) = concat ("unsupported runtime_kind: " ∷ kind ∷ [])

-- `a or b`
unfoldable pub or_text : String → String → String
unfolding is_empty
or_text a b = if is_empty a then b else a

unfoldable pub with_keys : Fallback → List String → Created Fallback
with_keys b [] = model_error empty_language_graph
with_keys b (k ∷ ks) = created (record b { graph_keys = k ∷ ks })

unfoldable pub with_corpus : Fallback → List String → Created Fallback
unfolding with_keys build_bigram_graph sorted
with_corpus b [] = model_error missing_seed_corpus
with_corpus b (s ∷ corpus) =
    let graph : Graph = build_bigram_graph (s ∷ corpus) in
    with_keys (record b { seed_corpus = s ∷ corpus; graph = graph }) (sorted (keys graph))

-- The identifiers that a new fallback has.
unfoldable pub new_fallback : Manifest → String → String → String → Fallback
unfolding or_text
new_fallback manifest image backend_name reason =
    let model = or_text manifest.model_identifier image in
    record {
      backend_name = backend_name;
      fallback_reason = reason;
      model_identifier = model;
      tokenizer_identifier = or_text manifest.tokenizer_identifier model;
      seed_corpus = [];
      graph = [];
      graph_keys = [];
    }

-- ManifestFallbackBackend.__init__
unfoldable pub manifest_fallback : Manifest → String → String → String → Created Fallback
unfolding with_corpus normalize_corpus new_fallback
manifest_fallback manifest image backend_name reason =
    with_corpus (new_fallback manifest image backend_name reason)
      (normalize_corpus manifest.seed_corpus)

pub data Backend : Type 0 where
  local_cpu : Fallback → Backend
  fallback : Fallback → Backend
  causal_lm : String → String → Backend
  diffusion : String → Backend

unfoldable pub map_created : {A B : Type 0} → (A → B) → Created A → Created B
map_created f (created x) = created (f x)
map_created f (model_error e) = model_error e

-- What a load answers, as the constructor does.
unfoldable pub loaded : Backend → Option String → Created Backend
loaded b none = created b
loaded b (some reason) = model_error (not_loaded reason)

-- `"\n".join(f"{role}: {content}") + "assistant:"`
chat_lines : List Message → List String
chat_lines [] = "assistant:" ∷ []
chat_lines (m ∷ messages) = concat (m.role ∷ ": " ∷ m.content ∷ []) ∷ chat_lines messages

user_contents : List Message → List String
user_contents [] = []
user_contents (m ∷ messages) =
    let rest = user_contents messages in
    if is_empty m.content then rest else if str_eq m.role "user" then m.content ∷ rest else rest

stripped_or : String × String → String
unfolding or_text strip_text
stripped_or (continuation, whole) = or_text (strip_text continuation) (strip_text whole)

-- `backend.stream_tokens(payload)`: the words of the text, but for an image, which is one token
unfoldable pub tokens_of_text : Backend → String → List String
unfolding words
tokens_of_text (diffusion model) text = text ∷ []
tokens_of_text (local_cpu b) text = words text
tokens_of_text (fallback b) text = words text
tokens_of_text (causal_lm model tokenizer) text = words text

module _ (library : Library) where
  -- HuggingFaceCausalLMBackend.__init__
  unfoldable pub causal_lm_backend : Manifest → Created Backend
  unfolding loaded or_text is_empty
  causal_lm_backend m =
      let tokenizer = or_text m.tokenizer_identifier m.model_identifier in
      if is_empty m.model_identifier
      then model_error missing_model_identifier
      else loaded (causal_lm m.model_identifier tokenizer)
          (library.load_causal_lm m.model_identifier tokenizer m.model_revision)

  -- DiffusionModelBackend.__init__
  unfoldable pub diffusion_backend : Manifest → Created Backend
  unfolding loaded is_empty
  diffusion_backend m =
      if is_empty m.model_identifier
      then model_error missing_model_identifier
      else loaded (diffusion m.model_identifier)
          (library.load_diffusion m.model_identifier m.model_revision)

  -- `except ModelBackendError`
  unfoldable pub or_fallback : Bool → Manifest → String → Created Backend → Created Backend
  unfolding manifest_fallback map_created show_error
  or_fallback allow_fallback manifest image (created b) = created b
  or_fallback false manifest image (model_error e) = model_error e
  or_fallback true manifest image (model_error e) =
      map_created fallback (manifest_fallback manifest image "hf-causal-lm-fallback" (show_error e))

  unfoldable pub create_text_generation_backend : Manifest → String → Bool → Created Backend
  unfolding manifest_fallback map_created or_fallback causal_lm_backend diffusion_backend or_text
  create_text_generation_backend manifest image allow_fallback =
      let kind = or_text manifest.runtime_kind "hf-causal-lm" in
      if str_eq kind "local-cpu-textgen"
      then map_created local_cpu
          (manifest_fallback manifest image "local-cpu-textgen" "cpu-text-runtime")
      else if str_eq kind "diffusion"
      then or_fallback allow_fallback manifest image (diffusion_backend manifest)
      else if str_eq kind "hf-causal-lm" || str_eq kind "vllm"
      then or_fallback allow_fallback manifest image (causal_lm_backend manifest)
      else model_error (unsupported_kind kind)

  drawn : ℕ → String → String → String
  unfolding is_empty
  drawn generation model prompt =
      if is_empty prompt
      then "[No prompt provided]"
      else concat (
          "![Generated image](data:image/png;base64,"
          ∷ library.draw generation model prompt
          ∷ ")"
          ∷ [])

  module _ {R : Type 0} (rng : Rng R) where
    -- `backend.generate_text(payload)`
    unfoldable pub text_of : ℕ → Backend → ChatRequest → Option String
    unfolding generate_text chat_lines user_contents drawn stripped_or token_budget join
    text_of generation (local_cpu b) r = generate_text rng b r
    text_of generation (fallback b) r = generate_text rng b r
    text_of generation (causal_lm model tokenizer) r = some (
        stripped_or (
          library.complete generation model (join "\n" (chat_lines r.messages))
            (token_budget 32 r.max_tokens) r.temperature))
    text_of generation (diffusion model) r =
        some (drawn generation model (join " " (user_contents r.messages)))

    unfoldable pub stream_tokens : ℕ → Backend → ChatRequest → Option (List String)
    unfolding text_of tokens_of_text
    stream_tokens generation b r = elim (text_of generation b r) [
      | none ↦ none
      | some text ↦ some (tokens_of_text b text)
    ]
