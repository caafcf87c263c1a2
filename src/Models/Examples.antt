-- ===== src/Models/Examples.antt =====
-- Tests of the text models.
use greenference_node.Base.{
  ◌≡◌, ◌≢◌, refl, ℕ, ◌+◌, ◌%◌, ◌≤◌, String, List, some, none, true, pos, [], ◌∷◌, arith, length,
}
use greenference_node.Text.Words.{join}
use greenference_node.Text.Tokens.{words}
use greenference_node.Agent.Exec.{returned}
use greenference_node.Models.Corpus.{one_text, tokenize, build_bigram_graph, list_at}
use greenference_node.Models.Graph.{corpus_followers, list_at-build_bigram_graph}
use greenference_node.Models.Generate.{Rng, ChatRequest, Fallback, token_budget, generate_text}
use greenference_node.Models.Walk.{IsRng, IsWalk, generate_text-IsWalk}
use greenference_node.Models.Create.{
  Manifest, created, Library, local_cpu, manifest_fallback, create_text_generation_backend, text_of,
}
use greenference_node.Models.Events.{Served, do_post, streamed, local_stream}
use greenference_node.Models.Streaming.{words_stream, delivered, streams_agree}

tokens : tokenize "The cat, sat (on) the MAT!" ≡ "the" ∷ "cat" ∷ "sat" ∷ "on" ∷ "the" ∷ "mat" ∷ []
unfolding tokenize
tokens = refl

-- A counter, reduced to the range that is asked for.
abbrev counting : Rng ℕ
counting = record { seeded = λ s. 3; randbelow = λ n r. (r % n, r + 1) }

counting-IsRng : IsRng counting
counting-IsRng n r h = grind arith

abbrev manifest : Manifest
manifest = record {
  runtime_kind = "local-cpu-textgen";
  model_identifier = "toy";
  model_revision = none;
  tokenizer_identifier = "";
  seed_corpus = one_text "the cat sat on the mat";
}

abbrev model : Fallback
model = record {
  backend_name = "local-cpu-textgen";
  fallback_reason = "cpu-text-runtime";
  model_identifier = "toy";
  tokenizer_identifier = "toy";
  seed_corpus = "the cat sat on the mat" ∷ [];
  graph =
      ("the", "cat" ∷ "mat" ∷ [])
      ∷ ("cat", "sat" ∷ [])
      ∷ ("sat", "on" ∷ [])
      ∷ ("on", "the" ∷ [])
      ∷ [];
  graph_keys = "cat" ∷ "on" ∷ "sat" ∷ "the" ∷ [];
}

made : manifest_fallback manifest "image" "local-cpu-textgen" "cpu-text-runtime" ≡ created model
unfolding manifest_fallback
made = refl

abbrev request : ChatRequest
request = record {
  model = "toy";
  messages = record { role = "user"; content = "where is the" } ∷ [];
  max_tokens = some (pos 2);
  temperature = none;
  stream = true;
}

generate_text-IsWalk_example :
    (a : String) × (ts : List String) × (generate_text counting model request ≡ some (join " " ts))
    × (length ts ≡ token_budget 24 (some (pos 2)))
    × (8 ≤ length ts)
    × (length ts ≤ 24)
    × (corpus_followers a model.seed_corpus ≢ [])
    × IsWalk (λ w. corpus_followers w model.seed_corpus) a ts
generate_text-IsWalk_example =
    generate_text-IsWalk counting manifest "image" "local-cpu-textgen" "cpu-text-runtime" model
      request counting-IsRng made

generated : generate_text counting model request ≡ some "mat sat on the cat sat on the"
unfolding generate_text
generated = refl

abbrev library : Library
library = record {
  load_causal_lm = λ m t r. some "hf runtime dependency missing: torch";
  load_diffusion = λ m r. some "no diffusers";
  complete = λ g m p n t. ("", "");
  draw = λ g m p. "";
}

abbrev remote : Manifest
remote = record manifest { runtime_kind = "vllm" }

abbrev here : Served
here = record { deployment_id = "d1"; hotkey = "h"; image = "image" }

toy_made : create_text_generation_backend library manifest "image" true ≡ created (local_cpu model)
unfolding create_text_generation_backend
toy_made = refl

streams_agree_example :
    (do_post library counting "id" 0 here
        (local_cpu model)
        "/v1/chat/completions"
        (some (record request { stream = true }))
      ≡ streamed (words_stream "id" here request "mat sat on the cat sat on the"))
    × (local_stream library counting "other" 1 2 here (some manifest) request
        ≡ returned (words_stream "other" here request "mat sat on the cat sat on the"))
    × (delivered (words_stream "id" here request "mat sat on the cat sat on the")
        ≡ join " " (words "mat sat on the cat sat on the"))
    × (delivered (words_stream "other" here request "mat sat on the cat sat on the")
        ≡ join " " (words "mat sat on the cat sat on the"))
unfolding text_of generate_text
streams_agree_example =
    streams_agree library counting "id" "other" 0 1 2 3 here manifest (local_cpu model) request
      "mat sat on the cat sat on the" toy_made tt generated

list_at-build_bigram_graph_example :
    list_at "the" (build_bigram_graph model.seed_corpus) ≡ corpus_followers "the" model.seed_corpus
list_at-build_bigram_graph_example = list_at-build_bigram_graph "the" model.seed_corpus
