-- ===== src/Models/Events.antt =====
-- Answers and streams: LocalArtifactInferenceBackend.invoke and stream of domain/inference.py, and
-- runtime_server.py. A stream is its events; how an event is written as a line of JSON is left out.
-- The id of an answer, which the protocol draws, and the number of each generation are parameters.
use greenference_node.Base.{
  ℕ, zero, suc, String, Bool, true, false, Option, none, some, List, [], ◌∷◌, str_eq, if◌then◌else◌,
}
use greenference_node.Text.Words.{concat}
use greenference_node.Text.Tokens.{words}
use greenference_node.Agent.Exec.{Outcome, returned, raised, inference_error, other_error}
use greenference_node.Models.Generate.{Rng, ChatRequest}
use greenference_node.Models.Create.{
  Manifest, Created, created, model_error, Library, Backend, create_text_generation_backend,
  text_of, stream_tokens,
}

-- ChatCompletionResponse
pub record ChatResponse : Type 0 where
  pub id : String
  pub model : String
  pub content : String
  pub deployment_id : String
  pub routed_hotkey : String

-- A `chat.completion.chunk`, with the content of its delta if it has one.
pub record Chunk : Type 0 where
  pub id : String
  pub model : String
  pub deployment_id : String
  pub routed_hotkey : String
  pub content : Option String
  pub finish_reason : Option String

-- The lines that begin with `data:`, of which the last one ends the stream.
pub data Event : Type 0 where
  chunk : Chunk → Event
  done : Event

unfoldable pub chunk_of : ChatResponse → Option String → Option String → Event
chunk_of r content finish_reason = chunk (record {
  id = r.id;
  model = r.model;
  deployment_id = r.deployment_id;
  routed_hotkey = r.routed_hotkey;
  content = content;
  finish_reason = finish_reason;
})

-- `word if index == 0 else f" {word}"`
unfoldable pub piece : ℕ → String → String
piece zero word = word
piece (suc index) word = concat (" " ∷ word ∷ [])

unfoldable pub word_events : ChatResponse → ℕ → List String → List Event
unfolding chunk_of piece
word_events r index [] = chunk_of r none (some "stop") ∷ done ∷ []
word_events r index (word ∷ rest) =
    chunk_of r (some (piece index word)) none ∷ word_events r (suc index) rest

-- The part of a runtime that an answer names.
pub record Served : Type 0 where
  pub deployment_id : String
  pub hotkey : String
  pub image : String

unfoldable pub response_of : String → Served → ChatRequest → String → ChatResponse
response_of id s r text = record {
  id = id;
  model = r.model;
  content = text;
  deployment_id = s.deployment_id;
  routed_hotkey = s.hotkey;
}

-- An exception of the model is not caught.
unfoldable pub answer : String → Served → ChatRequest → Option String → Outcome ChatResponse
unfolding response_of
answer id s r none = raised other_error
answer id s r (some text) = returned (response_of id s r text)

unfoldable pub of_backend : {A : Type 0} → Created Backend → (Backend → Outcome A) → Outcome A
of_backend (created b) f = f b
of_backend (model_error e) f = raised other_error

unfoldable pub stream_of :
    String → Served → ChatRequest → Option String → Option (List String) → Outcome (List Event)
unfolding word_events response_of
stream_of id s r none tokens = raised other_error
stream_of id s r (some text) none = raised other_error
stream_of id s r (some text) (some tokens) =
    returned (word_events (response_of id s r text) zero tokens)

-- What the runtime server sends, or the exception of its handler.
pub data Reply : Type 0 where
  not_found failed : Reply
  healthy : Served → Reply
  completion : ChatResponse → Reply
  streamed : List Event → Reply

unfoldable pub do_get : Served → String → Reply
do_get s path = if str_eq path "/healthz" then healthy s else not_found

unfoldable pub send : Bool → Outcome ChatResponse → Reply
unfolding word_events words
send stream (raised e) = failed
send true (returned response) = streamed (word_events response zero (words response.content))
send false (returned response) = completion response

module _ (library : Library) {R : Type 0} (rng : Rng R) where
  unfoldable pub of_manifest :
      {A : Type 0} → Option Manifest → String → (Backend → Outcome A) → Outcome A
  unfolding of_backend create_text_generation_backend
  of_manifest none image f = raised (inference_error "artifact_validation_failure")
  of_manifest (some m) image f = of_backend (create_text_generation_backend library m image true) f

  -- LocalArtifactInferenceBackend.invoke, on the manifest in the runtime's metadata
  unfoldable pub local_invoke :
      String → ℕ → Served → Option Manifest → ChatRequest → Outcome ChatResponse
  unfolding of_manifest answer text_of
  local_invoke id generation s manifest r =
      of_manifest manifest s.image (λ b. answer id s r (text_of library rng generation b r))

  -- LocalArtifactInferenceBackend.stream, which generates twice
  unfoldable pub local_stream :
      String → ℕ → ℕ → Served → Option Manifest → ChatRequest → Outcome (List Event)
  unfolding of_manifest stream_of text_of stream_tokens
  local_stream id first second s manifest r =
      let plain : ChatRequest = record r { stream = false } in
      of_manifest manifest s.image (λ b.
        stream_of id s r (text_of library rng first b plain)
          (stream_tokens library rng second b plain))

  -- A body that is no request is `none`.
  unfoldable pub do_post : String → ℕ → Served → Backend → String → Option ChatRequest → Reply
  unfolding send answer text_of
  do_post id generation s b path none =
      if str_eq path "/v1/chat/completions" then failed else not_found
  do_post id generation s b path (some r) =
      if str_eq path "/v1/chat/completions"
      then send r.stream (answer id s r (text_of library rng generation b r))
      else not_found

  -- `main`, up to the start of the server: the model that it serves.
  unfoldable pub serve : Option Manifest → String → Outcome Backend
  unfolding of_backend create_text_generation_backend
  serve none image = raised other_error
  serve (some m) image =
      of_backend (create_text_generation_backend library m image false) (λ b. returned b)
