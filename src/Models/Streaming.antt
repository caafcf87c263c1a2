-- ===== src/Models/Streaming.antt =====
-- What the streams of a text deliver.
use greenference_node.Base.{
  ℕ, zero, suc, ◌≡◌, refl, ap, ◌∙◌, String, Bool, true, false, Option, none, some, List, [], ◌∷◌,
  get_or, str_eq_self,
}
use greenference_node.Text.Words.{concat, join}
use greenference_node.Text.Tokens.{words}
use greenference_node.Agent.Exec.{returned}
use greenference_node.Models.Generate.{Rng, ChatRequest}
use greenference_node.Models.Create.{
  Manifest, created, Library, Backend, local_cpu, fallback, causal_lm, diffusion,
  create_text_generation_backend, text_of, tokens_of_text, stream_tokens,
}
use greenference_node.Models.Events.{
  ChatResponse, Event, chunk, done, word_events, Served, response_of, local_stream, streamed,
  do_post, of_backend, stream_of, send, answer,
}
use Prim.Native.String.{◌++◌ as append}
use text.Mathlib.TextLemmas.{append-nil, append_assoc}

-- What a reader of the stream puts together.
unfoldable pub delivered : List Event → String
delivered [] = ""
delivered (done ∷ rest) = ""
delivered (chunk c ∷ rest) = append (get_or c.content "") (delivered rest)

spaced : List String → String
spaced [] = ""
spaced (w ∷ ws) = append (concat (" " ∷ w ∷ [])) (spaced ws)

delivered_later :
    (r : ChatResponse) (i : ℕ) (ws : List String) → delivered (word_events r (suc i) ws) ≡ spaced ws
unfolding delivered word_events spaced
delivered_later r i [] = refl
delivered_later r i (w ∷ ws) = ap (append (concat (" " ∷ w ∷ []))) (delivered_later r (suc i) ws)

spaced-join : (w : String) (ws : List String) → append w (spaced ws) ≡ join " " (w ∷ ws)
unfolding spaced join
spaced-join w [] = append-nil w
spaced-join w (u ∷ us) = ap (append w) (
    append_assoc " " (append u "") (spaced us)
    ∙ ap (λ s. append " " (append s (spaced us))) (append-nil u)
    ∙ ap (append " ") (spaced-join u us))

delivered-word_events :
    (r : ChatResponse) (ws : List String) → delivered (word_events r zero ws) ≡ join " " ws
unfolding delivered word_events join
delivered-word_events r [] = refl
delivered-word_events r (w ∷ ws) = ap (append w) (delivered_later r zero ws) ∙ spaced-join w ws

-- A model of the fallback kind, whose text is a function of the request.
abbrev pub IsSeeded : Backend → Type 0
IsSeeded (local_cpu b) = Unit
IsSeeded (fallback b) = Unit
IsSeeded (causal_lm model tokenizer) = ⊥
IsSeeded (diffusion model) = ⊥

tokens_option : Backend → Option String → Option (List String)
unfolding tokens_of_text
tokens_option b o = elim o [ none ↦ none | some text ↦ some (tokens_of_text b text) ]

module _ (library : Library) {R : Type 0} (rng : Rng R) where
  -- Neither the generation nor the flag of the request changes the text.
  text_of-same :
      (g h : ℕ) (b : Backend) (r : ChatRequest) (x : Bool)
      → IsSeeded b
      → text_of library rng g b (record r { stream = x }) ≡ text_of library rng h b r
  unfolding text_of
  text_of-same g h (local_cpu b) r x w = refl
  text_of-same g h (fallback b) r x w = refl
  text_of-same g h (causal_lm m t) r x w = absurd w
  text_of-same g h (diffusion m) r x w = absurd w

  stream_tokens-words :
      (g : ℕ) (b : Backend) (r : ChatRequest) (text : String)
      → IsSeeded b
      → text_of library rng g b r ≡ some text
      → stream_tokens library rng g b r ≡ some (words text)
  unfolding stream_tokens tokens_option
  stream_tokens-words g (local_cpu b) r text w e = ap (tokens_option (local_cpu b)) e
  stream_tokens-words g (fallback b) r text w e = ap (tokens_option (fallback b)) e
  stream_tokens-words g (causal_lm m t) r text w e = absurd w
  stream_tokens-words g (diffusion m) r text w e = absurd w

-- The stream of a text: its words, and nothing of the spacing between them.
abbrev pub words_stream : String → Served → ChatRequest → String → List Event
words_stream id s r text = word_events (response_of id s r text) zero (words text)

-- For a request to stream, of a model of the fallback kind, the runtime server and the local backend
-- send the same events but for the id, which each draws for itself: one for each word of the text
-- that the model generates. What each of them delivers is those words with one space between each
-- two: the text's own line breaks and runs of spaces are lost.
pub streams_agree :
    (library : Library) {R : Type 0} (rng : Rng R) (id id' : String) (g h k l : ℕ) (s : Served)
    (m : Manifest) (b : Backend) (r : ChatRequest) (text : String)
    → create_text_generation_backend library m s.image true ≡ created b
    → IsSeeded b
    → text_of library rng l b r ≡ some text
    → (do_post library rng id g s b "/v1/chat/completions" (some (record r { stream = true }))
        ≡ streamed (words_stream id s r text))
      × (local_stream library rng id' h k s (some m) r ≡ returned (words_stream id' s r text))
      × (delivered (words_stream id s r text) ≡ join " " (words text))
      × (delivered (words_stream id' s r text) ≡ join " " (words text))
unfolding do_post local_stream
streams_agree library rng id id' g h k l s m b r text made seeded e = (
  rw (str_eq_self "/v1/chat/completions")
      (ap (λ o. send true (answer id s r o)) (text_of-same library rng g l b r true seeded ∙ e)),
  ap
        (λ c. of_backend c (λ b.
          stream_of id' s r (text_of library rng h b plain) (stream_tokens library rng k b plain)))
        made
      ∙ ap (λ o. stream_of id' s r o (stream_tokens library rng k b plain)) (said h)
      ∙ ap (stream_of id' s r (some text))
          (stream_tokens-words library rng k b plain text seeded (said k)),
  delivered-word_events (response_of id s r text) (words text),
  delivered-word_events (response_of id' s r text) (words text),
)
  where
    plain : ChatRequest
    plain = record r { stream = false }

    said : (n : ℕ) → text_of library rng n b plain ≡ some text
    said n = text_of-same library rng n l b r false seeded ∙ e
