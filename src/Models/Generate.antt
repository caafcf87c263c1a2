-- ===== src/Models/Generate.antt =====
-- How ManifestFallbackBackend generates a text. The generator of random numbers, with the hash that
-- seeds it, is a parameter. An IndexError or a KeyError would be `none`.
use greenference_node.Base.{
  ℕ, zero, suc, String, Bool, Option, none, some, List, [], ◌∷◌, length, ltb, if◌then◌else◌, ℤ, pos,
  negsuc, get_or,
}
use greenference_node.Dict.{lookup}
use greenference_node.Text.Words.{concat, join, is_empty, show_int}
use greenference_node.Models.Corpus.{Graph, tokenize}

-- random.Random: `seeded` is the generator that the hash of a text seeds.
pub record Rng (R : Type 0) : Type 0 where
  pub seeded : String → R
  pub randbelow : ℕ → R → ℕ × R

pub record Message : Type 0 where
  pub role : String
  pub content : String

-- ChatCompletionRequest; the temperature, a float, is given by its text.
pub record ChatRequest : Type 0 where
  pub model : String
  pub messages : List Message
  pub max_tokens : Option ℤ
  pub temperature : Option String
  pub stream : Bool

-- ManifestFallbackBackend, with its `_graph` and `_keys`
pub record Fallback : Type 0 where
  pub backend_name : String
  pub fallback_reason : String
  pub model_identifier : String
  pub tokenizer_identifier : String
  pub seed_corpus : List String
  pub graph : Graph
  pub graph_keys : List String

unfoldable pub at_least_8 : ℕ → ℕ
at_least_8 n = if ltb n 8 then 8 else n

unfoldable pub at_most : ℕ → ℕ → ℕ
at_most limit n = if ltb limit n then limit else n

-- `max(8, min(int(n or 24), limit))`
unfoldable pub token_budget : ℕ → Option ℤ → ℕ
unfolding at_least_8 at_most
token_budget limit none = at_least_8 (at_most limit 24)
token_budget limit (some (pos zero)) = at_least_8 (at_most limit 24)
token_budget limit (some (pos (suc n))) = at_least_8 (at_most limit (suc n))
token_budget limit (some (negsuc n)) = 8

contents : List Message → List String
contents [] = []
contents (m ∷ messages) =
    let rest = contents messages in if is_empty m.content then rest else m.content ∷ rest

unfoldable pub prompt_text : ChatRequest → String
unfolding contents join is_empty
prompt_text r = join " " (contents r.messages)

-- The text that is hashed.
unfoldable pub seed_material : Fallback → String → ChatRequest → String
unfolding show_int
seed_material b prompt r = concat (
    b.model_identifier
    ∷ ":"
    ∷ b.tokenizer_identifier
    ∷ ":"
    ∷ prompt
    ∷ ":"
    ∷ elim r.max_tokens [ none ↦ "None" | some n ↦ show_int n ]
    ∷ ":"
    ∷ get_or r.temperature "None"
    ∷ [])

infixl 5 ◌>>=◌
abbrev pub ◌>>=◌ : {A B : Type 0} → Option A → (A → Option B) → Option B
none >>= f = none
some x >>= f = f x

unfoldable pub get_elem? : List String → ℕ → Option String
get_elem? [] n = none
get_elem? (x ∷ xs) zero = some x
get_elem? (x ∷ xs) (suc n) = get_elem? xs n

unfoldable pub last : List String → Option String
last [] = none
last (x ∷ []) = some x
last (x ∷ y ∷ xs) = last (y ∷ xs)

-- `self._graph[key]`
unfoldable pub entry : Graph → String → Option (List String)
unfolding lookup
entry graph key = lookup key graph

-- `prompt_tokens[-1] if prompt_tokens and prompt_tokens[-1] in self._graph else rng.choice(keys)`
unfoldable pub known : Graph → Option String → Option String
unfolding lookup
known graph none = none
known graph (some word) = elim (lookup word graph) [ none ↦ none | some l ↦ some word ]

module _ {R : Type 0} (rng : Rng R) where
  -- `rng.choice(seq)`
  unfoldable pub choice : List String → R → Option (String × R)
  unfolding get_elem?
  choice seq r =
      let (i, next) = rng.randbelow (length seq) r in
      elim (get_elem? seq i) [ none ↦ none | some s ↦ some (s, next) ]

  unfoldable pub restart : Graph → List String → R → Option (String × R)
  unfolding choice entry
  restart graph graph_keys r = do
    (key, r1) ← choice graph_keys r
    options ← entry graph key
    choice options r1

  -- `self._graph.get(current) or self._graph[rng.choice(self._keys)]`, and a choice of it
  unfoldable pub options_or : Graph → List String → Option (List String) → R → Option (String × R)
  unfolding choice restart
  options_or graph graph_keys none r = restart graph graph_keys r
  options_or graph graph_keys (some []) r = restart graph graph_keys r
  options_or graph graph_keys (some (x ∷ xs)) r = choice (x ∷ xs) r

  unfoldable pub next_token : Graph → List String → String → R → Option (String × R)
  unfolding options_or lookup
  next_token graph graph_keys current r = options_or graph graph_keys (lookup current graph) r

  unfoldable pub walk : ℕ → Graph → List String → String → R → Option (List String)
  unfolding next_token
  walk zero graph graph_keys current r = some []
  walk (suc n) graph graph_keys current r = do
    (token, r1) ← next_token graph graph_keys current r
    rest ← walk n graph graph_keys token r1
    some (token ∷ rest)

  unfoldable pub first_word : Fallback → String → R → Option (String × R)
  unfolding known choice last tokenize
  first_word b prompt r = elim (known b.graph (last (tokenize prompt))) [
    | none ↦ choice b.graph_keys r
    | some word ↦ some (word, r)
  ]

  unfoldable pub generate_tokens : Fallback → String → ℕ → R → Option (List String)
  unfolding walk first_word
  generate_tokens b prompt budget r = do
    (current, r1) ← first_word b prompt r
    walk budget b.graph b.graph_keys current r1

  unfoldable pub generate_text : Fallback → ChatRequest → Option String
  unfolding generate_tokens prompt_text seed_material token_budget join
  generate_text b r = do
    tokens ←
        generate_tokens b (prompt_text r) (token_budget 24 r.max_tokens)
          (rng.seeded (seed_material b (prompt_text r) r))
    some (join " " tokens)
