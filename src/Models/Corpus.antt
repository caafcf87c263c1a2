-- ===== src/Models/Corpus.antt =====
-- The seed corpus of ManifestFallbackBackend and its bigram graph.
use greenference_node.Base.{String, Bool, true, false, List, [], ◌∷◌, ◌++◌, get_or}
use greenference_node.Dict.{Dict, lookup, insert}
use greenference_node.Text.Words.{strip_text, is_empty}
use greenference_node.Text.Tokens.{words, strip_chars, lower_text}
use Prim.Native.Nat.{Ordering}
use Prim.Native.String.{compare as compare_text}

-- `manifest.get("seed_corpus")`: a text, a list, or anything else.
pub data SeedItem : Type 0 where
  segment : String → SeedItem
  no_text : SeedItem

pub data SeedCorpus : Type 0 where
  one_text : String → SeedCorpus
  many : List SeedItem → SeedCorpus
  no_corpus : SeedCorpus

abbrev pub unless : Bool → String → List String → List String
unless true s rest = rest
unless false s rest = s ∷ rest

texts_of : List SeedItem → List String
texts_of [] = []
texts_of (no_text ∷ items) = texts_of items
texts_of (segment s ∷ items) = unless (is_empty (strip_text s)) s (texts_of items)

unfoldable pub normalize_corpus : SeedCorpus → List String
unfolding texts_of
normalize_corpus (one_text s) = s ∷ []
normalize_corpus (many items) = texts_of items
normalize_corpus no_corpus = []

tokens_of : List String → List String
tokens_of [] = []
tokens_of (token ∷ rest) =
    unless (is_empty (strip_text token)) (lower_text (strip_chars ".,:;!?()[]{}\"'" token))
      (tokens_of rest)

unfoldable pub tokenize : String → List String
unfolding tokens_of words strip_text is_empty lower_text strip_chars
tokenize text = tokens_of (words text)

abbrev pub Graph : Type 0
Graph = Dict (List String)

-- `graph[token]` of a defaultdict
unfoldable pub list_at : String → Graph → List String
unfolding lookup
list_at token graph = get_or (lookup token graph) []

-- `graph[current].append(next_token)`
unfoldable pub add_edge : String → String → Graph → Graph
unfolding list_at insert
add_edge current next_token graph = insert current (list_at current graph ++ next_token ∷ []) graph

-- `for current, next_token in zip(tokens, tokens[1:])`; fewer than two tokens give no pair.
unfoldable pub add_tokens : List String → Graph → Graph
unfolding add_edge
add_tokens [] graph = graph
add_tokens (t ∷ []) graph = graph
add_tokens (t ∷ u ∷ tokens) graph = add_tokens (u ∷ tokens) (add_edge t u graph)

unfoldable pub add_segments : List String → Graph → Graph
unfolding add_tokens tokenize
add_segments [] graph = graph
add_segments (s ∷ segments) graph = add_segments segments (add_tokens (tokenize s) graph)

unfoldable pub build_bigram_graph : List String → Graph
unfolding add_segments
build_bigram_graph corpus = add_segments corpus []

-- `graph.keys()`
abbrev pub keys : {V : Type 0} → Dict V → List String
keys [] = []
keys ((k, _) ∷ d) = k ∷ keys d

-- Texts are ordered by their code points.
abbrev comes_after : String → String → Bool
comes_after s t = elim (compare_text s t) [ Ordering.gt ↦ true | _ ↦ false ]

abbrev ordered : Bool → String → String → List String → List String → List String
ordered true s t rest later = t ∷ later
ordered false s t rest later = s ∷ t ∷ rest

unfoldable pub insert_sorted : String → List String → List String
insert_sorted s [] = s ∷ []
insert_sorted s (t ∷ rest) = ordered (comes_after s t) s t rest (insert_sorted s rest)

unfoldable pub sorted : List String → List String
unfolding insert_sorted
sorted [] = []
sorted (s ∷ rest) = insert_sorted s (sorted rest)
