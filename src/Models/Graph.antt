-- ===== src/Models/Graph.antt =====
-- What the bigram graph holds: for each word the words that follow it in the corpus.
use greenference_node.Base.{
  arith, ◌≡◌, ◌≢◌, refl, ap, ◌∙◌, sym, String, true, false, List, [], ◌∷◌, ◌++◌, if◌then◌else◌,
  str_eq, eq_iff,
}
use mathlib.Core.List.{append-nil, append_assoc}
use greenference_node.Dict.{lookup, insert, lookup-insert}
use greenference_node.Models.Corpus.{
  Graph, tokenize, list_at, add_edge, add_tokens, add_segments, build_bigram_graph, keys,
  insert_sorted, sorted,
}

-- The words that come right after `word`, from left to right.
unfoldable pub followers : String → List String → List String
followers word [] = []
followers word (t ∷ []) = []
followers word (t ∷ u ∷ tokens) =
    let rest = followers word (u ∷ tokens) in if str_eq t word then u ∷ rest else rest

unfoldable pub corpus_followers : String → List String → List String
unfolding followers
corpus_followers word [] = []
corpus_followers word (s ∷ segments) = followers word (tokenize s) ++ corpus_followers word segments

list_at-add_edge :
    (word t u : String) (g : Graph)
    → list_at word (add_edge t u g)
      ≡ (if str_eq t word then list_at word g ++ u ∷ [] else list_at word g)
unfolding list_at add_edge
list_at-add_edge word t u g =
    ground (arith, lookup-insert t word (list_at t g ++ u ∷ []) g, eq_iff t word)

list_at-add_tokens :
    (word : String) (tokens : List String) (g : Graph)
    → list_at word (add_tokens tokens g) ≡ list_at word g ++ followers word tokens
unfolding add_tokens followers
list_at-add_tokens word [] g = sym (append-nil _)
list_at-add_tokens word (t ∷ []) g = sym (append-nil _)
list_at-add_tokens word (t ∷ u ∷ tokens) g =
    list_at-add_tokens word (u ∷ tokens) (add_edge t u g)
    ∙ ground (
      arith,
      list_at-add_edge word t u g,
      append_assoc (list_at word g) (u ∷ []) (followers word (u ∷ tokens)),
    )

list_at-add_segments :
    (word : String) (segments : List String) (g : Graph)
    → list_at word (add_segments segments g) ≡ list_at word g ++ corpus_followers word segments
unfolding add_segments corpus_followers
list_at-add_segments word [] g = sym (append-nil _)
list_at-add_segments word (s ∷ segments) g =
    list_at-add_segments word segments (add_tokens (tokenize s) g)
    ∙ ap (λ l. l ++ corpus_followers word segments) (list_at-add_tokens word (tokenize s) g)
    ∙ append_assoc (list_at word g) (followers word (tokenize s)) (corpus_followers word segments)

-- The graph lists for each word the words that follow it in the corpus, in their order and as often
-- as they do.
pub list_at-build_bigram_graph :
    (word : String) (corpus : List String)
    → list_at word (build_bigram_graph corpus) ≡ corpus_followers word corpus
unfolding build_bigram_graph
list_at-build_bigram_graph word corpus =
    list_at-add_segments word corpus [] ∙ ap (λ l. l ++ corpus_followers word corpus) (none_at word)
  where
    none_at : (word : String) → list_at word [] ≡ []
    none_at word = unfold list_at lookup in refl

-- No entry is empty.
abbrev pub IsFull : Graph → Type 0
IsFull [] = Unit
IsFull ((k, l) ∷ g) = (l ≢ []) × IsFull g

snoc-ne-nil : (l : List String) (u : String) → l ++ u ∷ [] ≢ []
snoc-ne-nil [] u = ground arith
snoc-ne-nil (t ∷ l) u = ground arith

insert-IsFull :
    (k : String) (l : List String) (g : Graph) → l ≢ [] → IsFull g → IsFull (insert k l g)
unfolding insert
insert-IsFull k l [] n h = (n, tt)
insert-IsFull k l ((j, m) ∷ g) n h =
    elim (str_eq j k) as (λ b. IsFull (if b then (j, l) ∷ g else (j, m) ∷ insert k l g)) [
      | true ↦ (n, h.1)
      | false ↦ (h.0, insert-IsFull k l g n h.1)
    ]

add_tokens-IsFull : (tokens : List String) (g : Graph) → IsFull g → IsFull (add_tokens tokens g)
unfolding add_tokens add_edge
add_tokens-IsFull [] g h = h
add_tokens-IsFull (t ∷ []) g h = h
add_tokens-IsFull (t ∷ u ∷ tokens) g h =
    add_tokens-IsFull (u ∷ tokens) (add_edge t u g)
      (insert-IsFull t (list_at t g ++ u ∷ []) g (snoc-ne-nil (list_at t g) u) h)

add_segments-IsFull :
    (segments : List String) (g : Graph) → IsFull g → IsFull (add_segments segments g)
unfolding add_segments
add_segments-IsFull [] g h = h
add_segments-IsFull (s ∷ segments) g h =
    add_segments-IsFull segments (add_tokens (tokenize s) g) (add_tokens-IsFull (tokenize s) g h)

pub build_bigram_graph-IsFull : (corpus : List String) → IsFull (build_bigram_graph corpus)
unfolding build_bigram_graph
build_bigram_graph-IsFull corpus = add_segments-IsFull corpus [] tt

-- Each of the words has a follower in the graph.
abbrev pub AllLead : Graph → List String → Type 0
AllLead g [] = Unit
AllLead g (k ∷ ks) = (list_at k g ≢ []) × AllLead g ks

AllLead-insert_sorted :
    (g : Graph) (k : String) (ks : List String)
    → list_at k g ≢ []
    → AllLead g ks
    → AllLead g (insert_sorted k ks)
unfolding insert_sorted
AllLead-insert_sorted g k [] n h = (n, tt)
AllLead-insert_sorted g k (j ∷ ks) n h = ground (arith, AllLead-insert_sorted g k ks n h.1)

AllLead-sorted : (g : Graph) (ks : List String) → AllLead g ks → AllLead g (sorted ks)
unfolding sorted
AllLead-sorted g [] h = tt
AllLead-sorted g (k ∷ ks) h = AllLead-insert_sorted g k (sorted ks) h.0 (AllLead-sorted g ks h.1)

-- A new entry in front takes no follower away.
AllLead-cons :
    (g : Graph) (k : String) (l : List String) (ks : List String)
    → l ≢ []
    → AllLead g ks
    → AllLead ((k, l) ∷ g) ks
unfolding list_at lookup
AllLead-cons g k l [] n h = tt
AllLead-cons g k l (j ∷ ks) n h = ground (arith, AllLead-cons g k l ks n h.1)

AllLead-keys : (g : Graph) → IsFull g → AllLead g (keys g)
unfolding list_at lookup
AllLead-keys [] h = tt
AllLead-keys ((k, l) ∷ g) h =
    (ground (arith, eq_iff k k, h.0), AllLead-cons g k l (keys g) h.0 (AllLead-keys g h.1))

pub keys_lead : (g : Graph) → IsFull g → AllLead g (sorted (keys g))
keys_lead g h = AllLead-sorted g (keys g) (AllLead-keys g h)
