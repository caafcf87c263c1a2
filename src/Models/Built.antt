-- ===== src/Models/Built.antt =====
-- What the constructor of ManifestFallbackBackend has made.
use greenference_node.Base.{
  arith, ◌≡◌, ◌≢◌, inl, inr, refl, ap, String, true, Option, none, some, List, [], ◌∷◌, eq_iff,
  str_eq, get_or, Bool-cases,
}
use mathlib.Core.Path.{subst, sym}
use greenference_node.Models.Create.{created, with_keys, with_corpus}
use greenference_node.Dict.{lookup}
use greenference_node.Text.Words.{one_of}
use greenference_node.Models.Corpus.{Graph, list_at, build_bigram_graph, keys, sorted}
use greenference_node.Models.Graph.{AllLead, IsFull}
use greenference_node.Models.Generate.{Fallback, known}

pub lead_of :
    (g : Graph) (ks : List String) (k : String)
    → AllLead g ks
    → one_of k ks ≡ true
    → list_at k g ≢ []
unfolding one_of
lead_of g [] k h m = cc
lead_of g (j ∷ ks) k h m = ground (arith, eq_iff k j, lead_of g ks k h.1, h.0)

pub entry_lem :
    (g : Graph) (k : String)
    → list_at k g ≢ []
    → (l : List String) × (lookup k g ≡ some l) × (l ≢ []) × (list_at k g ≡ l)
unfolding list_at
entry_lem g k ne = go (lookup k g) ne
  where
    go :
        (o : Option (List String))
        → get_or o [] ≢ []
        → (l : List String) × (o ≡ some l) × (l ≢ []) × (get_or o [] ≡ l)
    go none h = absurd (h refl)
    go (some l) h = (l, refl, h, refl)

pub full_lookup :
    (g : Graph) (k : String) (l : List String) → IsFull g → lookup k g ≡ some l → l ≢ []
unfolding lookup
full_lookup [] k l h e = cc
full_lookup ((j, m) ∷ g) k l h e = elim (Bool-cases (str_eq j k)) [
  | inl same ↦ ground (arith, h.0)
  | inr other ↦ full_lookup g k l h.1 (ground arith)
]

-- What the constructor has made.
pub record IsBuilt (b : Fallback) : Type 0 where
  pub graph_lem : b.graph ≡ build_bigram_graph b.seed_corpus
  pub keys_lem : b.graph_keys ≡ sorted (keys b.graph)
  pub some_key : b.graph_keys ≢ []

pub with_keys-IsBuilt :
    (b c : Fallback) (ks : List String)
    → b.graph ≡ build_bigram_graph b.seed_corpus
    → ks ≡ sorted (keys b.graph)
    → with_keys b ks ≡ created c
    → IsBuilt c
unfolding with_keys
with_keys-IsBuilt b c [] g k e = cc
with_keys-IsBuilt b c (x ∷ ks) g k e =
    subst IsBuilt (of_created e) (record { graph_lem = g; keys_lem = k; some_key = ground arith })
  where
    of_created : {b c : Fallback} → created b ≡ created c → b ≡ c
    of_created e = cc

pub with_corpus-IsBuilt :
    (b c : Fallback) (corpus : List String) → with_corpus b corpus ≡ created c → IsBuilt c
unfolding with_corpus
with_corpus-IsBuilt b c [] e = cc
with_corpus-IsBuilt b c (s ∷ corpus) e =
    with_keys-IsBuilt
      (record b { seed_corpus = s ∷ corpus; graph = build_bigram_graph (s ∷ corpus) }) c _ refl refl
      e

abbrev pub KnownLeads : Graph → Option String → Type 0
KnownLeads g none = Unit
KnownLeads g (some word) = list_at word g ≢ []

pub known_lem : (g : Graph) (o : Option String) → IsFull g → KnownLeads g (known g o)
unfolding known list_at
known_lem g none h = tt
known_lem g (some word) h = go (lookup word g) (full_lookup g word) refl
  where
    go :
        (o : Option (List String))
        → ((l : List String) → IsFull g → lookup word g ≡ some l → l ≢ [])
        → lookup word g ≡ o
        → KnownLeads g (elim o [ none ↦ none | some l ↦ some word ])
    go none f e = tt
    go (some l) f e = subst (λ k. k ≢ []) (sym (ap (λ o. get_or o []) e)) (f l h e)
