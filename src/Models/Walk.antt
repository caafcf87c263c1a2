-- ===== src/Models/Walk.antt =====
-- What ManifestFallbackBackend generates: a walk along the words that follow one another in the
-- seed corpus.
use greenference_node.Base.{
  arith, ℕ, zero, suc, ◌≤◌, ◌<◌, ◌≡◌, ◌≢◌, ◌⊎◌, inl, inr, refl, ap, ◌∙◌, String, true, Option, none,
  some, List, [], ◌∷◌, length, eq_iff, ℤ, pos, negsuc,
}
use mathlib.Core.Path.{subst, fun_ext, sym}
use greenference_node.Models.Create.{Manifest, created, manifest_fallback, new_fallback}
use greenference_node.Dict.{lookup}
use greenference_node.Text.Words.{one_of, join}
use greenference_node.Models.Corpus.{normalize_corpus, tokenize, Graph, list_at}
use greenference_node.Models.Graph.{
  corpus_followers, list_at-build_bigram_graph, AllLead, keys_lead, IsFull,
  build_bigram_graph-IsFull,
}
use greenference_node.Models.Generate.{
  Rng, Fallback, ChatRequest, generate_text, prompt_text, seed_material, last, known, get_elem?,
  choice, entry, restart, options_or, next_token, walk, first_word, generate_tokens, token_budget,
  at_least_8, at_most,
}
use greenference_node.Models.Built.{
  IsBuilt, KnownLeads, entry_lem, known_lem, lead_of, with_corpus-IsBuilt,
}

-- What random.Random promises of `_randbelow`.
abbrev pub IsRng : {R : Type 0} → Rng R → Type 0
IsRng {R} rng = (n : ℕ) (r : R) → 0 < n → (rng.randbelow n r).0 < n

-- `b` follows `a`; or nothing follows `a`, and `b` follows some word.
abbrev pub Next : (String → List String) → String → String → Type 0
Next after a b =
    (one_of b (after a) ≡ true) ⊎ (after a ≡ []) × ((k : String) × (one_of b (after k) ≡ true))

abbrev pub IsWalk : (String → List String) → String → List String → Type 0
IsWalk after a [] = Unit
IsWalk after a (b ∷ bs) = Next after a b × IsWalk after b bs

get_elem?-one_of :
    (xs : List String) (i : ℕ)
    → i < length xs
    → (s : String) × (get_elem? xs i ≡ some s) × (one_of s xs ≡ true)
unfolding get_elem? one_of
get_elem?-one_of [] i h = absurd (omega arith)
get_elem?-one_of (x ∷ xs) zero h = (x, refl, ground (arith, eq_iff x x))
get_elem?-one_of (x ∷ xs) (suc i) h =
    let (s, e, m) = get_elem?-one_of xs i (omega arith) in (s, e, ground (arith))

budget_bounds : (n : Option ℤ) → (8 ≤ token_budget 24 n) × (token_budget 24 n ≤ 24)
unfolding token_budget at_least_8 at_most
budget_bounds none = omega arith
budget_bounds (some (pos zero)) = omega arith
budget_bounds (some (pos (suc n))) = ground arith
budget_bounds (some (negsuc n)) = omega arith

module _ {R : Type 0} (rng : Rng R) (law : IsRng rng) where
  choice_lem :
      (seq : List String) (r : R)
      → seq ≢ []
      → (s : String) × (r' : R) × (choice rng seq r ≡ some (s, r')) × (one_of s seq ≡ true)
  unfolding choice
  choice_lem [] r h = absurd (h refl)
  choice_lem (x ∷ xs) r h =
      let (i, next) = rng.randbelow (length (x ∷ xs)) r in
      let (s, e, m) = get_elem?-one_of (x ∷ xs) i (law (length (x ∷ xs)) r (omega arith)) in
      (s, next, ground (arith), m)

  restart_lem :
      (g : Graph) (ks : List String) (r : R)
      → ks ≢ []
      → AllLead g ks
      → (b : String) × (r' : R) × (restart rng g ks r ≡ some (b, r'))
        × ((k : String) × (one_of b (list_at k g) ≡ true))
  unfolding restart entry
  restart_lem g ks r ne h =
      let (k, r1, e, m) = choice_lem ks r ne in
      let (l, found, full, at) = entry_lem g k (lead_of g ks k h m) in
      let (b, r2, e2, m2) = choice_lem l r1 full in (b, r2, ground arith, (k, ground arith))

  options_or_lem :
      (g : Graph) (ks : List String) (a : String) (o : Option (List String)) (r : R)
      → ks ≢ []
      → AllLead g ks
      → lookup a g ≡ o
      → (b : String) × (r' : R) × (options_or rng g ks o r ≡ some (b, r'))
        × Next (λ w. list_at w g) a b
  unfolding options_or list_at
  options_or_lem g ks a none r ne h e =
      let (b, r', eq, k) = restart_lem g ks r ne h in (b, r', eq, inr (ground arith, k))
  options_or_lem g ks a (some []) r ne h e =
      let (b, r', eq, k) = restart_lem g ks r ne h in (b, r', eq, inr (ground arith, k))
  options_or_lem g ks a (some (x ∷ xs)) r ne h e =
      let (b, r', eq, m) = choice_lem (x ∷ xs) r (ground arith) in (b, r', eq, inl (ground arith))

  walk_lem :
      (n : ℕ) (g : Graph) (ks : List String) (a : String) (r : R)
      → ks ≢ []
      → AllLead g ks
      → (ts : List String) × (walk rng n g ks a r ≡ some ts)
        × (length ts ≡ n)
        × IsWalk (λ w. list_at w g) a ts
  unfolding walk next_token
  walk_lem zero g ks a r ne h = ([], refl, refl, tt)
  walk_lem (suc n) g ks a r ne h =
      let (b, r1, e, step) = options_or_lem g ks a (lookup a g) r ne h refl in
      let (ts, e2, l, steps) = walk_lem n g ks b r1 ne h in
      (b ∷ ts, ground arith, omega arith, (step, steps))

  first_word_lem :
      (b : Fallback) (prompt : String) (r : R)
      → b.graph_keys ≢ []
      → IsFull b.graph
      → AllLead b.graph b.graph_keys
      → (a : String) × (r' : R) × (first_word rng b prompt r ≡ some (a, r'))
        × (list_at a b.graph ≢ [])
  unfolding first_word
  first_word_lem b prompt r ne full lead =
      go (known b.graph (last (tokenize prompt))) (known_lem b.graph (last (tokenize prompt)) full)
    where
      go :
          (o : Option String)
          → KnownLeads b.graph o
          → (a : String) × (r' : R) × (elim o [
            | none ↦ choice rng b.graph_keys r
            | some word ↦ some (word, r)
          ]
              ≡ some (a, r'))
            × (list_at a b.graph ≢ [])
      go none h =
          let (a, r', e, m) = choice_lem b.graph_keys r ne in
          (a, r', e, lead_of b.graph b.graph_keys a lead m)
      go (some word) h = (word, r, refl, h)

  IsWalk-from_corpus :
      (b : Fallback) (prompt : String) (budget : ℕ) (r : R)
      → IsBuilt b
      → (a : String) × (ts : List String) × (generate_tokens rng b prompt budget r ≡ some ts)
        × (length ts ≡ budget)
        × (corpus_followers a b.seed_corpus ≢ [])
        × IsWalk (λ w. corpus_followers w b.seed_corpus) a ts
  unfolding generate_tokens
  IsWalk-from_corpus b prompt budget r built =
      let full = subst IsFull (sym built.graph_lem) (build_bigram_graph-IsFull b.seed_corpus) in
      let lead = subst (AllLead b.graph) (sym built.keys_lem) (keys_lead b.graph full) in
      let (a, r1, e, leads) = first_word_lem b prompt r built.some_key full lead in
      let (ts, e2, l, steps) = walk_lem budget b.graph b.graph_keys a r1 built.some_key lead in
      let followed = λ (w : String).
        ap (list_at w) built.graph_lem ∙ list_at-build_bigram_graph w b.seed_corpus in
      (
        a,
        ts,
        ground arith,
        l,
        subst (λ l. l ≢ []) (followed a) leads,
        subst (λ after. IsWalk after a ts) (fun_ext followed) steps,
      )

-- A fallback model that was made of a manifest generates a text for every request, with any
-- generator of random numbers that keeps below its bounds: at least 8 and at most 24 tokens of the
-- seed corpus, as many as the budget, joined by spaces. Each comes somewhere in the corpus right
-- after the token generated before it, or, where no token comes after that one, right after some
-- other; the first is reached from a token that has a token after it. A token of the corpus is a
-- word without its punctuation, and can be the empty text.
pub generate_text-IsWalk :
    {R : Type 0} (rng : Rng R) (manifest : Manifest) (image name reason : String) (b : Fallback)
    (request : ChatRequest)
    → IsRng rng
    → manifest_fallback manifest image name reason ≡ created b
    → (a : String) × (ts : List String) × (generate_text rng b request ≡ some (join " " ts))
      × (length ts ≡ token_budget 24 request.max_tokens)
      × (8 ≤ length ts)
      × (length ts ≤ 24)
      × (corpus_followers a b.seed_corpus ≢ [])
      × IsWalk (λ w. corpus_followers w b.seed_corpus) a ts
unfolding generate_text manifest_fallback
generate_text-IsWalk rng manifest image name reason b request law e =
    let (a, ts, eq, l, leads, steps) =
      IsWalk-from_corpus rng law b (prompt_text request) (token_budget 24 request.max_tokens)
        (rng.seeded (seed_material b (prompt_text request) request))
        (with_corpus-IsBuilt (new_fallback manifest image name reason) b
          (normalize_corpus manifest.seed_corpus) e) in
    let (low, high) = budget_bounds request.max_tokens in
    (a, ts, ground arith, l, omega (arith), omega (arith), leads, steps)
