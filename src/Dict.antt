-- ===== src/Dict.antt =====
-- A Python dict with string keys, as an association list in insertion order. An assignment to a
-- key that is there keeps its place; `pop` drops the key.
use greenference_node.Base.{
  ◌++◌, String, ◌≡◌, refl, Option, none, some, List, [], ◌∷◌, arith, str_eq, eq_iff, if◌then◌else◌,
}

abbrev pub Dict {ℓ} : Type ℓ → Type ℓ
Dict V = List (String × V)

module _ {ℓ} {V : Type ℓ} where
  -- `d.get(k)`
  unfoldable pub lookup : String → Dict V → Option V
  lookup k [] = none
  lookup k ((j, v) ∷ d) = if str_eq j k then some v else lookup k d

  -- `d[k] = v`
  unfoldable pub insert : String → V → Dict V → Dict V
  insert k v [] = (k, v) ∷ []
  insert k v ((j, w) ∷ d) = if str_eq j k then (j, v) ∷ d else (j, w) ∷ insert k v d

  -- `d.pop(k, None)`
  unfoldable pub erase : String → Dict V → Dict V
  erase k [] = []
  erase k ((j, v) ∷ d) = let rest = erase k d in if str_eq j k then rest else (j, v) ∷ rest

  -- `d.values()`
  abbrev pub values : Dict V → List V
  values [] = []
  values ((_, v) ∷ d) = v ∷ values d

  pub lookup-insert :
      (k j : String) (v : V) (d : Dict V)
      → lookup j (insert k v d) ≡ (if str_eq k j then some v else lookup j d)
  unfolding lookup insert
  lookup-insert k j v [] = refl
  lookup-insert k j v ((i, w) ∷ d) =
      ground (arith, lookup-insert k j v d, eq_iff i k, eq_iff i j, eq_iff k j)

  pub lookup-erase :
      (k j : String) (d : Dict V) → lookup j (erase k d) ≡ (if str_eq k j then none else lookup j d)
  unfolding lookup erase
  lookup-erase k j [] = ground arith
  lookup-erase k j ((i, w) ∷ d) =
      ground (arith, lookup-erase k j d, eq_iff i k, eq_iff i j, eq_iff k j)

  -- No key is listed twice.
  abbrev pub IsUnique : Dict V → Type ℓ
  IsUnique [] = Unit
  IsUnique ((k, v) ∷ d) = (lookup k d ≡ none) × IsUnique d

  pub insert-IsUnique : (k : String) (v : V) (d : Dict V) → IsUnique d → IsUnique (insert k v d)
  unfolding insert lookup
  insert-IsUnique k v [] h = (refl, tt)
  insert-IsUnique k v ((j, w) ∷ d) h =
      ground (arith, insert-IsUnique k v d h.1, lookup-insert k j v d, eq_iff j k, eq_iff k j)

  pub erase-IsUnique : (k : String) (d : Dict V) → IsUnique d → IsUnique (erase k d)
  unfolding erase lookup
  erase-IsUnique k [] h = tt
  erase-IsUnique k ((j, w) ∷ d) h =
      ground (arith, erase-IsUnique k d h.1, lookup-erase k j d, eq_iff k j)

pub ruleset dict_laws = (lookup-insert, lookup-erase)

module _ {ℓ} {V : Type ℓ} where
  -- No key of the second dict is in the first.
  abbrev pub Fresh : Dict V → Dict V → Type ℓ
  Fresh d [] = Unit
  Fresh d ((k, _) ∷ e) = (lookup k d ≡ none) × Fresh d e

  pub insert_new :
      (k : String) (v : V) (d : Dict V) → lookup k d ≡ none → insert k v d ≡ d ++ (k, v) ∷ []
  unfolding insert lookup
  insert_new k v [] h = refl
  insert_new k v ((j, w) ∷ d) h = ground (arith, insert_new k v d)

  pub lookup-append :
      (k : String) (d e : Dict V)
      → lookup k (d ++ e) ≡ elim (lookup k d) [ none ↦ lookup k e | some v ↦ some v ]
  unfolding lookup
  lookup-append k [] e = refl
  lookup-append k ((j, w) ∷ d) e = ground (arith, lookup-append k d e)

  pub Fresh-snoc :
      (d e : Dict V) (k : String) (v : V)
      → Fresh d e
      → lookup k e ≡ none
      → Fresh (d ++ (k, v) ∷ []) e
  unfolding lookup
  Fresh-snoc d [] k v h n = tt
  Fresh-snoc d ((j, w) ∷ e) k v h n =
      ground
        (arith, Fresh-snoc d e k v h.1, lookup-append j d ((k, v) ∷ []), eq_iff j k, eq_iff k j)

  pub Fresh-nil : (e : Dict V) → Fresh [] e
  unfolding lookup
  Fresh-nil [] = tt
  Fresh-nil ((k, v) ∷ e) = (refl, Fresh-nil e)
