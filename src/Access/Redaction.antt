-- ===== src/Access/Redaction.antt =====
-- services/node-agent/src/greencompute_node_agent/transport/redaction.py: credentials
-- in the records that the node shows. A value is a list, a dict, or a leaf, which stands by its text.
use greenference_node.Base.{
  ℕ, ◌≡◌, refl, String, Bool, true, false, ◌||◌, List, [], ◌∷◌, arith, if◌then◌else◌,
}
use greenference_node.Text.{codes, lower, same, contains}

mutual
  pub data Value : Type 0 where
    leaf : String → Value
    list : Values → Value
    dict : Members → Value

  pub data Values : Type 0 where
    none_left : Values
    one_more : Value → Values → Values

  pub data Members : Type 0 where
    no_member : Members
    member : String → Value → Members → Members

-- `s.endswith(t)`
unfoldable pub ends_with : List ℕ → List ℕ → Bool
ends_with [] t = same [] t
ends_with (c ∷ s) t = same (c ∷ s) t || ends_with s t

unfoldable pub is_secret_key : String → Bool
unfolding ends_with
is_secret_key key =
    let k = lower (codes key) in
    contains k (codes "private_key")
    || contains k (codes "secret")
    || contains k (codes "password")
    || contains k (codes "hf_token")
    || same k (codes "token")
    || ends_with k (codes "_token")

abbrev pub redact_placeholder : Value
redact_placeholder = leaf "***redacted***"

unfoldable mutual
  pub redact : Value → Value
  redact (leaf t) = leaf t
  redact (list vs) = list (redact_all vs)
  redact (dict ms) = dict (redact_members ms)

  pub redact_all : Values → Values
  redact_all none_left = none_left
  redact_all (one_more v vs) = one_more (redact v) (redact_all vs)

  pub redact_members : Members → Members
  redact_members no_member = no_member
  redact_members (member k v ms) =
      let shown = redact v in
      member k (if is_secret_key k then redact_placeholder else shown) (redact_members ms)

-- At any depth, a member with a secret key shows the placeholder.
mutual
  pub IsRedacted : Value → Type 0
  IsRedacted (leaf t) = Unit
  IsRedacted (list vs) = AreRedacted vs
  IsRedacted (dict ms) = HasRedacted ms

  pub AreRedacted : Values → Type 0
  AreRedacted none_left = Unit
  AreRedacted (one_more v vs) = IsRedacted v × AreRedacted vs

  pub HasRedacted : Members → Type 0
  HasRedacted no_member = Unit
  HasRedacted (member k v ms) =
      (is_secret_key k ≡ true → v ≡ redact_placeholder) × IsRedacted v × HasRedacted ms

-- the value of a member, once it is decided whether its key is secret
shown-IsRedacted :
    (b : Bool) (v : Value)
    → IsRedacted v
    → (b ≡ true → (if b then redact_placeholder else v) ≡ redact_placeholder)
      × IsRedacted (if b then redact_placeholder else v)
unfolding IsRedacted
shown-IsRedacted true v h = (λ e. refl, tt)
shown-IsRedacted false v h = (λ e. ground arith, h)

mutual
  unfolding redact IsRedacted

  redact_hides : (v : Value) → IsRedacted (redact v)
  redact_hides (leaf t) = tt
  redact_hides (list vs) = redact_all_hides vs
  redact_hides (dict ms) = redact_members_hide ms

  redact_all_hides : (vs : Values) → AreRedacted (redact_all vs)
  redact_all_hides none_left = tt
  redact_all_hides (one_more v vs) = (redact_hides v, redact_all_hides vs)

  redact_members_hide : (ms : Members) → HasRedacted (redact_members ms)
  redact_members_hide no_member = tt
  redact_members_hide (member k v ms) =
      let (hidden, deep) = shown-IsRedacted (is_secret_key k) (redact v) (redact_hides v) in
      (hidden, deep, redact_members_hide ms)

-- In a redacted value, at any depth, every member whose key names a secret shows the placeholder.
pub redact-IsRedacted : (v : Value) → IsRedacted (redact v)
redact-IsRedacted v = redact_hides v
