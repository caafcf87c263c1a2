-- ===== src/Config/Labels.antt =====
-- What the parser of the node labels reads from a list of labels that is written out.
use greenference_node.Base.{
  arith, ◌≡◌, refl, ap, ◌∙◌, ℕ, String, false, Option, none, some, List, [], ◌∷◌, if◌then◌else◌,
  str_eq, ◌==◌, ◌||◌,
}
use greenference_node.Dict.{Dict, lookup, insert, lookup-insert}
use greenference_node.Text.Words.{split, join, strip_text, is_empty, place}
use greenference_node.Config.{
  has_char, before, after, keep_label, add_label, add_labels, parse_node_labels,
}
use Prim.Native.Char.{Char, code}
use Prim.Native.String.{◌++◌ as append}
use Prim.Native.String.append as Append

-- `"{key}={value}"`
unfoldable pub print_label : String × String → String
print_label (key, value) = append key (String.◌∷◌ "=" value)

unfoldable pub print_labels : Dict String → List String
unfolding print_label
print_labels [] = []
print_labels (label ∷ labels) = print_label label ∷ print_labels labels

-- A text that stands in the list as it is read.
abbrev pub IsWord : String → Type 0
IsWord s = (has_char b',' s ≡ false) × (strip_text s ≡ s) × (is_empty s ≡ false)

abbrev pub AreLabels : Dict String → Type 0
AreLabels [] = Unit
AreLabels ((key, value) ∷ labels) =
    (IsWord key × (has_char b'=' key ≡ false)) × IsWord value × AreLabels labels

-- The value of the last label with the key, or else the value from before.
unfoldable pub last_value : String → Dict String → Option String → Option String
last_value key [] found = found
last_value key ((k, v) ∷ labels) found =
    last_value key labels (if str_eq k key then some v else found)

split-one : (sep : ℕ) (s : String) → has_char sep s ≡ false → split sep s ≡ s ∷ []
unfolding split has_char place
split-one sep String.[] h = refl
split-one sep (String.◌∷◌ c s) h = ground (arith, split-one sep s)

split-append :
    (c : Char) (s t : String)
    → has_char (code c) s ≡ false
    → split (code c) (append s (String.◌∷◌ c t)) ≡ s ∷ split (code c) t
unfolding split has_char place
split-append c String.[] t h = ap (split (code c)) (Append.nil (String.◌∷◌ c t)) ∙ ground arith
split-append c (String.◌∷◌ d s) t h =
    ap (split (code c)) (Append.cons d s (String.◌∷◌ c t)) ∙ ground (arith, split-append c s t)

before-append :
    (c : Char) (s t : String)
    → has_char (code c) s ≡ false
    → before (code c) (append s (String.◌∷◌ c t)) ≡ s
unfolding before has_char
before-append c String.[] t h = ap (before (code c)) (Append.nil (String.◌∷◌ c t)) ∙ ground arith
before-append c (String.◌∷◌ d s) t h =
    ap (before (code c)) (Append.cons d s (String.◌∷◌ c t)) ∙ ground (arith, before-append c s t)

after-append :
    (c : Char) (s t : String)
    → has_char (code c) s ≡ false
    → after (code c) (append s (String.◌∷◌ c t)) ≡ t
unfolding after has_char
after-append c String.[] t h = ap (after (code c)) (Append.nil (String.◌∷◌ c t)) ∙ ground arith
after-append c (String.◌∷◌ d s) t h =
    ap (after (code c)) (Append.cons d s (String.◌∷◌ c t)) ∙ ground (arith, after-append c s t)

has_char-append :
    (sep : ℕ) (s : String) (c : Char) (t : String)
    → has_char sep (append s (String.◌∷◌ c t))
      ≡ (has_char sep s || (code c == sep || has_char sep t))
unfolding has_char
has_char-append sep String.[] c t = ap (has_char sep) (Append.nil (String.◌∷◌ c t))
has_char-append sep (String.◌∷◌ d s) c t =
    ap (has_char sep) (Append.cons d s (String.◌∷◌ c t)) ∙ ground (arith, has_char-append sep s c t)

-- One label that is written out is added.
add_label-print :
    (key value : String) (labels : Dict String)
    → IsWord key
    → has_char b'=' key ≡ false
    → IsWord value
    → add_label (print_label (key, value)) labels ≡ insert key value labels
unfolding add_label print_label keep_label
add_label-print key value labels k e v = ground (
  arith,
  has_char-append b'=' key "=" value,
  before-append "=" key value e,
  after-append "=" key value e,
  k.1,
  k.2,
  v.1,
  v.2,
)

comma_free :
    (key value : String)
    → has_char b',' key ≡ false
    → has_char b',' value ≡ false
    → has_char b',' (print_label (key, value)) ≡ false
unfolding print_label has_char
comma_free key value k v = ground (arith, has_char-append b',' key "=" value)

split-print :
    (label : String × String) (labels : Dict String)
    → AreLabels (label ∷ labels)
    → split b',' (join "," (print_labels (label ∷ labels))) ≡ print_labels (label ∷ labels)
unfolding print_labels join
split-print (key, value) [] h = split-one b',' _ (comma_free key value h.0.0.0 h.1.0)
split-print (key, value) (label ∷ labels) h =
    ap (λ rest. split b',' (append (print_label (key, value)) rest))
      (Append.cons "," "" rest ∙ ap (String.◌∷◌ ",") (Append.nil rest))
    ∙ split-append "," (print_label (key, value)) rest (comma_free key value h.0.0.0 h.1.0)
    ∙ ap (λ pieces. print_label (key, value) ∷ pieces) (split-print label labels h.2)
  where
    rest : String
    rest = join "," (print_labels (label ∷ labels))

lookup-add_labels :
    (key : String) (labels found : Dict String)
    → AreLabels labels
    → lookup key (add_labels (print_labels labels) found) ≡ last_value key labels (lookup key found)
unfolding add_labels print_labels last_value
lookup-add_labels key [] found h = refl
lookup-add_labels key ((k, v) ∷ labels) found h =
    ap (λ d. lookup key (add_labels (print_labels labels) d))
      (add_label-print k v found h.0.0 h.0.1 h.1)
    ∙ lookup-add_labels key labels (insert k v found) h.2
    ∙ ap (last_value key labels) (lookup-insert k key v found)

-- Labels whose keys and values are not empty, have no space around them and hold no comma, and
-- whose keys hold no equality sign: written as `key=value` and joined by commas they are parsed
-- so that each key has the value of its last label, and no other key has a value.
pub lookup-parse_node_labels :
    (key : String) (labels : Dict String)
    → AreLabels labels
    → lookup key (parse_node_labels (join "," (print_labels labels))) ≡ last_value key labels none
unfolding parse_node_labels print_labels join last_value add_labels add_label lookup split
lookup-parse_node_labels key [] h = refl
lookup-parse_node_labels key (label ∷ labels) h =
    ap (λ pieces. lookup key (add_labels pieces [])) (split-print label labels h)
    ∙ lookup-add_labels key (label ∷ labels) [] h
