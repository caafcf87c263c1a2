-- ===== src/Config.antt =====
-- The settings that the agent reads from its environment
-- (services/node-agent/src/greencompute_node_agent/config.py): the labels of the node and the
-- Boolean variables. The value of a variable is a parameter. Texts are ASCII.
pub mod Labels
mod Examples
use greenference_node.Base.{
  ℕ, String, Bool, true, false, ◌||◌, Option, none, some, List, [], ◌∷◌, if◌then◌else◌, ◌==◌,
}
use greenference_node.Dict.{Dict, insert}
use greenference_node.Text.{codes, lower, same}
use greenference_node.Text.Words.{split, strip_text, is_empty}
use Prim.Native.Char.{code}

-- `sep in s`, for one character by its number
unfoldable pub has_char : ℕ → String → Bool
has_char sep String.[] = false
has_char sep (String.◌∷◌ c s) = code c == sep || has_char sep s

-- `s.partition(sep)[0]`
unfoldable pub before : ℕ → String → String
before sep String.[] = ""
before sep (String.◌∷◌ c s) =
    let rest = before sep s in if code c == sep then "" else String.◌∷◌ c rest

-- `s.partition(sep)[2]`
unfoldable pub after : ℕ → String → String
after sep String.[] = ""
after sep (String.◌∷◌ c s) = let rest = after sep s in if code c == sep then s else rest

unfoldable pub keep_label : String → String → Dict String → Dict String
keep_label key value labels =
    if is_empty key || is_empty value then labels else insert key value labels

unfoldable pub add_label : String → Dict String → Dict String
unfolding has_char before after keep_label
add_label pair labels =
    if has_char b'=' pair
    then keep_label (strip_text (before b'=' pair)) (strip_text (after b'=' pair)) labels
    else labels

unfoldable pub add_labels : List String → Dict String → Dict String
add_labels [] labels = labels
add_labels (pair ∷ pairs) labels = add_labels pairs (add_label pair labels)

unfoldable pub parse_node_labels : String → Dict String
unfolding add_labels
parse_node_labels raw = add_labels (split b',' raw) []

-- `value.lower() in {"1", "true", "yes", "on"}`
unfoldable says_yes : List ℕ → Bool
says_yes word =
    same word (codes "1")
    || same word (codes "true")
    || same word (codes "yes")
    || same word (codes "on")

-- The variable's value, if it is set, and the default.
unfoldable env_bool : Option String → Bool → Bool
unfolding says_yes
env_bool none default = default
env_bool (some value) default = says_yes (lower (codes value))
