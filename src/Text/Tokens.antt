-- ===== src/Text/Tokens.antt =====
-- Python's `str.split()`, `str.strip(chars)` and `str.lower()` as texts, on ASCII.
use greenference_node.Base.{
  ℕ, ◌+◌, String, Bool, true, false, ◌||◌, List, [], ◌∷◌, if◌then◌else◌, ◌==◌,
}
use greenference_node.Text.{is_space}
use greenference_node.Text.Words.{place, is_empty}
use Prim.Native.Char.{Char, code}

abbrev nonempty_first : Bool → String → List String → List String
nonempty_first true s rest = rest
nonempty_first false s rest = s ∷ rest

drop_empty : List String → List String
drop_empty [] = []
drop_empty (s ∷ rest) = nonempty_first (is_empty s) s (drop_empty rest)

pieces : String → List String
unfolding place is_space
pieces String.[] = "" ∷ []
pieces (String.◌∷◌ c s) = place (is_space (code c)) c (pieces s)

-- `s.split()`
unfoldable pub words : String → List String
unfolding drop_empty pieces is_empty
words s = drop_empty (pieces s)

has : ℕ → String → Bool
has n String.[] = false
has n (String.◌∷◌ c s) = code c == n || has n s

lstrip_chars : String → String → String
unfolding has
lstrip_chars chars String.[] = ""
lstrip_chars chars (String.◌∷◌ c s) =
    let rest = lstrip_chars chars s in if has (code c) chars then rest else String.◌∷◌ c s

keep_char : String → Char → String → String
unfolding has
keep_char chars c String.[] = if has (code c) chars then "" else String.◌∷◌ c ""
keep_char chars c (String.◌∷◌ d s) = String.◌∷◌ c (String.◌∷◌ d s)

rstrip_chars : String → String → String
unfolding keep_char
rstrip_chars chars String.[] = ""
rstrip_chars chars (String.◌∷◌ c s) = keep_char chars c (rstrip_chars chars s)

-- `s.strip(chars)`
unfoldable pub strip_chars : String → String → String
unfolding lstrip_chars rstrip_chars
strip_chars chars s = rstrip_chars chars (lstrip_chars chars s)

-- The letter with a number, from a row of letters whose first has the number `n`.
letter_at : ℕ → String → Char → Char
letter_at n String.[] c = c
letter_at n (String.◌∷◌ l letters) c =
    let rest = letter_at (n + 1) letters c in if code c == n then l else rest

-- `s.lower()`
unfoldable pub lower_text : String → String
unfolding letter_at
lower_text String.[] = ""
lower_text (String.◌∷◌ c s) =
    String.◌∷◌ (letter_at b'A' "abcdefghijklmnopqrstuvwxyz" c) (lower_text s)
