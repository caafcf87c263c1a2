-- ===== src/Text/Words.antt =====
-- Operations of Python's `str` that give texts, on ASCII.
use greenference_node.Base.{
  ℕ, suc, String, Bool, true, false, ◌||◌, List, [], ◌∷◌, if◌then◌else◌, str_eq, ◌==◌, ℤ, pos,
  negsuc,
}
use greenference_node.Text.{is_space, show}
use Prim.Native.Char.{Char, code}
use Prim.Native.String.{◌++◌ as append}

-- `"".join(parts)`: an f-string is the concatenation of its parts.
abbrev pub concat : List String → String
concat [] = ""
concat (s ∷ rest) = append s (concat rest)

-- `sep.join(parts)`
unfoldable pub join : String → List String → String
join sep [] = ""
join sep (s ∷ []) = s
join sep (s ∷ t ∷ rest) = append s (append sep (join sep (t ∷ rest)))

unfoldable pub lstrip_text : String → String
lstrip_text String.[] = ""
lstrip_text (String.◌∷◌ c s) =
    let rest = lstrip_text s in if is_space (code c) then rest else String.◌∷◌ c s

unfoldable pub is_empty : String → Bool
is_empty s = str_eq s ""

-- `c` before a text that was stripped
keep_char : Char → String → String
unfolding is_space
keep_char c String.[] = if is_space (code c) then "" else String.◌∷◌ c ""
keep_char c (String.◌∷◌ d s) = String.◌∷◌ c (String.◌∷◌ d s)

unfoldable pub rstrip_text : String → String
unfolding keep_char
rstrip_text String.[] = ""
rstrip_text (String.◌∷◌ c s) = keep_char c (rstrip_text s)

-- `s.strip()`
unfoldable pub strip_text : String → String
unfolding lstrip_text rstrip_text
strip_text s = rstrip_text (lstrip_text s)

-- A character put before the first piece, or a new piece begun.
unfoldable pub place : Bool → Char → List String → List String
place true c pieces = "" ∷ pieces
place false c [] = String.◌∷◌ c "" ∷ []
place false c (p ∷ pieces) = String.◌∷◌ c p ∷ pieces

-- `s.split(c)`, by the number of the character
unfoldable pub split : ℕ → String → List String
unfolding place
split sep String.[] = "" ∷ []
split sep (String.◌∷◌ c s) = place (code c == sep) c (split sep s)

-- `s in words`
unfoldable pub one_of : String → List String → Bool
one_of s [] = false
one_of s (w ∷ words) = str_eq s w || one_of s words

-- `str(n)`
unfoldable pub show_int : ℤ → String
show_int (pos n) = show n
show_int (negsuc n) = append "-" (show (suc n))
