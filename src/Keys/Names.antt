-- ===== src/Keys/Names.antt =====
-- The name check of portal/lib/pure/key-name-validation.ts. Texts are UTF-16 code units.
use canonizr_hda.Prelude.{
  ℕ, ◌+◌, ltb, leb, ◌==◌, if◌then◌else◌, length, any, all, Text, text, text_eq, Bool, true, false,
  not, ◌&&◌, ◌||◌, Option, none, some, List, [], ◌∷◌, map,
}
pub mod Laws

abbrev pub key_name_max_length : ℕ
key_name_max_length = 64

-- White space and line ends, as `trim` takes them.
unfoldable pub is_space : ℕ → Bool
is_space c =
    (leb 9 c && leb c 13)
    || (c == 32)
    || (c == 160)
    || (c == 0x1680)
    || (leb 0x2000 c && leb c 0x200a)
    || (c == 0x2028)
    || (c == 0x2029)
    || (c == 0x202f)
    || (c == 0x205f)
    || (c == 0x3000)
    || (c == 0xfeff)

unfoldable pub trim_start : Text → Text
trim_start [] = []
trim_start (c ∷ s) = let rest = trim_start s in if is_space c then rest else c ∷ s

-- A unit before what is left of the rest: dropped if it is a space at the end.
abbrev pub close : ℕ → Text → Text
close c [] = if is_space c then [] else c ∷ []
close c (d ∷ t) = c ∷ d ∷ t

unfoldable pub trim_end : Text → Text
trim_end [] = []
trim_end (c ∷ s) = close c (trim_end s)

unfoldable pub trim : Text → Text
trim s = trim_end (trim_start s)

abbrev pub is_alnum : ℕ → Bool
is_alnum c = (leb b'a' c && leb c b'z') || (leb b'A' c && leb c b'Z') || (leb b'0' c && leb c b'9')

-- The character class `[a-zA-Z0-9 _\-]`.
abbrev pub is_name_char : ℕ → Bool
is_name_char c = is_alnum c || (c == b' ') || (c == b'_') || (c == b'-')

-- NAME_PATTERN.
unfoldable pub matches_pattern : Text → Bool
matches_pattern [] = false
matches_pattern (c ∷ s) = is_alnum c && all is_name_char s

-- `toLowerCase`, as far as a comparison with an ASCII text can tell: the letters A to Z, and the
-- Kelvin sign, which is the one other character with an ASCII lower case.
abbrev pub lower : ℕ → ℕ
lower c = if leb b'A' c && leb c b'Z' then c + 32 else if c == 0x212a then b'k' else c

abbrev pub to_lower_case : Text → Text
to_lower_case s = map lower s

abbrev pub same_name : Text → Text → Bool
same_name trimmed n = text_eq (to_lower_case n) (to_lower_case trimmed)

abbrev pub is_blank : Text → Bool
is_blank [] = true
is_blank (c ∷ s) = false

-- The tests on the trimmed name.
unfoldable pub check_trimmed : Text → List Text → Option Text
check_trimmed trimmed existing =
    if is_blank trimmed
    then some (text "Key name is required.")
    else if ltb key_name_max_length (length trimmed)
    then some (text "Max 64 characters.")
    else if not (matches_pattern trimmed)
    then some (
        text
          "Only letters, numbers, spaces, hyphens, and underscores. Must start with a letter or number.")
    else if any (same_name trimmed) existing
    then some (text "A key with this name already exists.")
    else none

-- The message for a name that is refused; `none` for one that is accepted.
unfoldable pub validate_key_name : Text → List Text → Option Text
validate_key_name name existing = check_trimmed (trim name) existing
