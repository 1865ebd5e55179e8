-- ===== src/Logs/Tailer/Encoding.antt =====
-- tailer.py: `_normalise`, `_newline_pattern` and the tables of known encodings.
use Prim.Native.Char.{code}
use alteryx_server_maintenan.Prelude.{
  ℕ, ◌+◌, String, ◌≡◌, Bool, ◌&&◌, ◌||◌, List, [], ◌∷◌, map, arith, ◌==◌, leb, if◌then◌else◌,
  list_eq,
}

abbrev pub Bytes : Type 0
Bytes = List ℕ

-- A Python `str`, by its code points.
abbrev pub Text : Type 0
Text = List ℕ

abbrev pub codes : String → Text
codes String.[] = []
codes (String.◌∷◌ c s) = code c ∷ codes s

-- `str.isspace` of one code point.
is_space : ℕ → Bool
is_space c =
    leb 9 c && leb c 13
    || leb 28 c && leb c 32
    || c == 0x85
    || c == 0xa0
    || c == 0x1680
    || leb 0x2000 c && leb c 0x200a
    || c == 0x2028
    || c == 0x2029
    || c == 0x202f
    || c == 0x205f
    || c == 0x3000

lstrip : Text → Text
lstrip [] = []
lstrip (c ∷ s) = if is_space c then lstrip s else c ∷ s

rstrip : Text → Text
rstrip [] = []
rstrip (c ∷ s) = elim (rstrip s) [ [] ↦ if is_space c then [] else c ∷ [] | d ∷ r ↦ c ∷ d ∷ r ]

-- `str.lower` on ASCII letters: the names in the tables below have no other letter, and no other
-- letter has one of theirs for its lower case.
to_lower : ℕ → ℕ
to_lower c = if leb b'A' c && leb c b'Z' then c + 32 else c

replace_underscore : ℕ → ℕ
replace_underscore c = if c == b'_' then b'-' else c

unfoldable pub normalise : Text → Text
unfolding lstrip rstrip is_space to_lower replace_underscore
normalise encoding = map replace_underscore (map to_lower (rstrip (lstrip encoding)))

lookup_pattern : Text → List (Text × Bytes) → Bytes
lookup_pattern key [] = 0x0a ∷ []
lookup_pattern key ((name, pattern_bytes) ∷ table) =
    if list_eq key name then pattern_bytes else lookup_pattern key table

abbrev newline_patterns : List (Text × Bytes)
newline_patterns =
    (codes "utf-16-le", 0x0a ∷ 0x00 ∷ [])
    ∷ (codes "utf-16le", 0x0a ∷ 0x00 ∷ [])
    ∷ (codes "utf-8", 0x0a ∷ [])
    ∷ (codes "utf8", 0x0a ∷ [])
    ∷ (codes "ascii", 0x0a ∷ [])
    ∷ (codes "latin-1", 0x0a ∷ [])
    ∷ (codes "latin1", 0x0a ∷ [])
    ∷ (codes "iso-8859-1", 0x0a ∷ [])
    ∷ []

-- The fallback for an unknown encoding is the last line of `lookup_pattern`.
unfoldable pub newline_pattern : Text → Bytes
unfolding normalise lookup_pattern list_eq
newline_pattern encoding = lookup_pattern (normalise encoding) newline_patterns

-- Membership in `_TWO_BYTE_ENCODINGS`.
unfoldable pub is_two_byte : Text → Bool
unfolding normalise list_eq
is_two_byte encoding =
    let key = normalise encoding in
    list_eq key (codes "utf-16-le") || list_eq key (codes "utf-16le")

-- The newline pattern is two bytes wide exactly for the encodings whose offsets must be even.
pub newline_pattern-is_two_byte :
    (encoding : Text)
    → newline_pattern encoding ≡ (if is_two_byte encoding then 0x0a ∷ 0x00 ∷ [] else 0x0a ∷ [])
unfolding newline_pattern is_two_byte
newline_pattern-is_two_byte encoding = ground arith
