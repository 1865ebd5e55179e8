-- ===== src/Logs/Tailer/Lines.antt =====
-- tailer.py: from the decoded text of complete lines to the lines that are shipped.
pub mod Laws
use alteryx_server_maintenan.Prelude.{
  ℕ, Bool, true, false, ◌&&◌, List, [], ◌∷◌, ◌==◌, if◌then◌else◌,
}
use alteryx_server_maintenan.Logs.Tailer.Encoding.{Text}

starts_lf : Text → Bool
starts_lf [] = false
starts_lf (c ∷ s) = c == 0x0a

-- `text.replace("\r\n", "\n")`: a CR goes if an LF stands behind it.
unfoldable pub replace_crlf : Text → Text
unfolding starts_lf
replace_crlf [] = []
replace_crlf (c ∷ s) =
    let rest = replace_crlf s in if c == 0x0d && starts_lf s then rest else c ∷ rest

-- One more code unit in front of the pieces of a split; a split has at least one piece.
push_char : ℕ → List Text → List Text
push_char c [] = (c ∷ []) ∷ []
push_char c (piece ∷ pieces) = (c ∷ piece) ∷ pieces

-- `text.split("\n")`.
unfoldable pub split_lf : Text → List Text
unfolding push_char
split_lf [] = [] ∷ []
split_lf (c ∷ s) = let rest = split_lf s in if c == 0x0a then [] ∷ rest else push_char c rest

-- `line.rstrip("\r")`.
unfoldable pub rstrip_cr : Text → Text
rstrip_cr [] = []
rstrip_cr (c ∷ s) = elim (rstrip_cr s) [ [] ↦ if c == 0x0d then [] else c ∷ [] | d ∷ r ↦ c ∷ d ∷ r ]

pub is_empty : Text → Bool
is_empty [] = true
is_empty (c ∷ s) = false

-- The list comprehension of `tail_file`.
strip_lines : List Text → List Text
unfolding rstrip_cr is_empty
strip_lines [] = []
strip_lines (line ∷ pieces) =
    let rest = strip_lines pieces in
    let stripped = rstrip_cr line in if is_empty stripped then rest else stripped ∷ rest

unfoldable pub to_lines : Text → List Text
unfolding replace_crlf split_lf strip_lines
to_lines text = strip_lines (split_lf (replace_crlf text))
