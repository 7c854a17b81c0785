-- ===== src/Core/Envelope/Lines.antt =====
-- `"\n".join(lines)` and `s.split("\n")`, by which the history travels in one field.
use litestar_rs.Prelude.{
  All, ℕ, Text, false, List, [], ◌∷◌, ◌++◌, ◌≡◌, refl, ap, arith, ◌==◌, has_char, if◌then◌else◌,
}

abbrev newline : ℕ
newline = 10

unfoldable pub join_lines : List Text → Text
join_lines [] = []
join_lines (line ∷ []) = line
join_lines (line ∷ next ∷ lines) = line ++ (newline ∷ join_lines (next ∷ lines))

abbrev extend : ℕ → List Text → List Text
extend c [] = (c ∷ []) ∷ []
extend c (line ∷ lines) = (c ∷ line) ∷ lines

-- A text without a newline is one line, also the empty one.
unfoldable pub split_lines : Text → List Text
split_lines [] = [] ∷ []
split_lines (c ∷ s) = let rest = split_lines s in if c == newline then [] ∷ rest else extend c rest

abbrev pub NoNewline : Text → Type 0
NoNewline line = has_char newline line ≡ false

split-line : (line : Text) → NoNewline line → split_lines line ≡ line ∷ []
unfolding split_lines has_char
split-line [] h = refl
split-line (c ∷ line) h = ground (arith, split-line line)

split-line-append :
    (line rest : Text)
    → NoNewline line
    → split_lines (line ++ (newline ∷ rest)) ≡ line ∷ split_lines rest
unfolding split_lines has_char
split-line-append [] rest h = refl
split-line-append (c ∷ line) rest h = ground (arith, split-line-append line rest)

-- Lines without a newline come back from the joined text.
pub split-join :
    (line : Text) (lines : List Text)
    → All NoNewline (line ∷ lines)
    → split_lines (join_lines (line ∷ lines)) ≡ line ∷ lines
unfolding join_lines
split-join line [] h = split-line line h.0
split-join line (next ∷ lines) h =
    rw (split-line-append line _ h.0) (ap (◌∷◌ line) (split-join next lines h.1))
