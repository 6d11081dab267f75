-- ===== src/Stdlib/Case.antt =====
-- `str.lower` and `str.rstrip`. What `lower` makes of a code point above ASCII is a table of the
-- Unicode standard, and a parameter.
use honeywatch.Prelude.{ℕ, ◌+◌, Text, ◌&&◌, [], ◌∷◌, ◌++◌, is_empty, ltb, leb, ◌==◌, if◌then◌else◌}

-- `s.rstrip(c)` for one character
unfoldable pub rstrip : ℕ → Text → Text
rstrip c [] = []
rstrip c (x ∷ s) = let rest = rstrip c s in if is_empty rest && x == c then [] else x ∷ rest

module _ (lower_rest : ℕ → Text) where
  unfoldable pub lower_char : ℕ → Text
  lower_char c =
      if ltb c 0x80
      then (if leb b'A' c && leb c b'Z' then (c + 32) ∷ [] else c ∷ [])
      else lower_rest c

  unfoldable pub lower : Text → Text
  lower [] = []
  lower (c ∷ s) = lower_char c ++ lower s
