-- ===== src/Http/Strings.antt =====
-- `std::string`: prefixes, the first occurrence of a text and the last of a character.
use nexus_mainframe.Common.{
  ℕ, [], ◌∷◌, ◌++◌, Str, is_empty, Bool, true, false, ◌==◌, Option, none, some, if◌then◌else◌, drop,
  length,
}
use nexus_mainframe.Common.Options.{◌>>=◌}

unfoldable pub starts_with : Str → Str → Bool
starts_with [] s = true
starts_with (c ∷ p) [] = false
starts_with (c ∷ p) (d ∷ s) = let rest = starts_with p s in if c == d then rest else false

-- The text before and behind the first occurrence of a pattern.
unfoldable pub split_first : Str → Str → Option (Str × Str)
split_first p [] = if is_empty p then some ([], []) else none
split_first p (c ∷ s) =
    let rest = split_first p s in
    if starts_with p (c ∷ s)
    then some ([], drop (length p) (c ∷ s))
    else (do (before, behind) ← rest; some (c ∷ before, behind))

unfoldable pub replace_first : Str → Str → Str → Str
replace_first p value s = elim (split_first p s) [
  | none ↦ s
  | some (before, behind) ↦ before ++ value ++ behind
]

-- The text before and behind the last occurrence of a character.
unfoldable pub split_last : ℕ → Str → Option (Str × Str)
split_last c [] = none
split_last c (d ∷ s) = elim (split_last c s) [
  | some (before, behind) ↦ some (d ∷ before, behind)
  | none ↦ if d == c then some ([], s) else none
]

unfoldable pub without_prefix : Str → Str → Str
without_prefix p s = if starts_with p s then drop (length p) s else s
