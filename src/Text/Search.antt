-- ===== src/Text/Search.antt =====
-- `strings.HasPrefix`, `TrimPrefix`, `HasSuffix`, `TrimSuffix`, `Contains`, `Cut` and `ReplaceAll`.
use uncut_core.Base.{
  eqb, if◌then◌else◌, length, ℕ, zero, suc, ◌-◌, Bool, true, false, ◌||◌, Option, none, some, [],
  ◌∷◌, ◌++◌,
}
use uncut_core.Text.{Text}

-- What stands behind the prefix.
unfoldable pub strip_prefix : Text → Text → Option Text
strip_prefix [] s = some s
strip_prefix (p ∷ ps) [] = none
strip_prefix (p ∷ ps) (c ∷ s) = let rest = strip_prefix ps s in if eqb p c then rest else none

unfoldable pub trim_prefix : Text → Text → Text
unfolding strip_prefix
trim_prefix p s = elim (strip_prefix p s) [ none ↦ s | some rest ↦ rest ]

unfoldable pub has_prefix : Text → Text → Bool
unfolding strip_prefix
has_prefix p s = elim (strip_prefix p s) [ none ↦ false | some rest ↦ true ]

-- `strings.Contains`, for a text that is not empty.
unfoldable pub contains_text : Text → Text → Bool
unfolding has_prefix
contains_text p [] = false
contains_text p (c ∷ s) = has_prefix p (c ∷ s) || contains_text p s

abbrev behind : ℕ → Option (Text × Text) → Option (Text × Text)
behind c none = none
behind c (some (before, after)) = some (c ∷ before, after)

-- `strings.Cut` at a separator that is not empty; `none` where it is not found.
unfoldable pub cut : Text → Text → Option (Text × Text)
unfolding strip_prefix
cut sep [] = none
cut sep (c ∷ s) =
    let later = behind c (cut sep s) in
    elim (strip_prefix sep (c ∷ s)) [ none ↦ later | some rest ↦ some ([], rest) ]

-- Writes `s` with `new` for each `old`; the first `skip` characters belong to an `old` found before.
unfoldable pub replace_from : Text → Text → ℕ → Text → Text
unfolding has_prefix
replace_from old new skip [] = []
replace_from old new (suc skip) (c ∷ s) = replace_from old new skip s
replace_from old new zero (c ∷ s) = elim (has_prefix old (c ∷ s)) [
  | true ↦ new ++ replace_from old new (length old - 1) s
  | false ↦ c ∷ replace_from old new zero s
]

-- `strings.ReplaceAll`, for an `old` that is not empty.
unfoldable pub replace_all : Text → Text → Text → Text
unfolding replace_from
replace_all old new s = replace_from old new 0 s
