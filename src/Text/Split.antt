-- ===== src/Text/Split.antt =====
-- `strings.Split` at one character, and `strings.Join`.
use mathlib.Core.List.{cons-ne-nil}
use uncut_core.Base.{
  eqb, if◌then◌else◌, All, ℕ, ◌≡◌, refl, ap, ◌∙◌, ◌≢◌, true, not, List, [], ◌∷◌, ◌++◌, arith,
}
use uncut_core.Text.{Text, every}

-- `c` in front of the first part.
unfoldable pub extend_first : ℕ → List Text → List Text
extend_first c [] = (c ∷ []) ∷ []
extend_first c (p ∷ ps) = (c ∷ p) ∷ ps

unfoldable pub split : ℕ → Text → List Text
unfolding extend_first
split sep [] = [] ∷ []
split sep (c ∷ s) = let rest = split sep s in if eqb c sep then [] ∷ rest else extend_first c rest

unfoldable pub join : Text → List Text → Text
join sep [] = []
join sep (p ∷ []) = p
join sep (p ∷ q ∷ ps) = p ++ (sep ++ join sep (q ∷ ps))

abbrev pub Lacks : ℕ → Text → Type 0
Lacks sep s = every (λ c. not (eqb c sep)) s ≡ true

split-one : (sep : ℕ) (p : Text) → Lacks sep p → split sep p ≡ p ∷ []
unfolding split extend_first
split-one sep [] h = refl
split-one sep (c ∷ p) h = ground (arith, split-one sep p)

split-append : (sep : ℕ) (p s : Text) → Lacks sep p → split sep (p ++ (sep ∷ s)) ≡ p ∷ split sep s
unfolding split extend_first
split-append sep [] s h = ground arith
split-append sep (c ∷ p) s h = ground (arith, split-append sep p s)

-- Splitting a join gives the parts back, if there is a part and none holds the separator.
pub split-join :
    (sep : ℕ) (ps : List Text) → ps ≢ [] → All (Lacks sep) ps → split sep (join (sep ∷ []) ps) ≡ ps
unfolding join
split-join sep [] h _ = absurd (h refl)
split-join sep (p ∷ []) h l = split-one sep p l.0
split-join sep (p ∷ q ∷ ps) h l =
    split-append sep p _ l.0 ∙ ap (λ r. p ∷ r) (split-join sep (q ∷ ps) (cons-ne-nil q ps) l.1)
