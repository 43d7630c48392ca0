-- ===== src/Setup/Protocols/Entries.antt =====
-- internal/setup/setup.go: what is read back of a stored list.
use uncut_core.Base.{
  eqb, Bool-cases, All, ℕ, ◌≡◌, refl, ◌≢◌, inl, inr, Bool, false, not, ◌&&◌, List, [], ◌∷◌, ◌++◌,
  arith,
}
use uncut_core.Text.{Text, is_blank, every, is_space}
use uncut_core.Text.Trim.{trim_space, is_blank-trim_space, trim_space_twice, every-trim_space}
use uncut_core.Text.Split.{extend_first, split, join, Lacks, split-join}
use uncut_core.Setup.Protocols.{trimmed_parts, split_list, comma}

-- An entry that the list gives back: trimmed, not blank, and without a comma.
pub record IsEntry (p : Text) : Type 0 where
  pub no_comma : Lacks b',' p
  pub trimmed : trim_space p ≡ p
  pub not_blank : is_blank p ≡ false

trimmed_parts_id : (ps : List Text) → All IsEntry ps → trimmed_parts ps ≡ ps
unfolding trimmed_parts
trimmed_parts_id [] h = refl
trimmed_parts_id (p ∷ ps) h = ground (arith, trimmed_parts_id ps h.1, h.0.trimmed, h.0.not_blank)

every-append : (f : ℕ → Bool) (s t : Text) → every f (s ++ t) ≡ (every f s && every f t)
every-append f [] t = refl
every-append f (c ∷ s) t = ground (arith, every-append f s t)

Lacks-All : (ps : List Text) → All IsEntry ps → All (Lacks b',') ps
Lacks-All [] h = tt
Lacks-All (p ∷ ps) h = (h.0.no_comma, Lacks-All ps h.1)

join-not_blank :
    (p : Text) (ps : List Text) → IsEntry p → is_blank (trim_space (join comma (p ∷ ps))) ≡ false
unfolding join
join-not_blank p [] e = rw e.trimmed e.not_blank
join-not_blank p (q ∷ ps) e = ground (
  arith,
  e.trimmed,
  e.not_blank,
  is_blank-trim_space p,
  is_blank-trim_space (p ++ (comma ++ join comma (q ∷ ps))),
  every-append is_space p (comma ++ join comma (q ∷ ps)),
)

-- A list of entries that is not empty, each trimmed, not blank and without a comma, is read back
-- as it was written.
pub split_list-join : (ps : List Text) → ps ≢ [] → All IsEntry ps → split_list (join comma ps) ≡ ps
unfolding split_list
split_list-join [] ne h = absurd (ne refl)
split_list-join (p ∷ ps) ne h = ground (
  arith,
  join-not_blank p ps h.0,
  split-join b',' (p ∷ ps) ne (Lacks-All (p ∷ ps) h),
  trimmed_parts_id (p ∷ ps) h,
)

extend_first-Lacks :
    (sep c : ℕ) (ps : List Text)
    → eqb c sep ≡ false
    → All (Lacks sep) ps
    → All (Lacks sep) (extend_first c ps)
unfolding extend_first
extend_first-Lacks sep c [] h a = (ground (arith, h), tt)
extend_first-Lacks sep c (p ∷ ps) h a = (ground (arith, h, a.0), a.1)

split-Lacks : (sep : ℕ) (s : Text) → All (Lacks sep) (split sep s)
unfolding split
split-Lacks sep [] = (refl, tt)
split-Lacks sep (c ∷ s) = elim (Bool-cases (eqb c sep)) [
  | inl e ↦ rw e (refl, split-Lacks sep s)
  | inr e ↦ rw e (extend_first-Lacks sep c (split sep s) e (split-Lacks sep s))
]

trimmed_parts-IsEntry : (ps : List Text) → All (Lacks b',') ps → All IsEntry (trimmed_parts ps)
unfolding trimmed_parts
trimmed_parts-IsEntry [] a = tt
trimmed_parts-IsEntry (p ∷ ps) a = elim (Bool-cases (is_blank (trim_space p))) [
  | inl e ↦ rw e (trimmed_parts-IsEntry ps a.1)
  | inr e ↦ rw e (
    record {
      no_comma = every-trim_space (λ c. not (eqb c b',')) p a.0;
      trimmed = trim_space_twice p;
      not_blank = e;
    },
    trimmed_parts-IsEntry ps a.1,
  )
]

pub split_list-IsEntry : (value : Text) → All IsEntry (split_list value)
unfolding split_list
split_list-IsEntry value = elim (Bool-cases (is_blank (trim_space value))) [
  | inl e ↦ rw e tt
  | inr e ↦ rw e (trimmed_parts-IsEntry (split b',' value) (split-Lacks b',' value))
]
