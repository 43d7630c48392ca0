-- ===== src/Text/Trim.antt =====
-- `strings.TrimSpace`.
use uncut_core.Base.{
  if◌then◌else◌, Bool-cases, length, ℕ, ◌≤◌, ◌≡◌, refl, ap, inl, inr, Bool, true, false, not, ◌&&◌,
  [], ◌∷◌, arith,
}
use uncut_core.Text.{Text, is_blank, every, is_space}

unfoldable pub trim_left : Text → Text
trim_left [] = []
trim_left (c ∷ s) = let rest = trim_left s in if is_space c then rest else c ∷ s

-- `c` in front of a text whose trailing spaces are gone.
unfoldable pub put_before : ℕ → Text → Text
put_before c [] = if is_space c then [] else c ∷ []
put_before c (d ∷ s) = c ∷ d ∷ s

unfoldable pub trim_right : Text → Text
trim_right [] = []
trim_right (c ∷ s) = put_before c (trim_right s)

unfoldable pub trim_space : Text → Text
unfolding trim_left trim_right put_before is_space
trim_space s = trim_right (trim_left s)

abbrev pub NoSpace : Text → Type 0
NoSpace s = every (λ c. not (is_space c)) s ≡ true

trim_left_id : (s : Text) → NoSpace s → trim_left s ≡ s
unfolding trim_left
trim_left_id [] h = refl
trim_left_id (c ∷ s) h = ground arith

trim_right_id : (s : Text) → NoSpace s → trim_right s ≡ s
unfolding trim_right put_before
trim_right_id [] h = refl
trim_right_id (c ∷ []) h = ground arith
trim_right_id (c ∷ d ∷ s) h = ground (arith, trim_right_id (d ∷ s))

-- A text without spaces is left as it is.
pub trim_space_id : (s : Text) → NoSpace s → trim_space s ≡ s
unfolding trim_space
trim_space_id s h = ground (arith, trim_left_id s h, trim_right_id s h)

every-trim_left : (s : Text) → every is_space (trim_left s) ≡ every is_space s
unfolding trim_left
every-trim_left [] = refl
every-trim_left (c ∷ s) = ground (arith, every-trim_left s)

is_blank-put_before : (c : ℕ) (s : Text) → is_blank (put_before c s) ≡ (is_space c && is_blank s)
unfolding put_before
is_blank-put_before c [] = ground arith
is_blank-put_before c (d ∷ s) = ground arith

is_blank-trim_right : (s : Text) → is_blank (trim_right s) ≡ every is_space s
unfolding trim_right
is_blank-trim_right [] = refl
is_blank-trim_right (c ∷ s) =
    ground (arith, is_blank-trim_right s, is_blank-put_before c (trim_right s))

-- Nothing is left of a text exactly if it is all spaces.
pub is_blank-trim_space : (s : Text) → is_blank (trim_space s) ≡ every is_space s
unfolding trim_space
is_blank-trim_space s = ground (arith, is_blank-trim_right (trim_left s), every-trim_left s)

trim_left_twice : (s : Text) → trim_left (trim_left s) ≡ trim_left s
unfolding trim_left
trim_left_twice [] = refl
trim_left_twice (c ∷ s) = ground (arith, trim_left_twice s)

put_before-kept : (c d : ℕ) (s : Text) → put_before c (d ∷ s) ≡ c ∷ d ∷ s
unfolding put_before
put_before-kept c d s = refl

put_before-trim :
    (c : ℕ) (t : Text) → trim_right t ≡ t → trim_right (put_before c t) ≡ put_before c t
unfolding put_before trim_right
put_before-trim c [] h = ground arith
put_before-trim c (d ∷ t) h = rw h refl

trim_right_twice : (s : Text) → trim_right (trim_right s) ≡ trim_right s
unfolding trim_right
trim_right_twice [] = refl
trim_right_twice (c ∷ s) = put_before-trim c (trim_right s) (trim_right_twice s)

put_before-trim_left :
    (c : ℕ) (t : Text) → is_space c ≡ false → trim_left (put_before c t) ≡ put_before c t
unfolding put_before trim_left
put_before-trim_left c [] h = ground arith
put_before-trim_left c (d ∷ t) h = ground arith

trim_left-length : (s : Text) → length (trim_left s) ≤ length s
unfolding trim_left
trim_left-length [] = omega arith
trim_left-length (c ∷ s) = ground (arith, trim_left-length s)

trim_left-head : (c : ℕ) (s : Text) → trim_left (c ∷ s) ≡ c ∷ s → is_space c ≡ false
unfolding trim_left
trim_left-head c s h = elim (Bool-cases (is_space c)) [
  | inl e ↦ ground (arith, e, trim_left-length s, ap length h)
  | inr e ↦ e
]

trim_left-trim_right : (s : Text) → trim_left s ≡ s → trim_left (trim_right s) ≡ trim_right s
unfolding trim_right trim_left
trim_left-trim_right [] h = refl
trim_left-trim_right (c ∷ s) h = put_before-trim_left c (trim_right s) (trim_left-head c s h)

-- Trimming twice is trimming once.
pub trim_space_twice : (s : Text) → trim_space (trim_space s) ≡ trim_space s
unfolding trim_space
trim_space_twice s =
    ground (
      arith,
      trim_left-trim_right (trim_left s) (trim_left_twice s),
      trim_right_twice (trim_left s),
    )

every-trim_left_of : (f : ℕ → Bool) (s : Text) → every f s ≡ true → every f (trim_left s) ≡ true
unfolding trim_left
every-trim_left_of f [] h = refl
every-trim_left_of f (c ∷ s) h = ground (arith, every-trim_left_of f s)

every-put_before :
    (f : ℕ → Bool) (c : ℕ) (t : Text)
    → f c ≡ true
    → every f t ≡ true
    → every f (put_before c t) ≡ true
unfolding put_before
every-put_before f c [] h e = ground arith
every-put_before f c (d ∷ t) h e = ground arith

every-trim_right_of : (f : ℕ → Bool) (s : Text) → every f s ≡ true → every f (trim_right s) ≡ true
unfolding trim_right
every-trim_right_of f [] h = refl
every-trim_right_of f (c ∷ s) h =
    ground (arith, every-put_before f c (trim_right s), every-trim_right_of f s)

-- What all characters have, all of the trimmed text have.
pub every-trim_space : (f : ℕ → Bool) (s : Text) → every f s ≡ true → every f (trim_space s) ≡ true
unfolding trim_space
every-trim_space f s h = every-trim_right_of f (trim_left s) (every-trim_left_of f s h)
