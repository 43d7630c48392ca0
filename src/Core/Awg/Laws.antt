-- ===== src/Core/Awg/Laws.antt =====
-- The tunnel addresses and the keys that internal/core/awg.go hands out.
use Prim.Native.Nat.{bit_and, bit_or}
use mathlib.Core.Option
use uncut_core.Base.{
  ltb, leb, eqb, if◌then◌else◌, Bool-cases, contains, ok, err, ℕ, zero, suc, ◌+◌, ◌%◌, ◌≤◌, ◌<◌,
  ◌≡◌, refl, inl, inr, Bool, true, false, ◌&&◌, Option, none, some, List, [], ◌∷◌, arith,
  ℕ_discrete,
}
use uncut_core.Text.{Text, text_eq, is_blank}
use uncut_core.Text.Encode.{Bytes, IsByte}
use uncut_core.Core.{CoreError, no_free_address}
use uncut_core.Core.Awg.{modify, clamp, awg_ip, next_from, next_awg_address}

-- Host `m` is the first from `n` on whose address is not used.
pub record IsFirstFree (n m : ℕ) (used : List Text) : Type 0 where
  pub from : n ≤ m
  pub free : contains used (awg_ip m) ≡ false
  pub before : (k : ℕ) → n ≤ k → k < m → contains used (awg_ip k) ≡ true

IsFirstFree-down :
    {n m : ℕ} {used : List Text}
    → contains used (awg_ip n) ≡ true
    → IsFirstFree (suc n) m used
    → IsFirstFree n m used
IsFirstFree-down {n} taken f = record {
  from = omega (arith, f.from);
  free = f.free;
  before =
      λ k le lt. elim (ℕ_discrete k n) [ yes e ↦ rw e taken | no ne ↦ f.before k (omega arith) lt ];
}

next_from_ok :
    (left n : ℕ) (used : List Text) {ip : Text}
    → next_from left n used ≡ ok ip
    → (m : ℕ) × (m < n + left) × (ip ≡ awg_ip m) × IsFirstFree n m used
unfolding next_from
next_from_ok zero n used h = cc
next_from_ok (suc left) n used {ip} h = elim (Bool-cases (contains used (awg_ip n))) [
  | inl taken ↦
      let (m, below, same, f) = next_from_ok left (suc n) used {ip = ip} (ground (arith, taken)) in
      (m, omega arith, same, IsFirstFree-down taken f)
  | inr free ↦ (
    n,
    omega arith,
    ground (arith, free),
    record { from = omega arith; free = free; before = λ k le lt. absurd (omega arith) },
  )
]

next_from_err :
    (left n : ℕ) (used : List Text) {e : CoreError}
    → next_from left n used ≡ err e
    → (e ≡ no_free_address) × ((k : ℕ) → n ≤ k → k < n + left → contains used (awg_ip k) ≡ true)
unfolding next_from
next_from_err zero n used h = (ground arith, λ k le lt. absurd (omega arith))
next_from_err (suc left) n used {e} h = elim (Bool-cases (contains used (awg_ip n))) [
  | inl taken ↦
      let (same, all_used) = next_from_err left (suc n) used {e = e} (ground (arith, taken)) in
      (
        same,
        λ k le lt. elim (ℕ_discrete k n) [
          | yes eq ↦ rw eq taken
          | no ne ↦ all_used k (omega arith) (omega arith)
        ],
      )
  | inr free ↦ absurd (ground (arith, free))
]

-- An address that is given is that of the smallest host number from 2 to 254 that nobody has.
pub next_awg_address_ok :
    (used : List Text) {ip : Text}
    → next_awg_address used ≡ ok ip
    → (m : ℕ) × (m ≤ 254) × (ip ≡ awg_ip m) × IsFirstFree 2 m used
unfolding next_awg_address
next_awg_address_ok used h =
    let (m, below, same, f) = next_from_ok 253 2 used h in (m, omega arith, same, f)

-- It fails only if each of the 253 addresses is used.
pub next_awg_address_err :
    (used : List Text) {e : CoreError}
    → next_awg_address used ≡ err e
    → (e ≡ no_free_address) × ((k : ℕ) → 2 ≤ k → k ≤ 254 → contains used (awg_ip k) ≡ true)
unfolding next_awg_address
next_awg_address_err used h =
    let (same, all_used) = next_from_err 253 2 used h in
    (same, λ k le lt. all_used k le (omega arith))

pub awg_ip-not_blank : (n : ℕ) → is_blank (awg_ip n) ≡ false
unfolding awg_ip
awg_ip-not_blank n = refl

-- A test passed by every number of a range, by running it.
passes_below : (ℕ → Bool) → ℕ → Bool
passes_below test zero = true
passes_below test (suc bound) = test bound && passes_below test bound

passes_below_lem :
    (test : ℕ → Bool) (bound b : ℕ) → b < bound → passes_below test bound ≡ true → test b ≡ true
unfolding passes_below
passes_below_lem test zero b small passed = ground (arith, small)
passes_below_lem test (suc bound) b small passed = ground (arith, passes_below_lem test bound b)

first_table : passes_below (λ b. eqb (bit_and b 248 % 8) 0 && ltb (bit_and b 248) 256) 256 ≡ true
unfolding passes_below
first_table = refl

last_table :
    passes_below
      (λ b. leb 64 (bit_or (bit_and b 127) 64) && ltb (bit_or (bit_and b 127) 64) 128)
      256
    ≡ true
unfolding passes_below
last_table = refl

abbrev pub byte_at : ℕ → Bytes → Option ℕ
byte_at i [] = none
byte_at zero (b ∷ bs) = some b
byte_at (suc i) (b ∷ bs) = byte_at i bs

byte_at-modify :
    (i j : ℕ) (f : ℕ → ℕ) (bs : Bytes)
    → byte_at j (modify i f bs) ≡ (if eqb i j then Option.map f (byte_at j bs) else byte_at j bs)
unfolding modify
byte_at-modify i j f [] = ground arith
byte_at-modify zero zero f (b ∷ bs) = ground arith
byte_at-modify zero (suc j) f (b ∷ bs) = ground arith
byte_at-modify (suc i) zero f (b ∷ bs) = ground arith
byte_at-modify (suc i) (suc j) f (b ∷ bs) = ground (arith, byte_at-modify i j f bs)

-- In a key of 32 bytes whose first and last are bytes, clamping makes the first a multiple of 8,
-- puts the last into 64 to 127, and keeps the bytes between.
pub clamp_lem :
    (priv : Bytes) {first last : ℕ}
    → byte_at 0 priv ≡ some first
    → byte_at 31 priv ≡ some last
    → IsByte first
    → IsByte last
    → ((b : ℕ) × (byte_at 0 (clamp priv) ≡ some b) × (b % 8 ≡ 0))
      × ((b : ℕ) × (byte_at 31 (clamp priv) ≡ some b) × (64 ≤ b) × (b < 128))
      × ((j : ℕ) → 0 < j → j < 31 → byte_at j (clamp priv) ≡ byte_at j priv)
unfolding clamp
clamp_lem priv {first} {last} hf hl bf bl =
    let low = passes_below_lem _ 256 first bf first_table in
    let high = passes_below_lem _ 256 last bl last_table in
    (
      (bit_and first 248, simp byte_at-modify (ground (arith, hf)), ground (arith, low)),
      (
        bit_or (bit_and last 127) 64,
        simp byte_at-modify (ground (arith, hl)),
        ground (arith, high),
        ground (arith, high),
      ),
      λ j lo hi. simp byte_at-modify (ground arith),
    )
