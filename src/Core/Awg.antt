-- ===== src/Core/Awg.antt =====
-- internal/core/awg.go: AmneziaWG keys and tunnel addresses.
pub mod Laws
use Prim.Native.Nat.{bit_and, bit_or}
use uncut_core.Base.{
  if◌then◌else◌, contains, Result, ok, err, Exec, continue, ℕ, zero, suc, Bool, not, ◌&&◌, ◌||◌,
  Option, none, some, List, [], ◌∷◌, ◌++◌,
}
use uncut_core.Text.{Text, codes, text_eq, is_blank}
use uncut_core.Text.Decimal.{print}
use uncut_core.Text.Encode.{Bytes, std_base64, base64_encode}
use uncut_core.Config.{ClientAwg, Client}
use uncut_core.Store.{DbError, Store, get_setting, set_settings, get_clients, add_client}
use uncut_core.Core.{CoreError, no_free_address, key_failure, wrap, wrapped, KeyDraw}

-- `b[i] = f(b[i])`
modify : ℕ → (ℕ → ℕ) → Bytes → Bytes
modify i f [] = []
modify zero f (b ∷ bs) = f b ∷ bs
modify (suc i) f (b ∷ bs) = b ∷ modify i f bs

-- The bits that a curve25519 private key has cleared and set.
unfoldable pub clamp : Bytes → Bytes
unfolding modify
clamp priv =
    modify 31 (λ b. bit_or b 64)
      (modify 31 (λ b. bit_and b 127) (modify 0 (λ b. bit_and b 248) priv))

-- `curve25519.X25519` with the base point is a parameter: a public key, or its error.
module _ (x25519 : Bytes → Option Bytes) where
  pair_of : Bytes → Option Bytes → Result CoreError (Text × Text)
  pair_of priv none = err key_failure
  pair_of priv (some public) = ok (base64_encode std_base64 priv, base64_encode std_base64 public)

  unfoldable pub random_wg_key_pair : Option Bytes → Result CoreError (Text × Text)
  unfolding pair_of clamp
  random_wg_key_pair none = err key_failure
  random_wg_key_pair (some bytes) = pair_of (clamp bytes) (x25519 (clamp bytes))

unfoldable pub random_awg_secret : Bytes → Text
random_awg_secret bytes = base64_encode std_base64 bytes

-- The address of host `n`.
unfoldable pub awg_ip : ℕ → Text
awg_ip n = codes "10.8.0." ++ (print n ++ codes "/32")

-- The rounds that are left of `for n := 2; n < 255; n++`.
unfoldable pub next_from : ℕ → ℕ → List Text → Result CoreError Text
next_from zero n used = err no_free_address
next_from (suc left) n used =
    let rest = next_from left (suc n) used in
    if contains used (awg_ip n) then rest else ok (awg_ip n)

unfoldable pub next_awg_address : List Text → Result CoreError Text
unfolding next_from
next_awg_address used = next_from 253 2 used

abbrev pub ip_of : Option ClientAwg → Text
ip_of none = []
ip_of (some a) = a.ip

-- The addresses that clients have; a map to true in the source.
unfoldable pub used_awg_addresses : List Client → List Text
used_awg_addresses [] = []
used_awg_addresses (c ∷ cs) =
    let rest = used_awg_addresses cs in if is_blank (ip_of c.awg) then rest else ip_of c.awg ∷ rest

unfoldable pub awg_private_key : Text
awg_private_key = codes "awg_private_key"

unfoldable pub awg_public_key : Text
awg_public_key = codes "awg_public_key"

unfoldable pub awg_header_protection_key : Text
awg_header_protection_key = codes "awg_header_protection_key"

abbrev pub or_blank : Result DbError Text → Text
or_blank (ok v) = v
or_blank (err e) = []

module _ (x25519 : Bytes → Option Bytes) where
  unfoldable pub save_keys :
      Bytes → Result CoreError (Text × Text) → Exec Store CoreError (Unit {0})
  save_keys header (err e) s = (err e, s)
  save_keys header (ok (priv, public)) s = wrapped (
      set_settings
        ((awg_private_key, priv)
          ∷ (awg_public_key, public)
          ∷ (awg_header_protection_key, random_awg_secret header)
          ∷ [])
        s)

  -- The bytes are those of the private key and of the header protection key.
  unfoldable pub ensure_awg_server_keys : KeyDraw → Exec Store CoreError (Unit {0})
  unfolding save_keys
  ensure_awg_server_keys d s =
      if not (is_blank (or_blank (get_setting awg_private_key s)))
        && not (is_blank (or_blank (get_setting awg_public_key s)))
        && not (is_blank (or_blank (get_setting awg_header_protection_key s)))
      then (ok tt, s)
      else save_keys d.psk_bytes (random_wg_key_pair x25519 d.private_bytes) s

abbrev no_awg : ClientAwg
no_awg = record { priv_key = []; pub_key = []; psk = []; ip = [] }

abbrev pub awg_or_empty : Option ClientAwg → ClientAwg
awg_or_empty none = no_awg
awg_or_empty (some a) = a

-- A client that the backfill leaves alone.
unfoldable pub is_complete : ClientAwg → Bool
is_complete a =
    not (is_blank a.priv_key)
    && not (is_blank a.pub_key)
    && not (is_blank a.psk)
    && not (is_blank a.ip)

module _ (x25519 : Bytes → Option Bytes) where
  -- The material of one client after its round, and the addresses used then.
  unfoldable pub fill_keys : KeyDraw → ClientAwg → Result CoreError ClientAwg
  fill_keys d a =
      if is_blank a.priv_key || is_blank a.pub_key
      then elim (random_wg_key_pair x25519 d.private_bytes) [
        | ok (priv, public) ↦ ok (record a { priv_key = priv; pub_key = public })
        | err e ↦ err e
      ]
      else ok a

  unfoldable pub fill_psk : KeyDraw → ClientAwg → ClientAwg
  fill_psk d a = if is_blank a.psk then record a { psk = random_awg_secret d.psk_bytes } else a

  unfoldable pub fill_ip : List Text → ClientAwg → Result CoreError (ClientAwg × List Text)
  fill_ip used a =
      if is_blank a.ip
      then elim (next_awg_address used) [
        | ok ip ↦ ok (record a { ip = ip }, ip ∷ used)
        | err e ↦ err e
      ]
      else ok (a, used)

  unfoldable pub fill_awg :
      KeyDraw → List Text → ClientAwg → Result CoreError (ClientAwg × List Text)
  unfolding fill_keys fill_psk fill_ip
  fill_awg d used a = elim (fill_keys d a) [ ok b ↦ fill_ip used (fill_psk d b) | err e ↦ err e ]

  -- The rest of the loop goes on from the store and the addresses after the round.
  abbrev write_back :
      Client
      → ℕ
      → (List Text → Exec Store CoreError (Unit {0}))
      → Result CoreError (ClientAwg × List Text)
      → Exec Store CoreError (Unit {0})
  write_back c now next (err e) s = (err e, s)
  write_back c now next (ok (a, used)) s =
      continue (wrap (add_client now (record c { awg = some a }) s).0) (λ _. next used)
        (add_client now (record c { awg = some a }) s).1

  -- One round of the loop of `BackfillClientAWG`; `d n` is what the n-th client draws.
  unfoldable pub backfill_from :
      ℕ → (ℕ → KeyDraw) → ℕ → List Client → List Text → Exec Store CoreError (Unit {0})
  unfolding fill_awg is_complete
  backfill_from now d n [] used s = (ok tt, s)
  backfill_from now d n (c ∷ cs) used s =
      let skip = backfill_from now d (suc n) cs used s in
      let write =
        write_back c now (λ used'. backfill_from now d (suc n) cs used')
          (fill_awg (d n) used (awg_or_empty c.awg)) s in
      if is_complete (awg_or_empty c.awg) then skip else write

  unfoldable pub backfill_client_awg : ℕ → (ℕ → KeyDraw) → Exec Store CoreError (Unit {0})
  unfolding backfill_from
  backfill_client_awg now d s =
      continue (wrap (get_clients s)) (λ cs. backfill_from now d 0 cs (used_awg_addresses cs)) s
