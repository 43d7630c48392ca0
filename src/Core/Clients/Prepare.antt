-- ===== src/Core/Clients/Prepare.antt =====
-- The checks of internal/core/clients.go, and the client that `AddClient` builds before its write.

use uncut_core.Base.Chain.{◌>>=◌, ◌>>◌}
use uncut_core.Base.{
  eqb, if◌then◌else◌, ◌==◌, Result, ok, err, ℕ, Bool, false, not, ◌&&◌, ◌||◌, Option, some, List,
  [], ◌∷◌,
}
use uncut_core.Text.{Text, text_eq, is_blank, every, is_lower, is_digit}
use uncut_core.Text.Trim.{trim_space}
use uncut_core.Text.Encode.{Bytes, hex_encode}
use uncut_core.Config.{Client}
use uncut_core.Config.Protocols.{default_protocols, clean_protocols, is_empty}
use uncut_core.Store.{Store, get_clients}
use uncut_core.Core.{CoreError, invalid_client_name, client_exists, unknown_protocol, wrap, Draw}
use uncut_core.Core.Awg.{
  random_wg_key_pair, random_awg_secret, next_awg_address, used_awg_addresses,
}

-- The class `[a-z0-9_-]`.
unfoldable pub is_name_code : ℕ → Bool
unfolding is_lower is_digit
is_name_code c = is_lower c || is_digit c || eqb c b'_' || eqb c b'-'

-- `^[a-z0-9_-]+$`
unfoldable pub matches_name : Text → Bool
unfolding is_name_code
matches_name s = not (is_blank s) && every is_name_code s

unfoldable pub validate_client_name : Text → Result CoreError (Unit {0})
unfolding matches_name
validate_client_name name =
    if is_blank (trim_space name) || not (matches_name (trim_space name))
    then err invalid_client_name
    else ok tt

unfoldable pub cleaned : List Text → Result CoreError (List Text)
cleaned raw = elim (clean_protocols raw) [ ok ps ↦ ok ps | err p ↦ err (unknown_protocol p) ]

unfoldable pub has_name : Text → List Client → Bool
has_name name [] = false
has_name name (c ∷ cs) = c.name == name || has_name name cs

-- The client that `AddClient` builds.
unfoldable pub new_client : Text → List Text → Draw → Text → Text × Text → Client
new_client name protos d ip keys = record {
  uuid = d.uuid;
  name = name;
  password = hex_encode d.password_bytes;
  sub_hash = hex_encode d.sub_hash_bytes;
  protocols_explicit = not (is_empty protos);
  protocols = if is_empty protos then default_protocols else protos;
  created_at = d.now;
  awg = some (record {
    priv_key = keys.0;
    pub_key = keys.1;
    psk = random_awg_secret d.keys.psk_bytes;
    ip = ip;
  });
}

unfoldable pub no_such_name : Text → List Client → Result CoreError (Unit {0})
unfolding has_name
no_such_name name cs = if has_name name cs then err client_exists else ok tt

module _ (x25519 : Bytes → Option Bytes) where
  unfoldable pub prepare : Text → List Text → Draw → Store → Result CoreError Client
  unfolding validate_client_name cleaned no_such_name new_client
  prepare name protocols d s = do
    validate_client_name name
    protos ← cleaned protocols
    cs ← wrap (get_clients s)
    no_such_name name cs
    ip ← next_awg_address (used_awg_addresses cs)
    keys ← random_wg_key_pair x25519 d.keys.private_bytes
    ok (new_client name protos d ip keys)
