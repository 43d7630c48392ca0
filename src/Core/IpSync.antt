-- ===== src/Core/IpSync.antt =====
-- internal/core/ipsync.go: the node's public address.
pub mod Laws
use uncut_core.Base.{
  if◌then◌else◌, ◌==◌, Result, ok, err, Exec, Bool, true, false, not, ◌||◌, Option, none, some,
  List, [], ◌∷◌,
}
use uncut_core.Text.{Text, codes, text_eq}
use uncut_core.Text.Trim.{trim_space}
use uncut_core.Store.{DbError, Store, get_setting, set_setting}

pub data IpError : Type 0 where
  no_ip_detected : IpError
  ip_not_saved : DbError → IpError

unfoldable pub default_ip_endpoints : List Text
default_ip_endpoints =
    codes "https://api.ipify.org" ∷ codes "https://ifconfig.me" ∷ codes "https://api.ip.sb/ip" ∷ []

unfoldable pub server_ip : Text
server_ip = codes "server_ip"

-- `answer` is what an endpoint returns with status 200, cut at 1024 bytes; none on any error.
-- `is_ipv4` says whether `net.ParseIP` reads an address that `To4` converts.
module _ (answer : Text → Option Text) (is_ipv4 : Text → Bool) where
  unfoldable pub first_answer : List Text → Result IpError Text
  first_answer [] = err no_ip_detected
  first_answer (endpoint ∷ endpoints) =
      let rest = first_answer endpoints in
      elim (answer endpoint) [
        | none ↦ rest
        | some body ↦ if is_ipv4 (trim_space body) then ok (trim_space body) else rest
      ]

  unfoldable pub get_public_ipv4 : Result IpError Text
  unfolding first_answer
  get_public_ipv4 = first_answer default_ip_endpoints

  abbrev pub saved_ip : Result DbError Text → Text
  saved_ip (ok v) = v
  saved_ip (err e) = []

  abbrev pub ip_saved :
      Text → Result DbError (Unit {0}) × Store → Result IpError (Text × Bool) × Store
  ip_saved ip (ok _, s) = (ok (ip, true), s)
  ip_saved ip (err e, s) = (err (ip_not_saved e), s)

  -- The address, and whether it was written.
  unfoldable pub sync_from : Bool → Result IpError Text → Exec Store IpError (Text × Bool)
  unfolding server_ip
  sync_from force (err e) s = (err e, s)
  sync_from force (ok ip) s =
      if force || not (saved_ip (get_setting server_ip s) == ip)
      then ip_saved ip (set_setting server_ip ip s)
      else (ok (ip, false), s)

  unfoldable pub sync_server_ip : Bool → Exec Store IpError (Text × Bool)
  unfolding sync_from
  sync_server_ip force = sync_from force get_public_ipv4
