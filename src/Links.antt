-- ===== src/Links.antt =====
-- internal/links/links.go: client URLs of the Telegram proxies.
use uncut_core.Base.{
  eqb, if◌then◌else◌, length, Bool, true, false, ◌&&◌, Option, none, some, [], ◌++◌,
}
use uncut_core.Text.{Text, codes, is_blank, to_lower}
use uncut_core.Text.Trim.{trim_space}
use uncut_core.Text.Encode.{Bytes, utf8, hex_encode, hex_decode, raw_url_base64, base64_encode}

-- HMAC-SHA256, key first, is a parameter.
module _ (hmac_sha256 : Bytes → Bytes → Bytes) where
  unfoldable pub derive_capability : Text → Text → Text
  derive_capability domain secret_hex = elim (hex_decode (trim_space secret_hex)) [
    | none ↦ []
    | some key ↦
        base64_encode raw_url_base64
          (hmac_sha256 key (utf8 (codes "tdesktop-web-proxy-bridge-v1\n" ++ to_lower domain)))
  ]

  unfoldable pub bridge_url : Text → Text → Text
  unfolding derive_capability
  bridge_url domain secret_hex =
      let capability = derive_capability domain secret_hex in
      if is_blank capability
      then []
      else codes "https://" ++ (domain ++ (codes "/?bridge=" ++ capability))

unfoldable pub mtproto_fake_tls_secret : Text → Text → Text
mtproto_fake_tls_secret raw tls_domain = codes "ee" ++ (raw ++ hex_encode (utf8 tls_domain))

unfoldable pub tme_proxy_url : Text → Text → Text
tme_proxy_url fqdn secret =
    codes "https://t.me/proxy?server=" ++ (fqdn ++ (codes "&port=443&secret=" ++ secret))

abbrev is_decoded : Option Bytes → Bool
is_decoded none = false
is_decoded (some bs) = true

-- The secret is 32 hexadecimal digits, or there is no link.
unfoldable pub web_proxy_url : Text → Text → Text
web_proxy_url domain raw_hex =
    let secret = to_lower (trim_space raw_hex) in
    if is_decoded (hex_decode secret) && eqb (length secret) 32
    then codes "tg://webproxy?server=" ++ (domain ++ (codes "&port=443&secret=" ++ secret))
    else []
