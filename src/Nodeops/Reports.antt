-- ===== src/Nodeops/Reports.antt =====
-- internal/nodeops/nodeops.go: what `raw list` and `raw info` print.
use uncut_core.Base.{
  if◌then◌else◌, length, Exec, pure, reads, ◌>>=◌, ℕ, not, ◌&&◌, List, [], ◌++◌, map,
}
use uncut_core.Text.{Text, codes, is_blank}
use uncut_core.Text.Encode.{Bytes}
use uncut_core.Config.{Settings}
use uncut_core.Transport.{doh_path, rev}
use uncut_core.Links.{bridge_url, mtproto_fake_tls_secret, tme_proxy_url, web_proxy_url}
use uncut_core.Store.{Store, get_clients}
use uncut_core.Nodeops.{NodeError, Context, from_db, loaded_settings}
use uncut_core.Nodeops.Clients.{ClientView, new_client_view}

pub record ClientList : Type 0 where
  pub clients : List ClientView
  pub domain : Text
  pub mtproto_raw_secret : Text

module _ (k : Context) where
  unfoldable pub list_clients : Exec Store NodeError ClientList
  unfolding loaded_settings new_client_view
  list_clients = do
    settings ← loaded_settings k
    cs ← reads (λ s. from_db (get_clients s))
    pure (record {
      clients = map (λ c. new_client_view c settings.domain settings.transport) cs;
      domain = settings.domain;
      mtproto_raw_secret = settings.mtproto_raw_secret;
    })

-- `cert_expires` and `singbox_version` are read from the disk, and empty where they cannot be.
pub record Info : Type 0 where
  pub tag : Text
  pub domain : Text
  pub transport_rev : Text
  pub protocols : List Text
  pub clients : ℕ
  pub cert_expires : Text
  pub bridge_url : Text
  pub web_proxy_url : Text
  pub mtproto_tls_domain : Text
  pub mtproto_url : Text
  pub singbox_version : Text
  pub doh_url : Text

module _ (k : Context) (sha256 : Bytes → Bytes) (hmac_sha256 : Bytes → Bytes → Bytes) where
  abbrev proxy_url : Settings → Text
  proxy_url s =
      if not (is_blank s.mtproto_raw_secret) && not (is_blank s.mtproto_tls_domain)
      then tme_proxy_url s.domain
          (mtproto_fake_tls_secret s.mtproto_raw_secret s.mtproto_tls_domain)
      else []

  -- The two links are empty without a secret.
  unfoldable pub info_of : Text → Text → Settings → ℕ → Info
  unfolding bridge_url web_proxy_url tme_proxy_url mtproto_fake_tls_secret rev doh_path
  info_of cert_expires singbox_version s count =
      let secret = not (is_blank s.webproxy_secret) in
      record {
        tag = s.tag;
        domain = s.domain;
        transport_rev = rev sha256 s.transport;
        protocols = s.protocols;
        clients = count;
        cert_expires = cert_expires;
        bridge_url = if secret then bridge_url hmac_sha256 s.domain s.webproxy_secret else [];
        web_proxy_url = if secret then web_proxy_url s.domain s.webproxy_secret else [];
        mtproto_tls_domain = s.mtproto_tls_domain;
        mtproto_url = proxy_url s;
        singbox_version = singbox_version;
        doh_url = codes "https://" ++ (s.domain ++ doh_path s.transport);
      }

  -- `expires` is the text of the certificate that the settings name.
  unfoldable pub get_info : (Settings → Text) → Text → Exec Store NodeError Info
  unfolding loaded_settings info_of
  get_info expires singbox_version = do
    settings ← loaded_settings k
    cs ← reads (λ s. from_db (get_clients s))
    pure (info_of (expires settings) singbox_version settings (length cs))
