-- ===== src/Nodeops/Names.antt =====
-- internal/nodeops/nodeops.go: the domains, the paths and the protocol set of the node.
pub mod Laws
pub mod Apart
use uncut_core.Base.{
  if◌then◌else◌, ◌==◌, Result, ok, err, Exec, pure, lift, ◌>>=◌, ◌>>◌, Map, not, List, [], ◌∷◌,
}
use uncut_core.Text.{Text, codes, text_eq, is_blank, to_lower}
use uncut_core.Text.Trim.{trim_space}
use uncut_core.Text.Split.{join}
use uncut_core.Text.Encode.{Bytes}
use uncut_core.Config.{Settings}
use uncut_core.Config.Protocols.{clean_protocols}
use uncut_core.Transport.{RandomPaths, generate, rev, is_valid}
use uncut_core.Store.{Store}
use uncut_core.Setup.Protocols.{protocols_key, protocols_explicit_key, explicit_mark, comma}
use uncut_core.Setup.Load.{save_transport}
use uncut_core.Nodeops.{
  NodeError, protocol_required, bad_protocol, domain_required, sni_required, equals_node_domain,
  equals_reality_sni, equals_tls_domain, not_resolved, not_reachable, sni_not_valid, Context,
  from_setup, loaded_settings, reloaded, save, save_all,
}

-- `strings.ToLower(strings.TrimSpace(s))`
unfoldable pub host_of : Text → Text
unfolding trim_space to_lower
host_of s = to_lower (trim_space s)

unfoldable pub tls_domain_key : Text
tls_domain_key = codes "mtproto_tls_domain"

module _ (k : Context) where
  -- The refusals of a FakeTLS domain that is not empty.
  unfoldable pub tls_domain_allowed : Text → Settings → Result NodeError (Unit {0})
  unfolding host_of
  tls_domain_allowed domain settings =
      if domain == host_of settings.domain
      then err equals_node_domain
      else if domain == host_of settings.reality_server_name
      then err equals_reality_sni
      else if not (k.resolves domain)
      then err not_resolved
      else if not (k.reachable domain)
      then err not_reachable
      else ok tt

  unfoldable pub set_mtproto_tls_domain : Text → Exec Store NodeError Text
  unfolding host_of tls_domain_allowed loaded_settings save reloaded tls_domain_key
  set_mtproto_tls_domain domain s =
      let clear : Exec Store NodeError Text = do save tls_domain_key []; reloaded k; pure []
      in let store_it : Exec Store NodeError Text = do
        settings ← loaded_settings k
        lift (tls_domain_allowed (host_of domain) settings)
        save tls_domain_key (host_of domain)
        reloaded k
        pure (host_of domain)
        in if is_blank (host_of domain) then clear s else store_it s

  unfoldable pub sni_allowed : Text → Settings → Result NodeError (Unit {0})
  unfolding host_of
  sni_allowed host settings =
      if host == host_of settings.mtproto_tls_domain
      then err equals_tls_domain
      else if not (is_valid (record settings.transport { reality_server_name = host }))
      then err sni_not_valid
      else ok tt

  module _ (sha256 : Bytes → Bytes) where
    -- The revision of the transport that was stored.
    unfoldable pub set_reality_sni : Text → Exec Store NodeError Text
    unfolding host_of sni_allowed loaded_settings save_transport reloaded rev
    set_reality_sni host s =
        let store_it : Exec Store NodeError Text = do
          settings ← loaded_settings k
          lift (sni_allowed (host_of host) settings)
          λ s'. from_setup (
              save_transport k.codec
                (record settings.transport { reality_server_name = host_of host }) s')
          reloaded k
          pure (rev sha256 (record settings.transport { reality_server_name = host_of host }))
        in if is_blank (host_of host) then (err sni_required, s) else store_it s

    -- `paths` are those of the new transport; the SNI carries over.
    unfoldable pub rotate_paths : RandomPaths → Exec Store NodeError Text
    unfolding generate loaded_settings save_transport reloaded rev
    rotate_paths paths = do
      settings ← loaded_settings k
      λ s. from_setup (
          save_transport k.codec
            (record (generate paths) { reality_server_name = settings.reality_server_name }) s)
      reloaded k
      pure (
          rev sha256
            (record (generate paths) { reality_server_name = settings.reality_server_name }))

  -- The certificate is asked for between the write and the reload; its failure stops nothing.
  unfoldable pub change_domain : Text → Exec Store NodeError (Unit {0})
  unfolding trim_space to_lower loaded_settings save reloaded
  change_domain domain s =
      let new = trim_space (to_lower domain) in
      let store_it : Exec Store NodeError (Unit {0}) = do
        settings ← loaded_settings k
        save (codes "domain") new
        reloaded k
      in if is_blank new then (err domain_required, s) else store_it s

  abbrev pub resolved_names : Result Text (List Text) → Result NodeError (List Text)
  resolved_names (err p) = err (bad_protocol p)
  resolved_names (ok []) = err protocol_required
  resolved_names (ok (p ∷ ps)) = ok (p ∷ ps)

  abbrev pub protocol_settings : List Text → Map Text Text
  protocol_settings resolved =
      (protocols_key, join comma resolved) ∷ (protocols_explicit_key, explicit_mark) ∷ []

  unfoldable pub set_protocols : List Text → Exec Store NodeError (List Text)
  unfolding clean_protocols save_all reloaded
  set_protocols protocols = do
    resolved ← lift (resolved_names (clean_protocols protocols))
    save_all (protocol_settings resolved)
    reloaded k
    pure resolved
