-- ===== src/Cli/Keeps/Gate.antt =====
-- cmd/uncut/main.go: a call without --yes, whatever the command.
use uncut_core.Base.{
  if◌then◌else◌, Bool-cases, ◌==◌, contains, ok, err, pure, lift, lookup, ◌≡◌, inl, inr, false,
  ◌||◌, some,
}
use uncut_core.Text.{Text, codes, text_eq, is_blank}
use uncut_core.Text.Base64.{base64_decode}
use uncut_core.Core.IpSync.{server_ip}
use uncut_core.Files.{make_dir}
use uncut_core.Store.{select_setting}
use uncut_core.Setup.{certs_dir, get}
use uncut_core.Setup.Protocols.{protocols_key, protocols_explicit_key}
use uncut_core.Setup.Bootstrap.Keeps.{Holds, get-of}
use uncut_core.Nodeops.{Context}
use uncut_core.Nodeops.Certificates.{
  certificate_not_stored, node_settings, on_disk, directory_made, node_reloaded, put_pair, leaf_of,
  covered, set_cert,
}
use uncut_core.Cli.{
  Verb, version_verb, singbox_version_verb, add_verb, del_verb, list_verb, sync_ip_verb,
  renew_cert_verb, change_domain_verb, info_verb, doctor_verb, rotate_paths_verb, rotate_sub_verb,
  set_protocols_verb, set_client_protocols_verb, set_mtproto_tls_verb, set_sni_verb, set_cert_verb,
  hysteria2_bandwidth_verb, set_awg_port_verb, Call, certificate_missing, certificate_not_decoded,
  key_not_decoded, Terminal, World,
}
use uncut_core.Cli.Server.{arg, decoded, set_cert_cmd}
use uncut_core.Cli.Run.{is_breaking, handle, with_disk, gated}
use uncut_core.Cli.Keeps.{
  free_keys, KeepsNode, KeepsTerminal, node-bind, filed-say, lift-then, reloaded-Keeps,
  node_settings-Keeps,
}
use uncut_core.Cli.Keeps.Commands.{add-Keeps, list-Keeps, set_client_protocols-Keeps}
use uncut_core.Cli.Keeps.Upkeep.{
  sync_ip-Keeps, renew-Keeps, set_protocols-Keeps, bandwidth-Keeps, info-Keeps, doctor-Keeps,
  singbox_version-Keeps, version-Keeps,
}
use uncut_core.Setup.Bootstrap.Restart.{ApartAll, apart_lem}

module _ (key v : Text) where
  node_reloaded-Keeps : (k : Context) → KeepsNode key v (node_reloaded k)
  unfolding node_reloaded
  node_reloaded-Keeps k n h = reloaded-Keeps key v (record k { disk = n.disk }) n.store h

  directory_made-Keeps : (dir : Text) → KeepsNode key v (directory_made dir)
  directory_made-Keeps dir n h = elim (Bool-cases (n.disk.broken (make_dir dir))) [
    | inl e ↦ rw e h
    | inr e ↦ rw e h
  ]

  put_pair-Keeps :
      (k : Context) (domain cert private : Text) → KeepsNode key v (put_pair k domain cert private)
  put_pair-Keeps k domain cert private =
      node-bind key v (on_disk certificate_not_stored _) _ (λ n h. h) (λ _ n h. h)

  module _ (w : World) (c : Call) (b : is_blank v ≡ false) where
    node_set_cert-Keeps :
        (cert private : Text) → KeepsNode key v (set_cert w.context w.pair w.covers cert private)
    unfolding set_cert
    node_set_cert-Keeps cert private =
        node-bind key v (node_settings w.context) _ (node_settings-Keeps key v w.context b) (λ s.
          node-bind key v (lift (leaf_of w.context w.pair w.covers (w.pair cert private))) _
            (λ n h. h)
            (λ leaf.
              node-bind key v (lift (covered w.context w.pair w.covers (w.covers leaf s.domain))) _
                (λ n h. h)
                (λ _.
                  node-bind key v (directory_made (certs_dir w.context.options)) _
                    (directory_made-Keeps (certs_dir w.context.options))
                    (λ _.
                      node-bind key v (put_pair w.context s.domain cert private) _
                        (put_pair-Keeps w.context s.domain cert private)
                        (λ _.
                          node-bind key v (node_reloaded w.context) (λ _. pure s.domain)
                            (node_reloaded-Keeps w.context) (λ _ n h. h))))))

    set_cert-Keeps : KeepsTerminal key v (set_cert_cmd w c)
    unfolding set_cert_cmd
    set_cert-Keeps =
        lift-then key v
          (if is_blank c.cert_base64 || is_blank c.key_base64
            then err certificate_missing
            else ok tt)
          _
          (λ _.
            lift-then key v (decoded certificate_not_decoded (base64_decode c.cert_base64)) _
              (λ cert.
                lift-then key v (decoded key_not_decoded (base64_decode c.key_base64)) _ (λ private.
                  filed-say key v (set_cert w.context w.pair w.covers cert private) _
                    (node_set_cert-Keeps cert private))))

    -- The keys of the settings that the commands without a gate may write are others.
    record IsOther : Type 0 where
      protocols : (protocols_key == key) ≡ false
      explicit : (protocols_explicit_key == key) ≡ false
      up : (codes "hysteria2_up_mbps" == key) ≡ false
      down : (codes "hysteria2_down_mbps" == key) ≡ false
      address : (server_ip == key) ≡ false

    handle-Keeps :
        (verb : Verb) → IsOther → is_breaking verb ≡ false → KeepsTerminal key v (handle w verb c)
    unfolding handle is_breaking
    handle-Keeps version_verb o n = version-Keeps key v w c b
    handle-Keeps singbox_version_verb o n = singbox_version-Keeps key v w c b (arg 0 c.args)
    handle-Keeps add_verb o n = add-Keeps key v w c b
    handle-Keeps list_verb o n = list-Keeps key v w c b
    handle-Keeps sync_ip_verb o n = sync_ip-Keeps key v w c b o.address
    handle-Keeps renew_cert_verb o n = renew-Keeps key v w c b
    handle-Keeps info_verb o n = info-Keeps key v w c b
    handle-Keeps doctor_verb o n = doctor-Keeps key v w c b
    handle-Keeps set_protocols_verb o n = set_protocols-Keeps key v w c b o.protocols o.explicit
    handle-Keeps set_client_protocols_verb o n = set_client_protocols-Keeps key v w c b
    handle-Keeps set_cert_verb o n = set_cert-Keeps
    handle-Keeps hysteria2_bandwidth_verb o n = bandwidth-Keeps key v w c b o.up o.down
    handle-Keeps del_verb o n = cc
    handle-Keeps change_domain_verb o n = cc
    handle-Keeps rotate_paths_verb o n = cc
    handle-Keeps rotate_sub_verb o n = cc
    handle-Keeps set_mtproto_tls_verb o n = cc
    handle-Keeps set_sni_verb o n = cc
    handle-Keeps set_awg_port_verb o n = cc

    others : ApartAll key free_keys → IsOther
    others h = record {
      protocols = h.0;
      explicit = h.1.0;
      up = h.1.1.0;
      down = h.1.1.1.0;
      address = h.1.1.1.1.0;
    }

-- The world of the handler has the files of the terminal.
gated-Keeps :
    (w : World) (c : Call) (verb : Verb) (key v : Text) (t : Terminal)
    → is_blank v ≡ false
    → ApartAll key free_keys
    → c.yes ≡ false
    → Holds key v t.node.store
    → Holds key v (gated w verb c t).1.node.store
unfolding gated
gated-Keeps w c verb key v t b o unconfirmed h = elim (Bool-cases (is_breaking verb)) [
  | inl e ↦ rw e (rw unconfirmed h)
  | inr e ↦
      let w' = with_disk w t in rw e (handle-Keeps key v w' c b verb (others key v w' c b o) e t h)
]

-- Each of the nineteen commands of the model, which are those of the binary but for the daemon and
-- the menu, leaves without --yes, however it ends, as it is each setting that can be read and has a
-- value that is not blank, other than the protocol set and its mark, the two bandwidth caps and the
-- public address: the domain, the transport with its paths and its REALITY name, the keys and
-- secrets, the FakeTLS domain and the AmneziaWG port are those that the issued links were made from.
pub unconfirmed-Keeps :
    (w : World) (c : Call) (verb : Verb) (key v : Text) (t : Terminal)
    → contains free_keys key ≡ false
    → c.yes ≡ false
    → is_blank v ≡ false
    → lookup key t.node.store.settings ≡ some v
    → t.node.store.broken (select_setting key) ≡ false
    → get key (gated w verb c t).1.node.store ≡ v
unconfirmed-Keeps w c verb key v t apart unconfirmed b held readable = get-of key v _ (
    gated-Keeps w c verb key v t b (apart_lem key free_keys apart) unconfirmed
      (record { held = held; readable = readable }))
