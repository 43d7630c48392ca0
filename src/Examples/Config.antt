-- ===== src/Examples/Config.antt =====
-- Protocol sets and subscriptions at concrete inputs.
use uncut_core.Base.{
  if◌then◌else◌, ◌==◌, contains, Distinct, ok, err, ◌≡◌, refl, Bool, true, not, ◌&&◌, ◌||◌, none,
  some, List, [], ◌∷◌, map,
}
use uncut_core.Text.{Text, codes, Text-discrete, text_eq, is_lower, is_upper, is_digit, is_space}
use uncut_core.Text.Trim.{trim_left, put_before, trim_right, trim_space}
use uncut_core.Transport.{is_safe}
use uncut_core.Transport.Laws.{IsToken}
use uncut_core.Config.Protocols.{
  xhttp_stealth, vless_ws, vless_httpupgrade, vless_grpc, vless_reality, hysteria2, amneziawg,
  default_protocols, is_valid_protocol, clean_from, clean_protocols, resolve_protocols,
  effective_protocols,
}
use uncut_core.Config.Protocols.Laws.{
  IsServerSet, resolve_protocols-IsServerSet, inherits, effective_protocols_rule,
}
use uncut_core.Config.Protocols.Cleaning.{IsKnown}
use uncut_core.Core.Awg.{is_complete}
use uncut_core.Core.Subscriptions.{link_of, generate_client_links}
use uncut_core.Core.Subscriptions.Laws.{linked_protocols, generate_client_links_lem}
use uncut_core.Singbox.Inbounds.{generate_inbound}
use uncut_core.Singbox.Rosters.{
  with_access, keyed, user_for, has_certificate, is_none, users_of, as_users,
  users-generate_inbound,
}
use uncut_core.Singbox.Access.{lets_in, HasMaterial, linked-iff-admitted}
use uncut_core.Examples.Data.{a_key, alice, node}
use uncut_core.Singbox.{generate_config}
use uncut_core.Singbox.Users.{peer, amneziawg_endpoint}
use uncut_core.Json.{array, get}

hysteria2-IsKnown : IsKnown hysteria2
unfolding is_valid_protocol default_protocols xhttp_stealth vless_ws vless_httpupgrade vless_grpc
    vless_reality hysteria2 amneziawg Text-discrete
hysteria2-IsKnown = refl

alice-HasMaterial : HasMaterial (some a_key)
unfolding is_complete
alice-HasMaterial = refl

effective_protocols_rule_example :
    ((p : Text)
      → contains (effective_protocols alice node.protocols) p ≡ (
          contains (resolve_protocols node.protocols) p
          && (inherits alice || contains alice.protocols p)))
    × Distinct (effective_protocols alice node.protocols)
effective_protocols_rule_example = effective_protocols_rule alice node.protocols

resolve_protocols-IsServerSet_example : IsServerSet (resolve_protocols node.protocols)
resolve_protocols-IsServerSet_example = resolve_protocols-IsServerSet node.protocols

abbrev typed : List Text
typed = codes " hysteria2" ∷ codes "" ∷ codes "hysteria2" ∷ []

cleaned_typed : clean_protocols typed ≡ ok (hysteria2 ∷ [])
unfolding clean_protocols clean_from trim_space trim_left trim_right put_before is_space
    is_valid_protocol default_protocols xhttp_stealth vless_ws vless_httpupgrade vless_grpc
    vless_reality hysteria2 amneziawg Text-discrete
cleaned_typed = refl

refused : clean_protocols (codes "ssh" ∷ []) ≡ err (codes "ssh")
unfolding clean_protocols clean_from trim_space trim_left trim_right put_before is_space
    is_valid_protocol default_protocols xhttp_stealth vless_ws vless_httpupgrade vless_grpc
    vless_reality hysteria2 amneziawg Text-discrete
refused = refl

generate_client_links_lem_example :
    generate_client_links alice node ≡ map (link_of alice node) (linked_protocols alice node)
generate_client_links_lem_example = generate_client_links_lem alice node

abbrev all_exist : Text → Bool
all_exist path = true

linked-iff-admitted_example :
    (ps : List Text) × Distinct ps
    × (generate_client_links alice node ≡ map (link_of alice node) ps)
    × ((p : Text) → contains ps p ≡ lets_in all_exist node alice p)
linked-iff-admitted_example = linked-iff-admitted all_exist node alice refl alice-HasMaterial refl

users-generate_inbound_example :
    (is_none (generate_inbound all_exist hysteria2 node (alice ∷ [])) ≡ (
      hysteria2 == amneziawg || (hysteria2 == hysteria2 && not (has_certificate all_exist node))))
    × (users_of (generate_inbound all_exist hysteria2 node (alice ∷ [])) ≡ (
        if hysteria2 == amneziawg
          || (hysteria2 == hysteria2 && not (has_certificate all_exist node))
        then none
        else as_users (map (user_for hysteria2) (with_access node hysteria2 (alice ∷ [])))))
    × (get (codes "endpoints") (generate_config all_exist node (alice ∷ [])) ≡ (
        if contains (resolve_protocols node.protocols) amneziawg
        then some (array (amneziawg_endpoint node (alice ∷ []) ∷ []))
        else none))
    × (get (codes "peers") (amneziawg_endpoint node (alice ∷ []))
        ≡ as_users (map peer (keyed node (alice ∷ []))))
users-generate_inbound_example =
    users-generate_inbound all_exist hysteria2 node (alice ∷ []) hysteria2-IsKnown

a-IsToken : IsToken (codes "0af3")
unfolding is_safe is_lower is_upper is_digit
a-IsToken = refl
