-- ===== src/Core/Subscriptions.antt =====
-- internal/core/subscriptions.go: the links of a client and its subscription file.
pub mod Links
pub mod Laws
pub mod Files
use uncut_core.Base.{if◌then◌else◌, ◌==◌, List, [], ◌∷◌, ◌++◌}
use uncut_core.Text.{Text, text_eq, is_blank}
use uncut_core.Text.Encode.{utf8, std_base64, base64_encode}
use uncut_core.Text.Split.{join}
use uncut_core.Config.{Client, Settings}
use uncut_core.Config.Protocols.{
  xhttp_stealth, vless_ws, vless_httpupgrade, vless_grpc, vless_reality, hysteria2, amneziawg,
  effective_protocols,
}
use uncut_core.Core.Subscriptions.Links.{
  vless_reality_link, hysteria2_link, vless_ws_link, xhttp_stealth_link, vless_httpupgrade_link,
  vless_grpc_link, amneziawg_link,
}

-- The switch of `GenerateClientLinks`; a protocol that it does not name has no link.
unfoldable pub link_of : Client → Settings → Text → Text
link_of c s proto =
    if proto == vless_reality
    then vless_reality_link c s
    else if proto == hysteria2
    then hysteria2_link c s
    else if proto == vless_ws
    then vless_ws_link c s
    else if proto == xhttp_stealth
    then xhttp_stealth_link c s
    else if proto == vless_httpupgrade
    then vless_httpupgrade_link c s
    else if proto == vless_grpc
    then vless_grpc_link c s
    else if proto == amneziawg
    then amneziawg_link c s
    else []

links_of : Client → Settings → List Text → List Text
unfolding link_of
links_of c s [] = []
links_of c s (p ∷ ps) =
    let rest = links_of c s ps in if is_blank (link_of c s p) then rest else link_of c s p ∷ rest

unfoldable pub generate_client_links : Client → Settings → List Text
unfolding links_of
generate_client_links c s = links_of c s (effective_protocols c s.protocols)

-- The links, one to a line; an empty list is an empty text.
unfoldable pub joined_links : List Text → Text
joined_links links =
    let text = join (10 ∷ []) links in if is_blank text then text else text ++ 10 ∷ []

unfoldable pub generate_subscription_payload : Client → Settings → Text
unfolding joined_links
generate_subscription_payload c s =
    base64_encode std_base64 (utf8 (joined_links (generate_client_links c s)))
