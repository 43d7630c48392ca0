-- ===== src/Core/Subscriptions/Laws.antt =====
-- Which links a subscription of internal/core/subscriptions.go holds.
use uncut_core.Base.{
  if◌then◌else◌, Option-cases, contains, ℕ, ◌≡◌, refl, ◌≢◌, inl, inr, Bool, false, not, ◌&&◌,
  Option, none, some, List, [], ◌∷◌, ◌++◌, map, arith,
}
use uncut_core.Text.{Text, Text-discrete, text_eq, is_blank}
use uncut_core.Config.{ClientAwg, Client, Settings}
use uncut_core.Config.Protocols.{
  xhttp_stealth, vless_ws, vless_httpupgrade, vless_grpc, vless_reality, hysteria2, amneziawg,
  default_protocols, is_valid_protocol, effective_protocols,
}
use uncut_core.Config.Protocols.Cleaning.{IsKnown}
use uncut_core.Core.Subscriptions.Links.{
  vless_reality_link, hysteria2_link, vless_ws_link, xhttp_stealth_link, vless_httpupgrade_link,
  vless_grpc_link, wireguard_link, amneziawg_link,
}
use uncut_core.Core.Subscriptions.{link_of, links_of, generate_client_links}

-- The protocols of the list that give a link.
unfoldable pub with_link : Client → Settings → List Text → List Text
with_link c s [] = []
with_link c s (p ∷ ps) =
    let rest = with_link c s ps in if is_blank (link_of c s p) then rest else p ∷ rest

abbrev pub linked_protocols : Client → Settings → List Text
linked_protocols c s = with_link c s (effective_protocols c s.protocols)

links_of-map :
    (c : Client) (s : Settings) (ps : List Text)
    → links_of c s ps ≡ map (link_of c s) (with_link c s ps)
unfolding links_of with_link
links_of-map c s [] = refl
links_of-map c s (p ∷ ps) = ground (arith, links_of-map c s ps)

-- The subscription is the links of the linked protocols, in their order.
pub generate_client_links_lem :
    (c : Client) (s : Settings)
    → generate_client_links c s ≡ map (link_of c s) (linked_protocols c s)
unfolding generate_client_links
generate_client_links_lem c s = links_of-map c s (effective_protocols c s.protocols)

pub with_link-members :
    (c : Client) (s : Settings) (ps : List Text) (p : Text)
    → contains (with_link c s ps) p ≡ (contains ps p && not (is_blank (link_of c s p)))
unfolding with_link
with_link-members c s [] p = refl
with_link-members c s (q ∷ ps) p = ground (arith, with_link-members c s ps p)

-- The protocols that a subscription links are those effective for the client whose link is not
-- blank.
pub linked_protocols_members :
    (c : Client) (s : Settings) (p : Text)
    → contains (linked_protocols c s) p
      ≡ (contains (effective_protocols c s.protocols) p && not (is_blank (link_of c s p)))
linked_protocols_members c s p = with_link-members c s (effective_protocols c s.protocols) p

not_blank-append : (s : Text) (c : ℕ) (t : Text) → is_blank (s ++ (c ∷ t)) ≡ false
not_blank-append [] c t = refl
not_blank-append (d ∷ s) c t = refl

hysteria2_link-not_blank : (c : Client) (s : Settings) → is_blank (hysteria2_link c s) ≡ false
unfolding hysteria2_link
hysteria2_link-not_blank c s = not_blank-append _ _ _

wireguard_link-not_blank :
    (c : Client) (a : ClientAwg) (s : Settings) → is_blank (wireguard_link c a s) ≡ false
unfolding wireguard_link
wireguard_link-not_blank c a s = refl

blank_links :
    (c : Client) (s : Settings)
    → (is_blank (vless_reality_link c s) ≡ false)
      × (is_blank (vless_ws_link c s) ≡ false)
      × (is_blank (xhttp_stealth_link c s) ≡ false)
      × (is_blank (vless_httpupgrade_link c s) ≡ false)
      × (is_blank (vless_grpc_link c s) ≡ false)
unfolding vless_reality_link vless_ws_link xhttp_stealth_link vless_httpupgrade_link vless_grpc_link
blank_links c s = (refl, refl, refl, refl, refl)

-- Every known protocol gives a link, but for AmneziaWG.
pub link_of-not_blank :
    (c : Client) (s : Settings) (p : Text)
    → IsKnown p
    → p ≢ amneziawg
    → is_blank (link_of c s p) ≡ false
unfolding link_of is_valid_protocol default_protocols
link_of-not_blank c s p known other = ground (arith, blank_links c s, hysteria2_link-not_blank c s)

abbrev pub has_private_key : Option ClientAwg → Bool
has_private_key none = false
has_private_key (some a) = not (is_blank a.priv_key)

-- AmneziaWG gives a link exactly to a client with a private key.
pub amneziawg_link-not_blank :
    (c : Client) (s : Settings) → not (is_blank (amneziawg_link c s)) ≡ has_private_key c.awg
unfolding amneziawg_link
amneziawg_link-not_blank c s = elim (Option-cases c.awg) [
  | inl e ↦ ground (arith, e)
  | inr (a, e) ↦ ground (arith, e, wireguard_link-not_blank c a s)
]

pub link_of-amneziawg : (c : Client) (s : Settings) → link_of c s amneziawg ≡ amneziawg_link c s
unfolding link_of xhttp_stealth vless_ws vless_httpupgrade vless_grpc vless_reality hysteria2
    amneziawg Text-discrete
link_of-amneziawg c s = refl
