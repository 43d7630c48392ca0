-- ===== src/Singbox/Access.antt =====
-- What sing-box admits (internal/singbox/generator.go) against what the subscription advertises
-- (internal/core/subscriptions.go).
use uncut_core.Base.{
  if◌then◌else◌, Bool-cases, Option-cases, ◌==◌, contains, All-contains, Distinct, ◌≡◌, inl, inr,
  Bool, true, false, ◌&&◌, Option, none, some, List, [], ◌∷◌, map, arith,
}
use uncut_core.Text.{Text, codes, Text-discrete, text_eq, is_blank}
use uncut_core.Config.{ClientAwg, Client, Settings}
use uncut_core.Config.Protocols.{amneziawg, resolve_protocols, effective_protocols}
use uncut_core.Config.Protocols.Cleaning.{IsKnown}
use uncut_core.Core.Awg.{is_complete}
use uncut_core.Core.Subscriptions.Laws.{
  with_link, linked_protocols, generate_client_links_lem, with_link-members,
  linked_protocols_members, link_of-not_blank, has_private_key, amneziawg_link-not_blank,
  link_of-amneziawg,
}
use uncut_core.Json.{Json, arr, cons, get}
use uncut_core.Singbox.Users.{peer, amneziawg_endpoint}
use uncut_core.Singbox.Rosters.{
  keyed, has_certificate, users_of, as_users, HasRoster_lem, peers_lem,
}
use uncut_core.Singbox.Inbounds.{generate_inbound}
use uncut_core.Config.Protocols.Laws.{resolve_protocols-IsServerSet, effective_protocols_rule}
use uncut_core.Core.Subscriptions.{link_of, generate_client_links}

-- There is a first entry.
abbrev pub has_entries : Option Json → Bool
has_entries (some (arr (cons j js))) = true
has_entries j = false

-- The server has the protocol, and what sing-box is given for it has an entry for the client: a
-- peer of the endpoint, or a user of the inbound.
abbrev pub lets_in : (Text → Bool) → Settings → Client → Text → Bool
lets_in exists s c p =
    contains (resolve_protocols s.protocols) p
    && has_entries (
        if p == amneziawg
        then get (codes "peers") (amneziawg_endpoint s (c ∷ []))
        else users_of (generate_inbound exists p s (c ∷ [])))

-- All the AmneziaWG material is there, as `AddClient` and `BackfillClientAWG` leave it.
abbrev pub HasMaterial : Option ClientAwg → Type 0
HasMaterial none = ⊥
HasMaterial (some a) = is_complete a ≡ true

abbrev one_peer : Settings → Client → Bool
one_peer s c = has_entries (as_users (map peer (keyed s (c ∷ []))))

one_peer_lem :
    (c : Client) (s : Settings)
    → is_blank c.uuid ≡ false
    → HasMaterial c.awg
    → (one_peer s c ≡ contains (effective_protocols c s.protocols) amneziawg)
      × (has_private_key c.awg ≡ true)
unfolding is_complete
one_peer_lem c s u m = elim (Option-cases c.awg) [
  | inl e ↦ absurd (rw e at m)
  | inr (a, e) ↦
      let m' : HasMaterial (some a) = rw e at m in
      let (rule, _) = effective_protocols_rule c s.protocols in
      let member = rule amneziawg in ground (arith, e, m', member)
]

with_link-Distinct :
    (c : Client) (s : Settings) (ps : List Text) → Distinct ps → Distinct (with_link c s ps)
unfolding with_link
with_link-Distinct c s [] d = d
with_link-Distinct c s (q ∷ ps) d =
    ground (arith, with_link-Distinct c s ps d.1, with_link-members c s ps q)

active-lets_in :
    (exists : Text → Bool) (s : Settings) (c : Client)
    → is_blank c.uuid ≡ false
    → HasMaterial c.awg
    → has_certificate exists s ≡ true
    → (p : Text) → contains (resolve_protocols s.protocols) p ≡ true
    → contains (linked_protocols c s) p ≡ lets_in exists s c p
active-lets_in exists s c u m cert p e =
    let (rule, _) = effective_protocols_rule c s.protocols in
    let member = rule p in
    let known =
      All-contains IsKnown (resolve_protocols s.protocols) p
        (resolve_protocols-IsServerSet s.protocols).known e in
    elim (Text-discrete p amneziawg) [
      | yes same ↦ ground (
        arith,
        e,
        same,
        linked_protocols_members c s p,
        link_of-amneziawg c s,
        amneziawg_link-not_blank c s,
        peers_lem s (c ∷ []),
        one_peer_lem c s u m,
      )
      | no ne ↦ ground (
        arith,
        e,
        ne,
        u,
        cert,
        member,
        linked_protocols_members c s p,
        link_of-not_blank c s p known ne,
        HasRoster_lem exists s (c ∷ []) p known,
      )
    ]

linked_protocols-lets_in :
    (exists : Text → Bool) (s : Settings) (c : Client)
    → is_blank c.uuid ≡ false
    → HasMaterial c.awg
    → has_certificate exists s ≡ true
    → (p : Text) → contains (linked_protocols c s) p ≡ lets_in exists s c p
linked_protocols-lets_in exists s c u m cert p =
    let (rule, _) = effective_protocols_rule c s.protocols in
    let member = rule p in
    elim (Bool-cases (contains (resolve_protocols s.protocols) p)) [
      | inr e ↦ ground (arith, e, member, linked_protocols_members c s p)
      | inl e ↦ active-lets_in exists s c u m cert p e
    ]

-- For a client whose uuid is not blank and that has its AmneziaWG material, where the node's
-- certificate files exist: the subscription is the links of protocols none of which stands twice,
-- and they are exactly the protocols that the server has active and in whose inbound, or whose
-- endpoint for AmneziaWG, sing-box is given an entry for the client.
pub linked-iff-admitted :
    (exists : Text → Bool) (s : Settings) (c : Client)
    → is_blank c.uuid ≡ false
    → HasMaterial c.awg
    → has_certificate exists s ≡ true
    → (ps : List Text) × Distinct ps
      × (generate_client_links c s ≡ map (link_of c s) ps)
      × ((p : Text) → contains ps p ≡ lets_in exists s c p)
linked-iff-admitted exists s c u m cert =
    let (_, distinct) = effective_protocols_rule c s.protocols in
    (
      linked_protocols c s,
      with_link-Distinct c s (effective_protocols c s.protocols) distinct,
      generate_client_links_lem c s,
      linked_protocols-lets_in exists s c u m cert,
    )
