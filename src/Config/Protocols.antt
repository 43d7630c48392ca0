-- ===== src/Config/Protocols.antt =====
-- The protocol sets: cleaning, the server's active set, and what one client gets.
pub mod Laws
pub mod Cleaning
use uncut_core.Base.{
  if◌then◌else◌, contains, Result, ok, err, Bool, true, false, not, ◌&&◌, ◌||◌, List, [], ◌∷◌, ◌++◌,
}
use uncut_core.Text.{Text, codes, text_eq, is_blank}
use uncut_core.Text.Trim.{trim_space}
use uncut_core.Config.{Client}

unfoldable pub xhttp_stealth : Text
xhttp_stealth = codes "xhttp-stealth"

unfoldable pub vless_ws : Text
vless_ws = codes "vless-ws"

unfoldable pub vless_httpupgrade : Text
vless_httpupgrade = codes "vless-httpupgrade"

unfoldable pub vless_grpc : Text
vless_grpc = codes "vless-grpc"

unfoldable pub vless_reality : Text
vless_reality = codes "vless-reality"

unfoldable pub hysteria2 : Text
hysteria2 = codes "hysteria2"

unfoldable pub amneziawg : Text
amneziawg = codes "amneziawg"

-- Every known protocol, in render order; also `DefaultProtocolNames`.
unfoldable pub default_protocols : List Text
default_protocols =
    xhttp_stealth ∷ vless_ws ∷ vless_httpupgrade ∷ vless_grpc ∷ vless_reality ∷ hysteria2
    ∷ amneziawg ∷ []

unfoldable pub is_valid_protocol : Text → Bool
is_valid_protocol p = contains default_protocols p

-- The error names the protocol that is not known.
unfoldable pub clean_from : List Text → List Text → Result Text (List Text)
clean_from out [] = ok out
clean_from out (raw ∷ rest) =
    let p = trim_space raw in
    let skipped = clean_from out rest in
    let added = clean_from (out ++ p ∷ []) rest in
    if is_blank p || contains out p
    then skipped
    else if not (is_valid_protocol p)
    then err p
    else added

unfoldable pub clean_protocols : List Text → Result Text (List Text)
unfolding clean_from
clean_protocols raw = clean_from [] raw

-- `slices.DeleteFunc` of the unknown names.
keep_known : List Text → List Text
keep_known [] = []
keep_known (p ∷ ps) =
    let rest = keep_known ps in if is_valid_protocol (trim_space p) then p ∷ rest else rest

abbrev pub or_default : Result Text (List Text) → List Text
or_default (ok (p ∷ ps)) = p ∷ ps
or_default _ = default_protocols

unfoldable pub resolve_protocols : List Text → List Text
unfolding keep_known
resolve_protocols raw = or_default (clean_protocols (keep_known raw))

-- The members of `protos` that the server has on, each once, behind `out`.
unfoldable pub cut_to : List Text → List Text → List Text → List Text
cut_to server out [] = out
cut_to server out (p ∷ ps) =
    cut_to server (if contains server p && not (contains out p) then out ++ p ∷ [] else out) ps

abbrev pub is_empty : List Text → Bool
is_empty [] = true
is_empty (p ∷ ps) = false

-- What the client asks for: an allowlist that is not empty, or its snapshot and the server's set.
unfoldable pub wanted : Client → List Text → List Text
wanted c server =
    if not c.protocols_explicit || is_empty c.protocols then c.protocols ++ server else c.protocols

unfoldable pub effective_protocols : Client → List Text → List Text
unfolding wanted cut_to
effective_protocols c server_raw =
    let server = resolve_protocols server_raw in cut_to server [] (wanted c server)
