-- ===== src/Setup/Rebuild/Writes.antt =====
-- internal/setup/setup.go: the paths of a pass of RebuildAll, and a write that does not stop it.
use uncut_core.Base.{
  ◌==◌, Distinct, Result, ok, Map, lookup, ◌≡◌, refl, if_neg, false, Option, none, some, List, [],
  ◌∷◌, arith,
}
use uncut_core.Text.{Text, Text-discrete, text_eq}
use uncut_core.Files.{Disk}
use uncut_core.Files.Checked.{CheckedError}
use uncut_core.Nginx.Server.{server_file, stream_file, limits_file}
use uncut_core.Setup.Rebuild.{Action, RebuildError, written}

pub eq-flip : (a b : Text) → (a == b) ≡ false → (b == a) ≡ false
eq-flip a b h = elim (text_eq.dec b a) [
  | yes e ↦ ground (arith, e, h)
  | no n ↦ rw (if_neg _ n) refl
]

pub nginx_apart : Distinct (server_file ∷ stream_file ∷ limits_file ∷ [])
unfolding Text-discrete
nginx_apart = (refl, (refl, (refl, tt)))

pub stream_second : (server_file == stream_file) ≡ false
unfolding Text-discrete
stream_second = refl

pub lookup-first : (q v : Text) (m : Map Text Text) → lookup q ((q, v) ∷ m) ≡ some v
unfolding lookup
lookup-first q v m = ground arith

pub lookup-second :
    (p q u v : Text) (m : Map Text Text)
    → (p == q) ≡ false
    → lookup q ((p, u) ∷ (q, v) ∷ m) ≡ some v
unfolding lookup
lookup-second p q u v m apart = ground (arith, apart)

-- A checked write that did not stop the pass.
pub written-ok :
    (wrong : CheckedError → RebuildError) (failure : Option CheckedError)
    (next : Disk → Result RebuildError (List Action) × Disk) (d : Disk) {actions : List Action}
    → (written wrong failure next d).0 ≡ ok actions
    → (failure ≡ none) × (written wrong failure next d ≡ next d) × ((next d).0 ≡ ok actions)
written-ok wrong (some e) next d h = cc h
written-ok wrong none next d h = (refl, refl, h)
