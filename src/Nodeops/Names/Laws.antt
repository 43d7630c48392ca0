-- ===== src/Nodeops/Names/Laws.antt =====
-- internal/nodeops/nodeops.go: what is read back of the protocol set.
use uncut_core.Base.{
  All, ◌==◌, Result, ok, err, pure, continue, ◌>>◌, continue-ok, insert, insert_all, lookup-insert,
  ◌≡◌, refl, ap, ◌∙◌, ◌≢◌, inl, inr, false, List, [], ◌∷◌, arith,
}
use uncut_core.Text.{Text, Text-discrete, text_eq}
use uncut_core.Text.Split.{join}
use uncut_core.Config.Protocols.{clean_protocols}
use uncut_core.Config.Protocols.Cleaning.{clean_protocols_sound}
use uncut_core.Store.{select_setting, DbError, Store, or_no_rows, get_setting, set_settings}
use uncut_core.Store.Laws.{set_settings_atomic}
use uncut_core.Setup.{get}
use uncut_core.Setup.Protocols.{
  protocols_key, protocols_explicit_key, explicit_mark, comma, merge_default_protocols,
}
use uncut_core.Setup.Protocols.Laws.{knowns-IsEntry, protocols_of}
use uncut_core.Setup.Protocols.Entries.{IsEntry, split_list-join}
use uncut_core.Nodeops.{NodeError, Context, from_db, reloaded, save_all}
use uncut_core.Nodeops.Names.{resolved_names, protocol_settings, set_protocols}

from_db-ok_all : (r : Result DbError (Unit {0})) (u : Unit {0}) → from_db r ≡ ok u → r ≡ ok tt
from_db-ok_all (ok tt) u h = refl
from_db-ok_all (err e) u h = ground (arith, h)

keys_apart : (protocols_explicit_key == protocols_key) ≡ false
unfolding protocols_explicit_key protocols_key Text-discrete
keys_apart = refl

-- What two keys hold after both are written in one transaction.
saved_pair :
    (k : Context) (ps : List Text) (s : Store)
    → (set_settings (protocol_settings k ps) s).0 ≡ ok tt
    → s.broken (select_setting protocols_key) ≡ false
    → s.broken (select_setting protocols_explicit_key) ≡ false
    → (get protocols_key (set_settings (protocol_settings k ps) s).1 ≡ join comma ps)
      × (get protocols_explicit_key (set_settings (protocol_settings k ps) s).1 ≡ explicit_mark)
unfolding get get_setting or_no_rows insert_all
saved_pair k ps s h r q = elim (set_settings_atomic (protocol_settings k ps) s) [
  | inl (_, e) ↦
      let m = insert protocols_key (join comma ps) s.settings in
      ground (
        arith,
        e,
        r,
        q,
        keys_apart,
        lookup-insert protocols_key protocols_key (join comma ps) s.settings,
        lookup-insert protocols_explicit_key protocols_key explicit_mark m,
        lookup-insert protocols_explicit_key protocols_explicit_key explicit_mark m,
      )
  | inr ((x, e), _) ↦ ground (arith, h, e)
]

resolved_names-ok :
    (k : Context) (r : Result Text (List Text)) (ps : List Text)
    → resolved_names k r ≡ ok ps
    → (r ≡ ok ps) × (ps ≢ [])
resolved_names-ok k (ok []) ps h = ground (arith, h)
resolved_names-ok k (ok (p ∷ qs)) ps h = (ground (arith, h), λ e. ground (arith, h, e))
resolved_names-ok k (err e) ps h = ground (arith, h)

reload-ok :
    (k : Context) (ps : List Text) (s : Store) {qs : List Text}
    → (continue (reloaded k s).0 (λ _. pure {E = NodeError} ps) (reloaded k s).1).0 ≡ ok qs
    → continue (reloaded k s).0 (λ _. pure {E = NodeError} ps) (reloaded k s).1 ≡ (ok ps, s)
unfolding reloaded
reload-ok k ps s h = (continue-ok (reloaded k s).0 (λ _. pure ps) (reloaded k s).1 h).2

save_all-ok :
    (k : Context) (ps : List Text) (s : Store) {qs : List Text}
    → (continue
        (save_all (protocol_settings k ps) s).0
        (λ _. reloaded k >> pure ps)
        (save_all (protocol_settings k ps) s).1).0
      ≡ ok qs
    → ((set_settings (protocol_settings k ps) s).0 ≡ ok tt)
      × (continue
            (save_all (protocol_settings k ps) s).0
            (λ _. reloaded k >> pure ps)
            (save_all (protocol_settings k ps) s).1
          ≡ (ok ps, (set_settings (protocol_settings k ps) s).1))
unfolding save_all
save_all-ok k ps s h =
    let r = set_settings (protocol_settings k ps) s in
    let (u, e, q) = continue-ok (from_db r.0) (λ _. reloaded k >> pure ps) r.1 h in
    (from_db-ok_all r.0 u e, q ∙ reload-ok k ps r.1 (rw q at h))

ok-eq : {r : Result NodeError (List Text)} (qs ps : List Text) → r ≡ ok qs → r ≡ ok ps → qs ≡ ps
ok-eq qs ps e h = ground (arith, e, h)

read_back :
    (k : Context) (ps : List Text) (s : Store)
    → ps ≢ []
    → All IsEntry ps
    → (set_settings (protocol_settings k ps) s).0 ≡ ok tt
    → s.broken (select_setting protocols_key) ≡ false
    → s.broken (select_setting protocols_explicit_key) ≡ false
    → protocols_of (set_settings (protocol_settings k ps) s).1 ≡ ps
unfolding protocols_of
read_back k ps s ne entries saved r q =
    rw (saved_pair k ps s saved r q).0 (split_list-join ps ne entries)

left_alone :
    (k : Context) (ps : List Text) (s : Store)
    → (set_settings (protocol_settings k ps) s).0 ≡ ok tt
    → s.broken (select_setting protocols_key) ≡ false
    → s.broken (select_setting protocols_explicit_key) ≡ false
    → merge_default_protocols (set_settings (protocol_settings k ps) s).1
      ≡ (ok tt, (set_settings (protocol_settings k ps) s).1)
unfolding merge_default_protocols
left_alone k ps s saved r q = ground (arith, saved_pair k ps s saved r q)

-- A protocol set that is stored without an error is the set that the node reads from then on, and
-- the merge at the next start leaves it alone, where reading the two settings does not fail.
pub set_protocols_lem :
    (k : Context) (protocols : List Text) (s : Store) {ps : List Text}
    → (set_protocols k protocols s).0 ≡ ok ps
    → s.broken (select_setting protocols_key) ≡ false
    → s.broken (select_setting protocols_explicit_key) ≡ false
    → (protocols_of (set_protocols k protocols s).1 ≡ ps)
      × (merge_default_protocols (set_protocols k protocols s).1
          ≡ (ok tt, (set_protocols k protocols s).1))
unfolding set_protocols
set_protocols_lem k protocols s {ps} h r q =
    let (qs, e, c) =
      continue-ok (resolved_names k (clean_protocols protocols))
        (λ resolved. save_all (protocol_settings k resolved) >> (reloaded k >> pure resolved)) s
        h in
    let (saved, c') = save_all-ok k qs s (rw c at h) in
    let (clean, ne) = resolved_names-ok k (clean_protocols protocols) qs e in
    let (known, _, _) = clean_protocols_sound protocols clean in
    let same = ok-eq qs ps (ap (λ (x : Result NodeError (List Text) × Store). x.0) (c ∙ c')) h in
    rw (c ∙ c')
      (read_back k qs s ne (knowns-IsEntry qs known) saved r q ∙ same, left_alone k qs s saved r q)
