-- ===== src/Cli/Keeps.antt =====
-- cmd/uncut/main.go: what a command without --yes leaves as it is.
pub mod Commands
pub mod Upkeep
pub mod Gate
use uncut_core.Base.{
  ◌==◌, Result, ok, err, Exec, pure, lift, reads, ◌>>=◌, ◌>>◌, Result-cases, Map, lookup, ◌≡◌, inl,
  inr, false, none, List, [], ◌∷◌,
}
use uncut_core.Text.{Text, codes, text_eq, is_blank}
use uncut_core.Store.{Store}
use uncut_core.Core.{CoreError}
use uncut_core.Core.IpSync.{server_ip}
use uncut_core.Acme.{Lego}
use uncut_core.Acme.Issue.{issue}
use uncut_core.Setup.{SetupError}
use uncut_core.Setup.Protocols.{protocols_key, protocols_explicit_key}
use uncut_core.Setup.Load.{load}
use uncut_core.Setup.Rebuild.{Node}
use uncut_core.Setup.Bootstrap.Keeps.{
  Holds, Keeps, bind-Keeps, set_setting-Keeps, set_settings-Keeps,
}
use uncut_core.Setup.Bootstrap.Steps.{load-Keeps}
use uncut_core.Nodeops.{
  NodeError, Context, from_setup, from_core, loaded_settings, reloaded, save, save_all,
}
use uncut_core.Nodeops.Certificates.{
  FileError, not_issued, node_settings, on_disk, manager_of, node_reloaded, renew_cert,
}
use uncut_core.Cli.{CliError, Printed, Terminal, say, stored_command, filed_command}

-- The settings that a command without --yes may write: the protocol set, the caps and the address.
abbrev pub free_keys : List Text
free_keys =
    protocols_key
    ∷ protocols_explicit_key
    ∷ codes "hysteria2_up_mbps"
    ∷ codes "hysteria2_down_mbps"
    ∷ server_ip
    ∷ []

module _ (key v : Text) where
  abbrev pub KeepsNode : {E A : Type 0} → Exec Node E A → Type 0
  KeepsNode m = (n : Node) → Holds key v n.store → Holds key v (m n).1.store

  abbrev pub KeepsTerminal : {E A : Type 0} → Exec Terminal E A → Type 0
  KeepsTerminal m = (t : Terminal) → Holds key v t.node.store → Holds key v (m t).1.node.store

  module _ {E A B : Type 0} where
    pub node-bind :
        (m : Exec Node E A) (f : A → Exec Node E B)
        → KeepsNode m
        → ((a : A) → KeepsNode (f a))
        → KeepsNode (m >>= f)
    node-bind m f km kf n h = elim (Result-cases (m n).0) [
      | inl (a, e) ↦ rw e (kf a (m n).1 (km n h))
      | inr (x, e) ↦ rw e (km n h)
    ]

    pub terminal-bind :
        (m : Exec Terminal E A) (f : A → Exec Terminal E B)
        → KeepsTerminal m
        → ((a : A) → KeepsTerminal (f a))
        → KeepsTerminal (m >>= f)
    terminal-bind m f km kf t h = elim (Result-cases (m t).0) [
      | inl (a, e) ↦ rw e (kf a (m t).1 (km t h))
      | inr (x, e) ↦ rw e (km t h)
    ]

  pub say-Keeps : (ps : List Printed) → KeepsTerminal (say ps)
  unfolding say
  say-Keeps ps t h = h

  -- A part of a command on the store, and what it prints.
  pub command-say :
      {A : Type 0} (f : Exec Store NodeError A) (ps : A → List Printed)
      → Keeps key v f
      → KeepsTerminal (stored_command f >>= λ a. say (ps a))
  command-say f ps kf t h =
      terminal-bind (stored_command f) (λ a. say (ps a)) (λ t' h'. kf t'.node.store h')
        (λ a. say-Keeps (ps a)) t h

  pub filed-say :
      {A : Type 0} (f : Exec Node FileError A) (ps : A → List Printed)
      → KeepsNode f
      → KeepsTerminal (filed_command f >>= λ a. say (ps a))
  filed-say f ps kf t h =
      terminal-bind (filed_command f) (λ a. say (ps a)) (λ t' h'. kf t'.node h')
        (λ a. say-Keeps (ps a)) t h

  -- A check that stops a command before it writes.
  pub lift-then :
      {A B : Type 0} (r : Result CliError A) (f : A → Exec Terminal CliError B)
      → ((a : A) → KeepsTerminal (f a))
      → KeepsTerminal (lift r >>= f)
  lift-then (ok a) f kf t h = kf a t h
  lift-then (err e) f kf t h = h

  -- The parts of the node commands.
  pub from_setup-Keeps :
      {A : Type 0} (m : Exec Store SetupError A)
      → Keeps key v m
      → Keeps key v (λ s. from_setup (m s))
  from_setup-Keeps m km s h = setup_pair (m s) (km s h)
    where
      setup_pair :
          {A : Type 0} (r : Result SetupError A × Store)
          → Holds key v r.1
          → Holds key v (from_setup r).1
      setup_pair (ok a, t) held = held
      setup_pair (err e, t) held = held

  pub from_core-Keeps :
      {A : Type 0} (m : Exec Store CoreError A) → Keeps key v m → Keeps key v (λ s. from_core (m s))
  from_core-Keeps m km s h = core_pair (m s) (km s h)
    where
      core_pair :
          {A : Type 0} (r : Result CoreError A × Store)
          → Holds key v r.1
          → Holds key v (from_core r).1
      core_pair (ok a, t) held = held
      core_pair (err e, t) held = held

  pub reloaded-Keeps : (k : Context) → Keeps key v (reloaded k)
  unfolding reloaded
  reloaded-Keeps k s h = h

  -- The end of a command.
  pub reloaded-pure-Keeps :
      {A : Type 0} (k : Context) (a : A)
      → Keeps key v {E = NodeError} {A = A} (reloaded k >> pure a)
  reloaded-pure-Keeps k a =
      bind-Keeps key v (reloaded k) (λ _. pure a) (reloaded-Keeps k) (λ _ s h. h)

  pub reads-Keeps : {E A : Type 0} (f : Store → Result E A) → Keeps key v (reads f)
  reads-Keeps f s h = h

  pub loaded_settings-Keeps : (k : Context) → is_blank v ≡ false → Keeps key v (loaded_settings k)
  unfolding loaded_settings
  loaded_settings-Keeps k b =
      from_setup-Keeps (load k.codec k.options k.paths)
        (load-Keeps key v k.codec k.options k.paths b)

  pub save_all-Keeps : (kvs : Map Text Text) → lookup key kvs ≡ none → Keeps key v (save_all kvs)
  unfolding save_all
  save_all-Keeps kvs absent = set_settings-Keeps key v kvs absent

  pub save-Keeps : (other w : Text) → (other == key) ≡ false → Keeps key v (save other w)
  unfolding save
  save-Keeps other w ne = set_setting-Keeps key v other w ne

  -- The node commands on the files as well.
  pub node_settings-Keeps : (k : Context) → is_blank v ≡ false → KeepsNode (node_settings k)
  node_settings-Keeps k b n h = loaded_settings-Keeps k b n.store h

  pub renew_cert-Keeps :
      (k : Context) (lego : Lego) → is_blank v ≡ false → KeepsNode (renew_cert k lego)
  unfolding renew_cert node_reloaded
  renew_cert-Keeps k lego b = node-bind (node_settings k) _ (node_settings-Keeps k b) (λ s.
      node-bind (on_disk not_issued (issue lego (manager_of k.options s.domain s))) _ (λ n h. h)
        (λ _ n h. reloaded-Keeps (record k { disk = n.disk }) n.store h))
