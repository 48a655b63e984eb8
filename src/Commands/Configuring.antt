-- ===== src/Commands/Configuring.antt =====
-- What the flags come to, and what becomes of the server of a command.
use cruiser.Base.{
  String, true, false, List, Option, none, some, ◌==◌, is_some, Outcome, ok, err, panic, ◌≡◌, refl,
  sym, ap, ◌∙◌, arith, if◌then◌else◌, Bool-cases, inl, inr,
}
use cruiser.Base.Run.{and_then, and_then-ok}
use cruiser.Tls.{TlsConfig}
use cruiser.Server.Lifecycle.{Net, http2, h2c, open_server, is_http2}
use cruiser.Server.Lifecycle.Opening.{open_server_panics}
use cruiser.Commands.{
  Settings, Globals, at_start, choose_context, set_context, configure_tls, add_provider,
  select_tfstate_source, persistent_pre_run, context_of, command_server, TfstateSource,
  command_state_manager,
}
use cruiser.State.Manager.{Manager}
use cruiser.State.Manager.Rounds.{Source, sync_round}

module _ {Cert : Type 0} (load : String → String → Outcome Cert) (self_signed : Outcome Cert) where
  -- What a success of the command leaves.
  pub record IsConfigured (s : Settings) (g : Globals Cert) : Type 0 where
    pub protocol : g.listener_protocol ≡ (if s.enable_tls then http2 else h2c)
    pub context : is_some g.tls_context ≡ s.enable_tls
    pub source : is_some g.tfstate_source ≡ (s.tfstate_source_selector == "aws-s3")

  select-ok :
      (s : Settings) (g : Globals Cert)
      → g.tfstate_source ≡ none
      → (select_tfstate_source load self_signed s g).1 ≡ ok tt
      → ((select_tfstate_source load self_signed s g).0.listener_protocol ≡ g.listener_protocol)
        × ((select_tfstate_source load self_signed s g).0.tls_context ≡ g.tls_context)
        × (is_some (select_tfstate_source load self_signed s g).0.tfstate_source
            ≡ (s.tfstate_source_selector == "aws-s3"))
  unfolding select_tfstate_source
  select-ok s g n h = ground arith

  set_context-ok :
      (c : Outcome (TlsConfig Cert)) (g : Globals Cert)
      → (set_context load self_signed c g).1 ≡ ok tt
      → (is_some (set_context load self_signed c g).0.tls_context ≡ true)
        × ((set_context load self_signed c g).0.listener_protocol ≡ g.listener_protocol)
        × ((set_context load self_signed c g).0.tfstate_source ≡ g.tfstate_source)
  set_context-ok (ok c) g h = (refl, refl, refl)
  set_context-ok (err e) g h = ground arith
  set_context-ok panic g h = ground arith

  configure_tls-ok :
      (s : Settings)
      → (configure_tls load self_signed s (at_start Cert)).1 ≡ ok tt
      → let g = (configure_tls load self_signed s (at_start Cert)).0 in
        (g.listener_protocol ≡ (if s.enable_tls then http2 else h2c))
        × (is_some g.tls_context ≡ s.enable_tls)
        × (g.tfstate_source ≡ none)
  unfolding configure_tls
  configure_tls-ok s h = elim (Bool-cases s.enable_tls) [
    | inl on ↦
        let g : Globals Cert = record (at_start Cert) { listener_protocol = http2 } in
        let c = choose_context load self_signed s in
        let run : configure_tls load self_signed s (at_start Cert)
            ≡ set_context load self_signed c g =
          rw (on, configure_tls) refl in
        let (context, protocol, source) = set_context-ok c g (ap (λ r. r.1) (sym run) ∙ h) in
        (
          ap (λ r. r.0.listener_protocol) run ∙ protocol ∙ rw on refl,
          ap (λ r. is_some r.0.tls_context) run ∙ context ∙ sym on,
          ap (λ r. r.0.tfstate_source) run ∙ source,
        )
    | inr off ↦ rw (off, configure_tls) (refl, refl, refl)
  ]

  add_provider-keeps :
      (s : Settings) (r : Globals Cert × Outcome (Unit {0}))
      → r.1 ≡ ok tt
      → let t = (and_then r (λ _. add_provider load self_signed s)).0 in
        (t.listener_protocol ≡ r.0.listener_protocol)
        × (t.tls_context ≡ r.0.tls_context)
        × (t.tfstate_source ≡ r.0.tfstate_source)
  add_provider-keeps s (g, ok _) h = (refl, refl, refl)
  add_provider-keeps s (g, err e) h = (refl, refl, refl)
  add_provider-keeps s (g, panic) h = (refl, refl, refl)

  -- If the command has no error then the protocol is HTTP/2 with TLS and H2C without, there is a
  -- TLS context if and only if TLS is enabled, and a source of states if and only if it is the S3
  -- one that is selected.
  pub persistent_pre_run-IsConfigured :
      (s : Settings)
      → (persistent_pre_run load self_signed s (at_start Cert)).1 ≡ ok tt
      → IsConfigured s (persistent_pre_run load self_signed s (at_start Cert)).0
  unfolding persistent_pre_run
  persistent_pre_run-IsConfigured s h =
      let first = configure_tls load self_signed s (at_start Cert) in
      let second = and_then first (λ _. add_provider load self_signed s) in
      let (p, q, run) = and_then-ok second (λ _. select_tfstate_source load self_signed s) h in
      let (p1, _, _) = and_then-ok first (λ _. add_provider load self_signed s) p in
      let (protocol, context, source) = configure_tls-ok s p1 in
      let (kp, kc, ks) = add_provider-keeps s first p1 in
      let (sp, sc, ss) = select-ok s second.0 (ks ∙ source) q in
      record {
        protocol = ap (λ r. r.0.listener_protocol) run ∙ sp ∙ kp ∙ protocol;
        context = ap (λ r. is_some r.0.tls_context) run ∙ ap is_some (sc ∙ kc) ∙ context;
        source = ap (λ r. is_some r.0.tfstate_source) run ∙ ss;
      }

  none-is_some : {A : Type 0} (o : Option A) → is_some o ≡ false → o ≡ none
  none-is_some none h = refl
  none-is_some (some a) h = cc

  -- Without TLS, a command that is configured without an error, on an address that is not empty,
  -- panics when it opens its server, whatever the other flags and the handler are.
  pub plain_server_panics :
      {N : Net} (config : TlsConfig Cert → N.TlsConfig) (s : Settings) (handler : N.Handler)
      → s.enable_tls ≡ false
      → (s.listener_address == "") ≡ false
      → (persistent_pre_run load self_signed s (at_start Cert)).1 ≡ ok tt
      → let server =
          command_server {N = N} config s
            (persistent_pre_run load self_signed s (at_start Cert)).0
            handler in
        open_server server ≡ (server, panic)
  plain_server_panics {N} config s handler off address h =
      let g = (persistent_pre_run load self_signed s (at_start Cert)).0 in
      let configured = persistent_pre_run-IsConfigured s h in
      let protocol : g.listener_protocol ≡ h2c = configured.protocol ∙ rw off refl in
      open_server_panics (command_server {N = N} config s g handler) address (ap is_http2 protocol)
        (ap (context_of config) (none-is_some g.tls_context (configured.context ∙ off))) refl

  -- If no source of states is selected, a command that is configured without an error panics in the
  -- first round of its state manager, whatever its managers are, though the code logs that the
  -- source will be disabled.
  pub sourceless_round_panics :
      {B S : Type 0} (source : TfstateSource → Source B) (s : Settings)
      (managers : List (Manager S)) (x : B × S)
      → s.tfstate_source_selector ≡ ""
      → (persistent_pre_run load self_signed s (at_start Cert)).1 ≡ ok tt
      → sync_round
          (command_state_manager source s
            (persistent_pre_run load self_signed s (at_start Cert)).0
            managers)
          x
        ≡ (x, panic)
  unfolding sync_round
  sourceless_round_panics source s managers x off h =
      let g = (persistent_pre_run load self_signed s (at_start Cert)).0 in
      let configured = persistent_pre_run-IsConfigured s h in
      let nothing : g.tfstate_source ≡ none =
        none-is_some g.tfstate_source (configured.source ∙ rw off refl) in
      rw nothing refl
