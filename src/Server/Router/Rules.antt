-- ===== src/Server/Router/Rules.antt =====
-- What the rules of a route do to mux.
use cruiser.Base.{
  String, Bool, true, false, List, [], ◌∷◌, Dict, Outcome, ok, err, panic, ◌||◌, ◌≡◌, refl, sym, ap,
  ◌∙◌, arith, inl, inr, Option-cases,
}
use cruiser.Base.Run.{Run, for_each, for_each_keeps, and_then}
use cruiser.Proto.{
  Rule, no_rule, is_grpc_call, host, path, path_prefix, methods, schemes, headers, headers_regexp,
  queries,
}
use cruiser.Server.Router.{
  Matcher, on_host, on_path, on_path_prefix, on_queries, on_grpc, plain_matcher, header_pairs,
  with_matcher, Mux, IsMux, add_rule, add_rules,
}
use cruiser.Server.Router.Accepted.{is_ok, wants_grpc, plain_rule, plain_rules, and-true}

module _ {S : Type 0} where
  pub and_then-goes_on :
      (r : S × Outcome (Unit {0})) (f : Unit {0} → Run S (Unit {0}))
      → is_ok r.1 ≡ true
      → and_then r f ≡ f tt r.0
  and_then-goes_on (s, ok _) f e = refl
  and_then-goes_on (s, err _) f e = cc
  and_then-goes_on (s, panic) f e = cc

  pub and_then-stops :
      (r : S × Outcome (Unit {0})) (f : Unit {0} → Run S (Unit {0}))
      → is_ok r.1 ≡ false
      → is_ok (and_then r f).1 ≡ false
  and_then-stops (s, ok _) f e = cc
  and_then-stops (s, err _) f e = refl
  and_then-stops (s, panic) f e = refl

  pub and_then-first :
      (r : S × Outcome (Unit {0})) (f : Unit {0} → Run S (Unit {0}))
      → is_ok (and_then r f).1 ≡ true
      → is_ok r.1 ≡ true
  and_then-first (s, ok _) f e = refl
  and_then-first (s, err _) f e = cc
  and_then-first (s, panic) f e = cc

module _ {H : Type 0} {M : Mux H} (is_mux : IsMux M) (range : Dict String → List String) where
  with_matcher-grpc :
      (i : M.RouteId) (m : Matcher) (grpc : Bool) (s : M.Router × Bool)
      → is_ok (with_matcher M range i m grpc s).1 ≡ true
      → (with_matcher M range i m grpc s).0.1 ≡ (grpc || s.1)
  with_matcher-grpc i m grpc s h = ground arith

  with_matcher-keeps :
      (i : M.RouteId) (m : Matcher) (grpc : Bool) (s : M.Router × Bool) (n : String)
      → M.get_route (with_matcher M range i m grpc s).0.0 n ≡ M.get_route s.0 n
  with_matcher-keeps i m grpc s n = elim (Option-cases (M.add_matcher s.0 i m)) [
    | inl e ↦ rw (e, with_matcher) refl
    | inr (t, e) ↦ rw (e, with_matcher) (is_mux.matcher_keeps s.0 i m t n e)
  ]

  with_matcher-taken :
      (i : M.RouteId) (m : Matcher) (grpc : Bool) (s : M.Router × Bool)
      → plain_matcher is_mux.is_plain m ≡ true
      → is_ok (with_matcher M range i m grpc s).1 ≡ true
  with_matcher-taken i m grpc s p = ground (arith, is_mux.plain_taken s.0 i m p)

  matched-grpc :
      (i : M.RouteId) (m : Matcher) (grpc : Bool) (rules : List Rule) (s : M.Router × Bool)
      → is_ok (with_matcher M range i m grpc s).1 ≡ true
      → ((with_matcher M range i m grpc s).0.1 || wants_grpc rules)
        ≡ ((grpc || s.1) || wants_grpc rules)
  matched-grpc i m grpc rules s h = ap (λ b. b || wants_grpc rules) (with_matcher-grpc i m grpc s h)

  add_rule_grpc :
      (i : M.RouteId) (rule : Rule) (rules : List Rule) (s : M.Router × Bool)
      → is_ok (add_rule M range i rule s).1 ≡ true
      → ((add_rule M range i rule s).0.1 || wants_grpc rules) ≡ (s.1 || wants_grpc (rule ∷ rules))
  unfolding add_rule
  add_rule_grpc i no_rule rules s h = refl
  add_rule_grpc i (host _) rules s h = matched-grpc i _ false rules s h
  add_rule_grpc i (path _) rules s h = matched-grpc i _ false rules s h
  add_rule_grpc i (path_prefix _) rules s h = matched-grpc i _ false rules s h
  add_rule_grpc i (methods _) rules s h = matched-grpc i _ false rules s h
  add_rule_grpc i (schemes _) rules s h = matched-grpc i _ false rules s h
  add_rule_grpc i (headers _) rules s h = matched-grpc i _ false rules s h
  add_rule_grpc i (headers_regexp _) rules s h = matched-grpc i _ false rules s h
  add_rule_grpc i (queries _) rules s h = matched-grpc i _ false rules s h
  add_rule_grpc i (is_grpc_call true) rules (r, true) h = matched-grpc i _ true rules (r, true) h
  add_rule_grpc i (is_grpc_call true) rules (r, false) h = matched-grpc i _ true rules (r, false) h
  add_rule_grpc i (is_grpc_call false) rules s h = refl

  pub add_rules_grpc :
      (i : M.RouteId) (rules : List Rule) (s : M.Router × Bool)
      → is_ok (add_rules M range i rules s).1 ≡ true
      → (add_rules M range i rules s).0.1 ≡ (s.1 || wants_grpc rules)
  unfolding add_rules for_each
  add_rules_grpc i [] (r, true) h = refl
  add_rules_grpc i [] (r, false) h = refl
  add_rules_grpc i (rule ∷ rules) s h =
      let first =
        and_then-first (add_rule M range i rule s) (λ _. for_each (add_rule M range i) rules) h in
      let goes =
        and_then-goes_on (add_rule M range i rule s) (λ _. for_each (add_rule M range i) rules)
          first in
      ap (λ r. r.0.1) goes
      ∙ add_rules_grpc i rules (add_rule M range i rule s).0 (sym (ap (λ r. is_ok r.1) goes) ∙ h)
      ∙ add_rule_grpc i rule rules s first

  add_rule_keeps :
      (i : M.RouteId) (rule : Rule) (s : M.Router × Bool) (n : String)
      → M.get_route (add_rule M range i rule s).0.0 n ≡ M.get_route s.0 n
  unfolding add_rule
  add_rule_keeps i no_rule s n = refl
  add_rule_keeps i (host _) s n = with_matcher-keeps i _ false s n
  add_rule_keeps i (path _) s n = with_matcher-keeps i _ false s n
  add_rule_keeps i (path_prefix _) s n = with_matcher-keeps i _ false s n
  add_rule_keeps i (methods _) s n = with_matcher-keeps i _ false s n
  add_rule_keeps i (schemes _) s n = with_matcher-keeps i _ false s n
  add_rule_keeps i (headers _) s n = with_matcher-keeps i _ false s n
  add_rule_keeps i (headers_regexp _) s n = with_matcher-keeps i _ false s n
  add_rule_keeps i (queries _) s n = with_matcher-keeps i _ false s n
  add_rule_keeps i (is_grpc_call true) s n = with_matcher-keeps i _ true s n
  add_rule_keeps i (is_grpc_call false) s n = refl

  pub add_rules_keeps :
      (i : M.RouteId) (rules : List Rule) (s : M.Router × Bool) (n : String)
      → M.get_route (add_rules M range i rules s).0.0 n ≡ M.get_route s.0 n
  unfolding add_rules
  add_rules_keeps i rules s n =
      for_each_keeps (add_rule M range i) (λ t. M.get_route t.0 n ≡ M.get_route s.0 n)
        (λ rule t p. add_rule_keeps i rule t n ∙ p) rules s refl

  add_rule_taken :
      (i : M.RouteId) (rule : Rule) (s : M.Router × Bool)
      → plain_rule range is_mux.is_plain rule ≡ true
      → is_ok (add_rule M range i rule s).1 ≡ true
  unfolding add_rule
  add_rule_taken i no_rule s p = refl
  add_rule_taken i (host text) s p = with_matcher-taken i (on_host text) false s p
  add_rule_taken i (path text) s p = with_matcher-taken i (on_path text) false s p
  add_rule_taken i (path_prefix text) s p = with_matcher-taken i (on_path_prefix text) false s p
  add_rule_taken i (methods _) s p = with_matcher-taken i _ false s refl
  add_rule_taken i (schemes _) s p = with_matcher-taken i _ false s refl
  add_rule_taken i (headers _) s p = with_matcher-taken i _ false s refl
  add_rule_taken i (headers_regexp _) s p = with_matcher-taken i _ false s refl
  add_rule_taken i (queries m) s p =
      with_matcher-taken i (on_queries (header_pairs (range m) m)) false s p
  add_rule_taken i (is_grpc_call true) s p = with_matcher-taken i on_grpc true s refl
  add_rule_taken i (is_grpc_call false) s p = refl

  pub add_rules_taken :
      (i : M.RouteId) (rules : List Rule) (s : M.Router × Bool)
      → plain_rules range is_mux.is_plain rules ≡ true
      → is_ok (add_rules M range i rules s).1 ≡ true
  unfolding add_rules for_each
  add_rules_taken i [] s p = refl
  add_rules_taken i (rule ∷ rules) s p =
      let (first, rest) =
        and-true (plain_rule range is_mux.is_plain rule) (plain_rules range is_mux.is_plain rules)
          p in
      ap (λ r. is_ok r.1)
        (and_then-goes_on (add_rule M range i rule s) (λ _. for_each (add_rule M range i) rules)
          (add_rule_taken i rule s first))
      ∙ add_rules_taken i rules (add_rule M range i rule s).0 rest
