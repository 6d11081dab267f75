-- ===== src/Detection/Attack.antt =====
-- The attack type of the classifier against a description of each kind of attack that does not
-- speak of its tests.
mod Fields
use Fields.{
  member_iff, str_test_iff, str_target_iff, filled_iff, patterns_iff, paths_iff, regroup, ungroup,
}
pub use Fields.{Holds, Listed, Injection, WeakLogin, Repeated, ManyPorts, Probe}
use honeywatch.Prelude.{
  ℕ, ◌≤◌, ◌≡◌, refl, sym, subst, ◌≢◌, ◌↔◌, ◌⊎◌, inl, inr, String, Text, Bool, true, false, not,
  ◌&&◌, ◌||◌, Option, none, some, List, [], ◌∷◌, ◌++◌, arith, any, any_iff, any_append, is_empty,
  Exists, Exists-map, length, leb, str_eq, eq_iff, text_eq, text_eq_iff, has_prefix, has_prefix_iff,
  is_infix, is_infix_iff, Occurs, ◌∙◌, Bool-cases, not_of_false, or_iff, and-eq-true, if◌then◌else◌,
}
use honeywatch.Event.{
  AttackEvent, Value, null, str, int, real, bool, dict, RawData, get, as_str, Protocol, ssh, http,
  protocol_name, Protocol-cases,
}
use honeywatch.Detection.Rules.{DetectionRules, CredentialAttackRule}
use honeywatch.Detection.Classifier.{
  IpContext, member, str_test, str_target, targets, is_command_injection, is_credential_attack,
  is_brute_force, is_port_scan, is_http_scan, determine_attack_type, attack_command_injection,
  attack_credential, attack_brute_force, attack_port_scan, attack_http_scan, attack_suspicious,
}

module _ (rules : DetectionRules) (e : AttackEvent) where
  abbrev patterns : List Text
  patterns = rules.attack_types.command_injection.patterns

  abbrev has_pattern : Text → Bool
  has_pattern t = any (λ p. is_infix p t) patterns

  abbrev Pattern : Text → Type 0
  Pattern t = Exists (λ p. Occurs p t) patterns

  either_iff :
      (any has_pattern
          (str_target (get "path" e.raw_data) ++ str_target (get "body_preview" e.raw_data))
        ≡ true)
      ↔ ((t : Text) × (Holds e "path" t ⊎ Holds e "body_preview" t) × Pattern t)
  either_iff =
      let i =
        or_iff _ _
          (str_target_iff has_pattern Pattern (patterns_iff patterns) (get "path" e.raw_data))
          (str_target_iff has_pattern Pattern (patterns_iff patterns)
            (get "body_preview" e.raw_data)) in
      (
        λ h. regroup (i.0 (sym (any_append has_pattern _ _) ∙ h)),
        λ h. any_append has_pattern _ _ ∙ i.1 (ungroup h),
      )

  injection_false : e.protocol ≡ ssh → is_command_injection rules e ≡ false
  unfolding is_command_injection targets
  injection_false h = ground arith

  injection_http :
      e.protocol ≡ http
      → is_command_injection rules e ≡ (
          if is_empty patterns
          then false
          else any has_pattern
              (str_target (get "path" e.raw_data) ++ str_target (get "body_preview" e.raw_data)))
  unfolding is_command_injection targets
  injection_http h = ground arith

  no_patterns : (t : Text) → is_empty patterns ≡ true → Pattern t → ⊥
  no_patterns t h p = ground arith

  -- An event is a command injection exactly when it came over HTTP and some listed pattern occurs
  -- in its path or in its body preview.
  pub is_command_injection_iff : (is_command_injection rules e ≡ true) ↔ Injection rules e
  is_command_injection_iff = elim (Protocol-cases e.protocol) [
    | inl h ↦ (λ x. cc (injection_false h), λ x. cc x.0)
    | inr h ↦ elim (Bool-cases (is_empty patterns)) [
      | inl none_listed ↦ (
        λ x. cc (injection_http h, none_listed, x),
        λ x. absurd (no_patterns x.1 none_listed x.3),
      )
      | inr listed ↦ (
        λ x. let (t, k, m) = either_iff.0 (ground (arith, injection_http h)) in (h, t, k, m),
        λ x. ground (arith, injection_http h, either_iff.1 (x.1, x.2, x.3)),
      )
    ]
  ]

  abbrev credential_rule : CredentialAttackRule
  credential_rule = rules.attack_types.credential_attack

  ssh_login_iff :
      ((str_test (get "username" e.raw_data) (λ t. member t credential_rule.usernames)
          || str_test (get "password" e.raw_data) (λ t. member t credential_rule.passwords))
        ≡ true)
      ↔ (((t : Text) × Holds e "username" t × Listed credential_rule.usernames t)
          ⊎ ((t : Text) × Holds e "password" t × Listed credential_rule.passwords t))
  ssh_login_iff =
      or_iff _ _ (str_test_iff _ _ (λ t. member_iff t credential_rule.usernames) _)
        (str_test_iff _ _ (λ t. member_iff t credential_rule.passwords) _)

  http_login_iff :
      ((str_test
            (get "email" e.raw_data)
            (λ t. not (text_eq t []) && member t credential_rule.emails)
          || str_test
              (get "password" e.raw_data)
              (λ t. not (text_eq t []) && member t credential_rule.passwords))
        ≡ true)
      ↔ (((t : Text) × Holds e "email" t × (t ≢ []) × Listed credential_rule.emails t)
          ⊎ ((t : Text) × Holds e "password" t × (t ≢ []) × Listed credential_rule.passwords t))
  http_login_iff =
      let i =
        or_iff _ _ (str_test_iff _ _ (filled_iff credential_rule.emails) (get "email" e.raw_data))
          (str_test_iff _ _ (filled_iff credential_rule.passwords) (get "password" e.raw_data)) in
      (
        λ h. elim (i.0 h) [
          | inl w ↦ inl (w.0, w.1, w.2.0, w.2.1)
          | inr w ↦ inr (w.0, w.1, w.2.0, w.2.1)
        ],
        λ h.
            i.1
              (elim h [ inl w ↦ inl (w.0, w.1, (w.2, w.3)) | inr w ↦ inr (w.0, w.1, (w.2, w.3)) ]),
      )

  login_ssh :
      e.protocol ≡ ssh
      → is_credential_attack rules e ≡ (
          str_test (get "username" e.raw_data) (λ t. member t credential_rule.usernames)
          || str_test (get "password" e.raw_data) (λ t. member t credential_rule.passwords))
  unfolding is_credential_attack
  login_ssh h = ground arith

  login_http :
      e.protocol ≡ http
      → is_credential_attack rules e ≡ (
          str_eq e.event_type "http_login_attempt"
          && (credential_rule.http_enabled
              && (str_test
                    (get "email" e.raw_data)
                    (λ t. not (text_eq t []) && member t credential_rule.emails)
                  || str_test
                      (get "password" e.raw_data)
                      (λ t. not (text_eq t []) && member t credential_rule.passwords))))
  unfolding is_credential_attack
  login_http h = ground arith

  -- An event is a credential attack exactly when it is an SSH event with a listed user name or
  -- password, or, where the rules enable it, an HTTP login attempt with a listed email or password
  -- that is not empty.
  pub is_credential_attack_iff : (is_credential_attack rules e ≡ true) ↔ WeakLogin rules e
  is_credential_attack_iff = elim (Protocol-cases e.protocol) [
    | inl h ↦ (
      λ x. inl (h, ssh_login_iff.0 (sym (login_ssh h) ∙ x)),
      λ x. elim x [ inl w ↦ login_ssh h ∙ ssh_login_iff.1 w.1 | inr w ↦ cc (w.0) ],
    )
    | inr h ↦ (
      λ x.
          let p = (and-eq-true _ _).0 (sym (login_http h) ∙ x) in
          let q = (and-eq-true _ _).0 p.1 in inr (h, (eq_iff _ _).0 p.0, q.0, http_login_iff.0 q.1),
      λ x. elim x [
        | inl w ↦ cc (w.0)
        | inr w ↦
            login_http h
            ∙ (and-eq-true _ _).1
                ((eq_iff _ _).1 w.1, (and-eq-true _ _).1 (w.2, http_login_iff.1 w.3))
      ],
    )
  ]

  scan_ssh : e.protocol ≡ ssh → is_http_scan rules e ≡ false
  unfolding is_http_scan
  scan_ssh h = ground arith

  scan_http :
      e.protocol ≡ http
      → is_http_scan rules e
        ≡ str_test
            (get "path" e.raw_data)
            (λ path. any (λ p. has_prefix p path) rules.attack_types.http_scan.paths)
  unfolding is_http_scan
  scan_http h = ground arith

  pub is_http_scan_iff : (is_http_scan rules e ≡ true) ↔ Probe rules e
  is_http_scan_iff =
      let scan = rules.attack_types.http_scan.paths in
      let i = str_test_iff _ _ (paths_iff scan) (get "path" e.raw_data) in
      elim (Protocol-cases e.protocol) [
        | inl h ↦ (λ x. cc (scan_ssh h), λ x. cc (x.0))
        | inr h ↦ (
          λ x. let (t, k, m) = i.0 (sym (scan_http h) ∙ x) in (h, t, k, m),
          λ x. scan_http h ∙ i.1 (x.1, x.2, x.3),
        )
      ]

  module _ (c : IpContext) where
    pub is_brute_force_iff : (is_brute_force rules e c ≡ true) ↔ Repeated rules e c
    unfolding is_brute_force
    is_brute_force_iff =
        let i = eq_iff (protocol_name e.protocol) rules.attack_types.brute_force.protocol in
        (λ x. (i.0 (ground arith), ground arith), λ x. ground (arith, i.1 x.0))

    pub is_port_scan_iff : (is_port_scan rules c ≡ true) ↔ ManyPorts rules c
    unfolding is_port_scan
    is_port_scan_iff = (λ x. ground arith, λ x. ground arith)
