-- ===== src/Detection/Classifier.antt =====
-- src/honeywatch/detection/classifier.py: the attack type by rules in order of priority, and the
-- severity. A set of ports is the list of its members.
use honeywatch.Prelude.{
  ℕ, String, Text, Bool, true, false, not, ◌&&◌, ◌||◌, none, some, List, [], ◌∷◌, ◌++◌, any,
  is_empty, length, leb, str_eq, text_eq, has_prefix, is_infix, if◌then◌else◌,
}
use honeywatch.Event.{AttackEvent, Value, get, as_str, is_ssh, is_http, protocol_name}
use honeywatch.Detection.Rules.{DetectionRules, SeverityCondition, SeverityRules}

abbrev pub attack_brute_force : String
attack_brute_force = "brute_force"

abbrev pub attack_port_scan : String
attack_port_scan = "port_scan"

abbrev pub attack_http_scan : String
attack_http_scan = "http_scan"

abbrev pub attack_credential : String
attack_credential = "credential_attack"

abbrev pub attack_command_injection : String
attack_command_injection = "command_injection"

abbrev pub attack_suspicious : String
attack_suspicious = "suspicious_request"

abbrev pub severity_high : String
severity_high = "HIGH"

abbrev pub severity_medium : String
severity_medium = "MEDIUM"

abbrev pub severity_low : String
severity_low = "LOW"

pub record IpContext : Type 0 where
  pub recent_attempts : ℕ
  pub distinct_ports : List ℕ

-- `IPContext()`
abbrev pub empty_context : IpContext
empty_context = record { recent_attempts = 0; distinct_ports = [] }

pub record ClassificationResult : Type 0 where
  pub attack_type : String
  pub severity : String

-- `x in xs`
abbrev pub member : Text → List Text → Bool
member x xs = any (text_eq x) xs

-- `isinstance(v, str) and p(v)`
abbrev pub str_test : Value → (Text → Bool) → Bool
str_test v p = elim (as_str v) [ none ↦ false | some t ↦ p t ]

-- `if isinstance(v, str): targets.append(v)`
abbrev pub str_target : Value → List Text
str_target v = elim (as_str v) [ none ↦ [] | some t ↦ t ∷ [] ]

unfoldable pub targets : AttackEvent → List Text
targets e =
    if is_http e.protocol
    then str_target (get "path" e.raw_data) ++ str_target (get "body_preview" e.raw_data)
    else []

module _ (rules : DetectionRules) where
  unfoldable pub is_command_injection : AttackEvent → Bool
  is_command_injection e =
      let patterns = rules.attack_types.command_injection.patterns in
      if is_empty patterns
      then false
      else any (λ target. any (λ pattern. is_infix pattern target) patterns) (targets e)

  unfoldable pub is_credential_attack : AttackEvent → Bool
  is_credential_attack e =
      let rule = rules.attack_types.credential_attack in
      if is_ssh e.protocol
      then str_test (get "username" e.raw_data) (λ t. member t rule.usernames)
        || str_test (get "password" e.raw_data) (λ t. member t rule.passwords)
      else (if is_http e.protocol && str_eq e.event_type "http_login_attempt"
          then (if not rule.http_enabled
              then false
              else str_test (get "email" e.raw_data)
                  (λ t. not (text_eq t []) && member t rule.emails)
                || str_test (get "password" e.raw_data)
                    (λ t. not (text_eq t []) && member t rule.passwords))
          else false)

  unfoldable pub is_brute_force : AttackEvent → IpContext → Bool
  is_brute_force e c =
      let rule = rules.attack_types.brute_force in
      if not (str_eq (protocol_name e.protocol) rule.protocol)
      then false
      else leb rule.min_attempts c.recent_attempts

  unfoldable pub is_port_scan : IpContext → Bool
  is_port_scan c = leb rules.attack_types.port_scan.min_distinct_ports (length c.distinct_ports)

  unfoldable pub is_http_scan : AttackEvent → Bool
  is_http_scan e =
      if not (is_http e.protocol)
      then false
      else str_test (get "path" e.raw_data)
          (λ path. any (λ scan_path. has_prefix scan_path path) rules.attack_types.http_scan.paths)

  unfoldable pub determine_attack_type : AttackEvent → IpContext → String
  determine_attack_type e c =
      if is_command_injection e
      then attack_command_injection
      else (if is_credential_attack e
          then attack_credential
          else (if is_brute_force e c
              then attack_brute_force
              else (if is_port_scan c
                  then attack_port_scan
                  else (if is_http_scan e then attack_http_scan else attack_suspicious))))

-- one round of the inner loop of `evaluate`: does the condition decide the level?
unfoldable pub condition_holds : String → IpContext → SeverityCondition → Bool
condition_holds attack_type c cond =
    if not (str_eq cond.attack_type attack_type)
    then false
    else elim cond.min_attempts [ none ↦ true | some n ↦ leb n c.recent_attempts ]

-- the outer loop of `evaluate`, over the levels in order
evaluate_from : String → IpContext → List (String × List SeverityCondition) → String
evaluate_from attack_type c [] = severity_low
evaluate_from attack_type c ((level, conditions) ∷ rest) =
    if any (condition_holds attack_type c) conditions
    then level
    else evaluate_from attack_type c rest

unfoldable pub evaluate : SeverityRules → String → IpContext → String
unfolding evaluate_from
evaluate rules attack_type c =
    evaluate_from attack_type c (
      (severity_high, rules.high)
      ∷ (severity_medium, rules.medium)
      ∷ (severity_low, rules.low)
      ∷ [])

unfoldable pub classify : DetectionRules → AttackEvent → IpContext → ClassificationResult
classify rules e c =
    let attack_type = determine_attack_type rules e c in
    record { attack_type = attack_type; severity = evaluate rules.severity_rules attack_type c }
