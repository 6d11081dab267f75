-- ===== src/Detection/Rules.antt =====
-- src/honeywatch/detection/patterns.py: the detection rules with their defaults.
use honeywatch.Prelude.{ℕ, String, Text, Bool, true, Option, none, some, List, []}

pub record BruteForceRule : Type 0 where
  pub protocol : String
  pub min_attempts : ℕ
  pub time_window : ℕ

pub record PortScanRule : Type 0 where
  pub min_distinct_ports : ℕ
  pub time_window : ℕ

pub record HttpScanRule : Type 0 where
  pub protocol : String
  pub paths : List Text

pub record CredentialAttackRule : Type 0 where
  pub protocol : String
  pub usernames : List Text
  pub passwords : List Text
  pub http_enabled : Bool
  pub emails : List Text

pub record CommandInjectionRule : Type 0 where
  pub patterns : List Text

pub record AttackTypeRules : Type 0 where
  pub brute_force : BruteForceRule
  pub port_scan : PortScanRule
  pub http_scan : HttpScanRule
  pub credential_attack : CredentialAttackRule
  pub command_injection : CommandInjectionRule

pub record SeverityCondition : Type 0 where
  pub attack_type : String
  pub min_attempts : Option ℕ

pub record SeverityRules : Type 0 where
  pub high : List SeverityCondition
  pub medium : List SeverityCondition
  pub low : List SeverityCondition

pub record DetectionRules : Type 0 where
  pub attack_types : AttackTypeRules
  pub severity_rules : SeverityRules

abbrev pub default_brute_force : BruteForceRule
default_brute_force = record { protocol = "ssh"; min_attempts = 5; time_window = 600 }

abbrev pub default_port_scan : PortScanRule
default_port_scan = record { min_distinct_ports = 3; time_window = 300 }

abbrev pub default_http_scan : HttpScanRule
default_http_scan = record { protocol = "http"; paths = [] }

abbrev pub default_credential_attack : CredentialAttackRule
default_credential_attack = record {
  protocol = "ssh";
  usernames = [];
  passwords = [];
  http_enabled = true;
  emails = [];
}

abbrev pub default_attack_types : AttackTypeRules
default_attack_types = record {
  brute_force = default_brute_force;
  port_scan = default_port_scan;
  http_scan = default_http_scan;
  credential_attack = default_credential_attack;
  command_injection = record { patterns = [] };
}

-- what `model_validate({})` gives
abbrev pub default_rules : DetectionRules
default_rules = record {
  attack_types = default_attack_types;
  severity_rules = record { high = []; medium = []; low = [] };
}

-- What stands under the path of the rules: no file, a file that is not YAML, or a document, which may
-- be empty.
pub data RulesFile (Raw : Type 0) : Type 0 where
  missing : RulesFile Raw
  broken : RulesFile Raw
  document : Option Raw → RulesFile Raw

-- How `load` ends.
pub data Loaded : Type 0 where
  file_not_found value_error : Loaded
  loaded : DetectionRules → Loaded

module _ {Raw : Type 0} (empty : Raw) (model_validate : Raw → Option DetectionRules) where
  -- `if raw is None: raw = {}`
  abbrev pub or_empty : Option Raw → Raw
  or_empty none = empty
  or_empty (some raw) = raw

  abbrev pub validated : Option DetectionRules → Loaded
  validated none = value_error
  validated (some rules) = loaded rules

  -- `DetectionRuleLoader.load`; the YAML reader and the validation are parameters
  unfoldable pub load : RulesFile Raw → Loaded
  load missing = file_not_found
  load broken = value_error
  load (document raw) = validated (model_validate (or_empty raw))
