-- ===== src/Detection/Tests.antt =====
-- The classifier at the shipped rules, and the instances of its theorems.
use honeywatch.Detection.Backfill.Table.{apply, backfill-apply}
use honeywatch.Prelude.{
  ℕ, ◌<◌, ◌++◌, List, length, filter, ◌≡◌, refl, is_infix, text_eq, codes, none, some, [], ◌∷◌,
}
use honeywatch.Event.{AttackEvent, get, str, ssh, http}
use honeywatch.Detection.Rules.{DetectionRules, default_rules}
use honeywatch.Detection.Classifier.{
  IpContext, classify, evaluate, determine_attack_type, is_command_injection, condition_holds,
  targets, is_credential_attack, is_brute_force,
}
use honeywatch.Detection.Backfill.{unclassified, batch_size, process_all, backfill}
use honeywatch.Detection.Backfill.Writes.{writes, start, backfill_lem}
use honeywatch.Db.Models.{AttackEventModel}
use honeywatch.Db.Tests.{stable, table}
use honeywatch.Detection.Verdict.{Verdict, Level, classify-Verdict}

-- an extract of config/detection_rules.yaml
abbrev shipped : DetectionRules
shipped = record default_rules {
  attack_types = record default_rules.attack_types {
    http_scan = record { protocol = "http"; paths = codes "/admin" ∷ codes "/.env" ∷ [] };
    command_injection = record { patterns = codes ";" ∷ codes "../" ∷ codes "wget " ∷ [] };
  };
  severity_rules = record {
    high =
        record { attack_type = "brute_force"; min_attempts = some 100 }
        ∷ record { attack_type = "command_injection"; min_attempts = none }
        ∷ [];
    medium = record { attack_type = "brute_force"; min_attempts = some 20 } ∷ [];
    low = record { attack_type = "http_scan"; min_attempts = none } ∷ [];
  };
}

abbrev traversal : AttackEvent
traversal = record {
  id = 1;
  timestamp = 0;
  source_ip = "8.8.8.8";
  source_port = 4000;
  destination_port = 80;
  protocol = http;
  event_type = "http_request";
  raw_data = ("path", str (codes "/admin/../x")) ∷ [];
}

abbrev login : AttackEvent
login = record traversal { protocol = ssh; event_type = "ssh_login_attempt"; raw_data = [] }

abbrev seen : ℕ → IpContext
seen n = record { recent_attempts = n; distinct_ports = 22 ∷ [] }

classify-traversal :
    classify shipped traversal (seen 1)
    ≡ record { attack_type = "command_injection"; severity = "HIGH" }
unfolding classify determine_attack_type evaluate is_command_injection condition_holds targets
    is_credential_attack get is_brute_force is_infix text_eq
classify-traversal = refl

classify-login :
    classify shipped login (seen 30) ≡ record { attack_type = "brute_force"; severity = "MEDIUM" }
unfolding classify determine_attack_type evaluate is_command_injection condition_holds targets
    is_credential_attack get is_brute_force is_infix text_eq
classify-login = refl

classify-Verdict_example :
    Verdict shipped login (seen 30) (classify shipped login (seen 30)).attack_type
    × Level shipped.severity_rules
        (classify shipped login (seen 30)).attack_type
        (seen 30)
        (classify shipped login (seen 30)).severity
classify-Verdict_example = classify-Verdict shipped login (seen 30)

backfill_lem_example :
    (backfill shipped stable table
      ≡ writes shipped [] (stable.asc (λ m. m.timestamp) (filter unclassified table)))
    × ((l : List AttackEventModel)
        → ((process_all shipped l (start shipped)).committed
              ++ (process_all shipped l (start shipped)).pending
            ≡ writes shipped [] l)
          × (length (process_all shipped l (start shipped)).pending < batch_size))
backfill_lem_example = backfill_lem shipped stable table

backfill-apply_example :
    (filter unclassified (apply (backfill shipped stable table) table) ≡ [])
    × (backfill shipped stable (apply (backfill shipped stable table) table) ≡ [])
backfill-apply_example = backfill-apply shipped stable table
