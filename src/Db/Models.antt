-- ===== src/Db/Models.antt =====
-- src/honeywatch/db/models.py: a row of `attack_events`. `attack_type` and `severity` may be NULL.
use honeywatch.Prelude.{ℕ, String, Option}
use honeywatch.Event.{RawData, Protocol}

pub record AttackEventModel : Type 0 where
  pub id : ℕ
  pub timestamp : ℕ
  pub source_ip : String
  pub source_port : ℕ
  pub destination_port : ℕ
  pub protocol : Protocol
  pub event_type : String
  pub attack_type : Option String
  pub severity : Option String
  pub raw_data : RawData
