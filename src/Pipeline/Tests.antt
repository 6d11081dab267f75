-- ===== src/Pipeline/Tests.antt =====
-- The whole way at a concrete input.
use honeywatch.Prelude.{
  ◌+◌, ℕ, ◌*◌, ◌⊎◌, ◌≡◌, refl, true, false, List, [], ◌∷◌, some, arith, ◌==◌, if◌then◌else◌,
}
use honeywatch.Detection.IpContext.{Outcome, executed, refused}
use honeywatch.Collector.Consume.{Fetch, entries}
use honeywatch.Pipeline.{EventJson, honeypot_after}
use honeywatch.Event.{AttackEvent, ssh}
use honeywatch.Db.Models.{AttackEventModel}
use honeywatch.Collector.Queue.{Reply, carried_out, unreachable, Queue}
use honeywatch.Honeypot.Base.{Honeypot}
use honeywatch.Honeypot.Session.{Op, emit, tick}
use honeywatch.Tasks.Worker.{Commit, stored, Worker}

abbrev json : EventJson
json = record {
  Document = AttackEvent;
  model_dump_json = λ e. e;
  model_validate_json = λ e. some e;
  round_trip = λ e. refl;
}

abbrev event : ℕ → AttackEvent
event n = record {
  id = n;
  timestamp = n * 1000;
  source_ip = "203.0.113.9";
  source_port = 4000;
  destination_port = 22;
  protocol = ssh;
  event_type = "ssh_connection";
  raw_data = [];
}

abbrev ops : List (Op AttackEvent)
ops = emit (event 1) ∷ emit (event 2) ∷ tick ∷ emit (event 3) ∷ []

-- the fourth command of the honeypot finds no server
abbrev sent : ℕ → Reply
sent n = if n == 3 then unreachable else carried_out

sent-plain : (n : ℕ) → (sent n ≡ carried_out) ⊎ (sent n ≡ unreachable)
sent-plain n = ground arith

abbrev new_queue : Queue AttackEvent
new_queue = record { connected = false; calls = 0; stream = []; acked = []; slept = 0 }

abbrev batches : List (List ℕ)
batches = (0 ∷ []) ∷ (1 ∷ 2 ∷ []) ∷ []

abbrev fetch : ℕ → Fetch
fetch n = if n == 0 then entries (0 ∷ []) else entries (1 ∷ 2 ∷ [])

abbrev reply : ℕ → Reply
reply n = carried_out

abbrev db : ℕ → AttackEventModel → List AttackEventModel → Commit
db k m rows = stored

abbrev worker : Worker
worker = (record new_queue { connected = true }, record { rows = []; commits = 0; slept = 0 })

abbrev stream : List AttackEvent
stream = event 1 ∷ event 2 ∷ event 3 ∷ []

abbrev honeypot : Honeypot AttackEvent (Queue AttackEvent)
honeypot = honeypot_after sent sent-plain ops new_queue

abbrev instant : ℕ → ℕ
instant n = (n + 1) * 1000000

-- the server of the context store fails at the second call
abbrev outcome : ℕ → Outcome
outcome n = if n == 1 then refused else executed
