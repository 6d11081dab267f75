-- ===== src/Tasks/Classify.antt =====
-- src/honeywatch/tasks/workers.py: `_classify_event` on the context store, and what it has in common
-- with the backfill. The instant of the call and the end of its pipeline are arguments.
use honeywatch.Prelude.{ℕ, ◌+◌, ◌*◌, ◌≤◌, ◌<◌, ◌≡◌, ap, List, All, some}
use honeywatch.Event.{AttackEvent}
use honeywatch.Db.Models.{AttackEventModel}
use honeywatch.Detection.Rules.{DetectionRules}
use honeywatch.Detection.Classifier.{IpContext, ClassificationResult, empty_context, classify}
use honeywatch.Detection.Backfill.{event_of}
use honeywatch.Detection.IpContext.{
  RedisDb, NumberText, Outcome, executed, refused, answer_lost, Call, IpContextStore, context_ttl,
  second, update_and_get, after,
}
use honeywatch.Detection.IpContext.Window.{Before}
use honeywatch.Detection.IpContext.Attempts.{IsEmpty}
use honeywatch.Detection.IpContext.Answers.{
  context_after, Answers, update_and_get-Answers, classify-Alike,
}
use honeywatch.Tasks.Worker.{classify_event}

-- the call that an event leads to
abbrev pub call_of : AttackEvent → ℕ → Outcome → Call
call_of e now outcome = record {
  source_ip = e.source_ip;
  destination_port = e.destination_port;
  now = now;
  outcome = outcome;
}

abbrev pub window_of : DetectionRules → ℕ
window_of rules = rules.attack_types.brute_force.time_window

module _ (redis : RedisDb) (text : NumberText) (rules : DetectionRules) where
  open redis use {Db}

  unfoldable pub classify_stored :
      AttackEvent → ℕ → Outcome → IpContextStore Db → IpContextStore Db × ClassificationResult
  classify_stored e now outcome s =
      let (s', context) = update_and_get redis text (window_of rules) (call_of e now outcome) s in
      (s', classify_event rules (some context) e)

-- the context that decides, by the end of the pipeline
abbrev pub context_by : ℕ → Outcome → Call → List Call → IpContext
context_by time_window executed c h = context_after time_window c h
context_by time_window refused c h = empty_context
context_by time_window answer_lost c h = empty_context

classify-Answers :
    (rules : DetectionRules) (e : AttackEvent) (o : Outcome) (c : Call) (h : List Call)
    → (r : IpContext) → Answers (window_of rules) o c h r
    → classify rules e r ≡ classify rules e (context_by (window_of rules) o c h)
classify-Answers rules e executed c h r a =
    classify-Alike rules r (context_after (window_of rules) c h) a e
classify-Answers rules e refused c h r a = ap (classify rules e) a
classify-Answers rules e answer_lost c h r a = ap (classify rules e) a

-- An event is classified in the context of the calls before it, as they alone determine it, if the
-- server carries the call out, and in the empty context otherwise. The window of the rules may be
-- an hour at most.
pub classify_stored_lem :
    (redis : RedisDb) (text : NumberText) (rules : DetectionRules)
    → (s : IpContextStore redis.Db) → IsEmpty redis s.db
    → 1 ≤ window_of rules
    → window_of rules ≤ context_ttl
    → (e : AttackEvent) (now : ℕ) (o : Outcome) (h : List Call) → Before now h
    → (classify_stored redis text rules e now o (after redis text (window_of rules) h s)).1
      ≡ classify rules e (context_by (window_of rules) o (call_of e now o) h)
unfolding classify_stored classify_event
classify_stored_lem redis text rules s empty pos w e now o h b =
    classify-Answers rules e o (call_of e now o) h _
      (update_and_get-Answers redis text (window_of rules) s empty pos w (call_of e now o) h b)

-- the call that the event of a row led to
abbrev pub call_of_row : AttackEventModel → Call
call_of_row m = call_of (event_of m) m.timestamp executed

-- the rows lie in the window that ends at `now`
abbrev pub InWindow : ℕ → ℕ → List AttackEventModel → Type 0
InWindow time_window now = All (λ m. now < m.timestamp + time_window * second)
