-- ===== src/Pipeline.antt =====
-- The way of an event: src/honeywatch/honeypot/base.py emits it, collector/handler.py writes its
-- JSON on the stream and reads it back, and tasks/workers.py stores it. What pydantic writes and reads
-- is a parameter. The n-th entry of the stream has the id n.
pub mod Contexts
mod Tests
use mathlib.Core.List.{Perm, Nodup, append-nil}
use mathlib.Core.List.Perm
use honeywatch.Prelude.{
  ℕ, zero, suc, ◌+◌, ◌≤◌, ◌≡◌, refl, sym, ap, subst, ◌∙◌, true, List, [], ◌∷◌, ◌++◌, Option, none,
  some, arith, length, map, flatten, get_elem?, range_from,
}
use honeywatch.Event.{AttackEvent}
use honeywatch.Detection.Rules.{DetectionRules}
use honeywatch.Detection.Classifier.{IpContext}
use honeywatch.Detection.Backfill.{event_of}
use honeywatch.Db.Models.{AttackEventModel}
use honeywatch.Collector.Queue.{Reply, carried_out, Queue}
use honeywatch.Collector.Consume.{Fetch, consume, goes_on}
use honeywatch.Honeypot.Base.{max_buffer_size, Honeypot}
use honeywatch.Honeypot.Session.{Op, emitted, run}
use honeywatch.Honeypot.Stream.{Plain, plain_answers, event_queue, run-stream}
use honeywatch.Tasks.Worker.{Commit, stored, Worker}
use honeywatch.Tasks.Worker.Settled.{HasId}
use honeywatch.Tasks.Worker.Rounds.{on_event}
use honeywatch.Tasks.Worker.Entries.{events_of, AllNew}
use honeywatch.Collector.Served.{Serves}

-- what pydantic writes, and what it reads of it
pub record EventJson : Type 1 where
  pub Document : Type 0
  pub model_dump_json : AttackEvent → Document
  pub model_validate_json : Document → Option AttackEvent
  pub round_trip : (e : AttackEvent) → model_validate_json (model_dump_json e) ≡ some e

module _ (json : EventJson) where
  abbrev pub to_json_str : AttackEvent → json.Document
  to_json_str e = json.model_dump_json e

  abbrev pub from_json_str : json.Document → Option AttackEvent
  from_json_str json_str = json.model_validate_json json_str

  -- what is read of an entry's text
  abbrev pub read_text : Option json.Document → Option AttackEvent
  read_text none = none
  read_text (some event_json) = from_json_str event_json

  -- the n-th entry of a stream that holds the texts of these events
  abbrev pub entry : List AttackEvent → ℕ → Option AttackEvent
  entry stream n = read_text (get_elem? (map to_json_str stream) n)

  entries_from :
      (p : ℕ → Option AttackEvent) (i : ℕ) (es : List AttackEvent)
      → ((k : ℕ) → p (i + k) ≡ entry es k)
      → events_of p (range_from i (length es)) ≡ es
  entries_from p i [] h = refl
  entries_from p i (e ∷ es) h =
      let at : i + 0 ≡ i = omega arith in
      let first : p i ≡ some e = subst (λ j. p j ≡ some e) at (h 0 ∙ json.round_trip e) in
      let later : (k : ℕ) → p (suc i + k) ≡ entry es k = λ k.
        let next : i + suc k ≡ suc i + k = omega arith in
        subst (λ j. p j ≡ entry es k) next (h (suc k)) in
      rw first (ap (λ l. e ∷ l) (entries_from p (suc i) es later))

  -- Reading the whole stream gives the events that were written.
  pub entries_lem :
      (stream : List AttackEvent) → events_of (entry stream) (range_from 0 (length stream)) ≡ stream
  entries_lem stream = entries_from (entry stream) 0 stream (λ k. ap (entry stream) (omega arith))

AllNew-none : (es : List AttackEvent) → AllNew es []
AllNew-none [] = tt
AllNew-none (e ∷ es) = (λ h. h, AllNew-none es)

-- what a honeypot with an empty buffer leaves of the calls
abbrev pub honeypot_after :
    (sent : ℕ → Reply)
    → Plain sent
    → List (Op AttackEvent)
    → Queue AttackEvent
    → Honeypot AttackEvent (Queue AttackEvent)
honeypot_after sent plain ops q =
    run (event_queue sent (plain_answers sent plain)) ops (record { buffer = []; queue = q })

-- The stream of a honeypot that has flushed its buffer holds what it emitted.
pub stream_lem :
    (sent : ℕ → Reply) (plain : Plain sent) (ops : List (Op AttackEvent)) (q : Queue AttackEvent)
    → q.stream ≡ []
    → length (emitted ops) ≤ max_buffer_size
    → (honeypot_after sent plain ops q).buffer ≡ []
    → Perm (honeypot_after sent plain ops q).queue.stream (emitted ops)
stream_lem sent plain ops q s b f =
    let h = honeypot_after sent plain ops q in
    let stream = h.queue.stream in
    subst (λ l. Perm l (emitted ops)) (ap (λ l. stream ++ l) f ∙ append-nil stream)
      (subst (Perm (stream ++ h.buffer)) (ap (λ l. (l ++ []) ++ emitted ops) s)
        (run-stream sent plain ops (record { buffer = []; queue = q }) (omega arith)))

-- The entries of such a stream are new to an empty table, and different.
pub ready_lem :
    (parse : ℕ → Option AttackEvent) (l : List ℕ) (stream events : List AttackEvent)
    → (rows : List AttackEventModel) → events_of parse l ≡ stream
    → Perm stream events
    → Nodup (map (λ e. e.id) events)
    → rows ≡ []
    → AllNew (events_of parse l) rows × Nodup (map (λ e. e.id) (events_of parse l))
ready_lem parse l stream events rows back sent_all d r = (
  subst (AllNew (events_of parse l)) (sym r) (AllNew-none _),
  Perm.nodup (Perm.symm (Perm.map (λ e. e.id) (subst (λ l. Perm l events) (sym back) sent_all))) d,
)
