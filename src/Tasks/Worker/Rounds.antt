-- ===== src/Tasks/Worker/Rounds.antt =====
-- The worker over any number of rounds of its queue.
use honeywatch.Prelude.{ℕ, zero, suc, ◌+◌, ◌≡◌, refl, List, [], ◌∷◌, Option, none, some, inl}
use honeywatch.Event.{AttackEvent}
use honeywatch.Detection.Rules.{DetectionRules}
use honeywatch.Detection.Classifier.{IpContext}
use honeywatch.Db.Models.{AttackEventModel}
use honeywatch.Collector.Queue.{
  Reply, Result, succeeded, connection_error, other_error, called, connect_if_none,
}
use honeywatch.Collector.Consume.{
  Fetch, entries, no_group, refused, unreachable, beside, go_on, caught, deliver_entry, deliver,
  fetched, next_round, consume_round, consume, Round, goes_on, raises,
}
use honeywatch.Tasks.Worker.{
  Commit, Worker, classify_event, model_of, process_event, db_max_retries,
}
use honeywatch.Tasks.Worker.Settled.{
  Safe, group-Acked, connect_if_none-Acked, ack-Acked, process_from-Safe,
}

module _ (rules : DetectionRules) (context : ℕ → Option IpContext) (parse : ℕ → Option AttackEvent)
    (reply : ℕ → Reply) (fetch : ℕ → Fetch)
    (db : ℕ → AttackEventModel → List AttackEventModel → Commit) where
  -- the body of the loop of `start`
  abbrev pub on_event : ℕ → AttackEvent → Worker → Worker
  on_event n e w = process_event reply db rules (context n) n e w

  process_event-Safe :
      (n : ℕ) (e : AttackEvent)
      → parse n ≡ some e
      → (w : Worker) → Safe parse w
      → Safe parse (on_event n e w)
  unfolding process_event
  process_event-Safe n e known w a =
      process_from-Safe parse reply db n e known (model_of e (classify_event rules (context n) e))
        refl db_max_retries 0 w a

  deliver_entry-Safe :
      (n : ℕ) (o : Option AttackEvent)
      → parse n ≡ o
      → (w : Worker) → Safe parse w
      → Safe parse (deliver_entry reply parse on_event n o w).0
  deliver_entry-Safe n none h (q, s) a = ack-Acked parse reply s.rows n (inl h) q a
  deliver_entry-Safe n (some e) h w a = process_event-Safe n e h w a

  go_on-Safe :
      (p : Worker × Result) (k : Worker → Worker × Result)
      → Safe parse p.0
      → ((w : Worker) → Safe parse w → Safe parse (k w).0)
      → Safe parse (go_on p k).0
  go_on-Safe (w, succeeded) k a f = f w a
  go_on-Safe (w, connection_error) k a f = a
  go_on-Safe (w, other_error) k a f = a

  deliver-Safe :
      (l : List ℕ) (w : Worker) → Safe parse w → Safe parse (deliver reply parse on_event l w).0
  unfolding deliver
  deliver-Safe [] w a = a
  deliver-Safe (n ∷ l) w a =
      go_on-Safe (deliver_entry reply parse on_event n (parse n) w) (deliver reply parse on_event l)
        (deliver_entry-Safe n (parse n) refl w a) (deliver-Safe l)

  fetched-Safe :
      (f : Fetch) (w : Worker) → Safe parse w → Safe parse (fetched reply parse on_event f w).0
  fetched-Safe (entries l) (q, s) a = deliver-Safe l (called q, s) a
  fetched-Safe no_group (q, s) a = group-Acked parse s.rows (reply (q.calls + 1)) (called q) a
  fetched-Safe refused (q, s) a = a
  fetched-Safe unreachable (q, s) a = a

  caught-Safe : (p : Worker × Result) → Safe parse p.0 → Safe parse (caught p).0
  caught-Safe (w, succeeded) a = a
  caught-Safe ((q, s), connection_error) a = a
  caught-Safe (w, other_error) a = a

  consume_round-Safe :
      (w : Worker) → Safe parse w → Safe parse (consume_round reply fetch parse on_event w).0
  unfolding consume_round
  consume_round-Safe (q, s) a = caught-Safe _ (
      go_on-Safe (beside s (connect_if_none reply q))
        (λ w. fetched reply parse on_event (fetch w.0.calls) w)
        (connect_if_none-Acked parse reply s.rows q a) (λ w b. fetched-Safe (fetch w.0.calls) w b))

  next_round-Safe :
      (again : Worker → Worker × Round) (p : Worker × Round)
      → ((w : Worker) → Safe parse w → Safe parse (again w).0)
      → Safe parse p.0
      → Safe parse (next_round again p).0
  next_round-Safe again (w, goes_on) f a = f w a
  next_round-Safe again (w, raises) f a = a

  -- However the queue, the database and the classification's context answer, over any number of
  -- rounds: if every acknowledged entry was unreadable or its event in the table, this stays so. No
  -- readable event is acknowledged that is not stored.
  pub consume-Safe :
      (n : ℕ) (w : Worker) → Safe parse w → Safe parse (consume reply fetch parse on_event n w).0
  unfolding consume
  consume-Safe zero w a = a
  consume-Safe (suc n) w a =
      next_round-Safe (consume reply fetch parse on_event n)
        (consume_round reply fetch parse on_event w) (consume-Safe n) (consume_round-Safe w a)
