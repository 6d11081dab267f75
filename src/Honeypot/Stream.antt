-- ===== src/Honeypot/Stream.antt =====
-- The event queue of src/honeywatch/collector/handler.py as the queue of a honeypot.
use mathlib.Core.List.{Perm, append-nil}
use honeywatch.Prelude.{
  ℕ, zero, suc, ◌+◌, ◌≤◌, ◌≡◌, refl, ap, ◌∙◌, ◌≢◌, ◌⊎◌, inl, inr, Bool, true, false, List, [], ◌∷◌,
  ◌++◌, length, if◌then◌else◌,
}
use honeywatch.Collector.Queue.{
  Reply, carried_out, busy_group, refused, unreachable, answer_lost, Result, succeeded,
  connection_error, other_error, Queue, called, ensure_consumer_group, xadd, and_then, connect,
  try_publish, publish_step, publish_from, publish, max_retries,
}
use honeywatch.Collector.Publish.{repeat, is_success, Published, publish-Published}
use honeywatch.Honeypot.Base.{max_buffer_size, Outcome, accepted, failed, Publisher, Honeypot}
use honeywatch.Honeypot.Session.{Op, emitted, run, run-held}

-- the exceptions that a honeypot tells apart
abbrev pub outcome_of : Result → Outcome
outcome_of succeeded = accepted
outcome_of connection_error = Outcome.unreachable
outcome_of other_error = failed

outcome_plain : (r : Result) → r ≢ other_error → outcome_of r ≢ failed
outcome_plain succeeded n x = cc
outcome_plain connection_error n x = cc
outcome_plain other_error n x = n refl

-- A server that carries its commands out or cannot be reached.
abbrev pub Plain : (ℕ → Reply) → Type 0
Plain reply = (n : ℕ) → (reply n ≡ carried_out) ⊎ (reply n ≡ unreachable)

pub plain_answers : (reply : ℕ → Reply) → Plain reply → (n : ℕ) → reply n ≢ answer_lost
plain_answers reply plain n l = elim (plain n) [ inl h ↦ cc | inr h ↦ cc ]

module _ {E : Type 0} (reply : ℕ → Reply) where
  abbrev pub publish_outcome : E → Queue E → Queue E × Outcome
  publish_outcome e q = ((publish reply e q).0, outcome_of (publish reply e q).1)

  module _ (answers : (n : ℕ) → reply n ≢ answer_lost) where
    appended :
        (e : E) (q : Queue E) (r : Result) (p : Queue E × Result)
        → p.1 ≡ r
        → Published reply max_retries 0 e q.stream q.slept p
        → p.0.stream ≡ q.stream ++ repeat (if is_success r then 1 else 0) e
    appended e q r p h w =
        w.stream
        ∙ ap (λ n. q.stream ++ repeat n e)
            (w.once answers ∙ ap (λ r. if is_success r then 1 else 0) h)

    pub stream_accepts :
        (e : E) (q : Queue E) (r : Result)
        → (publish reply e q).1 ≡ r
        → outcome_of r ≡ accepted
        → (publish reply e q).0.stream ≡ q.stream ++ e ∷ []
    stream_accepts e q succeeded h a =
        appended e q succeeded (publish reply e q) h (publish-Published reply e q)
    stream_accepts e q connection_error h a = cc
    stream_accepts e q other_error h a = cc

    pub stream_rejects :
        (e : E) (q : Queue E) (r : Result)
        → (publish reply e q).1 ≡ r
        → outcome_of r ≢ accepted
        → (publish reply e q).0.stream ≡ q.stream
    stream_rejects e q succeeded h a = absurd (a refl)
    stream_rejects e q connection_error h a =
        appended e q connection_error (publish reply e q) h (publish-Published reply e q)
        ∙ append-nil q.stream
    stream_rejects e q other_error h a =
        appended e q other_error (publish reply e q) h (publish-Published reply e q)
        ∙ append-nil q.stream

    -- The event queue, where no answer of the server is lost: its log is the stream.
    abbrev pub event_queue : Publisher E (Queue E)
    event_queue = record {
      publish = publish_outcome;
      log = λ q. q.stream;
      accepts = λ e q a. stream_accepts e q (publish reply e q).1 refl a;
      rejects = λ e q a. stream_rejects e q (publish reply e q).1 refl a;
    }

  module _ (plain : Plain reply) where
    xadd_plain :
        (e : E) (q : Queue E) (r : Reply)
        → (r ≡ carried_out) ⊎ (r ≡ unreachable)
        → (xadd e r q).1 ≢ other_error
    xadd_plain e q carried_out h x = cc
    xadd_plain e q busy_group (inl h) x = cc
    xadd_plain e q busy_group (inr h) x = cc
    xadd_plain e q refused (inl h) x = cc
    xadd_plain e q refused (inr h) x = cc
    xadd_plain e q unreachable h x = cc
    xadd_plain e q answer_lost h x = cc

    group_plain :
        (e : E) (q : Queue E) (r : Reply)
        → (r ≡ carried_out) ⊎ (r ≡ unreachable)
        → (and_then (ensure_consumer_group r q) (λ p. xadd e (reply p.calls) p)).1 ≢ other_error
    group_plain e q carried_out h x =
        xadd_plain e (called q) (reply (q.calls + 1)) (plain (q.calls + 1)) x
    group_plain e q busy_group h x =
        xadd_plain e (called q) (reply (q.calls + 1)) (plain (q.calls + 1)) x
    group_plain e q refused (inl h) x = cc
    group_plain e q refused (inr h) x = cc
    group_plain e q unreachable h x = cc
    group_plain e q answer_lost h x = cc

    try_plain : (e : E) (q : Queue E) → (try_publish reply e q).1 ≢ other_error
    unfolding try_publish connect
    try_plain e q = go q.connected
      where
        go :
            (b : Bool)
            → (and_then
                (if b then (q, succeeded) else connect reply q)
                (λ p. xadd e (reply p.calls) p)).1
              ≢ other_error
        go true = xadd_plain e q (reply q.calls) (plain q.calls)
        go false = group_plain e (record q { connected = true }) (reply q.calls) (plain q.calls)

    step_plain :
        (again : Queue E → Queue E × Result) (attempt left : ℕ) (q : Queue E) (r : Result)
        → ((q : Queue E) → (again q).1 ≢ other_error)
        → r ≢ other_error
        → (publish_step reply again attempt left (q, r)).1 ≢ other_error
    step_plain again attempt left q succeeded f n x = cc
    step_plain again attempt left q other_error f n x = n refl
    step_plain again attempt zero q connection_error f n x = cc
    step_plain again attempt (suc left) q connection_error f n x = f _ x

    publish_from_plain :
        (e : E) (tries attempt : ℕ) (q : Queue E)
        → (publish_from reply e tries attempt q).1 ≢ other_error
    unfolding publish_from
    publish_from_plain e zero attempt q x = cc
    publish_from_plain e (suc left) attempt q x =
        step_plain (publish_from reply e left (attempt + 1)) attempt left (try_publish reply e q).0
          (try_publish reply e q).1 (publish_from_plain e left (attempt + 1)) (try_plain e q) x

    pub publish_plain : (e : E) (q : Queue E) → outcome_of (publish reply e q).1 ≢ failed
    unfolding publish
    publish_plain e q =
        outcome_plain (publish_from reply e max_retries 0 q).1
          (publish_from_plain e max_retries 0 q)

    pub run-stream :
        (ops : List (Op E)) (h : Honeypot E (Queue E))
        → length h.buffer + length (emitted ops) ≤ max_buffer_size
        → let h' = run (event_queue (plain_answers reply plain)) ops h in
          Perm (h'.queue.stream ++ h'.buffer) ((h.queue.stream ++ h.buffer) ++ emitted ops)
    run-stream ops h b = run-held (event_queue (plain_answers reply plain)) publish_plain ops h b
