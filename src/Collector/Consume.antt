-- ===== src/Collector/Consume.antt =====
-- src/honeywatch/collector/handler.py, consuming: a round of the loop of `consume`. The server is a
-- parameter: `fetch n` is its answer to the n-th command where this is `xreadgroup`, and `parse` is
-- what `from_json_str` makes of an entry, if it makes anything of it. `body` is what the caller does
-- with an event that is yielded to it; it works on the queue and on a state of its own.
use honeywatch.Prelude.{ℕ, zero, suc, ◌+◌, false, List, [], ◌∷◌, Option, none, some}
use honeywatch.Collector.Queue.{
  Reply, Result, succeeded, connection_error, other_error, Queue, called, ensure_consumer_group,
  connect_if_none, ack,
}

-- How `xreadgroup` ends: with new entries, or none in time; the group is missing; it raises another
-- exception; or the server is not reached.
pub data Fetch : Type 0 where
  entries : List ℕ → Fetch
  no_group refused unreachable : Fetch

-- How a round ends: the loop goes on, or an exception ends it.
pub data Round : Type 0 where
  goes_on raises : Round

-- the state of the generator and of its caller
abbrev pub State : Type 0 → Type 0 → Type 0
State E W = Queue E × W

module _ {E W : Type 0} where
  abbrev pub beside : W → Queue E × Result → State E W × Result
  beside w (q, r) = ((q, w), r)

  abbrev pub go_on : State E W × Result → (State E W → State E W × Result) → State E W × Result
  go_on (s, succeeded) k = k s
  go_on (s, connection_error) k = (s, connection_error)
  go_on (s, other_error) k = (s, other_error)

  -- the `except` of the loop
  abbrev pub caught : State E W × Result → State E W × Round
  caught (s, succeeded) = (s, goes_on)
  caught ((q, w), connection_error) =
      ((record q { connected = false; slept = q.slept + 1 }, w), goes_on)
  caught (s, other_error) = (s, raises)

  -- an exception ends the loop
  abbrev pub next_round : (State E W → State E W × Round) → State E W × Round → State E W × Round
  next_round again (s, goes_on) = again s
  next_round again (s, raises) = (s, raises)

  module _ (reply : ℕ → Reply) (parse : ℕ → Option E) (body : ℕ → E → State E W → State E W) where
    -- one entry: it is yielded, or acknowledged where it cannot be read
    abbrev pub deliver_entry : ℕ → Option E → State E W → State E W × Result
    deliver_entry entry_id (some event) s = (body entry_id event s, succeeded)
    deliver_entry entry_id none (q, w) = beside w (ack reply entry_id q)

    unfoldable pub deliver : List ℕ → State E W → State E W × Result
    deliver [] s = (s, succeeded)
    deliver (entry_id ∷ rest) s = go_on (deliver_entry entry_id (parse entry_id) s) (deliver rest)

    -- what follows `xreadgroup`
    abbrev pub fetched : Fetch → State E W → State E W × Result
    fetched (entries l) (q, w) = deliver l (called q, w)
    fetched no_group (q, w) = beside w (ensure_consumer_group (reply (q.calls + 1)) (called q))
    fetched refused (q, w) = ((called q, w), other_error)
    fetched unreachable (q, w) = ((called q, w), connection_error)

  module _ (reply : ℕ → Reply) (fetch : ℕ → Fetch) (parse : ℕ → Option E)
      (body : ℕ → E → State E W → State E W) where
    unfoldable pub consume_round : State E W → State E W × Round
    consume_round (q, w) = caught (
        go_on (beside w (connect_if_none reply q))
          (λ s. fetched reply parse body (fetch s.0.calls) s))

    -- the loop of `consume` over a number of rounds
    unfoldable pub consume : ℕ → State E W → State E W × Round
    consume zero s = (s, goes_on)
    consume (suc n) s = next_round (consume n) (consume_round s)
