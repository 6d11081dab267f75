-- ===== src/Collector/Queue.antt =====
-- src/honeywatch/collector/handler.py: connecting, publishing and acknowledging. The server is a
-- parameter: `reply n` is its answer to the n-th command. `stream` holds what it has added, `acked`
-- the entries that it has marked, `calls` counts the commands, and `slept` adds up the waits in units
-- of the retry delay.
use honeywatch.Prelude.{ℕ, zero, suc, ◌+◌, Bool, true, false, List, [], ◌∷◌, ◌++◌, if◌then◌else◌}

abbrev pub max_retries : ℕ
max_retries = 5

-- How a command ends: it is carried out; it fails because the group exists; it raises another
-- exception that is no connection error; the server is not reached; or the command is carried out
-- and the connection breaks before the answer.
pub data Reply : Type 0 where
  carried_out busy_group refused unreachable answer_lost : Reply

-- How a method or one of its commands ends: it returns, or it raises one of two kinds of exception.
pub data Result : Type 0 where
  succeeded connection_error other_error : Result

pub record Queue (E : Type 0) : Type 0 where
  pub connected : Bool
  pub calls : ℕ
  pub stream : List E
  pub acked : List ℕ
  pub slept : ℕ

module _ {E : Type 0} where
  abbrev pub called : Queue E → Queue E
  called q = record q { calls = q.calls + 1 }

  -- `_ensure_consumer_group`: an existing group is as good as a new one
  abbrev pub ensure_consumer_group : Reply → Queue E → Queue E × Result
  ensure_consumer_group carried_out q = (called q, succeeded)
  ensure_consumer_group busy_group q = (called q, succeeded)
  ensure_consumer_group refused q = (called q, other_error)
  ensure_consumer_group unreachable q = (called q, connection_error)
  ensure_consumer_group answer_lost q = (called q, connection_error)

  -- `xadd`
  abbrev pub xadd : E → Reply → Queue E → Queue E × Result
  xadd e carried_out q = (record q { calls = q.calls + 1; stream = q.stream ++ e ∷ [] }, succeeded)
  xadd e busy_group q = (called q, other_error)
  xadd e refused q = (called q, other_error)
  xadd e unreachable q = (called q, connection_error)
  xadd e answer_lost q =
      (record q { calls = q.calls + 1; stream = q.stream ++ e ∷ [] }, connection_error)

  -- `xack`
  abbrev pub xack : ℕ → Reply → Queue E → Queue E × Result
  xack entry_id carried_out q =
      (record q { calls = q.calls + 1; acked = q.acked ++ entry_id ∷ [] }, succeeded)
  xack entry_id busy_group q = (called q, other_error)
  xack entry_id refused q = (called q, other_error)
  xack entry_id unreachable q = (called q, connection_error)
  xack entry_id answer_lost q =
      (record q { calls = q.calls + 1; acked = q.acked ++ entry_id ∷ [] }, connection_error)

  -- the next command, where the last one succeeded
  abbrev pub and_then : Queue E × Result → (Queue E → Queue E × Result) → Queue E × Result
  and_then (q, succeeded) k = k q
  and_then (q, connection_error) k = (q, connection_error)
  and_then (q, other_error) k = (q, other_error)

module _ {E : Type 0} (reply : ℕ → Reply) where
  -- `connect` sets the client first, and asks for the group then
  unfoldable pub connect : Queue E → Queue E × Result
  connect q = ensure_consumer_group (reply q.calls) (record q { connected = true })

  -- `if self._redis is None: await self.connect()`
  abbrev pub connect_if_none : Queue E → Queue E × Result
  connect_if_none q = if q.connected then (q, succeeded) else connect q

  -- the `try` of `publish`
  unfoldable pub try_publish : E → Queue E → Queue E × Result
  try_publish e q = and_then (connect_if_none q) (λ p. xadd e (reply p.calls) p)

  -- the loop of `publish`, with the tries that are left after this one
  abbrev pub publish_step :
      (Queue E → Queue E × Result) → ℕ → ℕ → Queue E × Result → Queue E × Result
  publish_step again attempt left (q, succeeded) = (q, succeeded)
  publish_step again attempt left (q, other_error) = (q, other_error)
  publish_step again attempt zero (q, connection_error) =
      (record q { connected = false }, connection_error)
  publish_step again attempt (suc left) (q, connection_error) =
      again (record q { connected = false; slept = q.slept + (attempt + 1) })

  unfoldable pub publish_from : E → ℕ → ℕ → Queue E → Queue E × Result
  publish_from e zero attempt q = (q, connection_error)
  publish_from e (suc left) attempt q =
      publish_step (publish_from e left (attempt + 1)) attempt left (try_publish e q)

  unfoldable pub publish : E → Queue E → Queue E × Result
  publish e q = publish_from e max_retries 0 q

  unfoldable pub ack : ℕ → Queue E → Queue E × Result
  ack entry_id q = and_then (connect_if_none q) (λ p. xack entry_id (reply p.calls) p)

-- `close`
abbrev pub close : {E : Type 0} → Queue E → Queue E
close q = record q { connected = false }
