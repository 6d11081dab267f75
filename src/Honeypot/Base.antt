-- ===== src/Honeypot/Base.antt =====
-- src/honeywatch/honeypot/base.py: how a honeypot hands events to the queue, and the bounded buffer
-- for the time when the queue cannot be reached. The queue is an interface, which Stream.antt fills
-- with the event queue. The calls are made one after the other here; Race.antt lets them overlap.
use honeywatch.Prelude.{
  ℕ, ◌≡◌, ◌≢◌, List, [], ◌∷◌, ◌++◌, length, drop, is_empty, ltb, if◌then◌else◌,
}

abbrev pub max_buffer_size : ℕ
max_buffer_size = 10000

-- How a call of `publish` ends: it returns, it raises ConnectionError or OSError, or it raises
-- something else.
pub data Outcome : Type 0 where
  accepted unreachable failed : Outcome

-- How a method ends.
pub data Status : Type 0 where
  returned raised : Status

-- What the honeypot asks of a queue: `publish` appends the event to the log where it is accepted, and
-- leaves the log alone where it is not.
pub record Publisher (E Q : Type 0) : Type 0 where
  pub publish : E → Q → Q × Outcome
  pub log : Q → List E
  pub accepts : (e : E) (q : Q) → (publish e q).1 ≡ accepted → log (publish e q).0 ≡ log q ++ e ∷ []
  pub rejects : (e : E) (q : Q) → (publish e q).1 ≢ accepted → log (publish e q).0 ≡ log q

pub record Honeypot (E Q : Type 0) : Type 0 where
  pub buffer : List E
  pub queue : Q

-- `deque(maxlen=limit).append`: the oldest entry goes when the buffer is full
unfoldable pub append {ℓ} : {A : Type ℓ} → ℕ → List A → A → List A
append limit buffer e =
    if ltb (length buffer) limit then buffer ++ e ∷ [] else drop 1 (buffer ++ e ∷ [])

module _ {E Q : Type 0} where
  -- an exception ends the method
  abbrev pub and_then :
      Honeypot E Q × Status → (Honeypot E Q → Honeypot E Q × Status) → Honeypot E Q × Status
  and_then (h, returned) k = k h
  and_then (h, raised) k = (h, raised)

  -- a round of the loop of `_flush_buffer`, by how `publish` ended
  abbrev pub flushed :
      (Q → Honeypot E Q × Status) → E → List E → Q × Outcome → Honeypot E Q × Status
  flushed rest e b (q, accepted) = rest q
  flushed rest e b (q, unreachable) = (record { buffer = e ∷ b; queue = q }, returned)
  flushed rest e b (q, failed) = (record { buffer = e ∷ b; queue = q }, raised)

  -- the `try` of `emit_event`, by how `publish` ended
  abbrev pub buffered : E → List E → Q × Outcome → Honeypot E Q × Status
  buffered e b (q, accepted) = (record { buffer = b; queue = q }, returned)
  buffered e b (q, unreachable) =
      (record { buffer = append max_buffer_size b e; queue = q }, returned)
  buffered e b (q, failed) = (record { buffer = b; queue = q }, raised)

module _ {E Q : Type 0} (p : Publisher E Q) where
  -- the loop of `_flush_buffer`, on the buffer that is left
  unfoldable pub flush_from : List E → Q → Honeypot E Q × Status
  flush_from [] q = (record { buffer = []; queue = q }, returned)
  flush_from (e ∷ b) q = flushed (flush_from b) e b (p.publish e q)

  unfoldable pub flush_buffer : Honeypot E Q → Honeypot E Q × Status
  flush_buffer h = flush_from h.buffer h.queue

  -- `if self._buffer: await self._flush_buffer()`
  abbrev pub flush_if_any : Honeypot E Q → Honeypot E Q × Status
  flush_if_any h = if is_empty h.buffer then (h, returned) else flush_buffer h

  abbrev pub publish_or_buffer : E → Honeypot E Q → Honeypot E Q × Status
  publish_or_buffer e h = buffered e h.buffer (p.publish e h.queue)

  unfoldable pub emit_event : E → Honeypot E Q → Honeypot E Q × Status
  emit_event e h = and_then (flush_if_any h) (publish_or_buffer e)

  -- one round of `_periodic_flush` after its sleep
  unfoldable pub periodic_flush : Honeypot E Q → Honeypot E Q × Status
  periodic_flush h = flush_if_any h
