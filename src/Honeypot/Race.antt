-- ===== src/Honeypot/Race.antt =====
-- `_flush_buffer` of src/honeywatch/honeypot/base.py where its calls overlap: `emit_event` runs in a
-- task for each connection, and the periodic flush in one more. A task yields while `publish` waits,
-- after it has read `self._buffer[0]` and before it calls `popleft`.
use mathlib.Core.List.{append_assoc}
use honeywatch.Prelude.{◌≡◌, refl, List, [], ◌∷◌, ◌++◌, arith}

-- where a task stands in the loop
pub data Task (E : Type 0) : Type 0 where
  idle : Task E
  sending : E → Task E
  crashed : Task E

pub data Who : Type 0 where
  one other : Who

pub record Shared (E : Type 0) : Type 0 where
  pub buffer : List E
  pub published : List E
  pub first : Task E
  pub second : Task E

module _ {E : Type 0} where
  abbrev pub task : Who → Shared E → Task E
  task one s = s.first
  task other s = s.second

  abbrev pub at : Who → Task E → Shared E → Shared E
  at one t s = record s { first = t }
  at other t s = record s { second = t }

  -- `popleft` raises on an empty buffer
  abbrev pub pop : Who → List E → Shared E → Shared E
  pop w [] s = at w crashed s
  pop w (_ ∷ b) s = at w idle (record s { buffer = b })

  -- One step of a task from one `await` to the next.
  pub data Step (w : Who) (s t : Shared E) : Type 0 where
    sends :
        (e : E) (b : List E)
        → task w s ≡ idle
        → s.buffer ≡ e ∷ b
        → t ≡ at w (sending e) s
        → Step w s t
    accepts :
        (e : E)
        → task w s ≡ sending e
        → t ≡ pop w s.buffer (record s { published = s.published ++ e ∷ [] })
        → Step w s t
    refuses : (e : E) → task w s ≡ sending e → t ≡ at w idle s → Step w s t

  -- The states that steps of any of the tasks lead to.
  pub data Reach (s : Shared E) : Shared E → Type 0 where
    here : Reach s s
    next : {t u : Shared E} (w : Who) → Reach s t → Step w t u → Reach s u

  -- The states that steps of the first task lead to.
  pub data Alone (s : Shared E) : Shared E → Type 0 where
    here : Alone s s
    next : {t u : Shared E} → Alone s t → Step one t u → Alone s u

  abbrev pub start : List E → List E → Shared E
  start b log = record { buffer = b; published = log; first = idle; second = idle }

  -- What a lone task knows: the event that it sends is still the head of the buffer.
  data Owns (s : Shared E) : Type 0 where
    rests : s.first ≡ idle → Owns s
    holds : (e : E) (b : List E) → s.first ≡ sending e → s.buffer ≡ e ∷ b → Owns s

  abbrev Keeps : List E → Shared E → Type 0
  Keeps l s = Owns s × (s.published ++ s.buffer ≡ l)

  Step-Keeps : (l : List E) (s t : Shared E) → Keeps l s → Step one s t → Keeps l t
  Step-Keeps l s t (o, k) (sends e b i h q) =
      (holds e b (ground arith) (ground arith), ground arith)
  Step-Keeps l s t (rests i, k) (accepts e h q) = cc
  Step-Keeps l s t (holds d b i m, k) (accepts e h q) =
      (rests (ground arith), ground (arith, append_assoc s.published (e ∷ []) b))
  Step-Keeps l s t (o, k) (refuses e h q) = (rests (ground arith), ground arith)

  alone-Keeps : (b log : List E) {t : Shared E} → Alone (start b log) t → Keeps (log ++ b) t
  alone-Keeps b log here = (rests refl, refl)
  alone-Keeps b log (next {t} {u} r st) = Step-Keeps (log ++ b) t u (alone-Keeps b log r) st

  -- A lone flush loses nothing and repeats nothing, at every point of its way.
  pub alone_keeps :
      (b log : List E) (t : Shared E) → Alone (start b log) t → t.published ++ t.buffer ≡ log ++ b
  alone_keeps b log t r = (alone-Keeps b log r).1

  -- Two overlapping flushes of a buffer of two events or more can publish the first event twice and
  -- drop the second, which no one has published.
  pub race_loses :
      (a b : E) (rest log : List E)
      → (t : Shared E) × Reach (start (a ∷ b ∷ rest) log) t
        × (t.published ≡ (log ++ a ∷ []) ++ a ∷ [])
        × (t.buffer ≡ rest)
  race_loses a b rest log = (
    record (start rest log) { published = (log ++ a ∷ []) ++ a ∷ [] },
    next other
        (next one
          (next other (next one here (sends a (b ∷ rest) refl refl refl))
            (sends a (b ∷ rest) refl refl refl))
          (accepts a refl refl))
        (accepts a refl refl),
    refl,
    refl,
  )
