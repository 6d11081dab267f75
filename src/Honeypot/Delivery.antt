-- ===== src/Honeypot/Delivery.antt =====
-- What becomes of the events that a honeypot emits, when its calls do not overlap.
use mathlib.Core.List.{Perm, append_assoc, perm_append_comm}
use mathlib.Core.List.Perm
use native.Mathlib.Nat.{le_trans}
use honeywatch.Prelude.{
  ℕ, ◌+◌, ◌≤◌, ◌<◌, ◌≡◌, refl, sym, ap, subst, ◌∙◌, ◌≢◌, List, [], ◌∷◌, ◌++◌, arith, length,
  length-append, length-drop, lt→ltb,
}
use honeywatch.Honeypot.Base.{
  max_buffer_size, Outcome, accepted, unreachable, failed, Status, returned, raised, Publisher,
  Honeypot, append, flushed, buffered, flush_from, flush_buffer, flush_if_any, publish_or_buffer,
  and_then, emit_event, periodic_flush,
}

length-append_bounded {ℓ} :
    {A : Type ℓ} (limit : ℕ) (b : List A) (e : A)
    → length b ≤ limit
    → 0 < limit
    → length (append limit b e) ≤ limit
unfolding append
length-append_bounded limit b e h pos =
    ground (arith, length-append b (e ∷ []), length-drop 1 (b ++ e ∷ []))

append_free {ℓ} :
    {A : Type ℓ} (limit : ℕ) (b : List A) (e : A)
    → length b < limit
    → append limit b e ≡ b ++ e ∷ []
unfolding append
append_free limit b e h = rw (lt→ltb (length b) limit h)

module _ {E Q : Type 0} (p : Publisher E Q) where
  -- Everything that the honeypot still answers for, in the order of its arrival.
  abbrev pub held : Honeypot E Q → List E
  held h = p.log h.queue ++ h.buffer

  -- What the log is after a call of `publish` that ended so.
  abbrev Logged : E → Q → Q × Outcome → Type 0
  Logged e q r =
      (r.1 ≡ accepted → p.log r.0 ≡ p.log q ++ e ∷ []) × (r.1 ≢ accepted → p.log r.0 ≡ p.log q)

  publish-Logged : (e : E) (q : Q) → Logged e q (p.publish e q)
  publish-Logged e q = (p.accepts e q, p.rejects e q)

  flushed-held :
      (rest : Q → Honeypot E Q × Status) (e : E) (b : List E) (q : Q)
      → ((q : Q) → held (rest q).0 ≡ p.log q ++ b)
      → (r : Q × Outcome) → Logged e q r
      → held (flushed rest e b r).0 ≡ p.log q ++ e ∷ b
  flushed-held rest e b q f (r, accepted) l =
      f r ∙ ap (λ z. z ++ b) (l.0 refl) ∙ append_assoc (p.log q) (e ∷ []) b
  flushed-held rest e b q f (r, unreachable) l = ap (λ z. z ++ e ∷ b) (l.1 (λ x. cc))
  flushed-held rest e b q f (r, failed) l = ap (λ z. z ++ e ∷ b) (l.1 (λ x. cc))

  flush_from-held : (b : List E) (q : Q) → held (flush_from p b q).0 ≡ p.log q ++ b
  unfolding flush_from
  flush_from-held [] q = refl
  flush_from-held (e ∷ b) q =
      flushed-held (flush_from p b) e b q (flush_from-held b) (p.publish e q) (publish-Logged e q)

  length-flushed :
      (rest : Q → Honeypot E Q × Status) (e : E) (b : List E)
      → ((q : Q) → length (rest q).0.buffer ≤ length b)
      → (r : Q × Outcome) → length (flushed rest e b r).0.buffer ≤ length (e ∷ b)
  length-flushed rest e b f (r, accepted) = omega (arith, f r)
  length-flushed rest e b f (r, unreachable) = omega arith
  length-flushed rest e b f (r, failed) = omega arith

  length-flush_from : (b : List E) (q : Q) → length (flush_from p b q).0.buffer ≤ length b
  unfolding flush_from
  length-flush_from [] q = omega arith
  length-flush_from (e ∷ b) q =
      length-flushed (flush_from p b) e b (length-flush_from b) (p.publish e q)

  flushed-returned :
      (rest : Q → Honeypot E Q × Status) (e : E) (b : List E)
      → ((q : Q) → (rest q).1 ≡ returned)
      → (r : Q × Outcome) → r.1 ≢ failed
      → (flushed rest e b r).1 ≡ returned
  flushed-returned rest e b f (r, accepted) n = f r
  flushed-returned rest e b f (r, unreachable) n = refl
  flushed-returned rest e b f (r, failed) n = absurd (n refl)

  flush_if_any-held : (h : Honeypot E Q) → held (flush_if_any p h).0 ≡ held h
  unfolding flush_buffer
  flush_if_any-held h = ground (arith, flush_from-held h.buffer h.queue)

  length-flush_if_any : (h : Honeypot E Q) → length (flush_if_any p h).0.buffer ≤ length h.buffer
  unfolding flush_buffer
  length-flush_if_any h = ground (arith, length-flush_from h.buffer h.queue)

  -- A flush keeps what the honeypot answers for, in order, and never grows the buffer.
  pub periodic_flush-held :
      (h : Honeypot E Q)
      → (held (periodic_flush p h).0 ≡ held h)
        × (length (periodic_flush p h).0.buffer ≤ length h.buffer)
  unfolding periodic_flush
  periodic_flush-held h = (flush_if_any-held h, length-flush_if_any h)

  length-buffered :
      (e : E) (b : List E) (r : Q × Outcome)
      → length b ≤ max_buffer_size
      → length (buffered e b r).0.buffer ≤ max_buffer_size
  length-buffered e b (r, accepted) h = h
  length-buffered e b (r, unreachable) h = length-append_bounded max_buffer_size b e h (omega arith)
  length-buffered e b (r, failed) h = h

  length-and_then :
      (e : E) (r : Honeypot E Q × Status)
      → length r.0.buffer ≤ max_buffer_size
      → length (and_then r (publish_or_buffer p e)).0.buffer ≤ max_buffer_size
  length-and_then e (h, returned) b = length-buffered e h.buffer (p.publish e h.queue) b
  length-and_then e (h, raised) b = b

  -- No call lets the buffer grow past its bound.
  pub length-emit_event :
      (e : E) (h : Honeypot E Q)
      → length h.buffer ≤ max_buffer_size
      → length (emit_event p e h).0.buffer ≤ max_buffer_size
  unfolding emit_event
  length-emit_event e h b =
      length-and_then e (flush_if_any p h) (le_trans (length-flush_if_any h) b)

  perm_late : (l b : List E) (e : E) → Perm ((l ++ e ∷ []) ++ b) ((l ++ b) ++ e ∷ [])
  perm_late l b e =
      rw (append_assoc l (e ∷ []) b, append_assoc l b (e ∷ []))
        (Perm.append_left l (perm_append_comm (e ∷ []) b))

  buffered-held :
      (e : E) (b : List E) (q : Q) (r : Q × Outcome)
      → Logged e q r
      → r.1 ≢ failed
      → length b < max_buffer_size
      → Perm (held (buffered e b r).0) ((p.log q ++ b) ++ e ∷ [])
        × (length (buffered e b r).0.buffer ≤ length b + 1)
  buffered-held e b q (r, accepted) l n h = (
    subst (λ z. Perm (z ++ b) ((p.log q ++ b) ++ e ∷ [])) (sym (l.0 refl))
        (perm_late (p.log q) b e),
    omega arith,
  )
  buffered-held e b q (r, unreachable) l n h =
      rw (append_free max_buffer_size b e h, l.1 (λ x. cc), append_assoc (p.log q) b (e ∷ []))
        (Perm.refl _, omega (arith, length-append b (e ∷ [])))
  buffered-held e b q (r, failed) l n h = absurd (n refl)

  module _ (reliable : (e : E) (q : Q) → (p.publish e q).1 ≢ failed) where
    flush_from-returned : (b : List E) (q : Q) → (flush_from p b q).1 ≡ returned
    unfolding flush_from
    flush_from-returned [] q = refl
    flush_from-returned (e ∷ b) q =
        flushed-returned (flush_from p b) e b (flush_from-returned b) (p.publish e q) (reliable e q)

    flush_if_any-returned : (h : Honeypot E Q) → (flush_if_any p h).1 ≡ returned
    unfolding flush_buffer
    flush_if_any-returned h = ground (arith, flush_from-returned h.buffer h.queue)

    and_then-held :
        (e : E) (r : Honeypot E Q × Status)
        → r.1 ≡ returned
        → length r.0.buffer < max_buffer_size
        → Perm (held (and_then r (publish_or_buffer p e)).0) (held r.0 ++ e ∷ [])
          × (length (and_then r (publish_or_buffer p e)).0.buffer ≤ length r.0.buffer + 1)
    and_then-held e (h, returned) s b =
        buffered-held e h.buffer h.queue (p.publish e h.queue) (publish-Logged e h.queue)
          (reliable e h.queue) b
    and_then-held e (h, raised) s b = cc

    -- While the queue only accepts or cannot be reached, and the buffer is not full, an emitted event
    -- joins what the honeypot answers for and nothing leaves it; the buffer grows by one at most.
    pub emit_event-held :
        (e : E) (h : Honeypot E Q)
        → length h.buffer < max_buffer_size
        → Perm (held (emit_event p e h).0) (held h ++ e ∷ [])
          × (length (emit_event p e h).0.buffer ≤ length h.buffer + 1)
    unfolding emit_event
    emit_event-held e h b =
        let (i, k) =
          and_then-held e (flush_if_any p h) (flush_if_any-returned h)
            (omega (arith, length-flush_if_any h)) in
        (rw (flush_if_any-held h) at i, omega (arith, length-flush_if_any h, k))
