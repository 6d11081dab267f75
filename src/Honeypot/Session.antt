-- ===== src/Honeypot/Session.antt =====
-- A honeypot over a whole sequence of calls: `emit_event` by its handlers and rounds of the periodic
-- flush, one after the other. A call that raises ends, and the next call finds the state it left.
use mathlib.Core.List.{Perm, append-nil, append_assoc}
use mathlib.Core.List.Perm
use honeywatch.Prelude.{◌+◌, ◌≤◌, sym, ◌≢◌, List, [], ◌∷◌, ◌++◌, arith, length, subst}
use honeywatch.Honeypot.Base.{
  max_buffer_size, failed, Publisher, Honeypot, emit_event, periodic_flush,
}
use honeywatch.Honeypot.Delivery.{held, emit_event-held, length-emit_event, periodic_flush-held}

pub data Op (E : Type 0) : Type 0 where
  emit : E → Op E
  tick : Op E

abbrev pub emitted : {E : Type 0} → List (Op E) → List E
emitted [] = []
emitted (emit e ∷ ops) = e ∷ emitted ops
emitted (tick ∷ ops) = emitted ops

module _ {E Q : Type 0} (p : Publisher E Q) where
  unfoldable pub run : List (Op E) → Honeypot E Q → Honeypot E Q
  run [] h = h
  run (emit e ∷ ops) h = run ops (emit_event p e h).0
  run (tick ∷ ops) h = run ops (periodic_flush p h).0

  -- Whatever is emitted and however the queue answers, the buffer stays within its bound.
  pub length-run :
      (ops : List (Op E)) (h : Honeypot E Q)
      → length h.buffer ≤ max_buffer_size
      → length (run ops h).buffer ≤ max_buffer_size
  unfolding run
  length-run [] h b = b
  length-run (emit e ∷ ops) h b = length-run ops (emit_event p e h).0 (length-emit_event p e h b)
  length-run (tick ∷ ops) h b =
      length-run ops (periodic_flush p h).0 (omega (arith, (periodic_flush-held p h).1))

  pub run-held :
      (reliable : (e : E) (q : Q) → (p.publish e q).1 ≢ failed) (ops : List (Op E))
      (h : Honeypot E Q)
      → length h.buffer + length (emitted ops) ≤ max_buffer_size
      → Perm (held p (run ops h)) (held p h ++ emitted ops)
  unfolding run
  run-held reliable [] h b =
      subst (λ l. Perm (held p h) l) (sym (append-nil (held p h))) (Perm.refl (held p h))
  run-held reliable (emit e ∷ ops) h b =
      let (i, k) = emit_event-held p reliable e h (omega arith) in
      Perm.trans (run-held reliable ops (emit_event p e h).0 (omega (arith, k)))
        (rw (← append_assoc (held p h) (e ∷ []) (emitted ops)) (Perm.append_right (emitted ops) i))
  run-held reliable (tick ∷ ops) h b =
      let (i, k) = periodic_flush-held p h in
      subst (λ l. Perm (held p (run ops (periodic_flush p h).0)) (l ++ emitted ops)) i
        (run-held reliable ops (periodic_flush p h).0 (omega (arith, k)))
