-- ===== src/Collector/Served.antt =====
-- The loop of `consume` while the server works: it hands each entry to its caller once, in order.
use mathlib.Core.List.{append_assoc, append-nil}
use honeywatch.Prelude.{
  ℕ, ◌+◌, ◌≡◌, refl, sym, ap, subst, ◌∙◌, Bool, true, false, List, [], ◌∷◌, ◌++◌, Option, none,
  some, arith, length, flatten, if◌then◌else◌,
}
use honeywatch.Collector.Queue.{Reply, carried_out, Result, succeeded, Queue, called, connect, ack}
use honeywatch.Collector.Consume.{
  Fetch, entries, State, deliver_entry, deliver, consume_round, consume, goes_on, go_on, caught,
  beside, fetched, next_round,
}

-- The server answers the reads of the stream with these batches, one in each round, where a round
-- has a command for the read and one for each of its entries.
abbrev pub Serves : (ℕ → Fetch) → ℕ → List (List ℕ) → Type 0
Serves fetch c [] = Unit
Serves fetch c (l ∷ bs) = (fetch c ≡ entries l) × Serves fetch (c + 1 + length l) bs

-- a queue after an acknowledgement
abbrev pub marked : {E : Type 0} → ℕ → Queue E → Queue E
marked n q = record q { calls = q.calls + 1; acked = q.acked ++ n ∷ [] }

pub ack_first :
    {E : Type 0} (reply : ℕ → Reply) (n : ℕ) (q : Queue E)
    → q.connected ≡ true
    → reply q.calls ≡ carried_out
    → ack reply n q ≡ (marked n q, succeeded)
unfolding ack
ack_first reply n q c h = rw (c, h) refl

module _ {E W : Type 0} (parse : ℕ → Option E) (step : ℕ → E → W → W) where
  -- what the caller makes of its state by some entries
  abbrev pub step_at : ℕ → Option E → W → W
  step_at n none w = w
  step_at n (some e) w = step n e w

  abbrev pub steps : List ℕ → W → W
  steps [] w = w
  steps (n ∷ l) w = steps l (step_at n (parse n) w)

  pub steps-append : (l r : List ℕ) (w : W) → steps (l ++ r) w ≡ steps r (steps l w)
  steps-append [] r w = refl
  steps-append (n ∷ l) r w = steps-append l r (step_at n (parse n) w)

  module _ (reply : ℕ → Reply) (works : (n : ℕ) → reply n ≡ carried_out)
      (body : ℕ → E → State E W → State E W) (Ready : List ℕ → W → Type 0)
      (passes : (n : ℕ) (l : List ℕ) (w : W) → parse n ≡ none → Ready (n ∷ l) w → Ready l w)
      (serves : (n : ℕ) (e : E) (l : List ℕ) (q : Queue E) (w : W)
        → parse n ≡ some e
        → q.connected ≡ true
        → Ready (n ∷ l) w
        → (body n e (q, w) ≡ (marked n q, step n e w)) × Ready l (step n e w)) where
    entry_lem :
        (n : ℕ) (o : Option E) (l : List ℕ) (q : Queue E) (w : W)
        → parse n ≡ o
        → q.connected ≡ true
        → Ready (n ∷ l) w
        → (deliver_entry reply parse body n o (q, w) ≡ ((marked n q, step_at n o w), succeeded))
          × Ready l (step_at n o w)
    entry_lem n none l q w p c r =
        (ap (λ x. ((x.0, w), x.1)) (ack_first reply n q c (works q.calls)), passes n l w p r)
    entry_lem n (some e) l q w p c r =
        let (done, ready) = serves n e l q w p c r in (ap (λ s. (s, succeeded)) done, ready)

    -- The caller has had the entries, and each is acknowledged.
    pub record Served (l rest : List ℕ) (q : Queue E) (w : W) (r : Queue E) : Type 0 where
      pub connected : r.connected ≡ true
      pub calls : r.calls ≡ q.calls + length l
      pub acked : r.acked ≡ q.acked ++ l
      pub ready : Ready rest (steps l w)

    deliver_lem :
        (l rest : List ℕ) (q : Queue E) (w : W)
        → q.connected ≡ true
        → Ready (l ++ rest) w
        → (r : Queue E) × (deliver reply parse body l (q, w) ≡ ((r, steps l w), succeeded))
          × Served l rest q w r
    unfolding deliver
    deliver_lem [] rest q w c h = (
      q,
      refl,
      record { connected = c; calls = omega arith; acked = sym (append-nil q.acked); ready = h },
    )
    deliver_lem (n ∷ l) rest q w c h =
        let (first, ready) = entry_lem n (parse n) (l ++ rest) q w refl c h in
        let (r, others, s) = deliver_lem l rest (marked n q) (step_at n (parse n) w) c ready in
        (
          r,
          ap (λ p. go_on p (deliver reply parse body l)) first ∙ others,
          record {
            connected = s.connected;
            calls = omega (arith, s.calls);
            acked = s.acked ∙ append_assoc q.acked (n ∷ []) l;
            ready = s.ready;
          },
        )

    already : (b : Bool) (p r : Queue E × Result) → b ≡ true → (if b then p else r) ≡ p
    already true p r h = refl
    already false p r h = cc

    round_lem :
        (fetch : ℕ → Fetch) (l rest : List ℕ) (q : Queue E) (w : W)
        → fetch q.calls ≡ entries l
        → q.connected ≡ true
        → Ready (l ++ rest) w
        → (r : Queue E) × (consume_round reply fetch parse body (q, w) ≡ ((r, steps l w), goes_on))
          × Served l rest (called q) w r
    unfolding consume_round
    round_lem fetch l rest q w f c h =
        let (r, done, s) = deliver_lem l rest (called q) w c h in
        (
          r,
          ap (λ p. caught (go_on (beside w p) (λ v. fetched reply parse body (fetch v.0.calls) v)))
                (already q.connected (q, succeeded) (connect reply q) c)
              ∙ ap (λ x. caught (fetched reply parse body x (q, w))) f
              ∙ ap caught done,
          s,
        )

    -- The loop over some batches ends well, with all their entries acknowledged and the caller's
    -- state as the entries make it.
    pub consume-steps :
        (fetch : ℕ → Fetch) (bs : List (List ℕ)) (q : Queue E) (w : W)
        → Serves fetch q.calls bs
        → q.connected ≡ true
        → Ready (flatten bs) w
        → (r : Queue E) × (consume reply fetch parse body (length bs) (q, w)
            ≡ ((r, steps (flatten bs) w), goes_on))
          × (r.acked ≡ q.acked ++ flatten bs)
    unfolding consume
    consume-steps fetch [] q w f c h = (q, refl, sym (append-nil q.acked))
    consume-steps fetch (l ∷ bs) q w f c h =
        let (r, first, s) = round_lem fetch l (flatten bs) q w f.0 c h in
        let (end, others, acked) =
          consume-steps fetch bs r (steps l w) (subst (λ n. Serves fetch n bs) (sym s.calls) f.1)
            s.connected s.ready in
        (
          end,
          ap (next_round (consume reply fetch parse body (length bs))) first
              ∙ others
              ∙ ap (λ x. ((end, x), goes_on)) (sym (steps-append l (flatten bs) w)),
          acked ∙ ap (λ x. x ++ flatten bs) s.acked ∙ append_assoc q.acked l (flatten bs),
        )
