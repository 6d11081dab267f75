-- ===== src/Collector/Publish.antt =====
-- Publishing an event: how many copies of it the stream gets, how often it is tried, and how long
-- that takes.
use mathlib.Core.List.{append_assoc, append-nil}
use native.Mathlib.Nat.{zero-add}
use honeywatch.Prelude.{
  ℕ, zero, suc, ◌+◌, ◌≤◌, ◌≡◌, refl, sym, subst, ap, ◌∙◌, ◌≢◌, Bool, true, false, List, [], ◌∷◌,
  ◌++◌, arith, if◌then◌else◌,
}
use honeywatch.Collector.Queue.{
  max_retries, Reply, carried_out, busy_group, refused, unreachable, answer_lost, Result, succeeded,
  connection_error, other_error, Queue, called, ensure_consumer_group, xadd, and_then, connect,
  try_publish, publish_step, publish_from, publish,
}

abbrev pub is_success : Result → Bool
is_success succeeded = true
is_success _ = false

abbrev pub repeat {ℓ} : {A : Type ℓ} → ℕ → A → List A
repeat zero a = []
repeat (suc n) a = a ∷ repeat n a

-- the waits between the tries, from the one after the given attempt on
abbrev pub delays : (tries attempt : ℕ) → ℕ
delays zero attempt = 0
delays (suc zero) attempt = 0
delays (suc (suc tries)) attempt = (attempt + 1) + delays (suc tries) (attempt + 1)

-- How one try ends: it adds the event and says so; it adds it and the answer is lost; it adds nothing.
data Try {E : Type 0} (reply : ℕ → Reply) (e : E) (l : List E) (slept : ℕ) (p : Queue E × Result)
    : Type 0 where
  done :
      p.1 ≡ succeeded
      → p.0.stream ≡ l ++ e ∷ []
      → p.0.connected ≡ true
      → p.0.slept ≡ slept
      → Try reply e l slept p
  lost :
      (n : ℕ)
      → reply n ≡ answer_lost
      → p.1 ≡ connection_error
      → p.0.stream ≡ l ++ e ∷ []
      → p.0.slept ≡ slept
      → Try reply e l slept p
  broke : p.1 ≢ succeeded → p.0.stream ≡ l → p.0.slept ≡ slept → Try reply e l slept p

repeat_add {ℓ} : {A : Type ℓ} (n m : ℕ) (a : A) → repeat (n + m) a ≡ repeat n a ++ repeat m a
repeat_add zero m a = rw (zero-add m)
repeat_add (suc n) m a =
    let k : suc n + m ≡ suc (n + m) = omega arith in rw k (ap (λ l. a ∷ l) (repeat_add n m a))

-- What `tries` tries of publishing leave behind.
pub record Published {E : Type 0} (reply : ℕ → Reply) (tries attempt : ℕ) (e : E) (l : List E)
    (slept : ℕ) (p : Queue E × Result) : Type 0 where
  pub copies : ℕ
  pub stream : p.0.stream ≡ l ++ repeat copies e
  pub bounded : copies ≤ tries
  pub arrived : p.1 ≡ succeeded → 1 ≤ copies
  pub once : ((n : ℕ) → reply n ≢ answer_lost) → copies ≡ (if is_success p.1 then 1 else 0)
  pub patience : p.0.slept ≤ slept + delays tries attempt
  pub gives_up : p.1 ≡ connection_error → p.0.slept ≡ slept + delays tries attempt

module _ {E : Type 0} (reply : ℕ → Reply) (e : E) where
  xadd-Try :
      (q : Queue E) (n : ℕ) (r : Reply)
      → reply n ≡ r
      → q.connected ≡ true
      → Try reply e q.stream q.slept (xadd e r q)
  xadd-Try q n carried_out h c = done refl refl c refl
  xadd-Try q n busy_group h c = broke (λ x. cc) refl refl
  xadd-Try q n refused h c = broke (λ x. cc) refl refl
  xadd-Try q n unreachable h c = broke (λ x. cc) refl refl
  xadd-Try q n answer_lost h c = lost n h refl refl refl

  group-Try :
      (q : Queue E) (r : Reply)
      → q.connected ≡ true
      → Try reply e q.stream q.slept
          (and_then (ensure_consumer_group r q) (λ p. xadd e (reply p.calls) p))
  group-Try q carried_out c = xadd-Try (called q) (q.calls + 1) (reply (q.calls + 1)) refl c
  group-Try q busy_group c = xadd-Try (called q) (q.calls + 1) (reply (q.calls + 1)) refl c
  group-Try q refused c = broke (λ x. cc) refl refl
  group-Try q unreachable c = broke (λ x. cc) refl refl
  group-Try q answer_lost c = broke (λ x. cc) refl refl

  connected-Try :
      (q : Queue E) (b : Bool)
      → q.connected ≡ b
      → Try reply e q.stream q.slept
          (and_then (if b then (q, succeeded) else connect reply q) (λ p. xadd e (reply p.calls) p))
  unfolding connect
  connected-Try q true c = xadd-Try q q.calls (reply q.calls) refl c
  connected-Try q false c = group-Try (record q { connected = true }) (reply q.calls) refl

  try_publish-Try : (q : Queue E) → Try reply e q.stream q.slept (try_publish reply e q)
  unfolding try_publish
  try_publish-Try q = connected-Try q q.connected refl

  -- what is published from the next attempt on
  abbrev Rest : ℕ → ℕ → (Queue E → Queue E × Result) → Type 0
  Rest tries attempt again =
      (q : Queue E) → Published reply tries attempt e q.stream q.slept (again q)

  retry :
      (tries attempt n : ℕ) (l l' : List E) (s : ℕ)
      → l' ≡ l ++ repeat n e
      → n ≤ 1
      → (((k : ℕ) → reply k ≢ answer_lost) → n ≡ 0)
      → (p : Queue E × Result)
      → Published reply (suc tries) (attempt + 1) e l' (s + (attempt + 1)) p
      → Published reply (suc (suc tries)) attempt e l s p
  retry tries attempt n l l' s h b z p r = record {
    copies = n + r.copies;
    stream =
        r.stream ∙ rw (h, append_assoc l (repeat n e) (repeat r.copies e), repeat_add n r.copies e);
    bounded = omega (arith, r.bounded);
    arrived = λ a. omega (arith, r.arrived a);
    once = λ o. omega (arith, r.once o, z o);
    patience = omega (arith, r.patience);
    gives_up = λ g. omega (arith, r.gives_up g);
  }

  nothing :
      (tries attempt : ℕ) (l : List E) (s : ℕ) (p : Queue E × Result)
      → p.1 ≢ succeeded
      → p.0.stream ≡ l
      → p.0.slept ≤ s + delays tries attempt
      → (p.1 ≡ connection_error → p.0.slept ≡ s + delays tries attempt)
      → Published reply tries attempt e l s p
  nothing tries attempt l s p a h k g = record {
    copies = 0;
    stream = h ∙ sym (append-nil l);
    bounded = omega arith;
    arrived = λ x. absurd (a x);
    once = λ o. ground arith;
    patience = k;
    gives_up = g;
  }

  arrives :
      (tries attempt : ℕ) (l : List E) (s : ℕ) (p : Queue E × Result)
      → p.1 ≡ succeeded
      → p.0.stream ≡ l ++ e ∷ []
      → p.0.slept ≡ s
      → Published reply (suc tries) attempt e l s p
  arrives tries attempt l s p a h k = record {
    copies = 1;
    stream = h;
    bounded = omega arith;
    arrived = λ x. omega arith;
    once = λ o. rw a;
    patience = omega arith;
    gives_up = λ g. cc;
  }

  -- Where a try fails on the connection, the next one starts anew.
  abbrev next : Queue E → ℕ → Queue E
  next q attempt = record q { connected = false; slept = q.slept + (attempt + 1) }

  publish_step-Published :
      (left attempt : ℕ) (l : List E) (s : ℕ) (again : Queue E → Queue E × Result)
      → Rest left (attempt + 1) again
      → (q : Queue E) (r : Result) → Try reply e l s (q, r)
      → Published reply (suc left) attempt e l s (publish_step reply again attempt left (q, r))
  publish_step-Published left attempt l s again rest q succeeded (done a h c k) =
      arrives left attempt l s (q, succeeded) a h k
  publish_step-Published left attempt l s again rest q succeeded (lost n x a h k) = cc
  publish_step-Published left attempt l s again rest q succeeded (broke a h k) = absurd (a refl)
  publish_step-Published left attempt l s again rest q other_error (done a h c k) = cc
  publish_step-Published left attempt l s again rest q other_error (lost n x a h k) = cc
  publish_step-Published left attempt l s again rest q other_error (broke a h k) =
      nothing (suc left) attempt l s (q, other_error) a h (omega arith) (λ g. cc)
  publish_step-Published zero attempt l s again rest q connection_error (done a h c k) = cc
  publish_step-Published zero attempt l s again rest q connection_error (lost n x a h k) = record {
    copies = 1;
    stream = h;
    bounded = omega arith;
    arrived = λ a. omega arith;
    once = λ o. absurd (o n x);
    patience = omega arith;
    gives_up = λ g. omega arith;
  }
  publish_step-Published zero attempt l s again rest q connection_error (broke a h k) =
      nothing 1 attempt l s (record q { connected = false }, connection_error) a h (omega arith)
        (λ g. omega arith)
  publish_step-Published (suc left) attempt l s again rest q connection_error (done a h c k) = cc
  publish_step-Published (suc left) attempt l s again rest q connection_error (lost n x a h k) =
      retry left attempt 1 l q.stream s h (omega arith) (λ o. absurd (o n x)) _
        (subst (λ z. Published reply (suc left) (attempt + 1) e q.stream z (again (next q attempt)))
          (ap (λ z. z + (attempt + 1)) k) (rest (next q attempt)))
  publish_step-Published (suc left) attempt l s again rest q connection_error (broke a h k) =
      retry left attempt 0 l q.stream s (h ∙ sym (append-nil l)) (omega arith) (λ o. refl) _
        (subst (λ z. Published reply (suc left) (attempt + 1) e q.stream z (again (next q attempt)))
          (ap (λ z. z + (attempt + 1)) k) (rest (next q attempt)))

  publish_from-Published :
      (tries attempt : ℕ) (q : Queue E)
      → Published reply tries attempt e q.stream q.slept (publish_from reply e tries attempt q)
  unfolding publish_from
  publish_from-Published zero attempt q =
      nothing 0 attempt q.stream q.slept (q, connection_error) (λ x. cc) refl (omega arith)
        (λ g. omega arith)
  publish_from-Published (suc left) attempt q =
      publish_step-Published left attempt q.stream q.slept (publish_from reply e left (attempt + 1))
        (publish_from-Published left (attempt + 1)) (try_publish reply e q).0
        (try_publish reply e q).1 (try_publish-Try q)

  -- Publishing appends copies of the event and nothing else to the stream: at least one if it
  -- returns, at most five, and exactly one if it returns or none if it raises where no answer of the
  -- server is lost. It sleeps at most ten units, and exactly ten before it gives up the connection.
  pub publish-Published :
      (q : Queue E) → Published reply max_retries 0 e q.stream q.slept (publish reply e q)
  unfolding publish
  publish-Published q = publish_from-Published max_retries 0 q
