-- ===== src/Honeypot/Manager/Shutdown.antt =====
-- What `run_all_honeypots` waits for, and how it ends.
use honeywatch.Prelude.{ℕ, ◌≡◌, ◌≢◌, refl, sym, subst, ◌∙◌, ◌⊎◌, inl, inr, Bool, true, false}
use honeywatch.Honeypot.Restart.{
  Start, cancelled, Runner, Ended, ended, cut_short, run_honeypot_with_restart,
  run_honeypot_with_restart-Ended,
}
use honeywatch.Honeypot.Manager.{
  Name, Task, running, cancelling, waiting, gathering, done, Manager, launched, cancel, Step, ends,
  gives_in, signal, shut_down, gathers, Reach, here, next,
}

-- A task that no one has cancelled: if it has ended, its honeypot was stopped once.
abbrev pub Left : Task → Type 0
Left running = Unit
Left cancelling = ⊥
Left (Task.ended r) = r.stops ≡ 1

-- A task after its `cancel`: if it has ended, its honeypot was stopped once at most.
abbrev pub Told : Task → Type 0
Told running = ⊥
Told cancelling = Unit
Told (Task.ended r) = (r.stops ≡ 1) ⊎ (r.stops ≡ 0)

-- What holds at each point of the way.
pub data Standing (m : Manager) : Type 0 where
  before :
      m.phase ≡ waiting → m.queue_closed ≡ false → Left m.ssh_task → Left m.http_task → Standing m
  amid :
      m.phase ≡ gathering
      → m.queue_closed ≡ false
      → m.shutdown_event ≡ true
      → Told m.ssh_task
      → Told m.http_task
      → Standing m
  after :
      m.phase ≡ done
      → m.queue_closed ≡ true
      → m.shutdown_event ≡ true
      → (r q : Runner) → m.ssh_task ≡ Task.ended r
      → m.http_task ≡ Task.ended q
      → Told (Task.ended r)
      → Told (Task.ended q)
      → Standing m

stops_once : (start : ℕ → Start) (r : Runner) → Ended start (λ k. false) r → r.stops ≡ 1
stops_once start r (ended s b w reason) = s
stops_once start r (cut_short s b w c k e d i) = cc

stops_once_at_most :
    (start : ℕ → Start) (interrupted : ℕ → Bool) (r : Runner)
    → Ended start interrupted r
    → (r.stops ≡ 1) ⊎ (r.stops ≡ 0)
stops_once_at_most start interrupted r (ended s b w reason) = inl s
stops_once_at_most start interrupted r (cut_short s b w c k e d i) = inr s

Told-cancel : (t : Task) → Left t → Told (cancel t)
Told-cancel running l = tt
Told-cancel cancelling l = elim l [ ]
Told-cancel (Task.ended r) l = inl l

true-ne-false : true ≢ false
true-ne-false e = cc

start-Standing : Standing launched
start-Standing = before refl refl tt tt

-- a task that ends by itself
ends-Left : (start : ℕ → Start) → Left (Task.ended (run_honeypot_with_restart start (λ k. false)))
ends-Left start = stops_once start _ (run_honeypot_with_restart-Ended start (λ k. false))

ends-Told :
    (start : ℕ → Start) (interrupted : ℕ → Bool)
    → Told (Task.ended (run_honeypot_with_restart start interrupted))
ends-Told start interrupted =
    stops_once_at_most start interrupted _ (run_honeypot_with_restart-Ended start interrupted)

Step-Standing : (m n : Manager) → Standing m → Step m n → Standing n
Step-Standing m n (before p c l k) (ends Name.ssh start r plain e) =
    subst Standing (sym e) (before p c (ends-Left start) k)
Step-Standing m n (before p c l k) (ends Name.http start r plain e) =
    subst Standing (sym e) (before p c l (ends-Left start))
Step-Standing m n (before p c l k) (gives_in Name.ssh start interrupted r e) =
    absurd (subst Left r l)
Step-Standing m n (before p c l k) (gives_in Name.http start interrupted r e) =
    absurd (subst Left r k)
Step-Standing m n (before p c l k) (signal w e) = subst Standing (sym e) (before p c l k)
Step-Standing m n (before p c l k) (shut_down w s e) =
    subst Standing (sym e) (amid refl c s (Told-cancel m.ssh_task l) (Told-cancel m.http_task k))
Step-Standing m n (before p c l k) (gathers r q g h i e) = cc
Step-Standing m n (amid p c s l k) (ends Name.ssh start r plain e) = absurd (subst Told r l)
Step-Standing m n (amid p c s l k) (ends Name.http start r plain e) = absurd (subst Told r k)
Step-Standing m n (amid p c s l k) (gives_in Name.ssh start interrupted r e) =
    subst Standing (sym e) (amid p c s (ends-Told start interrupted) k)
Step-Standing m n (amid p c s l k) (gives_in Name.http start interrupted r e) =
    subst Standing (sym e) (amid p c s l (ends-Told start interrupted))
Step-Standing m n (amid p c s l k) (signal w e) = cc
Step-Standing m n (amid p c s l k) (shut_down w t e) = cc
Step-Standing m n (amid p c s l k) (gathers r q g h i e) =
    subst Standing (sym e) (after refl refl s r q h i (subst Told h l) (subst Told i k))
Step-Standing m n (after p c s r q h i l k) (ends Name.ssh start x plain e) = cc
Step-Standing m n (after p c s r q h i l k) (ends Name.http start x plain e) = cc
Step-Standing m n (after p c s r q h i l k) (gives_in Name.ssh start interrupted x e) = cc
Step-Standing m n (after p c s r q h i l k) (gives_in Name.http start interrupted x e) = cc
Step-Standing m n (after p c s r q h i l k) (signal w e) = cc
Step-Standing m n (after p c s r q h i l k) (shut_down w t e) = cc
Step-Standing m n (after p c s r q h i l k) (gathers x y g j t e) = cc

-- In whatever order the tasks end and the signals come, the queue is closed only after a signal and
-- after both tasks have ended. A honeypot whose task ends before was stopped once, and one whose task
-- was cancelled was stopped once at most.
pub Reach-Standing : (m : Manager) → Reach launched m → Standing m
Reach-Standing m here = start-Standing
Reach-Standing m (next {n} {o} r s) = Step-Standing n o (Reach-Standing n r) s

-- the only way on without a signal
Step-signal :
    (m n : Manager) (r q : Runner)
    → m.ssh_task ≡ Task.ended r
    → m.http_task ≡ Task.ended q
    → m.phase ≡ waiting
    → m.shutdown_event ≡ false
    → Step m n
    → n ≡ record m { shutdown_event = true }
Step-signal m n r q h i p f (ends Name.ssh start x plain e) = cc
Step-signal m n r q h i p f (ends Name.http start x plain e) = cc
Step-signal m n r q h i p f (gives_in Name.ssh start interrupted x e) = cc
Step-signal m n r q h i p f (gives_in Name.http start interrupted x e) = cc
Step-signal m n r q h i p f (signal w e) = e
Step-signal m n r q h i p f (shut_down w t e) = cc
Step-signal m n r q h i p f (gathers x y g j t e) = cc

-- When both honeypots have ended, by whatever crashes, and no signal has come, then the process still
-- waits with an open queue, and nothing but a signal can happen.
pub unattended_waits :
    (m : Manager)
    → Reach launched m
    → (r q : Runner) → m.ssh_task ≡ Task.ended r
    → m.http_task ≡ Task.ended q
    → m.shutdown_event ≡ false
    → (m.phase ≡ waiting)
      × (m.queue_closed ≡ false)
      × ((n : Manager) → Step m n → n ≡ record m { shutdown_event = true })
unattended_waits m reach r q h i f = go (Reach-Standing m reach)
  where
    go :
        Standing m
        → (m.phase ≡ waiting)
          × (m.queue_closed ≡ false)
          × ((n : Manager) → Step m n → n ≡ record m { shutdown_event = true })
    go (before p c l k) = (p, c, λ n. Step-signal m n r q h i p f)
    go (amid p c s l k) = absurd (true-ne-false (sym s ∙ f))
    go (after p c s x y j t l k) = absurd (true-ne-false (sym s ∙ f))

-- a cancelled task that its start tells of it
abbrev told_start : ℕ → Start
told_start n = cancelled
