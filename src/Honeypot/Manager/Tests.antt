-- ===== src/Honeypot/Manager/Tests.antt =====
-- Both honeypots at a concrete run, and the instances of the theorems on their shutdown.
use honeywatch.Honeypot.Restart.{cancelled, Runner, Start, crashed, run_honeypot_with_restart}
use honeywatch.Prelude.{◌≢◌, ℕ, ◌≡◌, refl, true, false}
use honeywatch.Honeypot.Manager.{
  Name, Task, Manager, Step, waiting, at, launched, ends, Reach as ManagerReach, here as stays,
  next as moves,
}
use honeywatch.Honeypot.Manager.Shutdown.{Standing, Reach-Standing, unattended_waits}

-- both honeypots crash whenever they start
abbrev crashing : ℕ → Start
crashing n = crashed

abbrev given_up : Runner
given_up = run_honeypot_with_restart crashing (λ k. false)

abbrev unattended : Manager
unattended = at Name.http (Task.ended given_up) (at Name.ssh (Task.ended given_up) launched)

never_cancelled : (k : ℕ) → crashing k ≢ cancelled
never_cancelled k e = cc

both_end : ManagerReach launched unattended
both_end =
    moves (moves stays (ends Name.ssh crashing refl never_cancelled refl))
      (ends Name.http crashing refl never_cancelled refl)

Reach-Standing_example : Standing unattended
Reach-Standing_example = Reach-Standing unattended both_end

unattended_waits_example :
    (unattended.phase ≡ waiting)
    × (unattended.queue_closed ≡ false)
    × ((n : Manager) → Step unattended n → n ≡ record unattended { shutdown_event = true })
unattended_waits_example = unattended_waits unattended both_end given_up given_up refl refl refl

abbrev signalled : Manager
signalled = record unattended { shutdown_event = true }
