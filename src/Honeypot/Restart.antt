-- ===== src/Honeypot/Restart.antt =====
-- src/honeywatch/honeypot/__main__.py: a honeypot is started again when it crashes. `start n` says how
-- its n-th start ends, and `interrupted n` whether the task is cancelled in the wait that follows it;
-- `waits` counts the delays before a restart.
use honeywatch.Prelude.{
  ℕ, zero, suc, ◌+◌, ◌≤◌, ◌<◌, ◌≡◌, refl, sym, subst, ◌≢◌, ◌⊎◌, inl, inr, Bool, true, arith, ltb,
  leb, if◌then◌else◌, Bool-cases,
}

abbrev pub max_consecutive_crashes : ℕ
max_consecutive_crashes = 5

-- How `honeypot.start()` ends: it returns, its task is cancelled, or it raises.
pub data Start : Type 0 where
  finished cancelled crashed : Start

pub record Runner : Type 0 where
  pub starts : ℕ
  pub consecutive_crashes : ℕ
  pub waits : ℕ
  pub stops : ℕ

-- `honeypot.stop()`, whose exception is caught
abbrev pub stopped : Runner → Runner
stopped r = record r { stops = r.stops + 1 }

abbrev pub started : Runner → Runner
started r = record r { starts = r.starts + 1 }

abbrev pub count_crash : Runner → Runner
count_crash r = record r { starts = r.starts + 1; consecutive_crashes = r.consecutive_crashes + 1 }

module _ (start : ℕ → Start) (interrupted : ℕ → Bool) where
  -- one round of the loop and what follows it
  abbrev pub round : (Runner → Runner) → Start → Runner → Runner
  round again finished r = stopped (started r)
  round again cancelled r = stopped (started r)
  round again crashed r =
      if leb max_consecutive_crashes (count_crash r).consecutive_crashes
      then stopped (count_crash r)
      else (if interrupted r.starts
          then record (count_crash r) { waits = r.waits + 1 }
          else again (record (count_crash r) { waits = r.waits + 1 }))

  -- the loop, which makes at most as many rounds as crashes are allowed
  unfoldable pub run_from : ℕ → Runner → Runner
  run_from zero r = stopped r
  run_from (suc n) r =
      if ltb r.consecutive_crashes max_consecutive_crashes
      then round (run_from n) (start r.starts) r
      else stopped r

  abbrev pub fresh : Runner
  fresh = record { starts = 0; consecutive_crashes = 0; waits = 0; stops = 0 }

  unfoldable pub run_honeypot_with_restart : Runner
  run_honeypot_with_restart = run_from max_consecutive_crashes fresh

  -- How the runner ends: stopped once, after a start that did not crash or after the last crash that
  -- is allowed, when it has waited before each start but the first; or cut short in the wait after a
  -- crash, and not stopped.
  pub data Ended (r : Runner) : Type 0 where
    ended :
        r.stops ≡ 1
        → r.starts ≤ max_consecutive_crashes
        → suc r.waits ≡ r.starts
        → (r.consecutive_crashes ≡ max_consecutive_crashes) ⊎ (start r.waits ≢ crashed)
        → Ended r
    cut_short :
        r.stops ≡ 0
        → r.starts < max_consecutive_crashes
        → r.waits ≡ r.starts
        → r.consecutive_crashes ≡ r.starts
        → (k : ℕ) → suc k ≡ r.starts
        → start k ≡ crashed
        → interrupted k ≡ true
        → Ended r

  -- What holds before a round: each start so far has crashed, and each was waited for.
  record Running (n : ℕ) (r : Runner) : Type 0 where
    left : n + r.starts ≡ max_consecutive_crashes
    waits : r.waits ≡ r.starts
    crashes : r.consecutive_crashes ≡ r.starts
    stops : r.stops ≡ 0

  round-Ended :
      (n : ℕ) (again : Runner → Runner)
      → ((q : Runner) → 1 ≤ n → Running n q → Ended (again q))
      → (r : Runner) → Running (suc n) r
      → (s : Start) → start r.starts ≡ s
      → Ended (round again s r)
  round-Ended n again f r w finished e =
      ended (omega (arith, w.stops)) (omega (arith, w.left)) (omega (arith, w.waits))
        (inr (subst (λ n. start n ≢ crashed) (sym w.waits) (λ c. cc)))
  round-Ended n again f r w cancelled e =
      ended (omega (arith, w.stops)) (omega (arith, w.left)) (omega (arith, w.waits))
        (inr (subst (λ n. start n ≢ crashed) (sym w.waits) (λ c. cc)))
  round-Ended n again f r w crashed e =
      elim (Bool-cases (leb max_consecutive_crashes (r.consecutive_crashes + 1))) [
        | inl h ↦ rw h (
            ended (omega (arith, w.stops)) (omega (arith, w.left)) (omega (arith, w.waits))
              (inl (ground (arith, w.left, w.crashes))))
        | inr h ↦ elim (Bool-cases (interrupted r.starts)) [
          | inl i ↦
              rw (h, i)
                (cut_short w.stops (ground (arith, w.left, w.crashes)) (omega (arith, w.waits))
                  (omega (arith, w.crashes)) r.starts (omega arith) e i)
          | inr i ↦
              rw (h, i)
                (f (record (count_crash r) { waits = r.waits + 1 })
                  (ground (arith, w.left, w.crashes))
                  (record {
                    left = omega (arith, w.left);
                    waits = omega (arith, w.waits);
                    crashes = omega (arith, w.crashes);
                    stops = w.stops;
                  }))
        ]
      ]

  run_from-Ended : (n : ℕ) → 1 ≤ n → (r : Runner) → Running n r → Ended (run_from n r)
  unfolding run_from
  run_from-Ended zero h r w = absurd (omega arith)
  run_from-Ended (suc n) h r w =
      let open_ : ltb r.consecutive_crashes max_consecutive_crashes ≡ true =
        ground (arith, w.left, w.crashes) in
      rw open_
        (round-Ended n (run_from n) (λ q g v. run_from-Ended n g q v) r w (start r.starts) refl)

  -- A honeypot is started at most five times, waits before each start but the first, and is stopped
  -- once at the end; it is given up only after a start that did not crash, or after the fifth crash in
  -- all, however long the starts between have run. But if its task is cancelled while it waits after
  -- a crash, it ends there and is not stopped at all.
  pub run_honeypot_with_restart-Ended : Ended run_honeypot_with_restart
  unfolding run_honeypot_with_restart
  run_honeypot_with_restart-Ended =
      run_from-Ended max_consecutive_crashes (omega arith) fresh
        (record { left = omega arith; waits = refl; crashes = refl; stops = refl })
