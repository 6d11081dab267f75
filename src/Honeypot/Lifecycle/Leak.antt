-- ===== src/Honeypot/Lifecycle/Leak.antt =====
-- What is left open when a honeypot has been restarted.
use honeywatch.Prelude.{
  ℕ, zero, suc, ◌+◌, ◌≤◌, ◌≡◌, refl, ap, subst, ◌∙◌, Bool, not, List, [], ◌∷◌, some, arith, length,
  filter, ◌==◌,
}
use honeywatch.Honeypot.Restart.{
  Start, Runner, Ended, ended, cut_short, run_honeypot_with_restart,
  run_honeypot_with_restart-Ended,
}
use honeywatch.Honeypot.Lifecycle.{
  start_flush_loop, stop_flush_loop, without, HttpServer, HttpStart, http_start, http_stop,
  new_http,
}

-- the numbers below, the greatest first
abbrev below : ℕ → List ℕ
below zero = []
below (suc n) = n ∷ below n

keep-below : (k n : ℕ) → n ≤ k → filter (λ x. not (x == k)) (below n) ≡ below n
keep-below k zero le = refl
keep-below k (suc n) le = ground (arith, keep-below k n)

module _ (outcome : ℕ → HttpStart) where
  -- how the n-th start ends
  abbrev pub start_of : ℕ → Start
  start_of n = (http_start (outcome n) new_http).1

  -- the honeypot after some starts
  unfoldable pub http_after : ℕ → HttpServer
  http_after zero = new_http
  http_after (suc n) = (http_start (outcome n) (http_after n)).0

  start-flush :
      (o : HttpStart) (s : HttpServer) → (http_start o s).0.flush ≡ start_flush_loop s.flush
  unfolding http_start
  start-flush HttpStart.setup_fails s = refl
  start-flush HttpStart.site_fails s = refl
  start-flush HttpStart.serves s = refl

  tasks_lem : (n : ℕ) → ((http_after n).flush.running ≡ below n) × ((http_after n).flush.next ≡ n)
  unfolding http_after start_flush_loop
  tasks_lem zero = (refl, refl)
  tasks_lem (suc n) =
      let (running, next) = tasks_lem n in
      let e = start-flush (outcome n) (http_after n) in
      (
        ap (λ t. t.running) e
            ∙ ap (λ k. k ∷ (http_after n).flush.running) next
            ∙ ap (λ l. n ∷ l) running,
        ap (λ t. t.next) e ∙ ap (λ k. k + 1) next ∙ omega arith,
      )

  stopped_lem : (n : ℕ) → (http_stop (http_after (suc n))).flush.running ≡ below n
  unfolding http_stop stop_flush_loop http_after start_flush_loop
  stopped_lem n =
      let (running, next) = tasks_lem n in
      ap (λ t. without t.flush_task t.running) (start-flush (outcome n) (http_after n))
      ∙ ap (λ k. without (some k) (k ∷ (http_after n).flush.running)) next
      ∙ ap (λ l. without (some n) (n ∷ l)) running
      ∙ ground (arith, keep-below n n)

  length-below : (n : ℕ) → length (below n) ≡ n
  length-below zero = refl
  length-below (suc n) = omega (arith, length-below n)

  left_running :
      (interrupted : ℕ → Bool) (r : Runner)
      → Ended start_of interrupted r
      → r.stops ≡ 1
      → length (http_stop (http_after r.starts)).flush.running ≡ r.waits
  left_running interrupted r (ended s b w reason) one =
      subst (λ n. length (http_stop (http_after n)).flush.running ≡ r.waits) w
        (ap length (stopped_lem r.waits) ∙ length-below r.waits)
  left_running interrupted r (cut_short s b w c k e d i) one = absurd (omega arith)

  -- Whatever the starts of an HTTP honeypot come to, if it is stopped in the end, then a periodic
  -- flush task still runs for each time that it was restarted.
  pub restart_leaks :
      (interrupted : ℕ → Bool)
      → let r = run_honeypot_with_restart start_of interrupted in
        r.stops ≡ 1 → length (http_stop (http_after r.starts)).flush.running ≡ r.waits
  restart_leaks interrupted one =
      left_running interrupted (run_honeypot_with_restart start_of interrupted)
        (run_honeypot_with_restart-Ended start_of interrupted) one
