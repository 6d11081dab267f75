-- ===== src/Detection/IpContext/Answers.antt =====
-- What a call of the context store answers, and the contexts of the worker and of the backfill.
use mathlib.Core.Path.{fun_ext}
use honeywatch.Prelude.{
  ℕ, suc, ◌≤◌, ◌≡◌, refl, sym, ap, ◌∙◌, String, ◌||◌, List, ◌∷◌, arith, length, ◌==◌,
}
use honeywatch.Prelude.Groups.{contains, distinct, contains-distinct, length-distinct_of_same}
use honeywatch.Detection.Rules.{DetectionRules}
use honeywatch.Event.{AttackEvent}
use honeywatch.Detection.Classifier.{
  IpContext, empty_context, classify, determine_attack_type, is_brute_force, is_port_scan, evaluate,
  condition_holds,
}
use honeywatch.Detection.Backfill.{same_port}
use honeywatch.Detection.Backfill.Writes.{same_port_iff}
use honeywatch.Detection.IpContext.{
  RedisDb, NumberText, Outcome, executed, refused, answer_lost, Call, IpContextStore, context_ttl,
  ports_key, execute, answered, update_and_get, after,
}
use honeywatch.Detection.IpContext.Window.{Before, recent}
use honeywatch.Detection.IpContext.Attempts.{IsEmpty, attempts_lem}
use honeywatch.Detection.IpContext.Ports.{visited, known-after, known-marked}

-- The context of a call after others, from the calls alone.
abbrev pub context_after : ℕ → Call → List Call → IpContext
context_after time_window c h = record {
  recent_attempts = suc (recent time_window c.source_ip c.now h);
  distinct_ports = distinct same_port (c.destination_port ∷ visited c.source_ip c.now h);
}

-- Two contexts count alike, and have the same ports in some order.
pub record Alike (r c : IpContext) : Type 0 where
  pub attempts : r.recent_attempts ≡ c.recent_attempts
  pub count : length r.distinct_ports ≡ length c.distinct_ports
  pub ports :
      (q : ℕ) → contains same_port q r.distinct_ports ≡ contains same_port q c.distinct_ports

-- the answer by the way the pipeline ends
abbrev pub Answers : ℕ → Outcome → Call → List Call → IpContext → Type 0
Answers time_window executed c h r = Alike r (context_after time_window c h)
Answers time_window refused c h r = r ≡ empty_context
Answers time_window answer_lost c h r = r ≡ empty_context

module _ (redis : RedisDb) (text : NumberText) (time_window : ℕ) where
  open redis use {Db}

  module _ (s : IpContextStore Db) (empty : IsEmpty redis s.db) (pos : 1 ≤ time_window)
      (w : time_window ≤ context_ttl) where
    execute-Alike :
        (c : Call) (h : List Call)
        → Before c.now h
        → Alike
            (execute redis text time_window c (after redis text time_window h s).db).1
            (context_after time_window c h)
    unfolding execute
    execute-Alike c h b =
        let d = (after redis text time_window h s).db in
        let same : (q : ℕ)
            → contains same_port q (execute redis text time_window c d).1.distinct_ports
              ≡ contains same_port q (c.destination_port ∷ visited c.source_ip c.now h) =
          λ q.
            known-marked redis text time_window q c d
            ∙ ap (λ b. q == c.destination_port || b)
                (known-after redis text time_window s empty q c.source_ip h c.now b) in
        let visits = c.destination_port ∷ visited c.source_ip c.now h in
        record {
          attempts = attempts_lem redis text time_window s empty c h b pos w;
          count =
              length-distinct_of_same same_port same_port_iff _ visits
                (redis.smembers-distinct c.now (ports_key c.source_ip) _) same;
          ports = λ q. same q ∙ sym (contains-distinct same_port same_port_iff q visits);
        }

    answered-Answers :
        (o : Outcome) (c : Call) (h : List Call)
        → (old : Db) (p : Db × IpContext) → Alike p.1 (context_after time_window c h)
        → Answers time_window o c h (answered redis text time_window o old p).1
    answered-Answers executed c h old p a = a
    answered-Answers refused c h old p a = refl
    answered-Answers answer_lost c h old p a = refl

    pub update_and_get-Answers :
        (c : Call) (h : List Call)
        → Before c.now h
        → Answers time_window c.outcome c h
            (update_and_get redis text time_window c (after redis text time_window h s)).1
    unfolding update_and_get
    update_and_get-Answers c h b = answered-Answers c.outcome c h _ _ (execute-Alike c h b)

module _ (rules : DetectionRules) (r c : IpContext) (a : Alike r c) where
  condition_holds-Alike : (t : String) → condition_holds t r ≡ condition_holds t c
  unfolding condition_holds
  condition_holds-Alike t = fun_ext (λ x. ground (arith, a.attempts))

  evaluate-Alike :
      (t : String) → evaluate rules.severity_rules t r ≡ evaluate rules.severity_rules t c
  unfolding evaluate
  evaluate-Alike t = rw (condition_holds-Alike t)

  determine-Alike :
      (e : AttackEvent) → determine_attack_type rules e r ≡ determine_attack_type rules e c
  unfolding determine_attack_type is_brute_force is_port_scan
  determine-Alike e = ground (arith, a.attempts, a.count)

  -- The classification depends on the number of the attempts and of the ports.
  pub classify-Alike : (e : AttackEvent) → classify rules e r ≡ classify rules e c
  unfolding classify
  classify-Alike e =
      ap (λ t. record { attack_type = t; severity = evaluate rules.severity_rules t r })
        (determine-Alike e)
      ∙ ap (λ l. record { attack_type = determine_attack_type rules e c; severity = l })
          (evaluate-Alike (determine_attack_type rules e c))
