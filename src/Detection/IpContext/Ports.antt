-- ===== src/Detection/IpContext/Ports.antt =====
-- The ports that the context store remembers, and what a call answers in all.
use honeywatch.Prelude.{
  ℕ, ◌+◌, ◌*◌, ◌≤◌, ◌≡◌, ◌≢◌, refl, subst, ap, ◌∙◌, inl, inr, String, Bool, false, ◌||◌, List, [],
  ◌∷◌, arith, ltb, ◌==◌, str_eq, eq_iff, Bool-cases, not_of_false, if◌then◌else◌,
}
use honeywatch.Prelude.Groups.{contains}
use honeywatch.Detection.Classifier.{IpContext}
use honeywatch.Detection.Backfill.{same_port}
use honeywatch.Detection.IpContext.{
  RedisDb, NumberText, Outcome, executed, refused, answer_lost, Call, IpContextStore, context_ttl,
  second, attempts_key, ports_key, trimmed, marked, execute, answered, update_and_get, after,
}
use honeywatch.Detection.IpContext.Window.{recorded, hits, Before, Before-mono}
use honeywatch.Detection.IpContext.Attempts.{IsEmpty}
use honeywatch.Detection.IpContext.Keys.{ports_key-injective, attempts_key-ne-ports_key}

-- The ports that an address went to, as long as it never stayed away for the time to live: however
-- old they are, the window does not matter.
abbrev pub visited : String → ℕ → List Call → List ℕ
visited ip t [] = []
visited ip t (c ∷ h) =
    if hits ip c
    then (if ltb t (c.now + context_ttl * second)
        then c.destination_port ∷ visited ip c.now h
        else [])
    else visited ip t h

module _ (redis : RedisDb) (text : NumberText) (time_window : ℕ) where
  open redis use {Db, zset, smembers}

  -- is the port in the set at the time?
  abbrev pub known : ℕ → ℕ → String → Db → Bool
  known q t ip d = contains same_port q (smembers t (ports_key ip) d)

  known-answered :
      (q t : ℕ) (ip : String) (o : Outcome) (old : Db) (p : Db × IpContext)
      → known q t ip (answered redis text time_window o old p).0.db
        ≡ (if recorded o then known q t ip p.0 else known q t ip old)
  known-answered q t ip executed old p = refl
  known-answered q t ip refused old p = refl
  known-answered q t ip answer_lost old p = refl

  module _ (q : ℕ) (c : Call) (d : Db) where
    known-trimmed :
        (t : ℕ) (ip : String)
        → c.now ≤ t
        → known q t ip (trimmed redis text time_window c d) ≡ known q t ip d
    known-trimmed t ip le =
        let ne = attempts_key-ne-ports_key c.source_ip ip in
        ap (contains same_port q) (
          redis.smembers-other c.now t (attempts_key c.source_ip) (ports_key ip) _ _ le ne
          ∙ redis.smembers-other c.now t (attempts_key c.source_ip) (ports_key ip) _ _ le ne)

    pub known-marked :
        known q c.now c.source_ip
          (marked redis text time_window c (trimmed redis text time_window c d))
        ≡ (q == c.destination_port || known q c.now c.source_ip d)
    known-marked =
        redis.smembers-sadd c.now (ports_key c.source_ip) c.destination_port _ q
        ∙ ap (λ b. q == c.destination_port || b) (known-trimmed c.now c.source_ip (omega arith))

    known-execute :
        (t : ℕ)
        → c.now ≤ t
        → known q t c.source_ip (execute redis text time_window c d).0 ≡ (
            if ltb t (c.now + context_ttl * second)
            then (q == c.destination_port || known q c.now c.source_ip d)
            else false)
    unfolding execute
    known-execute t le =
        ap (contains same_port q) (
          redis.smembers-expire c.now t (ports_key c.source_ip) context_ttl _ le
          ∙ ap (λ l. if ltb t (c.now + context_ttl * second) then l else [])
              (redis.smembers-other c.now c.now (attempts_key c.source_ip) (ports_key c.source_ip) _
                _ (omega arith) (attempts_key-ne-ports_key c.source_ip c.source_ip)))
        ∙ elim (Bool-cases (ltb t (c.now + context_ttl * second))) [
          | inl e ↦ rw e known-marked
          | inr e ↦ rw e
        ]

    known-execute_other :
        (t : ℕ) (ip : String)
        → c.now ≤ t
        → c.source_ip ≢ ip
        → known q t ip (execute redis text time_window c d).0 ≡ known q t ip d
    unfolding execute
    known-execute_other t ip le other =
        let ne = attempts_key-ne-ports_key c.source_ip ip in
        let ne' : ports_key c.source_ip ≢ ports_key ip =
          λ e. other (ports_key-injective c.source_ip ip e) in
        ap (contains same_port q) (
          redis.smembers-other c.now t (ports_key c.source_ip) (ports_key ip) _ _ le ne'
          ∙ redis.smembers-other c.now t (attempts_key c.source_ip) (ports_key ip) _ _ le ne
          ∙ redis.smembers-other c.now t (ports_key c.source_ip) (ports_key ip) _ _ le ne')
        ∙ known-trimmed t ip le

    known-own :
        (h : List Call) (ip : String) (t : ℕ)
        → c.now ≤ t
        → c.source_ip ≡ ip
        → known q c.now ip d ≡ contains same_port q (visited ip c.now h)
        → known q t ip (execute redis text time_window c d).0
          ≡ contains same_port q (
              if ltb t (c.now + context_ttl * second)
              then c.destination_port ∷ visited ip c.now h
              else [])
    known-own h ip t le own =
        subst
          (λ ip.
            known q c.now ip d ≡ contains same_port q (visited ip c.now h)
            → known q t ip (execute redis text time_window c d).0
              ≡ contains same_port q (
                  if ltb t (c.now + context_ttl * second)
                  then c.destination_port ∷ visited ip c.now h
                  else []))
          own
          (λ same. known-execute t le ∙ elim (Bool-cases (ltb t (c.now + context_ttl * second))) [
            | inl e ↦ rw e (ap (λ b. q == c.destination_port || b) same)
            | inr e ↦ rw e
          ])

  known-step :
      (q : ℕ) (c : Call) (h : List Call) (d : Db) (ip : String) (t : ℕ)
      → Before t (c ∷ h)
      → ((v : ℕ) → Before v h → known q v ip d ≡ contains same_port q (visited ip v h))
      → (if recorded c.outcome
          then known q t ip (execute redis text time_window c d).0
          else known q t ip d)
        ≡ contains same_port q (visited ip t (c ∷ h))
  known-step q c h d ip t b same =
      let now : known q t ip d ≡ contains same_port q (visited ip t h) =
        same t (Before-mono h c.now t (omega arith) b.1) in
      elim (Bool-cases (recorded c.outcome)) [
        | inl r ↦ elim (Bool-cases (str_eq c.source_ip ip)) [
          | inl e ↦
              rw (r, e)
                (known-own q c d h ip t (omega arith) ((eq_iff c.source_ip ip).0 e)
                  (same c.now b.1))
          | inr e ↦
              rw (r, e)
                (known-execute_other q c d t ip (omega arith)
                    (not_of_false _ (eq_iff c.source_ip ip) e)
                  ∙ now)
        ]
        | inr r ↦ rw r now
      ]

  module _ (s : IpContextStore Db) (empty : IsEmpty redis s.db) where
    pub known-after :
        (q : ℕ) (ip : String) (h : List Call) (t : ℕ)
        → Before t h
        → known q t ip (after redis text time_window h s).db ≡ contains same_port q (visited ip t h)
    unfolding after update_and_get
    known-after q ip [] t b = ap (contains same_port q) (empty t (ports_key ip)).1
    known-after q ip (c ∷ h) t b =
        let d = (after redis text time_window h s).db in
        known-answered q t ip c.outcome d (execute redis text time_window c d)
        ∙ known-step q c h d ip t b (known-after q ip h)
