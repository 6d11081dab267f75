-- ===== src/Detection/IpContext/Attempts.antt =====
-- The sorted sets of the context store after any calls, and the attempts that a call reads there.
use honeywatch.Prelude.{
  ℕ, suc, ◌+◌, ◌*◌, ◌≤◌, ◌<◌, ◌≡◌, ◌≢◌, refl, sym, subst, ap, ◌∙◌, inl, inr, String, List, [], ◌∷◌,
  ◌++◌, All, arith, length, length-append, filter, filter-append, ltb, str_eq, eq_iff, Bool-cases,
  not_of_false, if◌then◌else◌,
}
use honeywatch.Detection.Classifier.{IpContext}
use honeywatch.Detection.IpContext.{
  RedisDb, NumberText, Outcome, executed, refused, answer_lost, Call, IpContextStore, context_ttl,
  second, window_start, attempts_key, ports_key, member_of, trimmed, execute, answered,
  update_and_get, after,
}
use honeywatch.Detection.IpContext.Window.{
  recorded, Before, Before-mono, recent, outside_lem, in_window, entry, kept, kept-fresh,
  count_kept,
}
use honeywatch.Detection.IpContext.Keys.{attempts_key-injective, attempts_key-ne-ports_key}

-- nothing stands under any key
abbrev pub IsEmpty : (redis : RedisDb) → redis.Db → Type 0
IsEmpty redis d = (t : ℕ) (k : String) → (redis.zset t k d ≡ []) × (redis.smembers t k d ≡ [])

module _ (redis : RedisDb) (text : NumberText) (time_window : ℕ) where
  open redis use {Db, zset, smembers}

  zset-answered :
      (t : ℕ) (k : String) (o : Outcome) (old : Db) (p : Db × IpContext)
      → zset t k (answered redis text time_window o old p).0.db
        ≡ (if recorded o then zset t k p.0 else zset t k old)
  zset-answered t k executed old p = refl
  zset-answered t k refused old p = refl
  zset-answered t k answer_lost old p = refl

  module _ (c : Call) (d : Db) where
    -- the sorted set before the pipeline's last commands
    zset-trimmed :
        All
          (λ x. (x.1 < c.now) × (x.0 ≢ member_of text c))
          (zset c.now (attempts_key c.source_ip) d)
        → zset c.now (attempts_key c.source_ip) (trimmed redis text time_window c d)
          ≡ filter
              (in_window text time_window c.now)
              (zset c.now (attempts_key c.source_ip) d ++ (member_of text c, c.now) ∷ [])
    zset-trimmed fresh =
        redis.zset-zremrangebyscore c.now (attempts_key c.source_ip) 0
          (window_start c.now time_window) _
        ∙ ap (filter (in_window text time_window c.now))
            (redis.zset-zadd c.now (attempts_key c.source_ip) (member_of text c) c.now d fresh)

    zset-execute :
        (t : ℕ)
        → c.now ≤ t
        → zset t (attempts_key c.source_ip) (execute redis text time_window c d).0 ≡ (
            if ltb t (c.now + context_ttl * second)
            then zset c.now (attempts_key c.source_ip) (trimmed redis text time_window c d)
            else [])
    unfolding execute
    zset-execute t le =
        let ne : ports_key c.source_ip ≢ attempts_key c.source_ip =
          λ e. attempts_key-ne-ports_key c.source_ip c.source_ip (sym e) in
        redis.zset-other c.now t (ports_key c.source_ip) (attempts_key c.source_ip) _ _ le ne
        ∙ redis.zset-expire c.now t (attempts_key c.source_ip) context_ttl _ le
        ∙ ap (λ l. if ltb t (c.now + context_ttl * second) then l else [])
            (redis.zset-other c.now c.now (ports_key c.source_ip) (attempts_key c.source_ip) _ _
              (omega arith) ne)

    zset-execute_other :
        (t : ℕ) (ip : String)
        → c.now ≤ t
        → c.source_ip ≢ ip
        → zset t (attempts_key ip) (execute redis text time_window c d).0
          ≡ zset t (attempts_key ip) d
    unfolding execute
    zset-execute_other t ip le other =
        let ne : ports_key c.source_ip ≢ attempts_key ip =
          λ e. attempts_key-ne-ports_key ip c.source_ip (sym e) in
        let ne' : attempts_key c.source_ip ≢ attempts_key ip =
          λ e. other (attempts_key-injective c.source_ip ip e) in
        redis.zset-other c.now t (ports_key c.source_ip) (attempts_key ip) _ _ le ne
        ∙ redis.zset-other c.now t (attempts_key c.source_ip) (attempts_key ip) _ _ le ne'
        ∙ redis.zset-other c.now t (ports_key c.source_ip) (attempts_key ip) _ _ le ne
        ∙ redis.zset-other c.now t (attempts_key c.source_ip) (attempts_key ip) _ _ le ne'
        ∙ redis.zset-other c.now t (attempts_key c.source_ip) (attempts_key ip) _ _ le ne'

  -- A call that is carried out adds its entry to the sorted set of its address.
  zset-own :
      (c : Call) (h : List Call) (d : Db) (ip : String) (t : ℕ)
      → Before c.now h
      → c.now ≤ t
      → c.source_ip ≡ ip
      → zset c.now (attempts_key ip) d ≡ kept text time_window ip c.now h
      → zset t (attempts_key ip) (execute redis text time_window c d).0 ≡ (
          if ltb t (c.now + context_ttl * second)
          then filter
              (in_window text time_window c.now)
              (kept text time_window ip c.now h ++ entry text time_window c ∷ [])
          else [])
  zset-own c h d ip t b le own =
      subst
        (λ ip.
          zset c.now (attempts_key ip) d ≡ kept text time_window ip c.now h
          → zset t (attempts_key ip) (execute redis text time_window c d).0 ≡ (
              if ltb t (c.now + context_ttl * second)
              then filter (in_window text time_window c.now)
                  (kept text time_window ip c.now h ++ entry text time_window c ∷ [])
              else []))
        own
        (λ same.
          zset-execute c d t le
          ∙ ap (λ l. if ltb t (c.now + context_ttl * second) then l else [])
              (zset-trimmed c d (
                  subst (All (λ x. (x.1 < c.now) × (x.0 ≢ member_of text c))) (sym same)
                    (kept-fresh text time_window c h c.source_ip b))
                ∙ ap
                    (λ l.
                      filter (in_window text time_window c.now)
                        (l ++ entry text time_window c ∷ []))
                    same))

  zset-step :
      (c : Call) (h : List Call) (d : Db) (ip : String) (t : ℕ)
      → Before t (c ∷ h)
      → ((v : ℕ) → Before v h → zset v (attempts_key ip) d ≡ kept text time_window ip v h)
      → (if recorded c.outcome
          then zset t (attempts_key ip) (execute redis text time_window c d).0
          else zset t (attempts_key ip) d)
        ≡ kept text time_window ip t (c ∷ h)
  zset-step c h d ip t b same =
      let now : zset t (attempts_key ip) d ≡ kept text time_window ip t h =
        same t (Before-mono h c.now t (omega arith) b.1) in
      elim (Bool-cases (recorded c.outcome)) [
        | inl r ↦ elim (Bool-cases (str_eq c.source_ip ip)) [
          | inl e ↦
              rw (r, e)
                (zset-own c h d ip t b.1 (omega arith) ((eq_iff c.source_ip ip).0 e)
                  (same c.now b.1))
          | inr e ↦
              rw (r, e)
                (zset-execute_other c d t ip (omega arith)
                    (not_of_false _ (eq_iff c.source_ip ip) e)
                  ∙ now)
        ]
        | inr r ↦ rw r now
      ]

  module _ (s : IpContextStore Db) (empty : IsEmpty redis s.db) where
    -- The sorted sets hold what the calls say, from the last call on.
    zset-after :
        (ip : String) (h : List Call) (t : ℕ)
        → Before t h
        → zset t (attempts_key ip) (after redis text time_window h s).db
          ≡ kept text time_window ip t h
    unfolding after update_and_get
    zset-after ip [] t b = (empty t (attempts_key ip)).0
    zset-after ip (c ∷ h) t b =
        let d = (after redis text time_window h s).db in
        zset-answered t (attempts_key ip) c.outcome d (execute redis text time_window c d)
        ∙ zset-step c h d ip t b (zset-after ip h)

    pub attempts_lem :
        (c : Call) (h : List Call)
        → Before c.now h
        → 1 ≤ time_window
        → time_window ≤ context_ttl
        → (execute redis text time_window c (after redis text time_window h s).db).1.recent_attempts
          ≡ suc (recent time_window c.source_ip c.now h)
    unfolding execute
    attempts_lem c h b pos w =
        let d = (after redis text time_window h s).db in
        let same = zset-after c.source_ip h c.now b in
        redis.zcard_lem c.now (attempts_key c.source_ip) _
        ∙ ap length (
            zset-trimmed c d (
              subst (All (λ x. (x.1 < c.now) × (x.0 ≢ member_of text c))) (sym same)
                (kept-fresh text time_window c h c.source_ip b))
            ∙ filter-append (in_window text time_window c.now)
                (zset c.now (attempts_key c.source_ip) d) (entry text time_window c ∷ [])
            ∙ ap
                (λ l.
                  filter (in_window text time_window c.now) l
                  ++ filter (in_window text time_window c.now) (entry text time_window c ∷ []))
                same)
        ∙ length-append
            (filter (in_window text time_window c.now) (kept text time_window c.source_ip c.now h))
            (filter (in_window text time_window c.now) (entry text time_window c ∷ []))
        ∙ ground (
          arith,
          outside_lem time_window c.now (member_of text c, c.now),
          count_kept text time_window w c.source_ip c.now c.now h b,
        )
