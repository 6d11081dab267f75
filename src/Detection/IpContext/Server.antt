-- ===== src/Detection/IpContext/Server.antt =====
-- A server in memory that meets the laws of the commands.
use honeywatch.Prelude.{
  ℕ, ◌+◌, ◌*◌, ◌≤◌, ◌≡◌, ◌≢◌, refl, sym, ap, ◌∙◌, inl, inr, String, Text, ◌||◌, List, [], ◌∷◌, ◌++◌,
  All, Option, none, some, arith, length, filter, ltb, ◌==◌, str_eq, eq_iff, Bool-cases,
  if◌then◌else◌,
}
use honeywatch.Prelude.Int.{ℤ}
use honeywatch.Prelude.Groups.{contains, distinct, contains-distinct, distinct_idem}
use honeywatch.Detection.Backfill.{same_port}
use honeywatch.Detection.Backfill.Writes.{same_port_iff}
use honeywatch.Detection.IpContext.{
  Command, zadd, zremrangebyscore, sadd, expire, second, outside, RedisDb, NumberText,
}

-- a key's value and the end of its life, if it has one
pub record Entry (A : Type 0) : Type 0 where
  pub items : List A
  pub deadline : Option ℕ

pub record Memory : Type 0 where
  pub zsets : String → Entry (Text × ℕ)
  pub sets : String → Entry ℕ

module _ {A : Type 0} where
  abbrev pub live : ℕ → Entry A → List A
  live t e = elim e.deadline [ none ↦ e.items | some u ↦ if ltb t u then e.items else [] ]

  -- a write at `t`: a key that was dead has no deadline
  abbrev pub write : ℕ → List A → Entry A → Entry A
  write t items e = record {
    items = items;
    deadline = elim e.deadline [ none ↦ none | some u ↦ if ltb t u then some u else none ];
  }

  abbrev pub limit : ℕ → ℕ → Entry A → Entry A
  limit t ttl e = record { items = live t e; deadline = some (t + ttl * second) }

  abbrev pub at_key : String → (Entry A → Entry A) → (String → Entry A) → String → Entry A
  at_key k f m j = if str_eq j k then f (m j) else m j

  pub live-write : (t : ℕ) (items : List A) (e : Entry A) → live t (write t items e) ≡ items
  live-write t items e = ground arith

  pub live-at_key :
      (t : ℕ) (k : String) (f : Entry A → Entry A) (m : String → Entry A)
      → live t (at_key k f m k) ≡ live t (f (m k))
  live-at_key t k f m = rw ((eq_iff k k).1 refl)

  pub live-at_other :
      (t : ℕ) (k j : String) (f : Entry A → Entry A) (m : String → Entry A)
      → k ≢ j
      → live t (at_key k f m j) ≡ live t (m j)
  live-at_other t k j f m ne = elim (Bool-cases (str_eq j k)) [
    | inl e ↦ absurd (ne (sym ((eq_iff j k).0 e)))
    | inr e ↦ rw e
  ]

abbrev pub push : ℕ → Text → ℕ → Entry (Text × ℕ) → Entry (Text × ℕ)
push t m s e = write t (live t e ++ (m, s) ∷ []) e

abbrev pub trim : ℕ → ℕ → ℤ → Entry (Text × ℕ) → Entry (Text × ℕ)
trim t lo hi e = write t (filter (outside lo hi) (live t e)) e

abbrev pub mark : ℕ → ℕ → Entry ℕ → Entry ℕ
mark t p e = write t (p ∷ live t e) e

abbrev pub run : ℕ → String → Command → Memory → Memory
run t k (zadd m s) d = record d { zsets = at_key k (push t m s) d.zsets }
run t k (zremrangebyscore lo hi) d = record d { zsets = at_key k (trim t lo hi) d.zsets }
run t k (sadd p) d = record d { sets = at_key k (mark t p) d.sets }
run t k (expire ttl) d = record {
  zsets = at_key k (limit t ttl) d.zsets;
  sets = at_key k (limit t ttl) d.sets;
}

abbrev pub zset : ℕ → String → Memory → List (Text × ℕ)
zset t k d = live t (d.zsets k)

abbrev pub smembers : ℕ → String → Memory → List ℕ
smembers t k d = distinct same_port (live t (d.sets k))

pub zset-other :
    (t u : ℕ) (k j : String) (c : Command) (d : Memory)
    → t ≤ u
    → k ≢ j
    → zset u j (run t k c d) ≡ zset u j d
zset-other t u k j (zadd m s) d le ne = live-at_other u k j (push t m s) d.zsets ne
zset-other t u k j (zremrangebyscore lo hi) d le ne = live-at_other u k j (trim t lo hi) d.zsets ne
zset-other t u k j (sadd p) d le ne = refl
zset-other t u k j (expire ttl) d le ne = live-at_other u k j (limit t ttl) d.zsets ne

pub smembers-other :
    (t u : ℕ) (k j : String) (c : Command) (d : Memory)
    → t ≤ u
    → k ≢ j
    → smembers u j (run t k c d) ≡ smembers u j d
smembers-other t u k j (zadd m s) d le ne = refl
smembers-other t u k j (zremrangebyscore lo hi) d le ne = refl
smembers-other t u k j (sadd p) d le ne =
    ap (distinct same_port) (live-at_other u k j (mark t p) d.sets ne)
smembers-other t u k j (expire ttl) d le ne =
    ap (distinct same_port) (live-at_other u k j (limit t ttl) d.sets ne)

pub smembers-sadd :
    (t : ℕ) (k : String) (p : ℕ) (d : Memory) (q : ℕ)
    → contains same_port q (smembers t k (run t k (sadd p) d))
      ≡ (q == p || contains same_port q (smembers t k d))
smembers-sadd t k p d q =
    let old = live t (d.sets k) in
    let new : live t (at_key k (mark t p) d.sets k) ≡ p ∷ old =
      live-at_key t k (mark t p) d.sets ∙ live-write t (p ∷ old) (d.sets k) in
    contains-distinct same_port same_port_iff q (live t (at_key k (mark t p) d.sets k))
    ∙ ap (contains same_port q) new
    ∙ ap (λ b. q == p || b) (sym (contains-distinct same_port same_port_iff q old))

pub smembers-expire :
    (t u : ℕ) (k : String) (ttl : ℕ) (d : Memory)
    → t ≤ u
    → smembers u k (run t k (expire ttl) d)
      ≡ (if ltb u (t + ttl * second) then smembers t k d else [])
smembers-expire t u k ttl d le =
    ap (distinct same_port) (live-at_key u k (limit t ttl) d.sets)
    ∙ elim (Bool-cases (ltb u (t + ttl * second))) [ inl e ↦ rw e | inr e ↦ rw e ]

abbrev pub server : RedisDb
server = record {
  Db = Memory;
  run = run;
  zset = zset;
  zcard = λ t k d. length (zset t k d);
  smembers = smembers;
  zset-zadd = λ t k m s d fresh.
      live-at_key t k (push t m s) d.zsets
      ∙ live-write t (live t (d.zsets k) ++ (m, s) ∷ []) (d.zsets k);
  zset-zremrangebyscore = λ t k lo hi d.
      live-at_key t k (trim t lo hi) d.zsets
      ∙ live-write t (filter (outside lo hi) (live t (d.zsets k))) (d.zsets k);
  zcard_lem = λ t k d. refl;
  smembers-sadd = smembers-sadd;
  smembers-distinct = λ t k d. distinct_idem same_port same_port_iff (live t (d.sets k));
  zset-expire = λ t u k ttl d le. live-at_key u k (limit t ttl) d.zsets;
  smembers-expire = smembers-expire;
  zset-other = zset-other;
  smembers-other = smembers-other;
}

abbrev pub no_keys : Memory
no_keys = record {
  zsets = λ _. record { items = []; deadline = none };
  sets = λ _. record { items = []; deadline = none };
}

-- Some texts of numbers: any without a colon serve, as long as they differ.
pub texts-plain : (n : ℕ) → All (λ c. c ≢ b':') ((n + 59) ∷ [])
texts-plain n = (λ e. absurd (omega (arith, e)), tt)

pub texts-injective : (m n : ℕ) → ◌≡◌ {A = Text} ((m + 59) ∷ []) ((n + 59) ∷ []) → m ≡ n
texts-injective m n e = ground arith

abbrev pub texts : NumberText
texts = record {
  float_text = λ n. (n + 59) ∷ [];
  int_text = λ n. n ∷ [];
  float_plain = texts-plain;
  float_injective = texts-injective;
}
