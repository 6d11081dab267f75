-- ===== src/Detection/IpContext.antt =====
-- src/honeywatch/detection/ipcontext.py: the context of an address, kept in Redis. The server is a
-- parameter with the laws of its commands: `zset t k d` and `smembers t k d` are what stands under
-- the key at the time t. A call runs at one instant, which the worker and the server agree on. The
-- texts of a `float` and of an `int` are parameters too.
pub mod Keys
pub mod Window
pub mod Attempts
pub mod Ports
pub mod Answers
pub mod Server
pub mod Tests
use Prim.Native.String.{◌++◌ as ◌⧺◌}
use honeywatch.Prelude.{
  ℕ, ◌+◌, ◌*◌, ◌≤◌, ◌<◌, ◌≡◌, ◌≢◌, String, Text, Bool, true, false, ◌||◌, List, [], ◌∷◌, ◌++◌, All,
  length, filter, ltb, ◌==◌, if◌then◌else◌,
}
use honeywatch.Prelude.Int.{ℤ, pos, negsuc, sub_ℕ}
use honeywatch.Prelude.Groups.{contains, distinct}
use honeywatch.Detection.Classifier.{IpContext, empty_context}
use honeywatch.Detection.Backfill.{same_port}

abbrev pub attempts_key_prefix : String
attempts_key_prefix = "honeywatch:ipctx:attempts:"

abbrev pub ports_key_prefix : String
ports_key_prefix = "honeywatch:ipctx:ports:"

-- in seconds
abbrev pub context_ttl : ℕ
context_ttl = 3600

-- in the unit of instants
abbrev pub second : ℕ
second = 1000000

-- the commands that write under a key
pub data Command : Type 0 where
  zadd : Text → ℕ → Command
  zremrangebyscore : ℕ → ℤ → Command
  sadd : ℕ → Command
  expire : ℕ → Command

-- is the score of the entry outside of the range?
abbrev pub outside : ℕ → ℤ → Text × ℕ → Bool
outside lowest (pos highest) x = ltb x.1 lowest || ltb highest x.1
outside lowest (negsuc _) x = true

pub record RedisDb : Type 1 where
  pub Db : Type 0
  pub run : ℕ → String → Command → Db → Db
  pub zset : ℕ → String → Db → List (Text × ℕ)
  pub zcard : ℕ → String → Db → ℕ
  pub smembers : ℕ → String → Db → List ℕ
  -- a new member with the highest score goes to the end
  pub zset-zadd :
      (t : ℕ) (k : String) (m : Text) (s : ℕ) (d : Db)
      → All (λ x. (x.1 < s) × (x.0 ≢ m)) (zset t k d)
      → zset t k (run t k (zadd m s) d) ≡ zset t k d ++ (m, s) ∷ []
  pub zset-zremrangebyscore :
      (t : ℕ) (k : String) (lo : ℕ) (hi : ℤ) (d : Db)
      → zset t k (run t k (zremrangebyscore lo hi) d) ≡ filter (outside lo hi) (zset t k d)
  pub zcard_lem : (t : ℕ) (k : String) (d : Db) → zcard t k d ≡ length (zset t k d)
  pub smembers-sadd :
      (t : ℕ) (k : String) (p : ℕ) (d : Db) (q : ℕ)
      → contains same_port q (smembers t k (run t k (sadd p) d))
        ≡ (q == p || contains same_port q (smembers t k d))
  pub smembers-distinct :
      (t : ℕ) (k : String) (d : Db) → distinct same_port (smembers t k d) ≡ smembers t k d
  -- a key lives on until its time is over
  pub zset-expire :
      (t u : ℕ) (k : String) (ttl : ℕ) (d : Db)
      → t ≤ u
      → zset u k (run t k (expire ttl) d) ≡ (if ltb u (t + ttl * second) then zset t k d else [])
  pub smembers-expire :
      (t u : ℕ) (k : String) (ttl : ℕ) (d : Db)
      → t ≤ u
      → smembers u k (run t k (expire ttl) d)
        ≡ (if ltb u (t + ttl * second) then smembers t k d else [])
  -- a command leaves the other keys alone
  pub zset-other :
      (t u : ℕ) (k j : String) (c : Command) (d : Db)
      → t ≤ u
      → k ≢ j
      → zset u j (run t k c d) ≡ zset u j d
  pub smembers-other :
      (t u : ℕ) (k j : String) (c : Command) (d : Db)
      → t ≤ u
      → k ≢ j
      → smembers u j (run t k c d) ≡ smembers u j d

-- The text of a `float` has no colon, and different floats have different texts.
pub record NumberText : Type 0 where
  pub float_text : ℕ → Text
  pub int_text : ℕ → Text
  pub float_plain : (n : ℕ) → All (λ c. c ≢ b':') (float_text n)
  pub float_injective : (m n : ℕ) → float_text m ≡ float_text n → m ≡ n

-- How the pipeline ends: it is carried out; it fails and changes nothing; or it is carried out and
-- the connection breaks before the answer.
pub data Outcome : Type 0 where
  executed refused answer_lost : Outcome

-- a call of `update_and_get`: its arguments, `time.time()` and how the pipeline ends
pub record Call : Type 0 where
  pub source_ip : String
  pub destination_port : ℕ
  pub now : ℕ
  pub outcome : Outcome

pub record IpContextStore (Db : Type 0) : Type 0 where
  pub connected : Bool
  pub db : Db

abbrev pub attempts_key : String → String
attempts_key source_ip = attempts_key_prefix ⧺ source_ip

abbrev pub ports_key : String → String
ports_key source_ip = ports_key_prefix ⧺ source_ip

-- `now - time_window`
abbrev pub window_start : ℕ → ℕ → ℤ
window_start now time_window = sub_ℕ now (time_window * second)

-- `f"{now}:{destination_port}"`
abbrev pub member_of : NumberText → Call → Text
member_of text c = text.float_text c.now ++ b':' ∷ text.int_text c.destination_port

module _ (redis : RedisDb) (text : NumberText) (time_window : ℕ) where
  open redis use {Db, run, zcard, smembers}

  -- the first three commands of the pipeline
  abbrev pub trimmed : Call → Db → Db
  trimmed c d =
      let key = attempts_key c.source_ip in
      run c.now key (zremrangebyscore 0 (window_start c.now time_window))
        (run c.now key (zadd (member_of text c) c.now) d)

  abbrev pub marked : Call → Db → Db
  marked c d = run c.now (ports_key c.source_ip) (sadd c.destination_port) d

  -- `pipe.execute()`
  unfoldable pub execute : Call → Db → Db × IpContext
  execute c d =
      let attempts = trimmed c d in
      let ports = marked c attempts in
      (
        run c.now (ports_key c.source_ip) (expire context_ttl)
            (run c.now (attempts_key c.source_ip) (expire context_ttl) ports),
        record {
          recent_attempts = zcard c.now (attempts_key c.source_ip) attempts;
          distinct_ports = smembers c.now (ports_key c.source_ip) ports;
        },
      )

  -- what a call makes of the pipeline's end
  abbrev pub answered : Outcome → Db → Db × IpContext → IpContextStore Db × IpContext
  answered executed old (new, context) = (record { connected = true; db = new }, context)
  answered refused old (new, context) = (record { connected = true; db = old }, empty_context)
  answered answer_lost old (new, context) = (record { connected = true; db = new }, empty_context)

  unfoldable pub update_and_get : Call → IpContextStore Db → IpContextStore Db × IpContext
  update_and_get c s = answered c.outcome s.db (execute c s.db)

  -- the store after some calls, the last one first
  unfoldable pub after : List Call → IpContextStore Db → IpContextStore Db
  after [] s = s
  after (c ∷ earlier) s = (update_and_get c (after earlier s)).0

-- `close`
abbrev pub close : {Db : Type 0} → IpContextStore Db → IpContextStore Db
close s = record s { connected = false }
