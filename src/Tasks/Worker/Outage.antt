-- ===== src/Tasks/Worker/Outage.antt =====
-- A single event on its way into the table: how long the database may fail, and what becomes of an
-- event that is there already.
use honeywatch.Prelude.{
  ℕ, zero, suc, ◌+◌, ◌<◌, ◌≡◌, refl, ap, subst, ◌∙◌, true, false, List, [], ◌∷◌, ◌++◌, Option,
  arith,
}
use honeywatch.Event.{AttackEvent}
use honeywatch.Detection.Rules.{DetectionRules}
use honeywatch.Detection.Classifier.{IpContext}
use honeywatch.Db.Models.{AttackEventModel}
use honeywatch.Collector.Queue.{Reply, carried_out, Queue}
use honeywatch.Collector.Served.{marked, ack_first}
use honeywatch.Tasks.Worker.{
  Commit, stored, refused, Store, Worker, classify_event, model_of, retry, try_save, process_from,
  process_event, db_max_retries,
}
use honeywatch.Tasks.Worker.Settled.{HasId}

-- the waits after the given attempts, from the first one on
abbrev pub waits : ℕ → ℕ → ℕ
waits attempt zero = 0
waits attempt (suc n) = (attempt + 1) + waits (attempt + 1) n

module _ (reply : ℕ → Reply) (db : ℕ → AttackEventModel → List AttackEventModel → Commit) where
  refused-try :
      (n : ℕ) (m : AttackEventModel) (q : Queue AttackEvent) (s : Store)
      → db s.commits m s.rows ≡ refused
      → try_save reply db n m (q, s) ≡ ((q, record s { commits = s.commits + 1 }), false)
  unfolding try_save
  refused-try n m q s h = rw h

  -- the state after a failed try and its wait
  abbrev waited : ℕ → Store → Store
  waited attempt s = record s { commits = s.commits + 1; slept = s.slept + (attempt + 1) }

  refused-step :
      (n : ℕ) (m : AttackEventModel) (left attempt : ℕ) (q : Queue AttackEvent) (s : Store)
      → db s.commits m s.rows ≡ refused
      → process_from reply db n m (suc (suc left)) attempt (q, s)
        ≡ process_from reply db n m (suc left) (attempt + 1) (q, waited attempt s)
  unfolding process_from
  refused-step n m left attempt q s h =
      ap (retry (process_from reply db n m (suc left) (attempt + 1)) attempt (suc left))
        (refused-try n m q s h)

  same_store :
      (q : Queue AttackEvent) (rows : List AttackEventModel) (a b c d : ℕ)
      → a ≡ b
      → c ≡ d
      → ◌≡◌ {A = Worker}
          (q, record { rows = rows; commits = a; slept = c })
          (q, record { rows = rows; commits = b; slept = d })
  same_store q rows a b c d h k = rw (h, k) refl

  -- Where the database refuses every try, nothing happens but the waits between them.
  refused-process :
      (n : ℕ) (m : AttackEventModel) (left attempt : ℕ) (q : Queue AttackEvent) (s : Store)
      → ((k : ℕ) → db k m s.rows ≡ refused)
      → process_from reply db n m (suc left) attempt (q, s)
        ≡ (q, record s { commits = s.commits + suc left; slept = s.slept + waits attempt left })
  unfolding process_from
  refused-process n m zero attempt q s h =
      rw (refused-try n m q s (h s.commits))
        (same_store q s.rows _ _ _ _ (omega arith) (omega arith))
  refused-process n m (suc left) attempt q s h =
      refused-step n m left attempt q s (h s.commits)
      ∙ refused-process n m left (attempt + 1) q (waited attempt s) h
      ∙ same_store q s.rows _ _ _ _ (omega arith) (omega arith)

  stored-try :
      (n : ℕ) (m : AttackEventModel) (q : Queue AttackEvent) (s : Store)
      → db s.commits m s.rows ≡ stored
      → q.connected ≡ true
      → reply q.calls ≡ carried_out
      → try_save reply db n m (q, s)
        ≡ ((marked n q, record s { rows = s.rows ++ m ∷ []; commits = s.commits + 1 }), true)
  unfolding try_save
  stored-try n m q s h c a = rw (h, ack_first reply n q c a)

  at :
      (m : AttackEventModel) (rows : List AttackEventModel) (c : Commit) {i j : ℕ}
      → i ≡ j
      → db i m rows ≡ c
      → db j m rows ≡ c
  at m rows c e h = subst (λ i. db i m rows ≡ c) e h

  -- The entry's event when the k-th try is the first that stores the row.
  stored-process :
      (n : ℕ) (m : AttackEventModel) (k tries attempt : ℕ) (q : Queue AttackEvent) (s : Store)
      → k < tries
      → ((j : ℕ) → j < k → db (s.commits + j) m s.rows ≡ refused)
      → db (s.commits + k) m s.rows ≡ stored
      → q.connected ≡ true
      → reply q.calls ≡ carried_out
      → process_from reply db n m tries attempt (q, s) ≡ (
        marked n q,
        record s {
          rows = s.rows ++ m ∷ [];
          commits = s.commits + suc k;
          slept = s.slept + waits attempt k;
        },
      )
  unfolding process_from
  stored-process n m k zero attempt q s l h y c a = absurd (omega arith)
  stored-process n m zero (suc left) attempt q s l h y c a =
      ap (retry (process_from reply db n m left (attempt + 1)) attempt left)
        (stored-try n m q s (at m s.rows stored (omega arith) y) c a)
      ∙ same_store _ _ _ _ _ _ (omega arith) (omega arith)
  stored-process n m (suc k) (suc zero) attempt q s l h y c a = absurd (omega arith)
  stored-process n m (suc k) (suc (suc left)) attempt q s l h y c a =
      refused-step n m left attempt q s (at m s.rows refused (omega arith) (h 0 (omega arith)))
      ∙ stored-process n m k (suc left) (attempt + 1) q (waited attempt s) (omega arith)
          (λ j b. at m s.rows refused (omega arith) (h (suc j) (omega arith)))
          (at m s.rows stored (omega arith) y) c a
      ∙ same_store _ _ _ _ _ _ (omega arith) (omega arith)

  module _ (rules : DetectionRules) (context : Option IpContext) (n : ℕ) (e : AttackEvent) where
    abbrev row : AttackEventModel
    row = model_of e (classify_event rules context e)

    -- An outage of the database that ends before the tenth try costs nothing but time: if the first
    -- k commits fail, k being less than ten, and the next one succeeds on a connected queue that
    -- carries out the acknowledgement, then the classified event is appended to the table, its entry
    -- is acknowledged, once each, and the worker has slept 1 + … + k units.
    pub process_event-stored :
        (k : ℕ) (q : Queue AttackEvent) (s : Store)
        → k < db_max_retries
        → ((j : ℕ)
            → j < k
            → db (s.commits + j) (model_of e (classify_event rules context e)) s.rows ≡ refused)
        → db (s.commits + k) (model_of e (classify_event rules context e)) s.rows ≡ stored
        → q.connected ≡ true
        → reply q.calls ≡ carried_out
        → process_event reply db rules context n e (q, s) ≡ (
          marked n q,
          record s {
            rows = s.rows ++ model_of e (classify_event rules context e) ∷ [];
            commits = s.commits + suc k;
            slept = s.slept + waits 0 k;
          },
        )
    unfolding process_event
    process_event-stored k q s l h y c a = stored-process n row k db_max_retries 0 q s l h y c a

    -- If the database refuses a second row with the id of another, as a primary key makes it, then an
    -- event that is in the table already is never acknowledged: the ten tries fail, and the worker
    -- sleeps forty-five units in vain.
    pub process_event-again :
        ((k : ℕ) (m : AttackEventModel) (rows : List AttackEventModel)
          → HasId m.id rows
          → db k m rows ≡ refused)
        → (q : Queue AttackEvent) (s : Store) → HasId e.id s.rows
        → process_event reply db rules context n e (q, s)
          ≡ (q, record s { commits = s.commits + 10; slept = s.slept + 45 })
    unfolding process_event
    process_event-again key q s known = refused-process n row 9 0 q s (λ k. key k row s.rows known)
