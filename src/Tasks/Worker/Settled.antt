-- ===== src/Tasks/Worker/Settled.antt =====
-- What the worker acknowledges, over any number of rounds of its queue.
use honeywatch.Prelude.{
  ℕ, zero, suc, ◌+◌, ◌≡◌, ◌⊎◌, inl, inr, Bool, true, false, List, [], ◌∷◌, ◌++◌, Option, none, some,
  All, All-append, Exists, Bool-cases,
}
use honeywatch.Event.{AttackEvent}
use honeywatch.Db.Models.{AttackEventModel}
use honeywatch.Collector.Queue.{
  Reply, carried_out, busy_group, refused, unreachable, answer_lost, Result, succeeded,
  connection_error, other_error, Queue, ensure_consumer_group, xack, and_then, connect,
  connect_if_none, ack,
}
use honeywatch.Tasks.Worker.{
  Commit, stored, unsure, Store, Worker, save, ack_saved, retry, try_save, process_from,
}

-- Some row has the id.
abbrev pub HasId : ℕ → List AttackEventModel → Type 0
HasId id rows = Exists (λ m. m.id ≡ id) rows

-- The entry cannot be read, or the event in it is in the table.
abbrev pub Settled : (ℕ → Option AttackEvent) → List AttackEventModel → ℕ → Type 0
Settled parse rows entry_id =
    (parse entry_id ≡ none) ⊎ ((e : AttackEvent) × (parse entry_id ≡ some e) × HasId e.id rows)

-- Every acknowledged entry is settled.
abbrev pub Safe : (ℕ → Option AttackEvent) → Worker → Type 0
Safe parse w = All (Settled parse w.1.rows) w.0.acked

Exists-left : {A : Type 0} (P : A → Type 0) (l r : List A) → Exists P l → Exists P (l ++ r)
Exists-left P [] r h = absurd h
Exists-left P (a ∷ l) r (inl p) = inl p
Exists-left P (a ∷ l) r (inr h) = inr (Exists-left P l r h)

pub Exists-right : {A : Type 0} (P : A → Type 0) (l r : List A) → Exists P r → Exists P (l ++ r)
Exists-right P [] r h = h
Exists-right P (a ∷ l) r h = inr (Exists-right P l r h)

All-map : {A : Type 0} (P Q : A → Type 0) (l : List A) → ((a : A) → P a → Q a) → All P l → All Q l
All-map P Q [] f h = tt
All-map P Q (a ∷ l) f (p, h) = (f a p, All-map P Q l f h)

module _ (parse : ℕ → Option AttackEvent) where
  Settled-append :
      (rows more : List AttackEventModel) (n : ℕ)
      → Settled parse rows n
      → Settled parse (rows ++ more) n
  Settled-append rows more n (inl h) = inl h
  Settled-append rows more n (inr (e, h, k)) =
      inr (e, h, Exists-left (λ m. m.id ≡ e.id) rows more k)

  abbrev pub Acked : List AttackEventModel → Queue AttackEvent → Type 0
  Acked rows q = All (Settled parse rows) q.acked

  grown :
      (rows more : List AttackEventModel) (l : List ℕ)
      → All (Settled parse rows) l
      → All (Settled parse (rows ++ more)) l
  grown rows more l h =
      All-map (Settled parse rows) (Settled parse (rows ++ more)) l (Settled-append rows more) h

  xack-Acked :
      (rows : List AttackEventModel) (n : ℕ)
      → Settled parse rows n
      → (r : Reply) (q : Queue AttackEvent) → Acked rows q
      → Acked rows (xack n r q).0
  xack-Acked rows n h carried_out q a = All-append (Settled parse rows) q.acked (n ∷ []) a (h, tt)
  xack-Acked rows n h busy_group q a = a
  xack-Acked rows n h refused q a = a
  xack-Acked rows n h unreachable q a = a
  xack-Acked rows n h answer_lost q a = All-append (Settled parse rows) q.acked (n ∷ []) a (h, tt)

  pub group-Acked :
      (rows : List AttackEventModel) (r : Reply) (q : Queue AttackEvent)
      → Acked rows q
      → Acked rows (ensure_consumer_group r q).0
  group-Acked rows carried_out q a = a
  group-Acked rows busy_group q a = a
  group-Acked rows refused q a = a
  group-Acked rows unreachable q a = a
  group-Acked rows answer_lost q a = a

  and_then-Acked :
      (rows : List AttackEventModel) (p : Queue AttackEvent × Result)
      (k : Queue AttackEvent → Queue AttackEvent × Result)
      → Acked rows p.0
      → ((q : Queue AttackEvent) → Acked rows q → Acked rows (k q).0)
      → Acked rows (and_then p k).0
  and_then-Acked rows (q, succeeded) k a f = f q a
  and_then-Acked rows (q, connection_error) k a f = a
  and_then-Acked rows (q, other_error) k a f = a

  module _ (reply : ℕ → Reply) where
    pub connect_if_none-Acked :
        (rows : List AttackEventModel) (q : Queue AttackEvent)
        → Acked rows q
        → Acked rows (connect_if_none reply q).0
    unfolding connect
    connect_if_none-Acked rows q a = elim (Bool-cases q.connected) [
      | inl c ↦ rw c a
      | inr c ↦ rw c (group-Acked rows (reply q.calls) (record q { connected = true }) a)
    ]

    pub ack-Acked :
        (rows : List AttackEventModel) (n : ℕ)
        → Settled parse rows n
        → (q : Queue AttackEvent) → Acked rows q
        → Acked rows (ack reply n q).0
    unfolding ack
    ack-Acked rows n h q a =
        and_then-Acked rows (connect_if_none reply q) (λ p. xack n (reply p.calls) p)
          (connect_if_none-Acked rows q a) (λ p b. xack-Acked rows n h (reply p.calls) p b)

    module _ (db : ℕ → AttackEventModel → List AttackEventModel → Commit) where
      module _ (n : ℕ) (e : AttackEvent) (known : parse n ≡ some e) (m : AttackEventModel)
          (same : m.id ≡ e.id) where
        added-Settled : (rows : List AttackEventModel) → Settled parse (rows ++ m ∷ []) n
        added-Settled rows =
            inr (e, known, Exists-right (λ r. r.id ≡ e.id) rows (m ∷ []) (inl same))

        ack_saved-Safe :
            (c : Commit) (q : Queue AttackEvent) (s : Store)
            → Safe parse (q, s)
            → Safe parse (ack_saved reply n q (save m c s)).0
        ack_saved-Safe stored q s a =
            ack-Acked (s.rows ++ m ∷ []) n (added-Settled s.rows) q
              (grown s.rows (m ∷ []) q.acked a)
        ack_saved-Safe Commit.refused q s a = a
        ack_saved-Safe unsure q s a = grown s.rows (m ∷ []) q.acked a

        try_save-Safe : (w : Worker) → Safe parse w → Safe parse (try_save reply db n m w).0
        unfolding try_save
        try_save-Safe (q, s) a = ack_saved-Safe (db s.commits m s.rows) q s a

        retry-Safe :
            (again : Worker → Worker) (attempt left : ℕ) (p : Worker × Bool)
            → ((w : Worker) → Safe parse w → Safe parse (again w))
            → Safe parse p.0
            → Safe parse (retry again attempt left p)
        retry-Safe again attempt left (w, true) f a = a
        retry-Safe again attempt zero (w, false) f a = a
        retry-Safe again attempt (suc left) ((q, s), false) f a = f _ a

        pub process_from-Safe :
            (left attempt : ℕ) (w : Worker)
            → Safe parse w
            → Safe parse (process_from reply db n m left attempt w)
        unfolding process_from
        process_from-Safe zero attempt w a = a
        process_from-Safe (suc left) attempt w a =
            retry-Safe (process_from reply db n m left (attempt + 1)) attempt left
              (try_save reply db n m w) (process_from-Safe left (attempt + 1)) (try_save-Safe w a)
