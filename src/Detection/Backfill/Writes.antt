-- ===== src/Detection/Backfill/Writes.antt =====
-- What the backfill writes, and when it commits.
use mathlib.Core.List.{append-nil, append_assoc}
use honeywatch.Prelude.{
  ℕ, suc, ◌+◌, ◌-◌, ◌%◌, ◌≤◌, ◌<◌, ◌≡◌, refl, sym, subst, ap, ◌∙◌, inl, inr, ◌↔◌, String, true,
  false, List, [], ◌∷◌, ◌++◌, map, arith, length, length-append, filter, ◌==◌, str_eq, eq_iff,
  Bool-cases,
}
use honeywatch.Prelude.Groups.{distinct, contains-distinct}
use honeywatch.Detection.Rules.{DetectionRules}
use honeywatch.Detection.Classifier.{IpContext}
use honeywatch.Db.Models.{AttackEventModel}
use honeywatch.Db.Query.{OrderBy, of_ip}
use honeywatch.Detection.Backfill.{
  batch_size, IpContextBuilder, empty_builder, same_port, add_port, update_and_get, Write, Progress,
  commit_batch, unclassified, write_of, process, process_all, backfill,
}

-- The context of an address after some rows, the last one first: how many of them are its own, and
-- which ports these went to.
abbrev pub context_of : List AttackEventModel → String → IpContext
context_of seen ip = record {
  recent_attempts = length (of_ip ip seen);
  distinct_ports = distinct same_port (map (λ m. m.destination_port) (of_ip ip seen));
}

-- Each row is classified in the context of the rows up to it and with it.
abbrev pub writes : DetectionRules → List AttackEventModel → List AttackEventModel → List Write
writes rules seen [] = []
writes rules seen (m ∷ l) =
    write_of rules m (context_of (m ∷ seen) m.source_ip) ∷ writes rules (m ∷ seen) l

-- The builder knows the contexts of all addresses.
record Knows (seen : List AttackEventModel) (b : IpContextBuilder) : Type 0 where
  attempts : (ip : String) → b.attempts ip ≡ (context_of seen ip).recent_attempts
  ports : (ip : String) → b.ports ip ≡ (context_of seen ip).distinct_ports

pub same_port_iff : (a b : ℕ) → (same_port a b ≡ true) ↔ (a ≡ b)
same_port_iff a b = (λ h. ground arith, λ h. ground arith)

add_port-distinct :
    (k : ℕ) (l : List ℕ) → add_port k (distinct same_port l) ≡ distinct same_port (k ∷ l)
add_port-distinct k l = rw (contains-distinct same_port same_port_iff k l)

module _ (m : AttackEventModel) (seen : List AttackEventModel) where
  pub own : (ip : String) → str_eq m.source_ip ip ≡ true → of_ip ip (m ∷ seen) ≡ m ∷ of_ip ip seen
  own ip h = rw h

  other : (ip : String) → str_eq m.source_ip ip ≡ false → of_ip ip (m ∷ seen) ≡ of_ip ip seen
  other ip h = rw h

  swapped : (ip : String) → str_eq ip m.source_ip ≡ false → str_eq m.source_ip ip ≡ false
  swapped ip h = ground (arith, eq_iff ip m.source_ip, eq_iff m.source_ip ip)

  same_context :
      {a b : ℕ} {c d : List ℕ}
      → a ≡ b
      → c ≡ d
      → ◌≡◌ {A = IpContext}
          (record { recent_attempts = a; distinct_ports = c })
          (record { recent_attempts = b; distinct_ports = d })
  same_context p q = λ i. record { recent_attempts = p i; distinct_ports = q i }

  update-context :
      (b : IpContextBuilder)
      → Knows seen b
      → ((update_and_get m.source_ip m.destination_port b).1 ≡ context_of (m ∷ seen) m.source_ip)
        × Knows (m ∷ seen) (update_and_get m.source_ip m.destination_port b).0
  unfolding update_and_get
  update-context b k =
      let me : str_eq m.source_ip m.source_ip ≡ true = (eq_iff m.source_ip m.source_ip).1 refl in
      let tried : b.attempts m.source_ip + 1 ≡ (context_of (m ∷ seen) m.source_ip).recent_attempts =
        rw (own m.source_ip me) (omega (arith, k.attempts m.source_ip)) in
      let met : add_port m.destination_port (b.ports m.source_ip)
          ≡ (context_of (m ∷ seen) m.source_ip).distinct_ports =
        rw (own m.source_ip me, k.ports m.source_ip)
          (add_port-distinct m.destination_port
            (map (λ r. r.destination_port) (of_ip m.source_ip seen))) in
      (
        same_context tried met,
        record {
          attempts = λ ip. elim (Bool-cases (str_eq ip m.source_ip)) [
            | inl h ↦ rw h (
                subst (λ x. b.attempts m.source_ip + 1 ≡ length (of_ip x (m ∷ seen)))
                  (sym ((eq_iff ip m.source_ip).0 h)) tried)
            | inr h ↦ rw (h, other ip (swapped ip h)) (k.attempts ip)
          ];
          ports = λ ip. elim (Bool-cases (str_eq ip m.source_ip)) [
            | inl h ↦ rw h (
                subst
                  (λ x.
                    add_port m.destination_port (b.ports m.source_ip)
                    ≡ (context_of (m ∷ seen) x).distinct_ports)
                  (sym ((eq_iff ip m.source_ip).0 h)) met)
            | inr h ↦ rw (h, other ip (swapped ip h)) (k.ports ip)
          ];
        },
      )

-- how many writes wait for the next commit
record Batched (p : Progress) : Type 0 where
  waiting : length p.pending ≡ p.total_processed % batch_size

abbrev done : Progress → List Write
done p = p.committed ++ p.pending

commit_batch-done : (p : Progress) → done (commit_batch p) ≡ done p
commit_batch-done p = elim (Bool-cases (p.total_processed % batch_size == 0)) [
  | inl h ↦ rw h (append-nil (p.committed ++ p.pending))
  | inr h ↦ rw h
]

commit_batch-builder : (p : Progress) → (commit_batch p).builder ≡ p.builder
commit_batch-builder p = elim (Bool-cases (p.total_processed % batch_size == 0)) [
  | inl h ↦ rw h
  | inr h ↦ rw h
]

commit_batch-Batched :
    (p : Progress)
    → length p.pending ≡ suc ((p.total_processed - 1) % batch_size)
    → 1 ≤ p.total_processed
    → Batched (commit_batch p)
commit_batch-Batched p h g = elim (Bool-cases (p.total_processed % batch_size == 0)) [
  | inl e ↦ rw e (record { waiting = ground arith })
  | inr e ↦ rw e (record { waiting = ground arith })
]

process-Batched :
    (rules : DetectionRules) (m : AttackEventModel) (p : Progress)
    → Batched p
    → Batched (commit_batch (process rules m p))
unfolding update_and_get
process-Batched rules m p b =
    commit_batch-Batched (process rules m p)
      (omega (
        arith,
        length-append p.pending
            (write_of rules m (update_and_get m.source_ip m.destination_port p.builder).1 ∷ []),
        b.waiting,
      ))
      (omega arith)

module _ (rules : DetectionRules) where
  process-done :
      (m : AttackEventModel) (seen : List AttackEventModel) (p : Progress)
      → Knows seen p.builder
      → done (process rules m p)
        ≡ done p ++ write_of rules m (context_of (m ∷ seen) m.source_ip) ∷ []
  process-done m seen p k = rw ((update-context m seen p.builder k).0) (
      sym (
        append_assoc p.committed p.pending
          (write_of rules m (context_of (m ∷ seen) m.source_ip) ∷ [])))

  -- After some rows, what is committed and what waits are the writes of these rows in order, and less
  -- than a batch waits.
  process_all-done :
      (l seen : List AttackEventModel) (p : Progress)
      → Knows seen p.builder
      → Batched p
      → (done (process_all rules l p) ≡ done p ++ writes rules seen l)
        × Batched (process_all rules l p)
  unfolding process_all
  process_all-done [] seen p k b = (sym (append-nil (done p)), b)
  process_all-done (m ∷ l) seen p k b =
      let q : Progress = commit_batch (process rules m p) in
      let known : Knows (m ∷ seen) q.builder =
        subst (Knows (m ∷ seen)) (sym (commit_batch-builder (process rules m p)))
          (update-context m seen p.builder k).1 in
      let (e, c) = process_all-done l (m ∷ seen) q known (process-Batched rules m p b) in
      (
        e
            ∙ ap (λ x. x ++ writes rules (m ∷ seen) l)
                (commit_batch-done (process rules m p) ∙ process-done m seen p k)
            ∙ append_assoc (done p) (write_of rules m (context_of (m ∷ seen) m.source_ip) ∷ [])
                (writes rules (m ∷ seen) l),
        c,
      )

  abbrev pub start : Progress
  start = record { builder = empty_builder; pending = []; committed = []; total_processed = 0 }

  start-Knows : Knows [] empty_builder
  start-Knows = record { attempts = λ ip. refl; ports = λ ip. refl }

  -- A run writes the classification of each unclassified row once, in the order of their time, each in
  -- the context of the address's rows up to it: how many they are and which ports they went to. A run
  -- that is broken off after some rows has committed their writes but for less than a batch.
  pub backfill_lem :
      (order : OrderBy) (rows : List AttackEventModel)
      → (backfill rules order rows
          ≡ writes rules [] (order.asc (λ m. m.timestamp) (filter unclassified rows)))
        × ((l : List AttackEventModel)
            → ((process_all rules l start).committed ++ (process_all rules l start).pending
                ≡ writes rules [] l)
              × (length (process_all rules l start).pending < batch_size))
  unfolding backfill
  backfill_lem order rows =
      let run = λ (l : List AttackEventModel).
        process_all-done l [] start start-Knows (record { waiting = refl }) in
      (
        (run (order.asc (λ m. m.timestamp) (filter unclassified rows))).0,
        λ l. ((run l).0, omega (arith, (run l).1.waiting)),
      )
