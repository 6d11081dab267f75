-- ===== src/Detection/Backfill/Table.antt =====
-- The table after a backfill: the UPDATEs of a run, one after the other.
use mathlib.Core.Bool.{Bool-set}
use mathlib.Core.Logic.Or
use mathlib.Core.List.{Mem, mem-cons, mem-cons_self, mem-cons_of_mem, not-mem-nil}
use mathlib.Core.List.Perm
use honeywatch.Prelude.{
  ℕ, ◌≡◌, refl, sym, subst, ap, ◌∙◌, inl, inr, true, false, List, [], ◌∷◌, map, some, arith, filter,
  ◌==◌, Bool-cases, if◌then◌else◌,
}
use honeywatch.Detection.Rules.{DetectionRules}
use honeywatch.Detection.Classifier.{ClassificationResult}
use honeywatch.Db.Models.{AttackEventModel}
use honeywatch.Db.Query.{OrderBy}
use honeywatch.Detection.Backfill.{Write, unclassified, backfill}
use honeywatch.Detection.Backfill.Writes.{writes, backfill_lem}

-- `update(AttackEventModel).where(id == …).values(…)`, on one row
abbrev pub update : Write → AttackEventModel → AttackEventModel
update (id, c) m =
    if m.id == id
    then record m { attack_type = some c.attack_type; severity = some c.severity }
    else m

-- a row after some updates
abbrev pub updated : List Write → AttackEventModel → AttackEventModel
updated [] m = m
updated (w ∷ ws) m = updated ws (update w m)

abbrev pub apply : List Write → List AttackEventModel → List AttackEventModel
apply ws rows = map (updated ws) rows

update-id : (w : Write) (m : AttackEventModel) → (update w m).id ≡ m.id
update-id (id, c) m = ground arith

stays :
    (w : Write) (m : AttackEventModel) → unclassified m ≡ false → unclassified (update w m) ≡ false
stays (id, c) m h = elim (Bool-cases (m.id == id)) [ inl e ↦ rw e refl | inr e ↦ rw e h ]

all_stay :
    (ws : List Write) (m : AttackEventModel)
    → unclassified m ≡ false
    → unclassified (updated ws m) ≡ false
all_stay [] m h = h
all_stay (w ∷ ws) m h = all_stay ws (update w m) (stays w m h)

own_update :
    (id : ℕ) (c : ClassificationResult) (m : AttackEventModel)
    → m.id ≡ id
    → unclassified (update (id, c) m) ≡ false
own_update id c m e = let same : (m.id == id) ≡ true = ground arith in rw same refl

-- A row with the id of a write is classified.
hit :
    (ws : List Write) (m : AttackEventModel)
    → Mem m.id (map (λ w. w.0) ws)
    → unclassified (updated ws m) ≡ false
hit [] m h = absurd (not-mem-nil h)
hit ((id, c) ∷ ws) m h =
    Or.elim (Bool-set _ _) (mem-cons.0 h)
      (λ e. all_stay ws (update (id, c) m) (own_update id c m e))
      (λ k.
        hit ws (update (id, c) m)
          (subst (λ i. Mem i (map (λ w. w.0) ws)) (sym (update-id (id, c) m)) k))

ids-writes :
    (rules : DetectionRules) (seen l : List AttackEventModel)
    → map (λ w. w.0) (writes rules seen l) ≡ map (λ m. m.id) l
ids-writes rules seen [] = refl
ids-writes rules seen (m ∷ l) = ap (λ x. m.id ∷ x) (ids-writes rules (m ∷ seen) l)

-- Rows whose own ids are written, where they are unclassified, are all classified.
none_left :
    (ws : List Write) (rows : List AttackEventModel)
    → ((i : ℕ) → Mem i (map (λ m. m.id) (filter unclassified rows)) → Mem i (map (λ w. w.0) ws))
    → filter unclassified (apply ws rows) ≡ []
none_left ws [] h = refl
none_left ws (m ∷ rows) h = elim (Bool-cases (unclassified m)) [
  | inl u ↦
      let g : (i : ℕ)
          → Mem i (m.id ∷ map (λ m. m.id) (filter unclassified rows))
          → Mem i (map (λ w. w.0) ws) =
        rw u at h in
      rw (hit ws m (g m.id mem-cons_self)) (none_left ws rows (λ i k. g i (mem-cons_of_mem m.id k)))
  | inr u ↦
      let g : (i : ℕ)
          → Mem i (map (λ m. m.id) (filter unclassified rows))
          → Mem i (map (λ w. w.0) ws) =
        rw u at h in
      rw (all_stay ws m u) (none_left ws rows g)
]

module _ (rules : DetectionRules) (order : OrderBy) where
  written_ids :
      (rows : List AttackEventModel)
      → map (λ w. w.0) (backfill rules order rows)
        ≡ map (λ m. m.id) (order.asc (λ m. m.timestamp) (filter unclassified rows))
  written_ids rows =
      ap (map (λ w. w.0)) (backfill_lem rules order rows).0
      ∙ ids-writes rules [] (order.asc (λ m. m.timestamp) (filter unclassified rows))

  abbrev by_time : List AttackEventModel → List AttackEventModel
  by_time l = order.asc (λ m. m.timestamp) l

  no_rows : by_time [] ≡ []
  no_rows = Perm.eq-nil (order.asc_perm (λ (m : AttackEventModel). m.timestamp) [])

  -- After a run every row of the table is classified, so a second run writes nothing.
  pub backfill-apply :
      (rows : List AttackEventModel)
      → (filter unclassified (apply (backfill rules order rows) rows) ≡ [])
        × (backfill rules order (apply (backfill rules order rows) rows) ≡ [])
  backfill-apply rows =
      let ws = backfill rules order rows in
      let left : filter unclassified (apply ws rows) ≡ [] = none_left ws rows (λ i k.
        subst (Mem i) (sym (written_ids rows)) (
          (Perm.mem_iff (
              Perm.map (λ m. m.id)
                (order.asc_perm (λ m. m.timestamp) (filter unclassified rows)))).1
            k)) in
      (
        left,
        (backfill_lem rules order (apply ws rows)).0
            ∙ ap (λ l. writes rules [] (order.asc (λ m. m.timestamp) l)) left
            ∙ ap (writes rules []) no_rows,
      )
