-- ===== src/Detection/Verdict.antt =====
-- The result of the classifier: which kind of attack comes first, and which severity it has.
use honeywatch.Prelude.{
  ℕ, ◌≤◌, ◌≡◌, refl, ◌↔◌, inl, inr, String, Bool, true, false, Option, none, some, List, arith, any,
  any_iff, Exists, Exists-map, leb, str_eq, eq_iff, Bool-cases, not_of_false, if◌then◌else◌,
}
use honeywatch.Event.{AttackEvent}
use honeywatch.Detection.Rules.{DetectionRules, SeverityCondition, SeverityRules}
use honeywatch.Detection.Classifier.{
  IpContext, is_command_injection, is_credential_attack, is_brute_force, is_port_scan, is_http_scan,
  determine_attack_type, attack_command_injection, attack_credential, attack_brute_force,
  attack_port_scan, attack_http_scan, attack_suspicious, severity_high, severity_medium,
  severity_low, condition_holds, evaluate, classify,
}
use honeywatch.Detection.Attack.{
  Injection, WeakLogin, Repeated, ManyPorts, Probe, is_command_injection_iff,
  is_credential_attack_iff, is_brute_force_iff, is_port_scan_iff, is_http_scan_iff,
}

-- The attack type `t` is that of the first kind that the event shows.
pub data Verdict (rules : DetectionRules) (e : AttackEvent) (c : IpContext) (t : String)
    : Type 0 where
  injection : Injection rules e → t ≡ attack_command_injection → Verdict rules e c t
  login : ¬ Injection rules e → WeakLogin rules e → t ≡ attack_credential → Verdict rules e c t
  repeated :
      ¬ Injection rules e
      → ¬ WeakLogin rules e
      → Repeated rules e c
      → t ≡ attack_brute_force
      → Verdict rules e c t
  many_ports :
      ¬ Injection rules e
      → ¬ WeakLogin rules e
      → ¬ Repeated rules e c
      → ManyPorts rules c
      → t ≡ attack_port_scan
      → Verdict rules e c t
  probe :
      ¬ Injection rules e
      → ¬ WeakLogin rules e
      → ¬ Repeated rules e c
      → ¬ ManyPorts rules c
      → Probe rules e
      → t ≡ attack_http_scan
      → Verdict rules e c t
  suspicious :
      ¬ Injection rules e
      → ¬ WeakLogin rules e
      → ¬ Repeated rules e c
      → ¬ ManyPorts rules c
      → ¬ Probe rules e
      → t ≡ attack_suspicious
      → Verdict rules e c t

module _ (rules : DetectionRules) (e : AttackEvent) (c : IpContext) where
  determine-Verdict : Verdict rules e c (determine_attack_type rules e c)
  unfolding determine_attack_type
  determine-Verdict = elim (Bool-cases (is_command_injection rules e)) [
    | inl a ↦ injection (ci.0 a) (ground arith)
    | inr a ↦ elim (Bool-cases (is_credential_attack rules e)) [
      | inl b ↦ login (not_of_false _ ci a) (cr.0 b) (ground arith)
      | inr b ↦ elim (Bool-cases (is_brute_force rules e c)) [
        | inl d ↦ repeated (not_of_false _ ci a) (not_of_false _ cr b) (bf.0 d) (ground arith)
        | inr d ↦ elim (Bool-cases (is_port_scan rules c)) [
          | inl f ↦
              many_ports (not_of_false _ ci a) (not_of_false _ cr b) (not_of_false _ bf d) (ps.0 f)
                (ground arith)
          | inr f ↦ elim (Bool-cases (is_http_scan rules e)) [
            | inl g ↦
                probe (not_of_false _ ci a) (not_of_false _ cr b) (not_of_false _ bf d)
                  (not_of_false _ ps f) (hs.0 g) (ground arith)
            | inr g ↦
                suspicious (not_of_false _ ci a) (not_of_false _ cr b) (not_of_false _ bf d)
                  (not_of_false _ ps f) (not_of_false _ hs g) (ground arith)
          ]
        ]
      ]
    ]
  ]
    where
      ci : (is_command_injection rules e ≡ true) ↔ Injection rules e
      ci = is_command_injection_iff rules e

      cr : (is_credential_attack rules e ≡ true) ↔ WeakLogin rules e
      cr = is_credential_attack_iff rules e

      bf : (is_brute_force rules e c ≡ true) ↔ Repeated rules e c
      bf = is_brute_force_iff rules e c

      ps : (is_port_scan rules c ≡ true) ↔ ManyPorts rules c
      ps = is_port_scan_iff rules e c

      hs : (is_http_scan rules e ≡ true) ↔ Probe rules e
      hs = is_http_scan_iff rules e

-- The threshold of a condition, if it has one, is reached.
abbrev pub Reaches : Option ℕ → ℕ → Type 0
Reaches none k = Unit
Reaches (some n) k = n ≤ k

abbrev pub Applies : String → IpContext → SeverityCondition → Type 0
Applies a c cond = (cond.attack_type ≡ a) × Reaches cond.min_attempts c.recent_attempts

-- The severity `s` is that of the first level with a condition that applies, or LOW.
pub data Level (rules : SeverityRules) (a : String) (c : IpContext) (s : String) : Type 0 where
  high : Exists (Applies a c) rules.high → s ≡ severity_high → Level rules a c s
  medium :
      ¬ Exists (Applies a c) rules.high
      → Exists (Applies a c) rules.medium
      → s ≡ severity_medium
      → Level rules a c s
  low :
      ¬ Exists (Applies a c) rules.high
      → ¬ Exists (Applies a c) rules.medium
      → s ≡ severity_low
      → Level rules a c s

Reaches-iff :
    (o : Option ℕ) (k : ℕ)
    → (elim o as (λ _. Bool) [ none ↦ true | some n ↦ leb n k ] ≡ true) ↔ Reaches o k
Reaches-iff none k = (λ _. tt, λ _. refl)
Reaches-iff (some n) k = (λ h. ground arith, λ h. ground arith)

module _ (a : String) (c : IpContext) where
  Applies-iff : (cond : SeverityCondition) → (condition_holds a c cond ≡ true) ↔ Applies a c cond
  unfolding condition_holds
  Applies-iff cond =
      let i = eq_iff cond.attack_type a in
      let j = Reaches-iff cond.min_attempts c.recent_attempts in
      (λ h. (i.0 (ground arith), j.0 (ground arith)), λ h. ground (arith, i.1 h.0, j.1 h.1))

  some-Applies_iff :
      (l : List SeverityCondition) → (any (condition_holds a c) l ≡ true) ↔ Exists (Applies a c) l
  some-Applies_iff l = (
    λ h. Exists-map _ _ l (λ x. (Applies-iff x).0) ((any_iff (condition_holds a c) l).0 h),
    λ h. (any_iff (condition_holds a c) l).1 (Exists-map _ _ l (λ x. (Applies-iff x).1) h),
  )

  evaluate-Level : (rules : SeverityRules) → Level rules a c (evaluate rules a c)
  unfolding evaluate
  evaluate-Level rules = elim (Bool-cases (any (condition_holds a c) rules.high)) [
    | inl h ↦ high ((some-Applies_iff rules.high).0 h) (ground arith)
    | inr h ↦ elim (Bool-cases (any (condition_holds a c) rules.medium)) [
      | inl m ↦
          medium (not_of_false _ (some-Applies_iff rules.high) h)
            ((some-Applies_iff rules.medium).0 m) (ground arith)
      | inr m ↦
          low (not_of_false _ (some-Applies_iff rules.high) h)
            (not_of_false _ (some-Applies_iff rules.medium) m) (ground arith)
    ]
  ]

-- The classifier's attack type is that of the first kind that the event shows, in the order
-- injection, weak login, repetition, many ports, probe, and `suspicious_request` if it shows none;
-- its severity is that of the first level with a condition that applies to this type and these
-- attempts, and LOW if there is none.
pub classify-Verdict :
    (rules : DetectionRules) (e : AttackEvent) (c : IpContext)
    → Verdict rules e c (classify rules e c).attack_type
      × Level rules.severity_rules (classify rules e c).attack_type c (classify rules e c).severity
unfolding classify
classify-Verdict rules e c = (
  determine-Verdict rules e c,
  evaluate-Level (determine_attack_type rules e c) c rules.severity_rules,
)

-- how grave a level is
abbrev pub rank : String → ℕ
rank s = if str_eq s severity_high then 2 else (if str_eq s severity_medium then 1 else 0)

module _ (a : String) (c d : IpContext) (h : c.recent_attempts ≤ d.recent_attempts) where
  condition_mono :
      (x : SeverityCondition) → condition_holds a c x ≡ true → condition_holds a d x ≡ true
  unfolding condition_holds
  condition_mono x e = ground arith

  any_mono :
      (l : List SeverityCondition)
      → any (condition_holds a c) l ≡ true
      → any (condition_holds a d) l ≡ true
  any_mono l e =
      (any_iff (condition_holds a d) l).1
        (Exists-map _ _ l condition_mono ((any_iff (condition_holds a c) l).0 e))

rank_ladder :
    (h m l : Bool)
    → rank (
        if h
        then severity_high
        else (if m then severity_medium else (if l then severity_low else severity_low)))
      ≡ (if h then 2 else (if m then 1 else 0))
rank_ladder true m l = refl
rank_ladder false true l = refl
rank_ladder false false true = refl
rank_ladder false false false = refl

rank-evaluate :
    (rules : SeverityRules) (a : String) (c : IpContext)
    → rank (evaluate rules a c) ≡ (
        if any (condition_holds a c) rules.high
        then 2
        else (if any (condition_holds a c) rules.medium then 1 else 0))
unfolding evaluate
rank-evaluate rules a c =
    rank_ladder (any (condition_holds a c) rules.high) (any (condition_holds a c) rules.medium)
      (any (condition_holds a c) rules.low)

-- More attempts never lower the severity of an attack type.
pub evaluate_mono :
    (rules : SeverityRules) (a : String) (c d : IpContext)
    → c.recent_attempts ≤ d.recent_attempts
    → rank (evaluate rules a c) ≤ rank (evaluate rules a d)
evaluate_mono rules a c d h =
    rw (rank-evaluate rules a c, rank-evaluate rules a d)
      (ground (arith, any_mono a c d h rules.high, any_mono a c d h rules.medium))
