-- ===== src/Detection/IpContext/Window.antt =====
-- The attempts that the context store counts, call after call.
use honeywatch.Prelude.{
  ℕ, suc, ◌+◌, ◌*◌, ◌≤◌, ◌<◌, ◌≡◌, ◌≢◌, refl, sym, ap, ◌∙◌, inl, inr, String, Text, Bool, true,
  false, ◌&&◌, List, [], ◌∷◌, ◌++◌, All, All-append, All-filter, arith, length, length-append,
  filter, filter-append, filter-filter, ltb, str_eq, Bool-cases, if◌then◌else◌,
}
use honeywatch.Detection.IpContext.{
  NumberText, Outcome, executed, refused, answer_lost, Call, context_ttl, second, outside,
  window_start, member_of,
}
use honeywatch.Detection.IpContext.Keys.{member_of-ne}

-- has the server carried the call out?
abbrev pub recorded : Outcome → Bool
recorded executed = true
recorded refused = false
recorded answer_lost = true

abbrev pub hits : String → Call → Bool
hits ip c = recorded c.outcome && str_eq c.source_ip ip

-- The calls, the last one first, come at rising instants before `t`.
abbrev pub Before : ℕ → List Call → Type 0
Before t [] = Unit
Before t (c ∷ h) = (c.now < t) × Before c.now h

pub Before-mono : (h : List Call) (s t : ℕ) → s ≤ t → Before s h → Before t h
Before-mono [] s t le b = tt
Before-mono (c ∷ h) s t le b = (omega arith, b.1)

All-Before : (h : List Call) (t : ℕ) → Before t h → All (λ c. c.now < t) h
All-Before [] t b = tt
All-Before (c ∷ h) t b = (b.0, All-Before h t (Before-mono h c.now t (omega arith) b.1))

-- how many recorded calls of the address lie in the window that ends at `now`
abbrev pub recent : ℕ → String → ℕ → List Call → ℕ
recent time_window ip now [] = 0
recent time_window ip now (c ∷ h) =
    let rest = recent time_window ip now h in
    if hits ip c && ltb now (c.now + time_window * second) then suc rest else rest

-- What is left is what lies in the window.
pub outside_lem :
    (time_window now : ℕ) (x : Text × ℕ)
    → outside 0 (window_start now time_window) x ≡ ltb now (x.1 + time_window * second)
outside_lem time_window now x = ground arith

module _ (text : NumberText) (time_window : ℕ) where
  abbrev pub in_window : ℕ → Text × ℕ → Bool
  in_window now = outside 0 (window_start now time_window)

  abbrev pub entry : Call → Text × ℕ
  entry c = (member_of text c, c.now)

  -- what a sorted set holds at the time `t`, after some calls
  abbrev pub kept : String → ℕ → List Call → List (Text × ℕ)
  kept ip t [] = []
  kept ip t (c ∷ h) =
      if hits ip c
      then (if ltb t (c.now + context_ttl * second)
          then filter (in_window c.now) (kept ip c.now h ++ entry c ∷ [])
          else [])
      else kept ip t h

  -- Every entry is that of an earlier call.
  kept-All :
      (P : Text × ℕ → Type 0) (ip : String) (t : ℕ) (h : List Call)
      → All (λ c. P (entry c)) h
      → All P (kept ip t h)
  kept-All P ip t [] a = tt
  kept-All P ip t (c ∷ h) (p, a) = elim (Bool-cases (hits ip c)) [
    | inl e ↦ elim (Bool-cases (ltb t (c.now + context_ttl * second))) [
      | inl f ↦
          rw (e, f)
            (All-filter P (in_window c.now) (kept ip c.now h ++ entry c ∷ [])
              (All-append P (kept ip c.now h) (entry c ∷ []) (kept-All P ip c.now h a) (p, tt)))
      | inr f ↦ rw (e, f) tt
    ]
    | inr e ↦ rw e (kept-All P ip t h a)
  ]

  All-fresh :
      (c : Call) (h : List Call)
      → All (λ e. e.now < c.now) h
      → All (λ e. (e.now < c.now) × (member_of text e ≢ member_of text c)) h
  All-fresh c [] a = tt
  All-fresh c (e ∷ h) (p, a) =
      ((p, member_of-ne text e c (λ same. absurd (omega arith))), All-fresh c h a)

  -- The member of a new call is new, and has the highest score.
  pub kept-fresh :
      (c : Call) (h : List Call) (ip : String)
      → Before c.now h
      → All (λ x. (x.1 < c.now) × (x.0 ≢ member_of text c)) (kept ip c.now h)
  kept-fresh c h ip b =
      kept-All (λ x. (x.1 < c.now) × (x.0 ≢ member_of text c)) ip c.now h
        (All-fresh c h (All-Before h c.now b))

  -- Calls that are a window old count no more.
  stale :
      (ip : String) (now t : ℕ) (h : List Call)
      → Before t h
      → t + time_window * second ≤ suc now
      → recent time_window ip now h ≡ 0
  stale ip now t [] b le = refl
  stale ip now t (c ∷ h) b le =
      let rest : recent time_window ip now h ≡ 0 = stale ip now c.now h b.1 (omega arith) in
      let old : ltb now (c.now + time_window * second) ≡ false = ground arith in
      ground (arith, rest, old)

  narrower : (s t : ℕ) (x : Text × ℕ) → s ≤ t → in_window t x ≡ true → in_window s x ≡ true
  narrower s t x le h = ground (arith, outside_lem time_window s x, outside_lem time_window t x)

  -- Trimming a list to an earlier window first makes no difference to a later one.
  count_entry :
      (now : ℕ) (c : Call) (l : List (Text × ℕ))
      → c.now ≤ now
      → length (filter (in_window now) (filter (in_window c.now) (l ++ entry c ∷ []))) ≡ (
          if ltb now (c.now + time_window * second)
          then suc (length (filter (in_window now) l))
          else length (filter (in_window now) l))
  count_entry now c l le =
      ap length (
        filter-filter (in_window now) (in_window c.now) (l ++ entry c ∷ [])
          (λ x h. narrower c.now now x le h)
        ∙ filter-append (in_window now) l (entry c ∷ []))
      ∙ length-append (filter (in_window now) l) (filter (in_window now) (entry c ∷ []))
      ∙ ground (arith, outside_lem time_window now (entry c))

  -- Of what is kept, the window of a later instant has the recent calls.
  pub count_kept :
      time_window ≤ context_ttl
      → (ip : String) (now t : ℕ) (h : List Call) → Before t h
      → t ≤ now
      → length (filter (in_window now) (kept ip t h)) ≡ recent time_window ip now h
  count_kept w ip now t [] b le = refl
  count_kept w ip now t (c ∷ h) b le =
      let ih : length (filter (in_window now) (kept ip c.now h)) ≡ recent time_window ip now h =
        count_kept w ip now c.now h b.1 (omega arith) in
      elim (Bool-cases (hits ip c)) [
        | inl e ↦ elim (Bool-cases (ltb t (c.now + context_ttl * second))) [
          | inl f ↦
              rw (e, f)
                (count_entry now c (kept ip c.now h) (omega arith)
                  ∙ ap (λ n. if ltb now (c.now + time_window * second) then suc n else n) ih)
          | inr f ↦
              let old : ltb now (c.now + time_window * second) ≡ false = ground arith in
              rw (e, f, old) (sym (stale ip now c.now h b.1 (ground arith)))
        ]
        | inr e ↦ rw e (count_kept w ip now t h (Before-mono h c.now t (omega arith) b.1) le)
      ]
