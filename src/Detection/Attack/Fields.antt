-- ===== src/Detection/Attack/Fields.antt =====
-- What a test of the classifier on one field of an event decides.
use honeywatch.Prelude.{
  ◌≤◌, ◌≡◌, refl, sym, subst, ◌≢◌, ◌↔◌, ◌⊎◌, inl, inr, String, Text, Bool, true, not, ◌&&◌, List,
  [], ◌++◌, arith, any, any_iff, Exists, Exists-map, length, text_eq, text_eq_iff, has_prefix,
  has_prefix_iff, is_infix, is_infix_iff, Occurs,
}
use honeywatch.Event.{AttackEvent, Value, null, str, get, ssh, http, protocol_name}
use honeywatch.Detection.Rules.{DetectionRules}
use honeywatch.Detection.Classifier.{IpContext, member, str_test, str_target}

-- The event carries the text under the key.
abbrev pub Holds : AttackEvent → String → Text → Type 0
Holds e key t = get key e.raw_data ≡ str t

-- The text is in the list.
abbrev pub Listed : List Text → Text → Type 0
Listed xs t = Exists (λ x. t ≡ x) xs

abbrev pub Injection : DetectionRules → AttackEvent → Type 0
Injection rules e =
    (e.protocol ≡ http)
    × (t : Text) × (Holds e "path" t ⊎ Holds e "body_preview" t)
    × Exists (λ p. Occurs p t) rules.attack_types.command_injection.patterns

abbrev pub WeakLogin : DetectionRules → AttackEvent → Type 0
WeakLogin rules e =
    let rule = rules.attack_types.credential_attack in
    ((e.protocol ≡ ssh)
      × (((t : Text) × Holds e "username" t × Listed rule.usernames t)
          ⊎ ((t : Text) × Holds e "password" t × Listed rule.passwords t)))
    ⊎ ((e.protocol ≡ http)
        × (e.event_type ≡ "http_login_attempt")
        × (rule.http_enabled ≡ true)
        × (((t : Text) × Holds e "email" t × (t ≢ []) × Listed rule.emails t)
            ⊎ ((t : Text) × Holds e "password" t × (t ≢ []) × Listed rule.passwords t)))

abbrev pub Repeated : DetectionRules → AttackEvent → IpContext → Type 0
Repeated rules e c =
    let rule = rules.attack_types.brute_force in
    (protocol_name e.protocol ≡ rule.protocol) × (rule.min_attempts ≤ c.recent_attempts)

abbrev pub ManyPorts : DetectionRules → IpContext → Type 0
ManyPorts rules c = rules.attack_types.port_scan.min_distinct_ports ≤ length c.distinct_ports

abbrev pub Probe : DetectionRules → AttackEvent → Type 0
Probe rules e =
    (e.protocol ≡ http)
    × (t : Text) × Holds e "path" t
    × Exists (λ p. (r : Text) × (p ++ r ≡ t)) rules.attack_types.http_scan.paths

pub member_iff : (t : Text) (xs : List Text) → (member t xs ≡ true) ↔ Listed xs t
member_iff t xs = (
  λ h.
      Exists-map (λ x. text_eq t x ≡ true) (λ x. t ≡ x) xs (λ x. (text_eq_iff t x).0)
        ((any_iff (text_eq t) xs).0 h),
  λ h.
      (any_iff (text_eq t) xs).1
        (Exists-map (λ x. t ≡ x) (λ x. text_eq t x ≡ true) xs (λ x. (text_eq_iff t x).1) h),
)

str_inj : {t u : Text} → str t ≡ str u → t ≡ u
str_inj e = cc

-- A test on a string value decides what its body decides.
module _ (p : Text → Bool) (P : Text → Type 0) (dec : (t : Text) → (p t ≡ true) ↔ P t) where
  pub str_test_iff : (v : Value) → (str_test v p ≡ true) ↔ ((t : Text) × (v ≡ str t) × P t)
  str_test_iff (str t) =
      (λ h. (t, refl, (dec t).0 h), λ h. (dec t).1 (subst P (sym (str_inj h.1)) h.2))
  str_test_iff null = (λ h. cc, λ h. cc (h.1))
  str_test_iff _ = (λ h. cc, λ h. cc (h.1))

  pub str_target_iff :
      (v : Value) → (any p (str_target v) ≡ true) ↔ ((t : Text) × (v ≡ str t) × P t)
  str_target_iff (str t) = (
    λ h. (t, refl, (dec t).0 (ground arith)),
    λ h. ground (arith, (dec t).1 (subst P (sym (str_inj h.1)) h.2)),
  )
  str_target_iff null = (λ h. cc, λ h. cc (h.1))
  str_target_iff _ = (λ h. cc, λ h. cc (h.1))

pub filled_iff :
    (xs : List Text) (t : Text)
    → ((not (text_eq t []) && member t xs) ≡ true) ↔ ((t ≢ []) × Listed xs t)
filled_iff xs t = (
  λ h. ((λ e. ground (arith, (text_eq_iff t []).1 e)), (member_iff t xs).0 (ground arith)),
  λ h. ground (arith, (text_eq_iff t []).0, (member_iff t xs).1 h.1),
)

pub patterns_iff :
    (patterns : List Text) (t : Text)
    → (any (λ p. is_infix p t) patterns ≡ true) ↔ Exists (λ p. Occurs p t) patterns
patterns_iff patterns t = (
  λ h.
      Exists-map _ _ patterns (λ p. (is_infix_iff p t).0)
        ((any_iff (λ p. is_infix p t) patterns).0 h),
  λ h.
      (any_iff (λ p. is_infix p t) patterns).1
        (Exists-map _ _ patterns (λ p. (is_infix_iff p t).1) h),
)

pub paths_iff :
    (paths : List Text) (t : Text)
    → (any (λ p. has_prefix p t) paths ≡ true) ↔ Exists (λ p. (r : Text) × (p ++ r ≡ t)) paths
paths_iff paths t = (
  λ h.
      Exists-map _ _ paths (λ p. (has_prefix_iff p t).0)
        ((any_iff (λ p. has_prefix p t) paths).0 h),
  λ h.
      (any_iff (λ p. has_prefix p t) paths).1
        (Exists-map _ _ paths (λ p. (has_prefix_iff p t).1) h),
)

pub regroup :
    {P : Text → Type 0} {a b : Value}
    → ((t : Text) × (a ≡ str t) × P t) ⊎ ((t : Text) × (b ≡ str t) × P t)
    → (t : Text) × ((a ≡ str t) ⊎ (b ≡ str t)) × P t
regroup (inl h) = (h.0, inl h.1, h.2)
regroup (inr h) = (h.0, inr h.1, h.2)

pub ungroup :
    {P : Text → Type 0} {a b : Value}
    → (t : Text) × ((a ≡ str t) ⊎ (b ≡ str t)) × P t
    → ((t : Text) × (a ≡ str t) × P t) ⊎ ((t : Text) × (b ≡ str t) × P t)
ungroup (t, inl h, p) = inl (t, h, p)
ungroup (t, inr h, p) = inr (t, h, p)
