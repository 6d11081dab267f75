-- ===== src/Honeypot/Http/Records.antt =====
-- What the events of the HTTP honeypot record, and what the classifier makes of a login.
use honeywatch.Prelude.{
  ℕ, ◌≡◌, refl, sym, subst, ◌≢◌, ◌↔◌, ◌⊎◌, inl, inr, Text, true, false, List, [], ◌∷◌, Option, none,
  some, arith, text_eq, Bool-cases,
}
use honeywatch.Stdlib.Utf8.{Bytes}
use honeywatch.Event.{AttackEvent, http, str, int, get, optional}
use honeywatch.Detection.Rules.{DetectionRules}
use honeywatch.Detection.Classifier.{is_credential_attack}
use honeywatch.Detection.Attack.{Listed, WeakLogin, is_credential_attack_iff}
use honeywatch.Honeypot.Http.Login.{is_form, is_post, is_refused}
use honeywatch.Honeypot.Http.{
  preview, method_get, method_post, login_path, Reply, filled, normalize, determine_response,
  event_of, data_of, login_form, login_post, handle_login, handle_request,
}
use honeywatch.Honeypot.Request.{
  Request, read_body_limited, extract_credentials, body_preview_from_bytes,
}

-- An emitted event records the port that is reported, the protocol and the status that is answered;
-- only a refused method and a body over the limit emit nothing.
abbrev pub Honest : ℕ → Option AttackEvent → ℕ → Type 0
Honest port none status = (status ≡ 405) ⊎ (status ≡ 413)
Honest port (some e) status =
    (e.protocol ≡ http) × (e.destination_port ≡ port) × (get "status_code" e.raw_data ≡ int status)

abbrev HonestReply : ℕ → Reply → Type 0
HonestReply port q = Honest port q.event q.response.status

module _ (reported_port limit id now : ℕ) where
  login_post-Honest :
      (r : Request) (o : Option Bytes)
      → HonestReply reported_port (login_post reported_port limit id now r o)
  unfolding get
  login_post-Honest r none = inr refl
  login_post-Honest r (some body) = (refl, refl, refl)

  login_form-Honest : (r : Request) → HonestReply reported_port (login_form reported_port id now r)
  unfolding get
  login_form-Honest r = (refl, refl, refl)

  handle_login-Honest :
      (r : Request) → HonestReply reported_port (handle_login reported_port limit id now r)
  handle_login-Honest r = elim (Bool-cases (text_eq r.method method_get)) [
    | inl g ↦
        subst (HonestReply reported_port) (sym (is_form reported_port limit id now r g))
          (login_form-Honest r)
    | inr g ↦ elim (Bool-cases (text_eq r.method method_post)) [
      | inl p ↦
          subst (HonestReply reported_port) (sym (is_post reported_port limit id now r g p))
            (login_post-Honest r (read_body_limited r))
      | inr p ↦
          subst (HonestReply reported_port) (sym (is_refused reported_port limit id now r g p))
            (inl refl)
    ]
  ]

  -- the reply to any other path
  abbrev page_reply : (ℕ → Text) → Request → Reply
  page_reply lower_rest r =
      let response = determine_response lower_rest r.path in
      record {
        response = response;
        event = some (
            event_of reported_port id now "http_request" r
              (data_of r (preview r.read) response.status none none));
      }

  page_reply-Honest :
      (lower_rest : ℕ → Text) (r : Request) → HonestReply reported_port (page_reply lower_rest r)
  unfolding get
  page_reply-Honest lower_rest r = (refl, refl, refl)

  module _ (lower_rest : ℕ → Text) (r : Request) where
    to_login :
        text_eq (normalize lower_rest r.path) login_path ≡ true
        → handle_request reported_port limit id now lower_rest r
          ≡ handle_login reported_port limit id now r
    unfolding handle_request
    to_login h = ground arith

    to_page :
        text_eq (normalize lower_rest r.path) login_path ≡ false
        → handle_request reported_port limit id now lower_rest r ≡ page_reply lower_rest r
    unfolding handle_request
    to_page h = ground arith

  -- Every request is answered and recorded alike: the event carries the status of the response, the
  -- protocol and the reported port, and no event is emitted only with 405 or 413.
  pub handle_request-Honest :
      (lower_rest : ℕ → Text) (r : Request)
      → Honest reported_port
          (handle_request reported_port limit id now lower_rest r).event
          (handle_request reported_port limit id now lower_rest r).response.status
  handle_request-Honest lower_rest r =
      elim (Bool-cases (text_eq (normalize lower_rest r.path) login_path)) [
        | inl l ↦
            subst (HonestReply reported_port) (sym (to_login lower_rest r l))
              (handle_login-Honest r)
        | inr l ↦
            subst (HonestReply reported_port) (sym (to_page lower_rest r l))
              (page_reply-Honest lower_rest r)
      ]

optional_holds : (x t : Text) → (optional (filled x) ≡ str t) ↔ ((x ≢ []) × (x ≡ t))
optional_holds [] t = (λ h. cc, λ h. absurd (h.0 refl))
optional_holds (c ∷ x) t = (λ h. ((λ e. cc), cc), λ h. cc (h.1))

-- The text that the dictionary holds is the one that was filled in.
same :
    {x t : Text} {H : Type 0}
    → H ↔ ((x ≢ []) × (x ≡ t))
    → (P : Text → Type 0) → H
    → P t
    → (x ≢ []) × P x
same i P h p = let (m, e) = i.0 h in (m, subst P (sym e) p)

module _ (reported_port limit id now : ℕ) (rules : DetectionRules) (r : Request)
    (body : Bytes) where
  abbrev email : Text
  email = (extract_credentials limit body).email

  abbrev password : Text
  password = (extract_credentials limit body).password

  abbrev pub attempt : AttackEvent
  attempt =
      event_of reported_port id now "http_login_attempt" r
        (data_of r (body_preview_from_bytes body) 401 (filled email) (filled password))

  abbrev rule_emails : List Text
  rule_emails = rules.attack_types.credential_attack.emails

  abbrev rule_passwords : List Text
  rule_passwords = rules.attack_types.credential_attack.passwords

  -- What is submitted is on the lists of weak credentials.
  abbrev pub Weak : Type 0
  Weak =
      (rules.attack_types.credential_attack.http_enabled ≡ true)
      × (((email ≢ []) × Listed rule_emails email)
          ⊎ ((password ≢ []) × Listed rule_passwords password))

  to_weak : WeakLogin rules attempt → Weak
  unfolding get
  to_weak (inl h) = cc (h.0)
  to_weak (inr (p, q, h, inl (t, k, m, l))) =
      (h, inl (same (optional_holds email t) (Listed rule_emails) k l))
  to_weak (inr (p, q, h, inr (t, k, m, l))) =
      (h, inr (same (optional_holds password t) (Listed rule_passwords) k l))

  from_weak : Weak → WeakLogin rules attempt
  unfolding get
  from_weak (h, inl (m, l)) =
      inr (refl, refl, h, inl (email, (optional_holds email email).1 (m, refl), m, l))
  from_weak (h, inr (m, l)) =
      inr (refl, refl, h, inr (password, (optional_holds password password).1 (m, refl), m, l))

  -- A login attempt is classified by its credentials, as they are stored, exactly when the rules
  -- judge HTTP logins and the email or the password is listed and not empty.
  pub login_attempt-weak_iff : (is_credential_attack rules attempt ≡ true) ↔ Weak
  login_attempt-weak_iff =
      let i = is_credential_attack_iff rules attempt in
      (λ h. to_weak (i.0 h), λ h. i.1 (from_weak h))
