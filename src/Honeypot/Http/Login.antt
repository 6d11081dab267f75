-- ===== src/Honeypot/Http/Login.antt =====
-- The login page: which answer it gives, which event it emits, and what the classifier says of it.
use honeywatch.Prelude.{
  ℕ, ◌≤◌, ◌≡◌, refl, ◌≢◌, ◌⊎◌, inl, inr, Text, codes, true, false, [], Option, none, some, arith,
  length, length-take, text_eq,
}
use honeywatch.Stdlib.Utf8.{Bytes, decode_strict}
use honeywatch.Stdlib.Query.{parse_qs, values}
use honeywatch.Event.{AttackEvent, get, as_str}
use honeywatch.Honeypot.Http.{
  method_get, method_post, Reply, filled, login_post, login_form, method_refused, handle_login,
}
use honeywatch.Honeypot.Request.{
  Request, body_preview_from_bytes, read_body_limited, extract_credentials, first_value,
  credentials_of,
}

credentials_of_bounds :
    (limit : ℕ) (o : Option Text)
    → let c = credentials_of limit o in
      (length c.email ≤ limit)
      × (length c.password ≤ limit)
      × ((c.parsed ≡ true) ⊎ ((c.email ≡ []) × (c.password ≡ [])))
credentials_of_bounds limit none = (omega arith, omega arith, inr (refl, refl))
credentials_of_bounds limit (some t) = (
  omega (arith, length-take limit (first_value (values (codes "email") (parse_qs t)))),
  omega (arith, length-take limit (first_value (values (codes "password") (parse_qs t)))),
  inl refl,
)

-- Both credentials are cut to the limit, and a body that is no UTF-8 has neither.
pub extract_credentials_bounds :
    (limit : ℕ) (body : Bytes)
    → let c = extract_credentials limit body in
      (length c.email ≤ limit)
      × (length c.password ≤ limit)
      × ((c.parsed ≡ true) ⊎ ((c.email ≡ []) × (c.password ≡ [])))
unfolding extract_credentials
extract_credentials_bounds limit body = credentials_of_bounds limit (decode_strict body)

module _ (reported_port limit id now : ℕ) (r : Request) where
  abbrev reply : Reply
  reply = handle_login reported_port limit id now r

  -- What the login page does with a request.
  pub data LoginReply (q : Reply) : Type 0 where
    refused :
        r.method ≢ method_get
        → r.method ≢ method_post
        → q.response.status ≡ 405
        → q.event ≡ none
        → LoginReply q
    shown :
        (e : AttackEvent)
        → r.method ≡ method_get
        → q.response.status ≡ 200
        → q.event ≡ some e
        → e.event_type ≡ "http_request"
        → LoginReply q
    too_large :
        r.method ≡ method_post
        → read_body_limited r ≡ none
        → q.response.status ≡ 413
        → q.event ≡ none
        → LoginReply q
    attempted :
        (body : Bytes) (e : AttackEvent)
        → r.method ≡ method_post
        → read_body_limited r ≡ some body
        → q.response.status ≡ 401
        → q.event ≡ some e
        → e.event_type ≡ "http_login_attempt"
        → as_str (get "email" e.raw_data) ≡ filled (extract_credentials limit body).email
        → as_str (get "password" e.raw_data) ≡ filled (extract_credentials limit body).password
        → as_str (get "body_preview" e.raw_data) ≡ body_preview_from_bytes body
        → LoginReply q

  pub is_form : text_eq r.method method_get ≡ true → reply ≡ login_form reported_port id now r
  unfolding handle_login
  is_form g = ground arith

  pub is_post :
      text_eq r.method method_get ≡ false
      → text_eq r.method method_post ≡ true
      → reply ≡ login_post reported_port limit id now r (read_body_limited r)
  unfolding handle_login
  is_post g p = ground arith

  pub is_refused :
      text_eq r.method method_get ≡ false
      → text_eq r.method method_post ≡ false
      → reply ≡ method_refused
  unfolding handle_login
  is_refused g p = ground arith
