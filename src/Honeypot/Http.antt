-- ===== src/Honeypot/Http.antt =====
-- src/honeywatch/honeypot/http.py: the HTTP honeypot. A handler gives its response and the event
-- that it passes to `emit_event`, if any; `handle` joins it to the honeypot of Base.antt. What
-- is read of a request is in Request.antt. The pages are told apart by name.
pub mod Body
pub mod Login
pub mod Records
use honeywatch.Prelude.{
  ℕ, Text, codes, String, not, ◌||◌, List, [], ◌∷◌, Option, none, some, any, is_empty, text_eq,
  has_prefix, if◌then◌else◌,
}
use honeywatch.Core.{or_default}
use honeywatch.Stdlib.Utf8.{Bytes}
use honeywatch.Stdlib.Case.{rstrip, lower}
use honeywatch.Event.{AttackEvent, HttpEventData, http_dump, Protocol}
use honeywatch.Honeypot.Base.{returned, raised, Publisher, Honeypot, emit_event}
use honeywatch.Honeypot.Request.{
  Request, body_preview_from_bytes, extract_credentials, read_body_limited, source_ip, to_dict,
}

abbrev pub login_path : Text
login_path = codes "/login"

abbrev pub admin_paths : List Text
admin_paths =
    codes "/admin" ∷ codes "/wp-admin" ∷ codes "/administrator" ∷ codes "/wp-login.php" ∷ []

abbrev pub method_get : Text
method_get = codes "GET"

abbrev pub method_post : Text
method_post = codes "POST"

pub data Page : Type 0 where
  html_index html_login html_login_email html_404 robots_txt forbidden_json : Page
  method_not_allowed payload_too_large : Page

pub record Response : Type 0 where
  pub status : ℕ
  pub text : Page
  pub content_type : String

-- what a handler answers, and the event that it emits before
pub record Reply : Type 0 where
  pub response : Response
  pub event : Option AttackEvent

-- `s if s else None`
abbrev pub filled : Text → Option Text
filled t = if is_empty t then none else some t

module _ (lower_rest : ℕ → Text) where
  unfoldable pub normalize : Text → Text
  normalize path = lower lower_rest (rstrip b'/' path)

  unfoldable pub determine_response : Text → Response
  determine_response path =
      if text_eq path (codes "/") || text_eq path []
      then record { status = 200; text = html_index; content_type = "text/html" }
      else (if text_eq path (codes "/robots.txt")
          then record { status = 200; text = robots_txt; content_type = "text/plain" }
          else (if any (text_eq (normalize path)) admin_paths
              then record { status = 401; text = html_login; content_type = "text/html" }
              else (if has_prefix (codes "/api") path
                  then record {
                    status = 403;
                    text = forbidden_json;
                    content_type = "application/json";
                  }
                  else record { status = 404; text = html_404; content_type = "text/html" })))

-- `HTTPEventData(...)` of a request
abbrev pub data_of : Request → Option Text → ℕ → Option Text → Option Text → HttpEventData
data_of r body_preview status email password = record {
  method = r.method;
  path = r.path;
  headers = to_dict r.headers;
  user_agent = or_default r.user_agent [];
  body_preview = body_preview;
  status_code = status;
  email = email;
  password = password;
}

abbrev pub method_refused : Reply
method_refused = record {
  response = record { status = 405; text = method_not_allowed; content_type = "text/plain" };
  event = none;
}

-- the preview of a body that could be read
abbrev pub preview : Option Bytes → Option Text
preview none = none
preview (some body) = body_preview_from_bytes body

module _ (reported_port id now : ℕ) where
  -- `AttackEvent(...)`, whose id and timestamp are made when it is built
  abbrev pub event_of : String → Request → HttpEventData → AttackEvent
  event_of event_type r d = record {
    id = id;
    timestamp = now;
    source_ip = source_ip r.remote;
    source_port = or_default r.peer_port 0;
    destination_port = reported_port;
    protocol = Protocol.http;
    event_type = event_type;
    raw_data = http_dump d;
  }

  abbrev pub login_form : Request → Reply
  login_form r = record {
    response = record { status = 200; text = html_login_email; content_type = "text/html" };
    event = some (event_of "http_request" r (data_of r none 200 none none));
  }

module _ (reported_port limit id now : ℕ) where
  -- the POST of a body within the limit
  abbrev pub login_attempt : Request → Bytes → Reply
  login_attempt r raw_body =
      let submission = extract_credentials limit raw_body in
      let d =
        data_of r (body_preview_from_bytes raw_body) 401 (filled submission.email)
          (filled submission.password) in
      record {
        response = record { status = 401; text = html_login_email; content_type = "text/html" };
        event = some (event_of reported_port id now "http_login_attempt" r d);
      }

  -- the POST, by what `_read_body_limited` returned
  abbrev pub login_post : Request → Option Bytes → Reply
  login_post r none = record {
    response = record { status = 413; text = payload_too_large; content_type = "text/plain" };
    event = none;
  }
  login_post r (some raw_body) = login_attempt r raw_body

  unfoldable pub handle_login : Request → Reply
  handle_login r =
      if not (text_eq r.method method_get || text_eq r.method method_post)
      then method_refused
      else (if text_eq r.method method_get
          then login_form reported_port id now r
          else login_post r (read_body_limited r))

  unfoldable pub handle_request : (lower_rest : ℕ → Text) → Request → Reply
  handle_request lower_rest r =
      if text_eq (normalize lower_rest r.path) login_path
      then handle_login r
      else (let response = determine_response lower_rest r.path in
          record {
            response = response;
            event = some (
                event_of reported_port id now "http_request" r
                  (data_of r (preview r.read) response.status none none));
          })

-- `await self.emit_event(event)` and the response; `none` where the call raises
unfoldable pub respond :
    {Q : Type 0}
    → Publisher AttackEvent Q
    → Reply
    → Honeypot AttackEvent Q
    → Honeypot AttackEvent Q × Option Response
respond p reply h = elim reply.event [
  | none ↦ (h, some reply.response)
  | some e ↦
      let (h', s) = emit_event p e h in
      (h', elim s [ returned ↦ some reply.response | raised ↦ none ])
]
