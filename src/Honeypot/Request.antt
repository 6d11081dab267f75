-- ===== src/Honeypot/Request.antt =====
-- src/honeywatch/honeypot/http.py: what the HTTP honeypot reads of a request: its body within the
-- limits, its headers, and the credentials of a form. What aiohttp reads is a field of the request.
use honeywatch.Prelude.{
  ℕ, ◌+◌, Text, codes, String, Bool, true, false, List, [], ◌∷◌, ◌++◌, Option, none, some, is_empty,
  length, take, ltb, text_eq, str_eq, if◌then◌else◌,
}
use honeywatch.Stdlib.Utf8.{Bytes, decode_replace, decode_strict}
use honeywatch.Stdlib.Query.{parse_qs, values}

abbrev pub max_body_size : ℕ
max_body_size = 1048576

abbrev pub body_preview_limit : ℕ
body_preview_limit = 8192

pub record Request : Type 0 where
  pub method : Text
  pub path : Text
  pub headers : List (Text × Text)
  pub user_agent : Option Text
  pub remote : Option String
  pub peer_port : Option ℕ
  pub read : Option Bytes
  pub content_length : Option ℕ
  pub chunks : List Bytes
  pub breaks : Bool

pub record CredentialSubmission : Type 0 where
  pub email : Text
  pub password : Text
  pub parsed : Bool

unfoldable pub body_preview_from_bytes : Bytes → Option Text
body_preview_from_bytes body =
    if is_empty body then none else some (decode_replace (take body_preview_limit body))

abbrev pub truncate : Text → ℕ → Text
truncate value limit = take limit value

-- `{k: v for k, v in headers.items()}`: a repeated name keeps its place and takes the last value
put_header : Text → Text → List (Text × Text) → List (Text × Text)
put_header k v [] = (k, v) ∷ []
put_header k v ((j, w) ∷ d) = if text_eq j k then (k, v) ∷ d else (j, w) ∷ put_header k v d

headers_from : List (Text × Text) → List (Text × Text) → List (Text × Text)
headers_from d [] = d
headers_from d ((k, v) ∷ items) = headers_from (put_header k v d) items

pub to_dict : List (Text × Text) → List (Text × Text)
unfolding headers_from put_header
to_dict items = headers_from [] items

-- the loop of `_read_body_limited`; `none` is a body over the limit
unfoldable pub read_chunks : List Bytes → Bool → ℕ → Bytes → Option Bytes
read_chunks [] breaks total kept = some (if breaks then [] else kept)
read_chunks (chunk ∷ rest) breaks total kept =
    let more = read_chunks rest breaks (total + length chunk) (kept ++ chunk) in
    if ltb max_body_size (total + length chunk) then none else more

-- `content_length is not None and content_length > MAX_BODY_SIZE`
abbrev pub declares_too_much : Option ℕ → Bool
declares_too_much none = false
declares_too_much (some n) = ltb max_body_size n

unfoldable pub read_body_limited : Request → Option Bytes
read_body_limited r =
    if declares_too_much r.content_length then none else read_chunks r.chunks r.breaks 0 []

-- the first value of a field, or ''
abbrev pub first_value : List Text → Text
first_value [] = []
first_value (v ∷ _) = v

-- what is made of the decoded body; `none` is UnicodeDecodeError
abbrev pub credentials_of : ℕ → Option Text → CredentialSubmission
credentials_of limit none = record { email = []; password = []; parsed = false }
credentials_of limit (some decoded) =
    let form = parse_qs decoded in
    record {
      email = truncate (first_value (values (codes "email") form)) limit;
      password = truncate (first_value (values (codes "password") form)) limit;
      parsed = true;
    }

unfoldable pub extract_credentials : ℕ → Bytes → CredentialSubmission
extract_credentials limit raw_body = credentials_of limit (decode_strict raw_body)

-- `request.remote or "0.0.0.0"`
abbrev pub source_ip : Option String → String
source_ip none = "0.0.0.0"
source_ip (some s) = if str_eq s "" then "0.0.0.0" else s
