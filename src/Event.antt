-- ===== src/Event.antt =====
-- src/honeywatch/collector/events.py: the event that every honeypot emits, and the data of each
-- protocol as the dictionary that `model_dump` makes of it. A UUID is a number, an instant counts
-- microseconds from `datetime.min`, and a `float` of seconds counts clock ticks and may be negative.
use honeywatch.Prelude.{
  ℕ, ◌≡◌, refl, ◌⊎◌, inl, inr, String, Text, Bool, true, false, List, [], ◌∷◌, Option, none, some,
  str_eq, if◌then◌else◌,
}
use honeywatch.Prelude.Int.{ℤ}

-- A value of `dict[str, object]`.
pub data Value : Type 0 where
  null : Value
  str : Text → Value
  int : ℕ → Value
  real : ℤ → Value
  bool : Bool → Value
  dict : List (Text × Text) → Value

abbrev pub RawData : Type 0
RawData = List (String × Value)

-- `d.get(key)`; a missing key and a stored `None` read alike
unfoldable pub get : String → RawData → Value
get key [] = null
get key ((k, v) ∷ d) = if str_eq k key then v else get key d

-- `v if isinstance(v, str)`
abbrev pub as_str : Value → Option Text
as_str (str t) = some t
as_str _ = none

-- `str | None` stored in a dictionary
abbrev pub optional : Option Text → Value
optional none = null
optional (some t) = str t

pub data Protocol : Type 0 where
  ssh http : Protocol

-- the literal that stands for the protocol
abbrev pub protocol_name : Protocol → String
protocol_name ssh = "ssh"
protocol_name http = "http"

-- `protocol == "ssh"`
abbrev pub is_ssh : Protocol → Bool
is_ssh ssh = true
is_ssh http = false

-- `protocol == "http"`
abbrev pub is_http : Protocol → Bool
is_http ssh = false
is_http http = true

pub record AttackEvent : Type 0 where
  pub id : ℕ
  pub timestamp : ℕ
  pub source_ip : String
  pub source_port : ℕ
  pub destination_port : ℕ
  pub protocol : Protocol
  pub event_type : String
  pub raw_data : RawData

pub record SshEventData : Type 0 where
  pub username : Text
  pub password : Text
  pub client_version : Text
  pub connection_duration : ℤ
  pub auth_success : Bool

abbrev pub ssh_dump : SshEventData → RawData
ssh_dump d =
    ("username", str d.username)
    ∷ ("password", str d.password)
    ∷ ("client_version", str d.client_version)
    ∷ ("connection_duration", real d.connection_duration)
    ∷ ("auth_success", bool d.auth_success)
    ∷ []

pub record HttpEventData : Type 0 where
  pub method : Text
  pub path : Text
  pub headers : List (Text × Text)
  pub user_agent : Text
  pub body_preview : Option Text
  pub status_code : ℕ
  pub email : Option Text
  pub password : Option Text

abbrev pub http_dump : HttpEventData → RawData
http_dump d =
    ("method", str d.method)
    ∷ ("path", str d.path)
    ∷ ("headers", dict d.headers)
    ∷ ("user_agent", str d.user_agent)
    ∷ ("body_preview", optional d.body_preview)
    ∷ ("status_code", int d.status_code)
    ∷ ("email", optional d.email)
    ∷ ("password", optional d.password)
    ∷ []

-- The strings of a stored field are those that were put there.
pub as_str-optional : (o : Option Text) → as_str (optional o) ≡ o
as_str-optional none = refl
as_str-optional (some t) = refl

pub Protocol-cases : (p : Protocol) → (p ≡ ssh) ⊎ (p ≡ http)
Protocol-cases ssh = inl refl
Protocol-cases http = inr refl
