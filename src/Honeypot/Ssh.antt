-- ===== src/Honeypot/Ssh.antt =====
-- src/honeywatch/honeypot/ssh.py: the handler of one SSH connection, callback by callback. What
-- asyncssh reports comes with the callback. A callback gives the events that it passes to
-- `emit_event`, which Base.antt models.
pub mod Session
use honeywatch.Prelude.{
  ℕ, zero, suc, ◌+◌, String, Text, Bool, true, false, not, List, [], ◌∷◌, ◌++◌, Option, none, some,
  ◌==◌, if◌then◌else◌,
}
use honeywatch.Prelude.Int.{sub_ℕ}
use honeywatch.Core.{or_default}
use honeywatch.Event.{AttackEvent, RawData, str, int, real, ssh_dump, Protocol}

-- what the constructor of an event reads: a fresh id, the date, and the clock that durations use
pub record Clock : Type 0 where
  pub id : ℕ
  pub now : ℕ
  pub ticks : ℕ

pub record Server : Type 0 where
  pub attempts : ℕ
  pub conn_start : ℕ
  pub peer_addr : Option (String × ℕ)
  pub client_version : Text
  pub has_conn : Bool
  pub username : Text

-- `SSHHoneypotServer.__init__`
abbrev pub init : ℕ → Server
init ticks = record {
  attempts = 0;
  conn_start = ticks;
  peer_addr = none;
  client_version = [];
  has_conn = false;
  username = [];
}

abbrev pub peer_ip : Option (String × ℕ) → String
peer_ip none = "0.0.0.0"
peer_ip (some (ip, _)) = ip

abbrev pub peer_port : Option (String × ℕ) → ℕ
peer_port none = 0
peer_port (some (_, port)) = port

-- `if peername: self._peer_addr = …`
abbrev pub keep_peer : Option (String × ℕ) → Option (String × ℕ) → Option (String × ℕ)
keep_peer none old = old
keep_peer (some p) old = some p

unfoldable pub connection_made : Option (String × ℕ) → Option Text → Server → Server
connection_made peername version s = record s {
  has_conn = true;
  peer_addr = keep_peer peername s.peer_addr;
  client_version = or_default version [];
}

unfoldable pub begin_auth : Text → Server → Server × Bool
begin_auth username s = (record s { username = username }, true)

abbrev pub connection_data : Server → ℕ → RawData
connection_data s ticks =
    ("client_version", str s.client_version)
    ∷ ("connection_duration", real (sub_ℕ ticks s.conn_start))
    ∷ ("auth_attempts", int 0)
    ∷ ("connection_username", str s.username)
    ∷ []

-- the state when the event is built
abbrev pub counted : Option Text → Server → Server
counted version s = record s {
  attempts = s.attempts + 1;
  client_version = if s.has_conn then or_default version s.client_version else s.client_version;
}

module _ (port : ℕ) where
  abbrev pub event_of : String → Clock → RawData → Server → AttackEvent
  event_of event_type c raw_data s = record {
    id = c.id;
    timestamp = c.now;
    source_ip = peer_ip s.peer_addr;
    source_port = peer_port s.peer_addr;
    destination_port = port;
    protocol = Protocol.ssh;
    event_type = event_type;
    raw_data = raw_data;
  }

  abbrev pub connection_event : Clock → Server → AttackEvent
  connection_event c s = event_of "ssh_connection" c (connection_data s c.ticks) s

  -- `running` says whether an event loop runs, on which the event can be scheduled
  unfoldable pub connection_lost : Clock → Bool → Server → List AttackEvent
  connection_lost c running s =
      if not (s.attempts == 0) then [] else (if not running then [] else connection_event c s ∷ [])

  abbrev pub login_event : Clock → Text → Text → Server → AttackEvent
  login_event c username password s =
      event_of "ssh_login_attempt" c
        (ssh_dump (record {
          username = username;
          password = password;
          client_version = s.client_version;
          connection_duration = sub_ℕ c.ticks s.conn_start;
          auth_success = false;
        }))
        s

  -- the new state, the event and the answer
  unfoldable pub validate_password :
      Clock → Option Text → Text → Text → Server → Server × AttackEvent × Bool
  validate_password c version username password s =
      let s' = counted version s in (s', login_event c username password s', false)
