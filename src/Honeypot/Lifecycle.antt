-- ===== src/Honeypot/Lifecycle.antt =====
-- src/honeywatch/honeypot/base.py, http.py and ssh.py: the task of the periodic flush, and starting and
-- stopping the servers. A task, a runner or a server is a number; what a library does with one is
-- whether its call returns.
pub mod Leak
pub mod Keys
use honeywatch.Prelude.{
  ℕ, zero, suc, ◌+◌, Bool, true, false, not, List, [], ◌∷◌, ◌++◌, Option, none, some, filter, ◌==◌,
  if◌then◌else◌,
}
use honeywatch.Honeypot.Restart.{Start, finished, cancelled, crashed}

-- the tasks that run, the one that is kept in the field, and the next one's number
pub record FlushTasks : Type 0 where
  pub running : List ℕ
  pub flush_task : Option ℕ
  pub next : ℕ

abbrev pub no_tasks : FlushTasks
no_tasks = record { running = []; flush_task = none; next = 0 }

abbrev pub without : Option ℕ → List ℕ → List ℕ
without none l = l
without (some i) l = filter (λ x. not (x == i)) l

-- `start_flush_loop`
unfoldable pub start_flush_loop : FlushTasks → FlushTasks
start_flush_loop t = record {
  running = t.next ∷ t.running;
  flush_task = some t.next;
  next = t.next + 1;
}

-- `stop_flush_loop`: the task in the field is cancelled
unfoldable pub stop_flush_loop : FlushTasks → FlushTasks
stop_flush_loop t = record t { running = without t.flush_task t.running }

-- the fields of an HTTP honeypot, and what is open in truth
pub record HttpServer : Type 0 where
  pub flush : FlushTasks
  pub runner : Option ℕ
  pub site : Option ℕ
  pub set_up : List ℕ
  pub listening : List ℕ
  pub next : ℕ

-- How a start goes: setting up the runner raises; the site cannot listen; or it serves until the task
-- is cancelled, which `start` takes for its end.
pub data HttpStart : Type 0 where
  setup_fails site_fails serves : HttpStart

-- up to the runner
abbrev pub with_runner : HttpServer → HttpServer
with_runner s = record s {
  flush = start_flush_loop s.flush;
  runner = some s.next;
  next = s.next + 1;
}

unfoldable pub http_start : HttpStart → HttpServer → HttpServer × Start
http_start setup_fails s = (with_runner s, crashed)
http_start site_fails s =
    (record (with_runner s) { set_up = s.next ∷ s.set_up; site = some s.next }, crashed)
http_start serves s = (
  record (with_runner s) {
    set_up = s.next ∷ s.set_up;
    site = some s.next;
    listening = s.next ∷ s.listening;
  },
  finished,
)

unfoldable pub http_stop : HttpServer → HttpServer
http_stop s = record s {
  flush = stop_flush_loop s.flush;
  listening = without s.site s.listening;
  set_up = without s.runner s.set_up;
}

abbrev pub new_http : HttpServer
new_http = record {
  flush = no_tasks;
  runner = none;
  site = none;
  set_up = [];
  listening = [];
  next = 0;
}

pub record SshServer : Type 0 where
  pub flush : FlushTasks
  pub server : Option ℕ
  pub opened : List ℕ
  pub next : ℕ

-- How a start goes: the host keys cannot be read or written; the server cannot be created; or it
-- serves until it is closed, or until the task is cancelled.
pub data SshStart : Type 0 where
  keys_fail create_fails closed interrupted : SshStart

abbrev pub with_server : SshServer → SshServer
with_server s = record {
  flush = start_flush_loop s.flush;
  server = some s.next;
  opened = s.next ∷ s.opened;
  next = s.next + 1;
}

unfoldable pub ssh_start : SshStart → SshServer → SshServer × Start
ssh_start keys_fail s = (s, crashed)
ssh_start create_fails s = (record s { flush = start_flush_loop s.flush }, crashed)
ssh_start closed s = (with_server s, finished)
ssh_start interrupted s = (with_server s, cancelled)

unfoldable pub ssh_stop : SshServer → SshServer
ssh_stop s = record s {
  flush = stop_flush_loop s.flush;
  opened = without s.server s.opened;
  server = none;
}

abbrev pub new_ssh : SshServer
new_ssh = record { flush = no_tasks; server = none; opened = []; next = 0 }
