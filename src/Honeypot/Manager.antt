-- ===== src/Honeypot/Manager.antt =====
-- src/honeywatch/honeypot/__main__.py, `run_all_honeypots`: the tasks of both honeypots, which end by
-- themselves or are cancelled, as steps from one `await` to the next, once the queue has connected
-- and the tasks are there.
pub mod Shutdown
mod Tests
use honeywatch.Prelude.{ℕ, ◌≡◌, ◌≢◌, Bool, true, false}
use honeywatch.Honeypot.Restart.{Start, cancelled, Runner, run_honeypot_with_restart}

pub data Name : Type 0 where
  ssh http : Name

-- A task runs, or runs on after its `cancel`, or has ended with what its runner has done.
pub data Task : Type 0 where
  running cancelling : Task
  ended : Runner → Task

-- where `run_all_honeypots` stands
pub data Phase : Type 0 where
  waiting gathering done : Phase

pub record Manager : Type 0 where
  pub phase : Phase
  pub shutdown_event : Bool
  pub ssh_task : Task
  pub http_task : Task
  pub queue_closed : Bool

-- at the wait for a signal
abbrev pub launched : Manager
launched = record {
  phase = waiting;
  shutdown_event = false;
  ssh_task = running;
  http_task = running;
  queue_closed = false;
}

abbrev pub task : Name → Manager → Task
task ssh m = m.ssh_task
task http m = m.http_task

abbrev pub at : Name → Task → Manager → Manager
at ssh t m = record m { ssh_task = t }
at http t m = record m { http_task = t }

-- `task.cancel()`, which leaves a task alone that has ended
abbrev pub cancel : Task → Task
cancel running = cancelling
cancel cancelling = cancelling
cancel (ended r) = ended r

-- the loop over the tasks
abbrev pub cancel_all : Manager → Manager
cancel_all m = record m {
  phase = gathering;
  ssh_task = cancel m.ssh_task;
  http_task = cancel m.http_task;
}

-- after the tasks: `event_queue.close()`
abbrev pub finish : Manager → Manager
finish m = record m { phase = done; queue_closed = true }

-- A step of a task, of the signal handler, or of `run_all_honeypots` itself.
pub data Step (m n : Manager) : Type 0 where
  -- a task ends that no one has cancelled
  ends :
      (h : Name) (start : ℕ → Start)
      → task h m ≡ running
      → ((k : ℕ) → start k ≢ cancelled)
      → n ≡ at h (ended (run_honeypot_with_restart start (λ k. false))) m
      → Step m n
  -- a task ends after its `cancel`
  gives_in :
      (h : Name) (start : ℕ → Start) (interrupted : ℕ → Bool)
      → task h m ≡ cancelling
      → n ≡ at h (ended (run_honeypot_with_restart start interrupted)) m
      → Step m n
  signal : m.phase ≡ waiting → n ≡ record m { shutdown_event = true } → Step m n
  shut_down : m.phase ≡ waiting → m.shutdown_event ≡ true → n ≡ cancel_all m → Step m n
  gathers :
      (r q : Runner)
      → m.phase ≡ gathering
      → m.ssh_task ≡ ended r
      → m.http_task ≡ ended q
      → n ≡ finish m
      → Step m n

pub data Reach (m : Manager) : Manager → Type 0 where
  here : Reach m m
  next : {n o : Manager} → Reach m n → Step n o → Reach m o
