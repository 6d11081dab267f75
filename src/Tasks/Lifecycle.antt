-- ===== src/Tasks/Lifecycle.antt =====
-- src/honeywatch/tasks/workers.py: starting and stopping the worker, and `run_worker`. Of a client only
-- whether it is connected matters; what connecting, the rules file and the consuming loop come to are
-- arguments. A signal before the worker has started, and a close that raises, are not modelled.
use honeywatch.Prelude.{
  ℕ, ◌≡◌, ◌≢◌, ◌⊎◌, refl, Bool, true, false, List, [], ◌∷◌, ◌++◌, Option, none, some,
}
use honeywatch.Detection.Rules.{DetectionRules, Loaded, file_not_found, value_error, loaded}
use honeywatch.Db.Session.{Database, init_db, close_db, sessions}

pub record EventWorker : Type 0 where
  pub running : Bool
  pub event_queue : Option Bool
  pub classifier : Option DetectionRules
  pub ip_context_store : Option Bool
  pub brute_force_window : ℕ
  pub database : Database

-- How a coroutine ends.
pub data End : Type 0 where
  returned raised : End

-- `EventWorker.__init__`, beside the module of the database
abbrev pub new_worker : Database → EventWorker
new_worker d = record {
  running = false;
  event_queue = none;
  classifier = none;
  ip_context_store = none;
  brute_force_window = 600;
  database = d;
}

-- the start after the queue has connected, with how the load of the rules ends
abbrev pub load_rules : Loaded → EventWorker → EventWorker × End
load_rules file_not_found w = (w, raised)
load_rules value_error w = (w, raised)
load_rules (loaded rules) w = (
  record w {
    classifier = some rules;
    brute_force_window = rules.attack_types.brute_force.time_window;
    ip_context_store = some true;
    running = true;
  },
  returned,
)

-- the start after `init_db`; a queue that has not connected may still hold its client
abbrev pub connect_queue : End → Loaded → EventWorker → EventWorker × End
connect_queue raised rules w = (record w { event_queue = some true }, raised)
connect_queue returned rules w = load_rules rules (record w { event_queue = some true })

-- `start` before its loop
unfoldable pub start_up : End → Loaded → EventWorker → EventWorker × End
start_up connection rules w =
    connect_queue connection rules (record w { database = init_db w.database })

-- `if x is not None: await x.close()`
abbrev pub close_client : Option Bool → Option Bool
close_client none = none
close_client (some _) = some false

unfoldable pub stop : EventWorker → EventWorker
stop w = record w {
  running = false;
  event_queue = close_client w.event_queue;
  ip_context_store = close_client w.ip_context_store;
  database = close_db w.database;
}

-- How the task ends after it is cancelled.
pub data Last : Type 0 where
  cancelled late_return late_exception : Last

-- What ends first: the worker's task, by itself or by an exception, or the wait for a signal.
pub data First : Type 0 where
  task_returns task_raises : First
  signal : Last → First

-- `CancelledError` is caught
abbrev pub end_of : First → End
end_of task_returns = returned
end_of task_raises = raised
end_of (signal cancelled) = returned
end_of (signal late_return) = returned
end_of (signal late_exception) = raised

-- what follows the start, with the sessions that the loop opens before the end
abbrev pub finish : First → ℕ → EventWorker × End → EventWorker × End
finish first opened (w, raised) = (stop w, raised)
finish first opened (w, returned) =
    (stop (record w { database = sessions opened w.database }), end_of first)

unfoldable pub run_worker : End → Loaded → First → ℕ → Database → EventWorker × End
run_worker connection rules first opened d =
    finish first opened (start_up connection rules (new_worker d))

-- Nothing runs and nothing is left open.
pub record Released (w : EventWorker) : Type 0 where
  pub stopped : w.running ≡ false
  pub queue : w.event_queue ≢ some true
  pub context : w.ip_context_store ≢ some true
  pub database : w.database.in_use ≡ []

-- the ways to fail
abbrev pub Fails : End → Loaded → First → Type 0
Fails connection rules first =
    (connection ≡ raised) ⊎ (((r : DetectionRules) → rules ≢ loaded r) ⊎ (end_of first ≡ raised))

-- What the loop of `start` meets: an event that is yielded, or `stop` in another task.
pub data Turn (E : Type 0) : Type 0 where
  yielded : ℕ → E → Turn E
  stop_called : Turn E

module _ {E W : Type 0} (process : ℕ → E → W → W) where
  -- the loop of `start`, with `_running` and the state of the rest
  unfoldable pub serve : List (Turn E) → Bool → W → Bool × W
  serve [] running w = (running, w)
  serve (stop_called ∷ turns) running w = serve turns false w
  serve (yielded n e ∷ turns) false w = (false, w)
  serve (yielded n e ∷ turns) true w = serve turns true (process n e w)

  abbrev pub turns_of : List (ℕ × E) → List (Turn E)
  turns_of [] = []
  turns_of ((n, e) ∷ l) = yielded n e ∷ turns_of l

  abbrev pub process_all : List (ℕ × E) → W → W
  process_all [] w = w
  process_all ((n, e) ∷ l) w = process_all l (process n e w)

  serve_stopped : (turns : List (Turn E)) (w : W) → serve turns false w ≡ (false, w)
  unfolding serve
  serve_stopped [] w = refl
  serve_stopped (stop_called ∷ turns) w = serve_stopped turns w
  serve_stopped (yielded n e ∷ turns) w = refl

  -- The loop processes every event that is yielded before `stop` is called, in order, and none that
  -- is yielded after, whatever comes then.
  pub serve_lem :
      (l : List (ℕ × E)) (later : List (Turn E)) (w : W)
      → serve (turns_of l ++ stop_called ∷ later) true w ≡ (false, process_all l w)
  unfolding serve
  serve_lem [] later w = serve_stopped later w
  serve_lem ((n, e) ∷ l) later w = serve_lem l later (process n e w)
