-- ===== src/Honeypot/Tests.antt =====
-- The honeypots at concrete inputs, and the instances of their theorems.
use honeywatch.Honeypot.Restart.{
  run_from, Start, crashed, finished, Ended, run_honeypot_with_restart,
  run_honeypot_with_restart-Ended,
}
use honeywatch.Prelude.{
  String, ℕ, ◌≤◌, ◌≡◌, refl, ◌↔◌, ◌⊎◌, Text, codes, Bool, true, false, ◌||◌, none, some, List, [],
  ◌∷◌, ◌++◌, arith, length, map, flatten, ltb, ◌==◌, if◌then◌else◌,
}
use honeywatch.Honeypot.Lifecycle.{HttpStart, http_start, http_stop}
use honeywatch.Honeypot.Lifecycle.Leak.{start_of, http_after, restart_leaks}
use honeywatch.Honeypot.Lifecycle.Keys.{KeyDir}
use honeywatch.Detection.Rules.{DetectionRules, default_rules}
use honeywatch.Detection.Classifier.{is_credential_attack}
use honeywatch.Honeypot.Base.{
  max_buffer_size, Publisher, Honeypot, emit_event, flush_buffer, flush_from, periodic_flush,
  append,
}
use honeywatch.Collector.Queue.{
  Reply, carried_out, unreachable, Queue, publish, publish_from, try_publish, connect,
}
use honeywatch.Honeypot.Stream.{event_queue, plain_answers}
use honeywatch.Honeypot.Session.{Op, emit, tick, run, length-run}
use honeywatch.Honeypot.Race.{
  Shared, Reach, Alone, here, next, sends, accepts, start, alone_keeps, race_loses,
}
use honeywatch.Honeypot.Http.{method_post, handle_request}
use honeywatch.Honeypot.Request.{max_body_size, Request, declares_too_much, read_body_limited}
use honeywatch.Honeypot.Http.Body.{received, read_body_limited_lem}
use honeywatch.Honeypot.Http.Records.{
  Honest, handle_request-Honest, Weak, attempt, login_attempt-weak_iff,
}
use honeywatch.Honeypot.Ssh.{Clock, init}
use honeywatch.Honeypot.Ssh.Session.{
  Callback, made, auth, password, tries, tried, only_connection, summary, session, session_lem,
}

-- the third and the sixth command find no server
abbrev flaky : ℕ → Reply
flaky n = if n == 2 then unreachable else (if n == 5 then unreachable else carried_out)

flaky-plain : (n : ℕ) → (flaky n ≡ carried_out) ⊎ (flaky n ≡ unreachable)
flaky-plain n = ground arith

abbrev queue : Publisher ℕ (Queue ℕ)
queue = event_queue flaky (plain_answers flaky flaky-plain)

abbrev fresh : Honeypot ℕ (Queue ℕ)
fresh = record {
  buffer = [];
  queue = record { connected = false; calls = 0; stream = []; acked = []; slept = 0 };
}

abbrev traffic : List (Op ℕ)
traffic = emit 10 ∷ emit 11 ∷ tick ∷ emit 12 ∷ []

run-traffic : (run queue traffic fresh).queue.stream ≡ 10 ∷ 11 ∷ 12 ∷ []
unfolding run emit_event flush_buffer flush_from append periodic_flush publish publish_from
    try_publish connect
run-traffic = refl

length-run_example : length (run queue traffic fresh).buffer ≤ max_buffer_size
length-run_example = length-run queue traffic fresh (omega arith)

abbrev after_one : Shared ℕ
after_one = record (start (2 ∷ []) (7 ∷ 1 ∷ [])) { buffer = 2 ∷ [] }

after_one-Alone : Alone (start (1 ∷ 2 ∷ []) (7 ∷ [])) after_one
after_one-Alone = next (next here (sends 1 (2 ∷ []) refl refl refl)) (accepts 1 refl refl)

alone_keeps_example : after_one.published ++ after_one.buffer ≡ (7 ∷ []) ++ 1 ∷ 2 ∷ []
alone_keeps_example = alone_keeps (1 ∷ 2 ∷ []) (7 ∷ []) after_one after_one-Alone

race_loses_example :
    (t : Shared ℕ) × Reach (start (1 ∷ 2 ∷ 3 ∷ []) (7 ∷ [])) t
    × (t.published ≡ ((7 ∷ []) ++ 1 ∷ []) ++ 1 ∷ [])
    × (t.buffer ≡ 3 ∷ [])
race_loses_example = race_loses 1 2 (3 ∷ []) (7 ∷ [])

abbrev form : Text
form = codes "email=a%40b.c&password=root"

abbrev submitted : Request
submitted = record {
  method = method_post;
  path = codes "/Login/";
  headers = (codes "Host", codes "a") ∷ [];
  user_agent = some (codes "curl");
  remote = some "8.8.8.8";
  peer_port = some 4000;
  read = none;
  content_length = none;
  chunks = codes "email=a%40b.c" ∷ codes "&password=root" ∷ [];
  breaks = false;
}

read_body_limited_lem_example : read_body_limited submitted ≡ (
    if declares_too_much submitted.content_length
      || ltb max_body_size (length (flatten submitted.chunks))
    then none
    else some (received submitted))
read_body_limited_lem_example = read_body_limited_lem submitted

abbrev kept : ℕ → Text
kept c = c ∷ []

handle_request-Honest_example :
    Honest 80
      (handle_request 80 256 1 0 kept submitted).event
      (handle_request 80 256 1 0 kept submitted).response.status
handle_request-Honest_example = handle_request-Honest 80 256 1 0 kept submitted

abbrev weak_rules : DetectionRules
weak_rules = record default_rules {
  attack_types = record default_rules.attack_types {
    credential_attack = record default_rules.attack_types.credential_attack {
      passwords = codes "root" ∷ [];
    };
  };
}

login_attempt-weak_iff_example :
    (is_credential_attack weak_rules (attempt 80 256 1 0 weak_rules submitted form) ≡ true)
    ↔ Weak 80 256 1 0 weak_rules submitted form
login_attempt-weak_iff_example = login_attempt-weak_iff 80 256 1 0 weak_rules submitted form

abbrev clock : Clock
clock = record { id = 3; now = 50; ticks = 9 }

abbrev talk : List Callback
talk =
    made (some ("8.8.8.8", 4000)) none
    ∷ auth (codes "root")
    ∷ password clock none (codes "root") (codes "1234")
    ∷ []

session_lem_example :
    map summary (session 22 talk clock (init 4))
    ≡ (if tries talk == 0 then only_connection else tried talk)
session_lem_example = session_lem 22 talk clock 4

-- three crashes, and then a start that returns
abbrev start_result : ℕ → Start
start_result n = if ltb n 3 then crashed else finished

-- cancelled in the wait after the third start
abbrev interrupted : ℕ → Bool
interrupted n = n == 2

run_honeypot_with_restart-Ended_example :
    Ended start_result interrupted (run_honeypot_with_restart start_result interrupted)
run_honeypot_with_restart-Ended_example = run_honeypot_with_restart-Ended start_result interrupted

-- two starts that cannot listen, and one that serves
abbrev http_outcome : ℕ → HttpStart
http_outcome n = if ltb n 2 then HttpStart.site_fails else HttpStart.serves

stopped_once : (run_honeypot_with_restart (start_of http_outcome) (λ n. false)).stops ≡ 1
unfolding run_honeypot_with_restart run_from http_start
stopped_once = refl

restart_leaks_example :
    length
      (http_stop (
        http_after http_outcome
          (run_honeypot_with_restart (start_of http_outcome) (λ n. false)).starts)).flush.running
    ≡ (run_honeypot_with_restart (start_of http_outcome) (λ n. false)).waits
restart_leaks_example = restart_leaks http_outcome (λ n. false) stopped_once

-- a directory without keys
abbrev no_keys : KeyDir
no_keys = record { files = λ p. none; generated = 0 }

abbrev generate : String → ℕ → List ℕ
generate alg n = n ∷ []
