-- ===== src/Detection/IpContext/Tests.antt =====
-- Runs of the context store, and its theorem at a concrete input.
use honeywatch.Prelude.{ℕ, ◌*◌, ◌≡◌, refl, false, String, List, [], ◌∷◌}
use honeywatch.Detection.Classifier.{empty_context}
use honeywatch.Detection.IpContext.{
  Outcome, executed, refused, answer_lost, Call, IpContextStore, update_and_get, after, execute,
}
use honeywatch.Detection.IpContext.Answers.{Answers}
use honeywatch.Detection.IpContext.Server.{Memory, server, no_keys, texts}

abbrev pub fresh : IpContextStore Memory
fresh = record { connected = false; db = no_keys }

abbrev call : String → ℕ → ℕ → Outcome → Call
call ip port seconds outcome = record {
  source_ip = ip;
  destination_port = port;
  now = seconds * 1000000;
  outcome = outcome;
}

-- the last call first
abbrev earlier : List Call
earlier =
    call "203.0.113.9" 80 900 answer_lost
    ∷ call "198.51.100.7" 22 800 executed
    ∷ call "203.0.113.9" 22 700 refused
    ∷ call "203.0.113.9" 22 100 executed
    ∷ []

-- Of the two calls before that were carried out, one is too old to count, and its port is known.
context_of_third :
    (update_and_get server texts 600
      (call "203.0.113.9" 443 1000 executed)
      (after server texts 600 earlier fresh)).1
    ≡ record { recent_attempts = 2; distinct_ports = 443 ∷ 80 ∷ 22 ∷ [] }
unfolding update_and_get after execute
context_of_third = refl

degraded :
    (update_and_get server texts 600
      (call "203.0.113.9" 443 1000 refused)
      (after server texts 600 earlier fresh)).1
    ≡ empty_context
unfolding update_and_get
degraded = refl
