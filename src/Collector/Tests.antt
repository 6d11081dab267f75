-- ===== src/Collector/Tests.antt =====
-- Publishing at a concrete server, and the instance of its theorem.
use honeywatch.Prelude.{ℕ, ◌≡◌, refl, true, false, [], ◌∷◌, if◌then◌else◌, ◌==◌}
use honeywatch.Collector.Queue.{
  Reply, carried_out, busy_group, unreachable, answer_lost, succeeded, Queue, max_retries, connect,
  try_publish, publish_from, publish,
}
use honeywatch.Collector.Publish.{Published, publish-Published}

-- The group exists; the first event is added but the answer is lost, the second command after the
-- new connection is carried out.
abbrev reply : ℕ → Reply
reply n =
    if n == 0
    then busy_group
    else (if n == 1 then answer_lost else (if n == 2 then unreachable else carried_out))

abbrev queue : Queue ℕ
queue = record { connected = false; calls = 0; stream = 5 ∷ []; acked = []; slept = 0 }

publish_twice : publish reply 9 queue ≡ (
  record { connected = true; calls = 5; stream = 5 ∷ 9 ∷ 9 ∷ []; acked = []; slept = 3 },
  succeeded,
)
unfolding publish publish_from try_publish connect
publish_twice = refl

publish-Published_example :
    Published reply max_retries 0 9 queue.stream queue.slept (publish reply 9 queue)
publish-Published_example = publish-Published reply 9 queue
