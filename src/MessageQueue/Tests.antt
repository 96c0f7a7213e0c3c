-- ===== src/MessageQueue/Tests.antt =====
-- message_queue.rs on concrete queues.
use roxo_mcp.Base.{ℕ, ◌≡◌, refl, [], ◌∷◌, ◌++◌, map, not, arith, keep, none}
use mathlib.Core.List.{Mem}
use roxo_mcp.MessageQueue.{
  MessageQueue, new, push_messages, fire_all, fire_listener_if_ready, subscribe, cursor,
  last_push_time, subscribe_check, enlist,
}
use roxo_mcp.MessageQueue.Fire.{ready, answer}
use roxo_mcp.MessageQueue.Quiet
use roxo_mcp.MessageQueue.Quiet.{IsQuiet}
use roxo_mcp.MessageQueue.Interleave
use roxo_mcp.MessageQueue.Interleave.{
  System, Reach, Windows, idle, here, next, push, check, finish, caught_up,
}

-- Two messages; one client waits for the third.
abbrev queue : MessageQueue ℕ
queue = record {
  messages = 10 ∷ 20 ∷ [];
  message_listeners = record { sender = 7; cursor = 2 } ∷ [];
  last_push_at = 100;
}

program : Unit {0}
unfolding new push_messages fire_all fire_listener_if_ready subscribe cursor last_push_time
program = tt

-- A push answers the client that waits, and stamps the time.
push_answers : push_messages 105 (30 ∷ []) queue ≡ (
  record { messages = 10 ∷ 20 ∷ 30 ∷ []; message_listeners = []; last_push_at = 105 },
  record { sender = 7; new_cursor = 3; new_messages = 30 ∷ [] } ∷ [],
)
unfolding program
push_answers = refl

-- A client that starts from nothing is sent the whole history.
subscribe_from_start :
    subscribe 8 0 queue
    ≡ (queue, record { sender = 8; new_cursor = 2; new_messages = 10 ∷ 20 ∷ [] } ∷ [])
unfolding program
subscribe_from_start = refl

never_pushed : last_push_time (new {T = ℕ}) ≡ none
unfolding program
never_pushed = refl

push_messages_lem_example :
    let messages = queue.messages ++ 30 ∷ [] in
    let r = push_messages 105 (30 ∷ []) queue in
    (r.0.messages ≡ messages)
    × (r.0.message_listeners ≡ keep (λ l. not (ready messages l)) queue.message_listeners)
    × (r.1 ≡ map (answer messages) (keep (ready messages) queue.message_listeners))
push_messages_lem_example = Quiet.push_messages_lem 105 (30 ∷ []) queue

abbrev system : System ℕ
system = record { queue = queue; pending = []; log = [] }

-- A client that waits, and is sent the two messages of a push.
abbrev waiting : System ℕ
waiting = record {
  queue = record {
    messages = [];
    message_listeners = record { sender = 3; cursor = 0 } ∷ [];
    last_push_at = 0;
  };
  pending = [];
  log = [];
}

abbrev answered : System ℕ
answered = record {
  queue = record { messages = 1 ∷ 2 ∷ []; message_listeners = []; last_push_at = 5 };
  pending = [];
  log = (0, record { sender = 3; new_cursor = 2; new_messages = 1 ∷ 2 ∷ [] }) ∷ [];
}

waits : Reach (idle {T = ℕ}) waiting
unfolding program subscribe_check enlist
waits = next (next here (check (idle {T = ℕ}) (record { sender = 3; cursor = 0 }))) (
    finish
      (record { queue = new {T = ℕ}; pending = record { sender = 3; cursor = 0 } ∷ []; log = [] })
      [] (record { sender = 3; cursor = 0 }) [] refl)

is_answered : Reach (idle {T = ℕ}) answered
unfolding program
is_answered = next waits (push waiting 5 (1 ∷ 2 ∷ []))

Reach-Windows_example : Windows answered.queue.messages answered.log
Reach-Windows_example = Interleave.Reach-Windows is_answered (omega arith)

lost_wakeup_example :
    (u : System ℕ) × Reach system u
    × (u.pending ≡ [])
    × (u.queue.messages ≡ 10 ∷ 20 ∷ 30 ∷ [])
    × Mem (caught_up 9 queue) u.queue.message_listeners
    × ¬ IsQuiet u.queue
lost_wakeup_example = Interleave.lost_wakeup system 9 105 30 (omega arith)
