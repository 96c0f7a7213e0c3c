-- ===== src/MessageQueue/Quiet.antt =====
-- One thread at a time: nobody who waits is ever behind.
use roxo_mcp.Base.{ℕ, ◌≤◌, ◌≡◌, refl, not, List, ◌++◌, map, length, keep, All}
use roxo_mcp.MessageQueue.{MessageQueue, to_u32, push_messages}
use roxo_mcp.MessageQueue.Fire.{ready, answer, fire_all_lem, kept_caught_up}

module _ {ℓ} {T : Type ℓ} where
  -- No waiting listener has a cursor behind the messages.
  abbrev pub IsQuiet : MessageQueue T → Type 0
  IsQuiet q = All (λ l. to_u32 (length q.messages) ≤ l.cursor) q.message_listeners

  -- A push appends the messages, answers exactly the waiting listeners that are behind the new
  -- history, in their order and each with all messages since its cursor, and keeps the others.
  pub push_messages_lem :
      (now : ℕ) (new_messages : List T) (q : MessageQueue T)
      → let messages = q.messages ++ new_messages in
        let r = push_messages now new_messages q in
        (r.0.messages ≡ messages)
        × (r.0.message_listeners ≡ keep (λ l. not (ready messages l)) q.message_listeners)
        × (r.1 ≡ map (answer messages) (keep (ready messages) q.message_listeners))
  unfolding push_messages
  push_messages_lem now new_messages q =
      rw (fire_all_lem (q.messages ++ new_messages) q.message_listeners) (refl, refl, refl)

  -- After a push no waiting listener is behind the history, whoever waited before.
  pub push_messages-IsQuiet :
      (now : ℕ) (new_messages : List T) (q : MessageQueue T)
      → IsQuiet (push_messages now new_messages q).0
  unfolding push_messages
  push_messages-IsQuiet now new_messages q =
      rw (fire_all_lem (q.messages ++ new_messages) q.message_listeners)
        (kept_caught_up (q.messages ++ new_messages) q.message_listeners)
