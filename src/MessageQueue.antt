-- ===== src/MessageQueue.antt =====
-- message_queue.rs: the queue of applied patches that clients read by cursor.
mod Fire
pub mod Quiet
mod Interleave
mod Tests
use roxo_mcp.Base.{
  ℕ, ◌%◌, ◌^◌, List, [], ◌∷◌, ◌++◌, Option, none, some, length, drop, ltb, ◌==◌, if◌then◌else◌,
}

-- The sending half of a oneshot channel is named by a number. Receivers that are gone do not show:
-- the code ignores the result of `send`.
pub record Listener : Type 0 where
  pub sender : ℕ
  pub cursor : ℕ

pub record MessageQueue {ℓ} (T : Type ℓ) : Type ℓ where
  pub messages : List T
  pub message_listeners : List Listener
  pub last_push_at : ℕ

-- What goes through a channel: the new cursor, and the messages since the listener's own.
pub record Delivery {ℓ} (T : Type ℓ) : Type ℓ where
  pub sender : ℕ
  pub new_cursor : ℕ
  pub new_messages : List T

-- `Ok` after a send, and `Err` with the listener handed back.
pub data Fired {ℓ} (T : Type ℓ) : Type ℓ where
  sent : Delivery T → Fired T
  kept : Listener → Fired T

-- `len() as u32`
abbrev pub to_u32 : ℕ → ℕ
to_u32 n = n % 2 ^ 32

module _ {ℓ} {T : Type ℓ} where
  pub new : MessageQueue T
  new = record { messages = []; message_listeners = []; last_push_at = 0 }

  pub fire_listener_if_ready : List T → Listener → Fired T
  fire_listener_if_ready messages listener =
      let current_cursor = to_u32 (length messages) in
      if ltb listener.cursor current_cursor
      then sent (record {
        sender = listener.sender;
        new_cursor = current_cursor;
        new_messages = drop listener.cursor messages;
      })
      else kept listener

  -- One round of the loop over the drained listeners, put in front of what the other rounds give.
  abbrev pub collect :
      Fired T → List (Delivery T) × List Listener → List (Delivery T) × List Listener
  collect (sent d) (out, remaining) = (d ∷ out, remaining)
  collect (kept l) (out, remaining) = (out, l ∷ remaining)

  pub fire_all : List T → List Listener → List (Delivery T) × List Listener
  fire_all messages [] = ([], [])
  fire_all messages (l ∷ ls) = collect (fire_listener_if_ready messages l) (fire_all messages ls)

  abbrev stamp : ℕ → List T → ℕ → ℕ
  stamp now [] last = last
  stamp now (_ ∷ _) last = now

  -- The whole push: it holds the lock on the listeners from before the messages are extended.
  pub push_messages : ℕ → List T → MessageQueue T → MessageQueue T × List (Delivery T)
  push_messages now new_messages q =
      let messages = q.messages ++ new_messages in
      let (out, remaining) = fire_all messages q.message_listeners in
      (
        record {
          messages = messages;
          message_listeners = remaining;
          last_push_at = stamp now new_messages q.last_push_at;
        },
        out,
      )

  -- `subscribe` takes two locks, one after the other: the first part reads the messages ...
  pub subscribe_check : ℕ → ℕ → MessageQueue T → Fired T
  subscribe_check sender cursor q =
      fire_listener_if_ready q.messages (record { sender = sender; cursor = cursor })

  -- ... and the second adds the listener that was handed back.
  pub enlist : Listener → MessageQueue T → MessageQueue T
  enlist l q = record q { message_listeners = q.message_listeners ++ l ∷ [] }

  abbrev pub finish_subscribe : Fired T → MessageQueue T → MessageQueue T × List (Delivery T)
  finish_subscribe (sent d) q = (q, d ∷ [])
  finish_subscribe (kept l) q = (enlist l q, [])

  -- `subscribe` where no other thread acts between its two parts.
  pub subscribe : ℕ → ℕ → MessageQueue T → MessageQueue T × List (Delivery T)
  unfolding enlist subscribe_check
  subscribe sender cursor q = finish_subscribe (subscribe_check sender cursor q) q

  pub last_push_time : MessageQueue T → Option ℕ
  last_push_time q = if q.last_push_at == 0 then none else some q.last_push_at

  pub cursor : MessageQueue T → ℕ
  cursor q = to_u32 (length q.messages)
