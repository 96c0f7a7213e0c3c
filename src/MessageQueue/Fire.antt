-- ===== src/MessageQueue/Fire.antt =====
-- `fire_listener_if_ready` and the loop over the drained listeners.
use roxo_mcp.Base.{
  ℕ, ◌+◌, ◌^◌, ◌≤◌, ◌<◌, ◌≡◌, refl, Bool, not, List, [], ◌∷◌, ◌++◌, map, arith, length, take, drop,
  keep, All, ltb, length-append, length-drop, take-append-drop, take-length, take-append_le,
}
use roxo_mcp.MessageQueue.{Listener, Delivery, sent, to_u32, fire_listener_if_ready, fire_all}

module _ {ℓ} {T : Type ℓ} where
  -- The listener's cursor is behind the messages.
  abbrev pub ready : List T → Listener → Bool
  ready messages l = ltb l.cursor (to_u32 (length messages))

  -- What a ready listener is sent.
  abbrev pub answer : List T → Listener → Delivery T
  answer messages l = record {
    sender = l.sender;
    new_cursor = to_u32 (length messages);
    new_messages = drop l.cursor messages;
  }

  -- One round splits the listeners by `ready`, keeps their order, and answers the ready ones.
  pub fire_all_lem :
      (messages : List T) (ls : List Listener)
      → fire_all messages ls
        ≡ (map (answer messages) (keep (ready messages) ls), keep (λ l. not (ready messages l)) ls)
  unfolding fire_all fire_listener_if_ready
  fire_all_lem messages [] = refl
  fire_all_lem messages (l ∷ ls) = ground (arith, fire_all_lem messages ls)

  -- Nobody who is kept is behind.
  pub kept_caught_up :
      (messages : List T) (ls : List Listener)
      → All (λ l. to_u32 (length messages) ≤ l.cursor) (keep (λ l. not (ready messages l)) ls)
  kept_caught_up messages [] = tt
  kept_caught_up messages (l ∷ ls) = ground (arith, kept_caught_up messages ls)

  -- The delivery carries exactly the messages from the cursor `c` up to its new cursor.
  pub record IsWindow (messages : List T) (c : ℕ) (d : Delivery T) : Type ℓ where
    pub counts : c + length d.new_messages ≡ d.new_cursor
    pub within : d.new_cursor ≤ length messages
    pub contents : take c messages ++ d.new_messages ≡ take d.new_cursor messages

  pub fire-IsWindow :
      (messages : List T) (l : Listener) (d : Delivery T)
      → length messages < 2 ^ 32
      → fire_listener_if_ready messages l ≡ sent d
      → IsWindow messages l.cursor d
  unfolding fire_listener_if_ready
  fire-IsWindow messages l d small e = record {
    counts = ground (arith, length-drop l.cursor messages);
    within = ground arith;
    contents = ground (arith, take-append-drop l.cursor messages, take-length messages);
  }

  -- Later messages do not change what was delivered.
  pub IsWindow-append :
      (messages more : List T) (c : ℕ) (d : Delivery T)
      → IsWindow messages c d
      → IsWindow (messages ++ more) c d
  IsWindow-append messages more c d w = record {
    counts = w.counts;
    within = omega (arith, w.within, length-append messages more);
    contents =
        rw
          (
            take-append_le c messages more (omega (arith, w.within, w.counts)),
            take-append_le d.new_cursor messages more w.within,
          )
          w.contents;
  }
