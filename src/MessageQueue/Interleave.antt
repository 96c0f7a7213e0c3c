-- ===== src/MessageQueue/Interleave.antt =====
-- Any number of threads: `subscribe` is two steps, and others may act between them.
use roxo_mcp.Base.{
  ℕ, ◌+◌, ◌^◌, ◌≤◌, ◌<◌, ◌≡◌, refl, sym, ap, subst, ◌∙◌, Bool-cases, inl, inr, List, [], ◌∷◌, ◌++◌,
  map, arith, length, keep, All, All-append, All-middle, length-append,
}
use roxo_mcp.MessageQueue.{
  Listener, MessageQueue, Delivery, Fired, sent, kept, to_u32, new, fire_listener_if_ready,
  push_messages, subscribe_check, enlist,
}
use mathlib.Core.List.{append-nil, Mem, mem-append_right, mem-cons_self}
use roxo_mcp.MessageQueue.Quiet.{IsQuiet, push_messages_lem}
use roxo_mcp.MessageQueue.Fire.{ready, answer, IsWindow, fire-IsWindow, IsWindow-append}

-- The queue, the listeners between the two parts of their `subscribe`, and all that was ever sent,
-- with the cursor that asked for it.
pub record System {ℓ} (T : Type ℓ) : Type ℓ where
  pub queue : MessageQueue T
  pub pending : List Listener
  pub log : List (ℕ × Delivery T)

module _ {ℓ} {T : Type ℓ} where
  abbrev pub idle : System T
  unfolding new
  idle = record { queue = new; pending = []; log = [] }

  -- The ready listeners of a push, each with its cursor beside its answer.
  abbrev pub answers : List T → List Listener → List (ℕ × Delivery T)
  answers messages ls = map (λ l. (l.cursor, answer messages l)) (keep (ready messages) ls)

  -- Deliveries beside the cursors they were asked with, in their order. A delivery that nobody asked
  -- for counts as one from the start of the history.
  abbrev pub with_cursors : List ℕ → List (Delivery T) → List (ℕ × Delivery T)
  with_cursors cs [] = []
  with_cursors [] (d ∷ ds) = (0, d) ∷ with_cursors [] ds
  with_cursors (c ∷ cs) (d ∷ ds) = (c, d) ∷ with_cursors cs ds

  -- What a push sends, beside the cursors of the listeners it finds behind.
  abbrev pub delivered : ℕ → List T → MessageQueue T → List (ℕ × Delivery T)
  delivered now more q =
      with_cursors (map (λ l. l.cursor) (keep (ready (q.messages ++ more)) q.message_listeners))
        (push_messages now more q).1

  abbrev pub checked : Listener → Fired T → System T → System T
  checked l (sent d) s = record s { log = (l.cursor, d) ∷ s.log }
  checked l (kept l') s = record s { pending = l' ∷ s.pending }

  pub data Step : System T → System T → Type ℓ where
    push :
        (s : System T) (now : ℕ) (more : List T)
        → Step s (record s {
          queue = (push_messages now more s.queue).0;
          log = delivered now more s.queue ++ s.log;
        })
    check :
        (s : System T) (l : Listener)
        → Step s (checked l (subscribe_check l.sender l.cursor s.queue) s)
    finish :
        (s : System T) (before : List Listener) (l : Listener) (after : List Listener)
        → s.pending ≡ before ++ l ∷ after
        → Step s (record s { queue = enlist l s.queue; pending = before ++ after })

  pub data Reach (s : System T) : System T → Type ℓ where
    here : Reach s s
    next : {t u : System T} → Reach s t → Step t u → Reach s u

  -- Everything sent is a window of the history: no message is skipped, repeated or reordered.
  abbrev pub Windows : List T → List (ℕ × Delivery T) → Type ℓ
  Windows messages = All (λ a. IsWindow messages a.0 a.1)

  answers-Windows :
      (messages : List T) (ls : List Listener)
      → length messages < 2 ^ 32
      → Windows messages (answers messages ls)
  unfolding fire_listener_if_ready
  answers-Windows messages [] h = tt
  answers-Windows messages (l ∷ ls) h = elim (Bool-cases (ready messages l)) [
    | inl e ↦ rw e (
      fire-IsWindow messages l (answer messages l) h (rw (e, fire_listener_if_ready)),
      answers-Windows messages ls h,
    )
    | inr e ↦ rw e (answers-Windows messages ls h)
  ]

  with_cursors-answers :
      (messages : List T) (ls : List Listener)
      → with_cursors (map (λ (l : Listener). l.cursor) ls) (map (answer messages) ls)
        ≡ map (λ (l : Listener). (l.cursor, answer messages l)) ls
  with_cursors-answers messages [] = refl
  with_cursors-answers messages (l ∷ ls) =
      ap (λ es. (l.cursor, answer messages l) ∷ es) (with_cursors-answers messages ls)

  delivered-answers :
      (now : ℕ) (more : List T) (q : MessageQueue T)
      → delivered now more q ≡ answers (q.messages ++ more) q.message_listeners
  delivered-answers now more q =
      let asked = keep (ready (q.messages ++ more)) q.message_listeners in
      ap (with_cursors (map (λ (l : Listener). l.cursor) asked)) (push_messages_lem now more q).2
      ∙ with_cursors-answers (q.messages ++ more) asked

  Windows-append :
      (messages more : List T) (log : List (ℕ × Delivery T))
      → Windows messages log
      → Windows (messages ++ more) log
  Windows-append messages more [] w = tt
  Windows-append messages more ((c, d) ∷ log) w =
      (IsWindow-append messages more c d w.0, Windows-append messages more log w.1)

  checked-Windows :
      (s : System T) (l : Listener) (r : Fired T)
      → fire_listener_if_ready s.queue.messages l ≡ r
      → length s.queue.messages < 2 ^ 32
      → Windows s.queue.messages s.log
      → Windows s.queue.messages (checked l r s).log
  checked-Windows s l (sent d) e h w = (fire-IsWindow s.queue.messages l d h e, w)
  checked-Windows s l (kept l') e h w = w

  checked_queue : (s : System T) (l : Listener) (r : Fired T) → (checked l r s).queue ≡ s.queue
  checked_queue s l (sent d) = refl
  checked_queue s l (kept l') = refl

  -- A step only ever adds messages at the end.
  Step-history :
      {s t : System T} → Step s t → (more : List T) × (t.queue.messages ≡ s.queue.messages ++ more)
  unfolding push_messages enlist
  Step-history (push s now more) = (more, refl)
  Step-history (check s l) =
      ([], rw (checked_queue s l (subscribe_check l.sender l.cursor s.queue)) (sym (append-nil _)))
  Step-history (finish s before l after e) = ([], sym (append-nil _))

  Step-Windows :
      {s t : System T}
      → Step s t
      → length t.queue.messages < 2 ^ 32
      → Windows s.queue.messages s.log
      → Windows t.queue.messages t.log
  unfolding push_messages subscribe_check enlist
  Step-Windows (push s now more) h w =
      All-append (λ a. IsWindow (s.queue.messages ++ more) a.0 a.1) (delivered now more s.queue)
        s.log
        (subst (Windows (s.queue.messages ++ more)) (sym (delivered-answers now more s.queue))
          (answers-Windows (s.queue.messages ++ more) s.queue.message_listeners h))
        (Windows-append s.queue.messages more s.log w)
  Step-Windows (check s l) h w =
      let r = fire_listener_if_ready s.queue.messages l in
      let e = checked_queue s l r in rw e (checked-Windows s l r refl (rw e at h) w)
  Step-Windows (finish s before l after e) h w = w

  -- However threads interleave their pushes and the two parts of their subscriptions, everything
  -- that was ever sent is the window of the history from the cursor it was asked with up to the
  -- cursor it carries, while the history is shorter than 2^32 messages.
  pub Reach-Windows :
      {s : System T}
      → Reach idle s
      → length s.queue.messages < 2 ^ 32
      → Windows s.queue.messages s.log
  unfolding idle
  Reach-Windows here h = tt
  Reach-Windows (next r st) h =
      let (more, e) = Step-history st in
      Step-Windows st h (Reach-Windows r (omega (arith, ap length e, length-append _ more)))

  abbrev pub caught_up : ℕ → MessageQueue T → Listener
  caught_up sender q = record { sender = sender; cursor = length q.messages }

  fire_caught_up :
      (sender : ℕ) (q : MessageQueue T)
      → length q.messages < 2 ^ 32
      → fire_listener_if_ready q.messages (caught_up sender q) ≡ kept (caught_up sender q)
  unfolding fire_listener_if_ready
  fire_caught_up sender q h = ground arith

  pushed_listeners : ℕ → T → System T → List Listener
  pushed_listeners now x s = (push_messages now (x ∷ []) s.queue).0.message_listeners

  -- From every state in which the history has fewer than 2^32 - 1 messages, a caught-up client
  -- that subscribes while another thread pushes a message between the two parts of the
  -- subscription is left waiting behind the history.
  pub lost_wakeup :
      (s : System T) (sender now : ℕ) (x : T)
      → length s.queue.messages + 1 < 2 ^ 32
      → (u : System T) × Reach s u
        × (u.pending ≡ s.pending)
        × (u.queue.messages ≡ s.queue.messages ++ x ∷ [])
        × Mem (caught_up sender s.queue) u.queue.message_listeners
        × ¬ IsQuiet u.queue
  unfolding subscribe_check push_messages enlist pushed_listeners
  lost_wakeup s sender now x h =
      let l = caught_up sender s.queue in
      let t : System T = record s { pending = l ∷ s.pending } in
      let u : System T = record t {
        queue = (push_messages now (x ∷ []) s.queue).0;
        log = delivered now (x ∷ []) s.queue ++ s.log;
      } in
      let checks : Step s t =
        subst (λ r. Step s (checked l r s)) (fire_caught_up sender s.queue (omega arith))
          (check s l) in
      (
        record u { queue = enlist l u.queue; pending = s.pending },
        next (next (next here checks) (push t now (x ∷ []))) (finish u [] l s.pending refl),
        refl,
        refl,
        mem-append_right (pushed_listeners now x s) mem-cons_self,
        λ quiet.
            let behind =
              (All-middle
                (λ (k : Listener). to_u32 (length (s.queue.messages ++ x ∷ [])) ≤ k.cursor)
                (pushed_listeners now x s) l [] quiet).0 in
            absurd (omega (arith, length-append s.queue.messages (x ∷ []))),
      )
