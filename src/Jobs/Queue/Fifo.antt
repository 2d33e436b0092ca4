-- ===== src/Jobs/Queue/Fifo.antt =====
-- Callers, workers and `Close` over one queue, interleaved in any order.
use elgon.Base.{
  ℕ, suc, ◌+◌, ◌≤◌, ◌<◌, ◌≡◌, refl, sym, ap, ◌∙◌, Bool, true, false, Bool-cases, ◌⊎◌, inl, inr,
  Option, none, some, List, [], ◌∷◌, ◌++◌, append_assoc, length, length-append, arith, ltb, ◌==◌,
  if◌then◌else◌,
}
use mathlib.Core.Path.{subst}
use elgon.Jobs.Message.{Message}
use elgon.Jobs.Queue.{
  EnqueueError, context_done, refusal, InMemoryQueue, new_in_memory_queue, Sent, sent, blocked,
  panicked, send, Received, received, waiting, ended, receive, close,
}

-- The queue, the callers of `Enqueue` between its two halves, what calls have returned, the messages
-- that the queue has taken, the messages that workers have received, in order, and whether a caller
-- has panicked.
pub record System : Type 0 where
  pub queue : InMemoryQueue
  pub pending : ℕ → Option Message
  pub outcomes : List (ℕ × Option EnqueueError)
  pub accepted : List Message
  pub handled : List Message
  pub crashed : Bool

abbrev pub set_pending : (ℕ → Option Message) → ℕ → Option Message → ℕ → Option Message
set_pending pending i m j = if i == j then m else pending j

-- The first half of `Enqueue`: a queue that is closed refuses the message.
abbrev after_check : ℕ → Message → System → Option EnqueueError → System
after_check i msg s (some e) = record s { outcomes = s.outcomes ++ (i, some e) ∷ [] }
after_check i msg s none = record s { pending = set_pending s.pending i (some msg) }

unfoldable pub check_open : ℕ → Message → System → System
unfolding refusal
check_open i msg s = after_check i msg s (refusal s.queue)

abbrev after_send : ℕ → Message → System → Sent → System
after_send i msg s blocked = s
after_send i msg s panicked = record s { pending = set_pending s.pending i none; crashed = true }
after_send i msg s (sent q) = record s {
  queue = q;
  pending = set_pending s.pending i none;
  outcomes = s.outcomes ++ (i, none) ∷ [];
  accepted = s.accepted ++ msg ∷ [];
}

-- The second half: the send, which waits for room.
unfoldable pub send_pending : ℕ → Message → System → System
unfolding send
send_pending i msg s = after_send i msg s (send msg s.queue)

-- The context of a caller is done.
abbrev pub give_up : ℕ → System → System
give_up i s = record s {
  pending = set_pending s.pending i none;
  outcomes = s.outcomes ++ (i, some context_done) ∷ [];
}

abbrev after_receive : System → Received → System
after_receive s waiting = s
after_receive s ended = s
after_receive s (received msg q) = record s { queue = q; handled = s.handled ++ msg ∷ [] }

-- A worker takes a message.
unfoldable pub take : System → System
unfolding receive
take s = after_receive s (receive s.queue)

unfoldable pub close_queue : System → System
unfolding close
close_queue s = record s { queue = close s.queue }

pub data Step (s : System) : System → Type 0 where
  checks : (i : ℕ) (msg : Message) → s.pending i ≡ none → Step s (check_open i msg s)
  sends : (i : ℕ) (msg : Message) → s.pending i ≡ some msg → Step s (send_pending i msg s)
  gives_up : (i : ℕ) (msg : Message) → s.pending i ≡ some msg → Step s (give_up i s)
  takes : Step s (take s)
  closes : Step s (close_queue s)

abbrev pub init : ℕ → System
init n = record {
  queue = new_in_memory_queue n;
  pending = λ _. none;
  outcomes = [];
  accepted = [];
  handled = [];
  crashed = false;
}

pub data Reach (n : ℕ) : System → Type 0 where
  start : Reach n (init n)
  later : {s t : System} → Reach n s → Step s t → Reach n t

-- How many calls have returned no error.
unfoldable pub successes : List (ℕ × Option EnqueueError) → ℕ
successes [] = 0
successes ((i, none) ∷ os) = suc (successes os)
successes ((i, some e) ∷ os) = successes os

successes-append :
    (os ps : List (ℕ × Option EnqueueError)) → successes (os ++ ps) ≡ successes os + successes ps
unfolding successes
successes-append [] ps = omega arith
successes-append ((i, none) ∷ os) ps = omega (arith, successes-append os ps)
successes-append ((i, some e) ∷ os) ps = successes-append os ps

-- The messages that were taken are the handled ones and then the waiting ones, in order, and there
-- is room for the waiting ones; as many calls have returned no error as messages were taken; only a
-- queue that is closed makes a caller panic.
pub record InOrder (s : System) : Type 0 where
  pub fifo : s.accepted ≡ s.handled ++ s.queue.buffer
  pub counted : successes s.outcomes ≡ length s.accepted
  pub bound : length s.queue.buffer ≤ s.queue.cap
  pub crash_closed : s.crashed ≡ true → s.queue.closed ≡ true

-- A call that returns an error is not counted.
refused_counted :
    {s : System} (i : ℕ) (e : EnqueueError)
    → InOrder s
    → successes (s.outcomes ++ (i, some e) ∷ []) ≡ length s.accepted
unfolding successes
refused_counted {s} i e inv =
    omega (arith, successes-append s.outcomes ((i, some e) ∷ []), inv.counted)

check_open-InOrder : (i : ℕ) (msg : Message) (s : System) → InOrder s → InOrder (check_open i msg s)
unfolding check_open
check_open-InOrder i msg s inv = both (refusal s.queue)
  where
    both : (r : Option EnqueueError) → InOrder (after_check i msg s r)
    both (some e) = record {
      fifo = inv.fifo;
      counted = refused_counted i e inv;
      bound = inv.bound;
      crash_closed = inv.crash_closed;
    }
    both none = record {
      fifo = inv.fifo;
      counted = inv.counted;
      bound = inv.bound;
      crash_closed = inv.crash_closed;
    }

-- The three ends of a send.
send-cases :
    (msg : Message) (q : InMemoryQueue)
    → ((q.closed ≡ true) × (send msg q ≡ panicked))
      ⊎ (send msg q ≡ blocked)
      ⊎ ((length q.buffer < q.cap)
          × (send msg q ≡ sent (record q { buffer = q.buffer ++ msg ∷ [] })))
unfolding send
send-cases msg q = elim (Bool-cases q.closed) [
  | inl shut ↦ inl (shut, rw shut refl)
  | inr open' ↦ elim (Bool-cases (ltb (length q.buffer) q.cap)) [
    | inr full ↦ inr (inl (rw (open', full) refl))
    | inl room ↦ inr (inr (ground arith, rw (open', room) refl))
  ]
]

send_pending-InOrder :
    (i : ℕ) (msg : Message) (s : System) → InOrder s → InOrder (send_pending i msg s)
unfolding send_pending successes
send_pending-InOrder i msg s inv = elim (send-cases msg s.queue) [
  | inl (shut, e) ↦ back e (record {
    fifo = inv.fifo;
    counted = inv.counted;
    bound = inv.bound;
    crash_closed = λ _. shut;
  })
  | inr (inl e) ↦ back e inv
  | inr (inr (room, e)) ↦ back e (record {
    fifo = ap (λ x. x ++ msg ∷ []) inv.fifo ∙ append_assoc s.handled s.queue.buffer (msg ∷ []);
    counted =
        successes-append s.outcomes ((i, none) ∷ [])
        ∙ omega (arith, inv.counted, length-append s.accepted (msg ∷ []));
    bound = omega (arith, length-append s.queue.buffer (msg ∷ []));
    crash_closed = inv.crash_closed;
  })
]
  where
    back :
        {r : Sent}
        → send msg s.queue ≡ r
        → InOrder (after_send i msg s r)
        → InOrder (after_send i msg s (send msg s.queue))
    back e = subst (λ r. InOrder (after_send i msg s r)) (sym e)

-- The message that a reception takes is the first one that waits.
take_from :
    (buffer : List Message) (cap : ℕ) (closed : Bool) (s : System)
    → InOrder (record s { queue = record { buffer = buffer; cap = cap; closed = closed } })
    → let q : InMemoryQueue = record { buffer = buffer; cap = cap; closed = closed } in
      InOrder (after_receive (record s { queue = q }) (receive q))
unfolding receive
take_from [] cap true s inv = inv
take_from [] cap false s inv = inv
take_from (msg ∷ rest) cap closed s inv = record {
  fifo = inv.fifo ∙ sym (append_assoc s.handled (msg ∷ []) rest);
  counted = inv.counted;
  bound = let room = inv.bound in omega arith;
  crash_closed = inv.crash_closed;
}

take-InOrder : (s : System) → InOrder s → InOrder (take s)
unfolding take
take-InOrder s inv = take_from s.queue.buffer s.queue.cap s.queue.closed s inv

close_queue-InOrder : (s : System) → InOrder s → InOrder (close_queue s)
unfolding close_queue close
close_queue-InOrder s inv = both s.queue.closed
  where
    both :
        (b : Bool)
        → InOrder (record s { queue = if b then s.queue else record s.queue { closed = true } })
    both true = inv
    both false = record {
      fifo = inv.fifo;
      counted = inv.counted;
      bound = inv.bound;
      crash_closed = λ _. refl;
    }

Step-InOrder : {s t : System} → InOrder s → Step s t → InOrder t
Step-InOrder {s} inv (checks i msg free) = check_open-InOrder i msg s inv
Step-InOrder {s} inv (sends i msg ready) = send_pending-InOrder i msg s inv
Step-InOrder {s} inv (gives_up i msg ready) = record {
  fifo = inv.fifo;
  counted = refused_counted i context_done inv;
  bound = inv.bound;
  crash_closed = inv.crash_closed;
}
Step-InOrder {s} inv takes = take-InOrder s inv
Step-InOrder {s} inv closes = close_queue-InOrder s inv

-- However callers, workers and `Close` interleave, the messages that the queue has taken are those
-- that workers received and then those that wait, each once and in order; they are as many as the calls that
-- returned no error; at most as many wait as there is room for; and a caller panics only if the queue
-- is closed.
pub Reach-InOrder : (n : ℕ) (s : System) → Reach n s → InOrder s
unfolding new_in_memory_queue successes
Reach-InOrder n s start = record {
  fifo = refl;
  counted = refl;
  bound = omega arith;
  crash_closed = λ e. cc;
}
Reach-InOrder n s (later r step) = Step-InOrder (Reach-InOrder n _ r) step
