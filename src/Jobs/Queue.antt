-- ===== src/Jobs/Queue.antt =====
-- jobs/queue.go: a queue in memory. The channel is its buffer, its capacity and whether it is closed;
-- `q.closed` changes together with the channel, under the lock.
pub mod Fifo
pub mod Worker
use elgon.Base.{
  ℕ, zero, suc, Bool, true, false, Option, none, some, List, [], ◌∷◌, ◌++◌, ltb, length,
  if◌then◌else◌,
}
use elgon.Jobs.Message.{Message}

-- `InMemoryQueue`
pub record InMemoryQueue : Type 0 where
  pub buffer : List Message
  pub cap : ℕ
  pub closed : Bool

-- `NewInMemoryQueue`; a negative size is 0.
unfoldable pub new_in_memory_queue : ℕ → InMemoryQueue
new_in_memory_queue buffer = record {
  buffer = [];
  cap = if ltb buffer 1 then 1 else buffer;
  closed = false;
}

-- The errors of `Enqueue`: `ErrQueueClosed`, and that of a context that is done.
pub data EnqueueError : Type 0 where
  queue_closed context_done : EnqueueError

-- The first half of `Enqueue`: whether the queue refuses a message.
unfoldable pub refusal : InMemoryQueue → Option EnqueueError
refusal q = if q.closed then some queue_closed else none

-- How `q.ch <- msg` ends: a channel that is full blocks, one that is closed panics.
pub data Sent : Type 0 where
  sent : InMemoryQueue → Sent
  blocked panicked : Sent

unfoldable pub send : Message → InMemoryQueue → Sent
send msg q =
    if q.closed
    then panicked
    else if ltb (length q.buffer) q.cap
    then sent (record q { buffer = q.buffer ++ msg ∷ [] })
    else blocked

-- How `msg, ok := <-q.ch` ends.
pub data Received : Type 0 where
  received : Message → InMemoryQueue → Received
  waiting ended : Received

unfoldable pub receive : InMemoryQueue → Received
receive q = elim q.buffer [
  | msg ∷ rest ↦ received msg (record q { buffer = rest })
  | [] ↦ if q.closed then ended else waiting
]

-- `Close`
unfoldable pub close : InMemoryQueue → InMemoryQueue
close q = if q.closed then q else record q { closed = true }

-- What a worker has handled when it stops, and how: no more rounds, no message, the end of the
-- messages, or a context that is done.
pub data Stop : Type 0 where
  out_of_rounds at_wait at_end at_done : Stop

-- `RunWorker` while no one else runs, for as many rounds as there are picks. A pick says whether the
-- `select` of its round takes `<-ctx.Done()`: where both cases are ready, it takes any of them.
unfoldable pub run_worker : List Bool → InMemoryQueue → List Message × Stop
unfolding receive
run_worker [] q = ([], out_of_rounds)
run_worker (true ∷ picks) q = ([], at_done)
run_worker (false ∷ picks) q = elim (receive q) [
  | waiting ↦ ([], at_wait)
  | ended ↦ ([], at_end)
  | received msg q' ↦ let (handled, stop) = run_worker picks q' in (msg ∷ handled, stop)
]
