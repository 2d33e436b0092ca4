-- ===== src/Jobs/Queue/Worker.antt =====
-- jobs/queue.go: when a worker of the queue in memory ends, and what it has handled by then.
use mathlib.Core.Path.{subst}
use elgon.Base.{
  ℕ, zero, suc, ◌<◌, ◌≡◌, refl, sym, ap, Bool, true, false, List, [], ◌∷◌, length, arith, leb,
  if◌then◌else◌,
}
use elgon.Jobs.Message.{Message}
use elgon.Jobs.Queue.{InMemoryQueue, receive, run_worker, at_end, at_done}

-- The first items of a list.
unfoldable pub take : {A : Type 0} → ℕ → List A → List A
take zero xs = []
take (suc n) [] = []
take (suc n) (x ∷ xs) = x ∷ take n xs

-- The rounds before the one in which the context is done.
unfoldable pub rounds_before : List Bool → ℕ
rounds_before [] = 0
rounds_before (true ∷ picks) = 0
rounds_before (false ∷ picks) = suc (rounds_before picks)

leb-zero : (n : ℕ) → leb 0 n ≡ true
leb-zero n = ground arith

leb-suc-zero : (n : ℕ) → leb (suc n) 0 ≡ false
leb-suc-zero n = ground arith

leb-suc-suc : (m n : ℕ) → leb (suc m) (suc n) ≡ leb m n
leb-suc-suc m n = ground arith

closed_run :
    (picks : List Bool) (buffer : List Message) (cap : ℕ)
    → length buffer < length picks
    → run_worker picks (record { buffer = buffer; cap = cap; closed = true }) ≡ (
      take (rounds_before picks) buffer,
      if leb (rounds_before picks) (length buffer) then at_done else at_end,
    )
unfolding run_worker receive rounds_before take
closed_run [] buffer room enough = ground (arith, enough)
closed_run (true ∷ picks) buffer room enough = rw (leb-zero (length buffer)) refl
closed_run (false ∷ picks) [] room enough = rw (leb-suc-zero (rounds_before picks)) refl
closed_run (false ∷ picks) (msg ∷ rest) room enough =
    rw (leb-suc-suc (rounds_before picks) (length rest))
      (ap (λ out. (msg ∷ out.0, out.1)) (closed_run picks rest room (omega (arith, enough))))

-- A worker on a queue that is closed ends, in one round more than messages wait at the most: it
-- handles the messages that wait, in order, one in each round before the one in which its select takes
-- the context that is done, and all of them if there is no such round.
pub run_worker-closed :
    (picks : List Bool) (q : InMemoryQueue)
    → q.closed ≡ true
    → length q.buffer < length picks
    → run_worker picks q ≡ (
      take (rounds_before picks) q.buffer,
      if leb (rounds_before picks) (length q.buffer) then at_done else at_end,
    )
run_worker-closed picks q shut enough =
    subst
      (λ b. run_worker picks (record q { closed = b }) ≡ (
        take (rounds_before picks) q.buffer,
        if leb (rounds_before picks) (length q.buffer) then at_done else at_end,
      ))
      (sym shut) (closed_run picks q.buffer q.cap enough)
