-- ===== src/Jobs/Redis/Fifo.antt =====
-- Messages leave the list in the order in which they came, and only a pop that fails loses one.
use elgon.Base.{
  ℕ, zero, suc, ◌≡◌, ◌⊎◌, refl, sym, ap, ◌∙◌, Option, none, some, Option-cases, inl, inr, List, [],
  ◌∷◌, ◌++◌, append_assoc, append-nil,
}
use elgon.Base.Text.{Str}
use elgon.Base.Result.{Result, ok, err}
use elgon.Jobs.Message.{Message}
use elgon.Jobs.Redis.{
  RedisQueueConfig, RedisClient, Codec, push, work, run_worker, add_handled, handled_of,
}

-- Of the messages that were taken all are handled, in order, but at most some number.
pub data Lost : ℕ → List Message → List Message → Type 0 where
  no_more : {n : ℕ} → Lost n [] []
  kept :
      {n : ℕ} {msg : Message} {handled taken : List Message}
      → Lost n handled taken
      → Lost n (msg ∷ handled) (msg ∷ taken)
  lost :
      {n : ℕ} {msg : Message} {handled taken : List Message}
      → Lost n handled taken
      → Lost (suc n) handled (msg ∷ taken)

Lost-suc :
    {n : ℕ} {handled taken : List Message} → Lost n handled taken → Lost (suc n) handled taken
Lost-suc no_more = no_more
Lost-suc (kept l) = kept (Lost-suc l)
Lost-suc (lost l) = lost (Lost-suc l)

module _ (cfg : RedisQueueConfig) (r : RedisClient) (codec : Codec) where
  -- What `LPUSH` and `BRPOP` do to the list at the key, whose head is on the left. A push that
  -- reports no error has put the value before the head; a pop takes the last value. One that fails has
  -- either changed nothing, or taken the last value, whose reply was lost on its way. A message that
  -- was encoded is decoded.
  pub record Documented : Type 0 where
    pub view : r.Server → List Str
    pub on_lpush :
        (value : Str) (s s' : r.Server)
        → r.lpush cfg.key value s ≡ (none, s')
        → view s' ≡ value ∷ view s
    pub on_brpop :
        (s s' : r.Server) (value : Str)
        → r.brpop cfg.pop_timeout cfg.key s ≡ (ok value, s')
        → view s ≡ view s' ++ value ∷ []
    pub on_brpop_err :
        (s s' : r.Server) (f : r.Failure)
        → r.brpop cfg.pop_timeout cfg.key s ≡ (err f, s')
        → (view s' ≡ view s) ⊎ (value : Str) × (view s ≡ view s' ++ value ∷ [])
    pub unmarshal-marshal :
        (msg : Message) (value : Str)
        → codec.marshal msg ≡ some value
        → codec.unmarshal value ≡ some msg

  -- The messages that wait in a list, the next one first. A value that is no message is dropped.
  unfoldable pub waiting : List Str → List Message
  waiting [] = []
  waiting (v ∷ vs) = waiting vs ++ add_handled cfg r codec (codec.unmarshal v) []

  waiting-append :
      (vs : List Str) (v : Str)
      → waiting (vs ++ v ∷ []) ≡ add_handled cfg r codec (codec.unmarshal v) [] ++ waiting vs
  unfolding waiting
  waiting-append [] v = sym (append-nil _)
  waiting-append (u ∷ vs) v =
      ap (λ x. x ++ add_handled cfg r codec (codec.unmarshal u) []) (waiting-append vs v)
      ∙ append_assoc _ (waiting vs) _

  -- Callers that enqueue one message after another, each without an error.
  pub data Enqueued (s : r.Server) : List Message → r.Server → Type 0 where
    none_yet : Enqueued s [] s
    one_more :
        {msgs : List Message} {t u : r.Server} (msg : Message)
        → Enqueued s msgs t
        → push cfg r codec msg t ≡ (none, u)
        → Enqueued s (msgs ++ msg ∷ []) u

  abbrev add_failure : Result r.Failure Str → ℕ → ℕ
  add_failure (ok value) n = n
  add_failure (err f) n = suc n

  -- How many pops of a worker fail.
  unfoldable pub failures : ℕ → r.Server → ℕ
  failures zero s = 0
  failures (suc rounds) s =
      let (popped, s') = r.brpop cfg.pop_timeout cfg.key s in
      add_failure popped (failures rounds s')

  Lost-both :
      (o : Option Message) {n : ℕ} {handled taken : List Message}
      → Lost n handled taken
      → Lost n (add_handled cfg r codec o handled) (add_handled cfg r codec o taken)
  Lost-both none l = l
  Lost-both (some msg) l = kept l

  Lost-drop :
      (o : Option Message) {n : ℕ} {handled taken : List Message}
      → Lost n handled taken
      → Lost (suc n) handled (add_handled cfg r codec o taken)
  Lost-drop none l = Lost-suc l
  Lost-drop (some msg) l = lost l

  module _ (h : Documented) where
    push-lpush :
        (msg : Message) (s u : r.Server)
        → push cfg r codec msg s ≡ (none, u)
        → (value : Str) × (codec.marshal msg ≡ some value) × (r.lpush cfg.key value s ≡ (none, u))
    unfolding push
    push-lpush msg s u e = elim (Option-cases (codec.marshal msg)) [
      | inl bad ↦ let e' = rw (bad, push) at e in cc
      | inr (value, good) ↦
          let e' = rw (good, push) at e in
          elim (Option-cases (r.lpush cfg.key value s).0) [
            | inl fine ↦ (
              value,
              good,
              ap (λ o. (o, (r.lpush cfg.key value s).1)) fine ∙ ap (λ x. (none, x.1)) e',
            )
            | inr (f, failed) ↦ let e'' = rw failed at e' in cc
          ]
    ]

    push-waiting :
        (msg : Message) (s u : r.Server)
        → push cfg r codec msg s ≡ (none, u)
        → waiting (h.view u) ≡ waiting (h.view s) ++ msg ∷ []
    unfolding waiting
    push-waiting msg s u e =
        let (value, good, pushed) = push-lpush msg s u e in
        ap waiting (h.on_lpush value s u pushed)
        ∙ ap (λ o. waiting (h.view s) ++ add_handled cfg r codec o [])
            (h.unmarshal-marshal msg value good)

    add_handled-append :
        (o : Option Message) (xs ys : List Message)
        → add_handled cfg r codec o [] ++ (xs ++ ys) ≡ add_handled cfg r codec o xs ++ ys
    add_handled-append none xs ys = refl
    add_handled-append (some msg) xs ys = refl

    -- A list whose last value is gone, and what is taken of the rest.
    last-waiting :
        (o : Option Message) (taken rest : List Message) (s s' : r.Server) (value : Str)
        → codec.unmarshal value ≡ o
        → h.view s ≡ h.view s' ++ value ∷ []
        → waiting (h.view s') ≡ taken ++ rest
        → waiting (h.view s) ≡ add_handled cfg r codec o taken ++ rest
    last-waiting o taken rest s s' value read gone q =
        ap waiting gone
        ∙ waiting-append (h.view s') value
        ∙ ap (λ p. add_handled cfg r codec p [] ++ waiting (h.view s')) read
        ∙ ap (λ x. add_handled cfg r codec o [] ++ x) q
        ∙ add_handled-append o taken rest

    -- One round in front of others: what it takes of the list, and what of that is lost.
    round-Lost :
        (s s' : r.Server) (popped : Result r.Failure Str) (n : ℕ)
        (handled taken rest : List Message)
        → r.brpop cfg.pop_timeout cfg.key s ≡ (popped, s')
        → Lost n handled taken
        → waiting (h.view s') ≡ taken ++ rest
        → (taken' : List Message) × Lost
            (add_failure popped n)
            (add_handled cfg r codec (handled_of cfg r codec popped) handled)
            taken'
          × (waiting (h.view s) ≡ taken' ++ rest)
    round-Lost s s' (ok value) n handled taken rest e l q = (
      add_handled cfg r codec (codec.unmarshal value) taken,
      Lost-both (codec.unmarshal value) l,
      last-waiting (codec.unmarshal value) taken rest s s' value refl (h.on_brpop s s' value e) q,
    )
    round-Lost s s' (err f) n handled taken rest e l q = elim (h.on_brpop_err s s' f e) [
      | inl same ↦ (taken, Lost-suc l, ap waiting (sym same) ∙ q)
      | inr (value, gone) ↦ (
        add_handled cfg r codec (codec.unmarshal value) taken,
        Lost-drop (codec.unmarshal value) l,
        last-waiting (codec.unmarshal value) taken rest s s' value refl gone q,
      )
    ]

    run_worker-waiting :
        (rounds : ℕ) (s : r.Server)
        → (taken : List Message) × Lost
            (failures rounds s)
            (run_worker cfg r codec rounds s).0
            taken
          × (waiting (h.view s) ≡ taken ++ waiting (h.view (run_worker cfg r codec rounds s).1))
    unfolding run_worker work failures
    run_worker-waiting zero s = ([], no_more, refl)
    run_worker-waiting (suc rounds) s =
        let out = r.brpop cfg.pop_timeout cfg.key s in
        let (taken, l, q) = run_worker-waiting rounds out.1 in
        round-Lost s out.1 out.0 _ _ taken _ refl l q

    Enqueued-waiting :
        {s u : r.Server} {msgs : List Message}
        → Enqueued s msgs u
        → waiting (h.view u) ≡ waiting (h.view s) ++ msgs
    Enqueued-waiting none_yet = sym (append-nil _)
    Enqueued-waiting {s} (one_more {msgs} {t} msg before e) =
        push-waiting msg t _ e
        ∙ ap (λ x. x ++ msg ∷ []) (Enqueued-waiting before)
        ∙ append_assoc (waiting (h.view s)) msgs (msg ∷ [])

    -- Messages that were enqueued without an error in a list that is empty: those that a worker has taken
    -- from it are the first ones, the others wait, in order; those that it has handled are those that it
    -- has taken, in order and each once, without at most as many as pops have failed.
    pub redis_fifo :
        (s u : r.Server) (msgs : List Message) (rounds : ℕ)
        → h.view s ≡ []
        → Enqueued s msgs u
        → (taken : List Message) × Lost
            (failures rounds u)
            (run_worker cfg r codec rounds u).0
            taken
          × (msgs ≡ taken ++ waiting (h.view (run_worker cfg r codec rounds u).1))
    unfolding waiting
    redis_fifo s u msgs rounds empty all =
        let (taken, l, q) = run_worker-waiting rounds u in
        (taken, l, sym (Enqueued-waiting all ∙ ap (λ x. waiting x ++ msgs) empty) ∙ q)
