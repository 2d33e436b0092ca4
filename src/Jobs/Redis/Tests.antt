-- ===== src/Jobs/Redis/Tests.antt =====
-- The theorem about the Redis queue on a list in memory.
use elgon.Base.{
  ◌≡◌, ◌⊎◌, refl, sym, ap, ◌∙◌, inl, inr, Bool-cases, Option, none, some, List, [], ◌∷◌, ◌++◌,
  if◌then◌else◌,
}
use elgon.Base.Text.{Str, str, str_eq, str_eq_iff}
use elgon.Base.Result.{Result, ok, err, ok_inj, Result-cases}
use elgon.Jobs.Message.{Message}
use elgon.Jobs.Redis
use elgon.Jobs.Redis.{RedisQueueConfig, RedisClient}
use elgon.Jobs.Redis.Fifo
use elgon.Jobs.Redis.Fifo.{Documented, Enqueued, none_yet, one_more, waiting, Lost, redis_fifo}

abbrev hello : Message
hello = record { name = str "mail"; payload = str "hello" }

abbrev bye : Message
bye = record { name = str "mail"; payload = str "bye" }

-- A list in memory, and messages encoded without their names.
pop_last : List Str → Result Str Str × List Str
pop_last [] = (err (str "timeout"), [])
pop_last (v ∷ []) = (ok v, [])
pop_last (v ∷ w ∷ vs) = let (popped, rest) = pop_last (w ∷ vs) in (popped, v ∷ rest)

pop_last-ok :
    (vs : List Str) (v : Str) (rest : List Str) → pop_last vs ≡ (ok v, rest) → vs ≡ rest ++ v ∷ []
unfolding pop_last
pop_last-ok [] v rest e = cc
pop_last-ok (u ∷ []) v rest e =
    let same : u ≡ v = ok_inj (ap (λ p. p.0) e) in
    let none_left : [] ≡ rest = ap (λ p. p.1) e in rw (← none_left, same) refl
pop_last-ok (u ∷ w ∷ vs) v rest e =
    let out = pop_last (w ∷ vs) in
    let popped : out.0 ≡ ok v = ap (λ p. p.0) e in
    let left : u ∷ out.1 ≡ rest = ap (λ p. p.1) e in
    ap (λ x. u ∷ x) (pop_last-ok (w ∷ vs) v out.1 (ap (λ r. (r, out.1)) popped))
    ∙ ap (λ x. x ++ v ∷ []) left

pop_last-err : (vs : List Str) (f : Str) (rest : List Str) → pop_last vs ≡ (err f, rest) → rest ≡ vs
unfolding pop_last
pop_last-err [] f rest e = sym (ap (λ p. p.1) e)
pop_last-err (u ∷ []) f rest e = let bad = ap (λ p. p.0) e in cc
pop_last-err (u ∷ w ∷ vs) f rest e =
    let out = pop_last (w ∷ vs) in
    let popped : out.0 ≡ err f = ap (λ p. p.0) e in
    let left : u ∷ out.1 ≡ rest = ap (λ p. p.1) e in
    sym left ∙ ap (λ x. u ∷ x) (pop_last-err (w ∷ vs) f out.1 (ap (λ r. (r, out.1)) popped))

-- A connection that breaks behind the pop of a value, which is lost then.
abbrev lossy : Result Str Str → Result Str Str
lossy (err f) = err f
lossy (ok v) = if str_eq v (str "gone") then err (str "reset") else ok v

lossy-ok : (p : Result Str Str) (v : Str) → lossy p ≡ ok v → p ≡ ok v
lossy-ok (err f) v q = cc
lossy-ok (ok u) v q = elim (Bool-cases (str_eq u (str "gone"))) [
  | inl gone ↦ let q' : err (str "reset") ≡ ok v = rw gone at q in cc
  | inr fine ↦ rw fine at q
]

pop_lossy : List Str → Result Str Str × List Str
pop_lossy vs = let (popped, rest) = pop_last vs in (lossy popped, rest)

pop_lossy-ok :
    (vs : List Str) (v : Str) (rest : List Str) → pop_lossy vs ≡ (ok v, rest) → vs ≡ rest ++ v ∷ []
unfolding pop_lossy
pop_lossy-ok vs v rest e = pop_last-ok vs v rest (
    ap (λ p. (p, (pop_last vs).1)) (lossy-ok (pop_last vs).0 v (ap (λ p. p.0) e))
    ∙ ap (λ x. (ok v, x.1)) e)

pop_lossy-err :
    (vs : List Str) (f : Str) (rest : List Str)
    → pop_lossy vs ≡ (err f, rest)
    → (rest ≡ vs) ⊎ (value : Str) × (vs ≡ rest ++ value ∷ [])
unfolding pop_lossy
pop_lossy-err vs f rest e = elim (Result-cases (pop_last vs).0) [
  | inl (v, q) ↦
      inr (v, pop_last-ok vs v rest (ap (λ p. (p, (pop_last vs).1)) q ∙ ap (λ x. (ok v, x.1)) e))
  | inr (g, q) ↦
      inl (pop_last-err vs g rest (ap (λ p. (p, (pop_last vs).1)) q ∙ ap (λ x. (err g, x.1)) e))
]

abbrev redis : RedisClient
redis = record {
  Server = List Str;
  Failure = Str;
  lpush = λ key value vs. (none, value ∷ vs);
  brpop = λ timeout key vs. pop_lossy vs;
}

abbrev redis_cfg : RedisQueueConfig
redis_cfg = record { key = str "elgon:jobs"; pop_timeout = 1000; poll_backoff = 100 }

abbrev encoded : Message → Option Str
encoded m = if str_eq m.name (str "mail") then some m.payload else none

abbrev by_payload : Redis.Codec
by_payload = record {
  marshal = encoded;
  unmarshal = λ s. some (record { name = str "mail"; payload = s });
}

by_payload-mail :
    (name payload value : Str)
    → encoded (record { name = name; payload = payload }) ≡ some value
    → ◌≡◌ {A = Option Message}
        (some (record { name = str "mail"; payload = value }))
        (some (record { name = name; payload = payload }))
by_payload-mail name payload value e = elim (Bool-cases (str_eq name (str "mail"))) [
  | inr other ↦ let e' = rw other at e in cc
  | inl mail ↦
      let same : some payload ≡ some value = rw mail at e in
      let name_mail : name ≡ str "mail" = (str_eq_iff name (str "mail")).0 mail in cc
]

redis-Documented : Documented redis_cfg redis by_payload
redis-Documented = record {
  view = λ vs. vs;
  on_lpush = λ value s s' e. sym (ap (λ p. p.1) e);
  on_brpop = λ s s' value e. pop_lossy-ok s value s' e;
  on_brpop_err = λ s s' f e. pop_lossy-err s f s' e;
  unmarshal-marshal = λ m value e. by_payload-mail m.name m.payload value e;
}

abbrev gone : Message
gone = record { name = str "mail"; payload = str "gone" }

three_waiting : List Str
three_waiting = str "bye" ∷ str "gone" ∷ str "hello" ∷ []

three-Enqueued : Enqueued redis_cfg redis by_payload [] (hello ∷ gone ∷ bye ∷ []) three_waiting
unfolding Redis.push str_eq three_waiting
three-Enqueued = one_more bye (one_more gone (one_more hello none_yet refl) refl) refl

-- The second of two pops fails, and loses a message.
redis_fifo_example :
    (taken : List Message) × Lost 1 (hello ∷ []) taken
    × (hello ∷ gone ∷ bye ∷ [] ≡ taken ++ waiting redis_cfg redis by_payload (str "bye" ∷ []))
unfolding Redis.run_worker Redis.work Fifo.failures pop_lossy pop_last redis-Documented
    three_waiting str_eq
redis_fifo_example =
    redis_fifo redis_cfg redis by_payload redis-Documented [] three_waiting
      (hello ∷ gone ∷ bye ∷ []) 2 refl three-Enqueued
