-- ===== src/Jobs/Redis.antt =====
-- jobs/redis.go: a queue in a Redis list. The client and the encoding of messages are parameters.
pub mod Fifo
mod Tests
use elgon.Base.{ℕ, zero, suc, Option, none, some, List, [], ◌∷◌, ◌++◌, ◌==◌, if◌then◌else◌}
use elgon.Base.Text.{Str, str}
use elgon.Base.Result.{Result, ok, err}
use elgon.Jobs.Message.{Message}

-- `RedisQueueConfig`; durations in milliseconds, one that is not positive is 0.
pub record RedisQueueConfig : Type 0 where
  pub key : Str
  pub pop_timeout : ℕ
  pub poll_backoff : ℕ

abbrev or_text : Str → Str → Str
or_text [] default = default
or_text (c ∷ s) default = c ∷ s

-- `NewRedisQueue`
unfoldable pub new_redis_queue : RedisQueueConfig → RedisQueueConfig
new_redis_queue cfg = record {
  key = or_text cfg.key (str "elgon:jobs");
  pop_timeout = if cfg.pop_timeout == 0 then 1000 else cfg.pop_timeout;
  poll_backoff = if cfg.poll_backoff == 0 then 100 else cfg.poll_backoff;
}

-- `RedisClient`, with the state of the server.
pub record RedisClient : Type 1 where
  pub Server : Type 0
  pub Failure : Type 0
  pub lpush : Str → Str → Server → Option Failure × Server
  pub brpop : ℕ → Str → Server → Result Failure Str × Server

-- `json.Marshal` and `json.Unmarshal` of a message.
pub record Codec : Type 0 where
  pub marshal : Message → Option Str
  pub unmarshal : Str → Option Message

pub data RedisError (F : Type 0) : Type 0 where
  client_nil : RedisError F
  not_encoded : RedisError F
  redis : F → RedisError F

module _ (cfg : RedisQueueConfig) (r : RedisClient) (codec : Codec) where
  open r use {Server, Failure, lpush, brpop}

  abbrev pub redis_error : Option Failure → Option (RedisError Failure)
  redis_error none = none
  redis_error (some f) = some (redis f)

  -- `Enqueue` with a client.
  unfoldable pub push : Message → Server → Option (RedisError Failure) × Server
  push msg s = elim (codec.marshal msg) [
    | none ↦ (some not_encoded, s)
    | some value ↦ let (failed, s') = lpush cfg.key value s in (redis_error failed, s')
  ]

  -- `Enqueue`; a client that is nil is `none`.
  unfoldable pub enqueue : Message → Option Server → Option (RedisError Failure) × Option Server
  unfolding push
  enqueue msg none = (some client_nil, none)
  enqueue msg (some s) = let (failed, s') = push msg s in (failed, some s')

  abbrev pub handled_of : Result Failure Str → Option Message
  handled_of (err f) = none
  handled_of (ok raw) = codec.unmarshal raw

  -- One round of `RunWorker`: the message that it handles, if any. What the handler returns is
  -- dropped.
  unfoldable pub work : Server → Option Message × Server
  work s = let (popped, s') = brpop cfg.pop_timeout cfg.key s in (handled_of popped, s')

  abbrev pub add_handled : Option Message → List Message → List Message
  add_handled none handled = handled
  add_handled (some msg) handled = msg ∷ handled

  -- `RunWorker` for some rounds: a context that is done ends it behind one of them.
  unfoldable pub run_worker : ℕ → Server → List Message × Server
  unfolding work
  run_worker zero s = ([], s)
  run_worker (suc rounds) s =
      let (handled, s') = work s in
      let (rest, s'') = run_worker rounds s' in (add_handled handled rest, s'')
