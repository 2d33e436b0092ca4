-- ===== src/Jobs/Kafka.antt =====
-- jobs/kafka.go: a queue on a Kafka topic. The clients and the encoding of messages are parameters.
use elgon.Base.{ℕ, zero, suc, Option, none, some, List, [], ◌∷◌, ◌==◌, if◌then◌else◌}
use elgon.Base.Text.{Str, str}
use elgon.Base.Result.{Result, ok, err}
use elgon.Jobs.Message.{Message}

-- `KafkaQueueConfig`; a timeout in milliseconds, one that is not positive is 0.
pub record KafkaQueueConfig : Type 0 where
  pub topic : Str
  pub poll_timeout : ℕ

abbrev or_topic : Str → Str
or_topic [] = str "elgon.jobs"
or_topic (c ∷ s) = c ∷ s

-- `NewKafkaQueue`
unfoldable pub new_kafka_queue : KafkaQueueConfig → KafkaQueueConfig
new_kafka_queue cfg = record {
  topic = or_topic cfg.topic;
  poll_timeout = if cfg.poll_timeout == 0 then 1000 else cfg.poll_timeout;
}

-- `KafkaProducer` and `KafkaConsumer`, with the state of the broker.
pub record KafkaClient : Type 1 where
  pub Broker : Type 0
  pub Failure : Type 0
  pub publish : (topic key value : Str) → Broker → Option Failure × Broker
  pub poll : ℕ → Broker → Result Failure Str × Broker

pub data KafkaError (F : Type 0) : Type 0 where
  client_nil not_encoded : KafkaError F
  kafka : F → KafkaError F

module _ (cfg : KafkaQueueConfig) (k : KafkaClient) (marshal : Message → Option Str)
    (unmarshal : Str → Option Message) where
  open k use {Broker, Failure, publish, poll}

  abbrev kafka_error : Option Failure → Option (KafkaError Failure)
  kafka_error none = none
  kafka_error (some f) = some (kafka f)

  -- `Enqueue`; a producer that is nil is `none`.
  unfoldable pub enqueue : Message → Option Broker → Option (KafkaError Failure) × Option Broker
  enqueue msg none = (some client_nil, none)
  enqueue msg (some b) = elim (marshal msg) [
    | none ↦ (some not_encoded, some b)
    | some value ↦
        let (failed, b') = publish cfg.topic msg.name value b in (kafka_error failed, some b')
  ]

  abbrev handled_of : Result Failure Str → Option Message
  handled_of (err f) = none
  handled_of (ok payload) = unmarshal payload

  abbrev add_handled : Option Message → List Message → List Message
  add_handled none handled = handled
  add_handled (some msg) handled = msg ∷ handled

  -- `RunWorker` for some rounds, behind which a context that is done ends it: the messages that it
  -- handles.
  unfoldable pub run_worker : ℕ → Broker → List Message × Broker
  run_worker zero b = ([], b)
  run_worker (suc rounds) b =
      let (polled, b') = poll cfg.poll_timeout b in
      let (handled, b'') = run_worker rounds b' in (add_handled (handled_of polled) handled, b'')
