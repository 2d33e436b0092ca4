-- ===== src/Middleware/Logger.antt =====
-- middleware/logger.go: the entries that the logging middleware writes.
use elgon.Base.{ℕ, Option, none, some, List, [], ◌∷◌}
use elgon.Base.Text.{Str, str}
use elgon.Http.{Error, Ctx, Reply, returned, panicked, HandlerFunc, get_value, any_to_string}

-- An entry: of a request that failed, with the error, or of another one.
pub record LogEntry : Type 0 where
  pub message : Str
  pub method : Str
  pub path : Str
  pub latency : ℕ
  pub request_id : Str
  pub error : Option Error

-- `requestID`
unfoldable pub logged_id : Ctx → Str
unfolding get_value
logged_id c = any_to_string (get_value (str "request_id") c)

abbrev message_of : Option Error → Str
message_of none = str "request"
message_of (some e) = str "request failed"

abbrev entries_of : ℕ → Reply → List LogEntry
entries_of latency (returned e c) =
    record {
      message = message_of e;
      method = c.method;
      path = c.path;
      latency = latency;
      request_id = logged_id c;
      error = e;
    }
    ∷ []
entries_of latency (panicked v c) = []

-- `Logger`, with the time that the handler takes: the reply, and what is logged.
unfoldable pub logger : ℕ → HandlerFunc → Ctx → Reply × List LogEntry
unfolding logged_id
logger latency next c = let reply = next c in (reply, entries_of latency reply)
