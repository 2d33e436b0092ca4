-- ===== src/Metrics.antt =====
-- observability/metrics.go: the counters and their text, and the tracing middleware of
-- observability/trace.go. The text of a duration in seconds (`%.6f` of a float64) is a parameter.
mod Tests
pub mod Laws
pub mod Lines
pub mod Order
pub mod Text
use Prim.Native.Nat.{◌^◌}
use elgon.Base.{
  ℕ, ◌+◌, ◌%◌, Bool, true, false, Option, none, some, List, [], ◌∷◌, ◌++◌, map, leb, ◌==◌,
  if◌then◌else◌,
}
use elgon.Base.Text.{Str, str, str_eq, decimal}
use elgon.Http.{
  bytes, Error, Ctx, Reply, returned, panicked, HandlerFunc, Middleware, set_header, write_header,
  write_chunk,
}
use elgon.Middleware.{MetricKey, recorded_key, key_eq, record_request}
use elgon.App.{App}
use elgon.App.Setup.{get, app_verb}
use elgon.Orm.Value.{str_leb}

-- `Metrics`: two maps with the same keys, whose values are uint64.
pub record Metrics : Type 0 where
  pub requests_total : List (MetricKey × ℕ)
  pub request_duration_ns : List (MetricKey × ℕ)

-- `NewMetrics`
abbrev pub new_metrics : Metrics
new_metrics = record { requests_total = []; request_duration_ns = [] }

-- `requestDurationNs[k] += d`
unfoldable pub add_duration : MetricKey → ℕ → List (MetricKey × ℕ) → List (MetricKey × ℕ)
unfolding str_eq
add_duration k d [] = (k, d % 2 ^ 64) ∷ []
add_duration k d ((j, n) ∷ m) =
    if key_eq j k then (j, (n + d) % 2 ^ 64) ∷ m else (j, n) ∷ add_duration k d m

-- `record`, of a duration as a uint64.
unfoldable pub record_call : MetricKey → ℕ → Metrics → Metrics
unfolding record_request add_duration
record_call k d m = record {
  requests_total = record_request k m.requests_total;
  request_duration_ns = add_duration k d m.request_duration_ns;
}

-- `m[k]`
unfoldable pub count : MetricKey → List (MetricKey × ℕ) → ℕ
unfolding str_eq
count k [] = 0
count k ((j, n) ∷ m) = if key_eq j k then n else count k m

-- The order of the keys, by method, route and status.
unfoldable pub key_leb : MetricKey → MetricKey → Bool
unfolding str_eq str_leb
key_leb a b =
    if str_eq a.method b.method
    then (if str_eq a.route b.route then leb a.status b.status else str_leb a.route b.route)
    else str_leb a.method b.method

unfoldable pub place_key : MetricKey → List MetricKey → List MetricKey
unfolding key_leb
place_key k [] = k ∷ []
place_key k (j ∷ ks) = let rest = place_key k ks in if key_leb k j then k ∷ j ∷ ks else j ∷ rest

-- The keys of a map, as `sort.Slice` leaves them: they are all different.
unfoldable pub sorted_keys : List (MetricKey × ℕ) → List MetricKey
unfolding place_key
sorted_keys [] = []
sorted_keys ((k, n) ∷ m) = place_key k (sorted_keys m)

-- `strings.ReplaceAll(s, old, new)` with an old text of one character.
unfoldable pub replace_all : ℕ → Str → Str → Str
replace_all old new [] = []
replace_all old new (c ∷ s) = (if c == old then new else c ∷ []) ++ replace_all old new s

-- `escape`
unfoldable pub escape : Str → Str
unfolding replace_all
escape s = replace_all b'"' (str "\\\"") (replace_all b'\\' (str "\\\\") s)

-- A line of a sample: its name, the labels of the key, and its value.
unfoldable pub sample : Str → MetricKey → Str → Str
unfolding escape decimal
sample name k v =
    name
    ++ str "{method=\""
    ++ escape k.method
    ++ str "\",route=\""
    ++ escape k.route
    ++ str "\",status=\""
    ++ decimal k.status
    ++ str "\"} "
    ++ v
    ++ str "\n"

unfoldable pub concat : List Str → Str
concat [] = []
concat (s ∷ ss) = s ++ concat ss

abbrev pub total_name : Str
total_name = str "elgon_http_requests_total"

abbrev pub duration_name : Str
duration_name = str "elgon_http_request_duration_seconds_total"

module _ (seconds_text : ℕ → Str) where
  -- `Export`
  unfoldable pub export : Metrics → Str
  unfolding sorted_keys sample concat count decimal
  export m =
      let keys = sorted_keys m.requests_total in
      str "# HELP elgon_http_requests_total Total HTTP requests.\n"
      ++ str "# TYPE elgon_http_requests_total counter\n"
      ++ concat (map (λ k. sample total_name k (decimal (count k m.requests_total))) keys)
      ++ str "# HELP elgon_http_request_duration_seconds_total Total request duration seconds.\n"
      ++ str "# TYPE elgon_http_request_duration_seconds_total counter\n"
      ++ concat
          (map (λ k. sample duration_name k (seconds_text (count k m.request_duration_ns))) keys)

  -- `Handler`, on the counters as they are at the request.
  unfoldable pub serve_metrics : Metrics → HandlerFunc
  unfolding export set_header write_chunk
  serve_metrics m c = returned none (
      write_chunk (bytes (export m))
        (set_header (str "Content-Type") (str "text/plain; version=0.0.4") c))

-- `RegisterRoute`, with the handler.
unfoldable pub register_route : HandlerFunc → Str → App → Option App
unfolding app_verb
register_route h [] a = app_verb get (str "/metrics") h [] a
register_route h (c ∷ s) a = app_verb get (c ∷ s) h [] a

-- What a request does to the counters through `Middleware`, on the status that its writer holds in
-- the end and the duration: a panic is not counted.
unfoldable pub observe : ℕ → ℕ → Reply → Metrics → Metrics
unfolding recorded_key record_call
observe written d (returned e c) m = record_call (recorded_key e written c) d m
observe written d (panicked v c) m = m

-- What a tracer sees of a request: its spans are named when they start.
pub data Event : Type 0 where
  start : Str → Event
  record_error : Error → Event
  end : Event

abbrev outcome_events : Option Error → List Event
outcome_events none = end ∷ []
outcome_events (some e) = record_error e ∷ end ∷ []

abbrev reply_events : Reply → List Event
reply_events (returned e c) = outcome_events e
reply_events (panicked v c) = []

-- `Trace` with a tracer: the reply, and the events of the span. A panic leaves the span open.
unfoldable pub trace : HandlerFunc → Ctx → Reply × List Event
trace next c =
    let reply = next c in
    (reply, start (c.method ++ str " " ++ c.route_pattern) ∷ reply_events reply)
