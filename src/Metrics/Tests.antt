-- ===== src/Metrics/Tests.antt =====
-- Runs of the counters, and the theorems about them at concrete requests.
use mathlib.Core.List.{Perm}
use elgon.Base.{ℕ, ◌%◌, ◌≡◌, refl, none, some, List, [], ◌∷◌, ◌++◌, map}
use Prim.Native.Nat.{◌^◌}
use elgon.Base.Text.{Str, str, str_eq, decimal}
use elgon.Http.{err_not_found, Ctx, returned, panicked}
use elgon.Middleware.{MetricKey}
use elgon.Metrics.{Metrics, new_metrics, count, escape, export}
use elgon.Metrics.Laws.{Served, observe_all, hits, spent, observe_all-hits}
use elgon.Metrics.Order.{Ascending}
use elgon.Metrics.Text.{read_label}
use elgon.Metrics.Lines.{read_metrics, read_metrics-export}

abbrev request : Str → Ctx
request pattern = record {
  method = str "GET";
  path = str "/users/7";
  request_headers = [];
  params = [];
  values = [];
  route_pattern = pattern;
  response = record { headers = []; status = none; body = [] };
}

abbrev users : MetricKey
users = record { method = str "GET"; route = str "/users/:id"; status = 200 }

-- Two requests that end, one that panics, and one that fails.
abbrev served : List Served
served =
    record { written = 200; duration = 30; reply = returned none (request (str "/users/:id")) }
    ∷ record { written = 200; duration = 12; reply = returned none (request (str "/users/:id")) }
    ∷ record {
      written = 200;
      duration = 5;
      reply = panicked (str "oops") (request (str "/users/:id"));
    }
    ∷ record {
      written = 200;
      duration = 9;
      reply = returned (some (err_not_found (str "gone"))) (request []);
    }
    ∷ []

observe_all-hits_example :
    (count users (observe_all served new_metrics).requests_total ≡ hits users served % 2 ^ 64)
    × (count users (observe_all served new_metrics).request_duration_ns
        ≡ spent users served % 2 ^ 64)
observe_all-hits_example = observe_all-hits users served

hits_runs : (hits users served ≡ 2) × (spent users served ≡ 42)
unfolding hits spent str_eq
hits_runs = (refl, refl)

abbrev counters : Metrics
counters = record {
  requests_total =
      (record { method = str "GET"; route = str "/\"b\\"; status = 404 }, 3)
      ∷ (record { method = str "GET"; route = str "/a"; status = 200 }, 2)
      ∷ [];
  request_duration_ns = [];
}

abbrev no_seconds : ℕ → Str
no_seconds n = str "0"

read_metrics-export_example :
    (keys : List MetricKey) × Ascending keys
    × Perm keys (map (λ e. e.0) counters.requests_total)
    × (read_metrics 2 (export no_seconds counters)
        ≡ some (
          map (λ k. (k, decimal (count k counters.requests_total))) keys,
          map (λ k. (k, no_seconds (count k counters.request_duration_ns))) keys,
        ))
read_metrics-export_example =
    read_metrics-export no_seconds counters
      (
        ((refl, (refl, (refl, tt))), (refl, (refl, (refl, (refl, tt))))),
        (((refl, (refl, (refl, tt))), (refl, (refl, tt))), tt),
      )
      (λ n. (refl, tt))

-- A line feed in a label is kept as it is, and no reader takes the line.
escape_line_feed : read_label (escape (str "/a\nb") ++ str "\"") ≡ none
unfolding read_label escape
escape_line_feed = refl
