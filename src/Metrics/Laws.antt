-- ===== src/Metrics/Laws.antt =====
-- observability/metrics.go: what a request adds to the counters.
use elgon.Base.{
  ℕ, suc, ◌+◌, ◌%◌, ◌≡◌, ◌↔◌, refl, Bool, true, false, List, [], ◌∷◌, arith, if◌then◌else◌,
}
use Prim.Native.Nat.{◌^◌}
use elgon.Base.Text.{str_eq, str_eq_iff, str_eq_refl}
use elgon.Http.{Reply, returned, panicked}
use elgon.Middleware.{MetricKey, recorded_key, key_eq, record_request}
use elgon.Metrics.{Metrics, new_metrics, add_duration, record_call, count, observe}

key_eq-eq : (a b : MetricKey) → key_eq a b ≡ true → a ≡ b
key_eq-eq a b h =
    let method : a.method ≡ b.method = ground (arith, h, str_eq_iff a.method b.method) in
    let route : a.route ≡ b.route = ground (arith, h, str_eq_iff a.route b.route) in
    let status : a.status ≡ b.status = ground (arith, h) in
    λ i. record { method = method i; route = route i; status = status i }

key_eq_iff : (a b : MetricKey) → (key_eq a b ≡ true) ↔ (a ≡ b)
key_eq_iff a b =
    (key_eq-eq a b, λ e. rw e (rw (str_eq_refl b.method, str_eq_refl b.route) ground arith))

count-record_request :
    (k j : MetricKey) (m : List (MetricKey × ℕ))
    → count j (record_request k m) ≡ (if key_eq k j then (count k m + 1) % 2 ^ 64 else count j m)
unfolding count record_request
count-record_request k j [] = refl
count-record_request k j ((i, n) ∷ m) =
    ground (arith, key_eq_iff i k, key_eq_iff i j, key_eq_iff k j, count-record_request k j m)

count-add_duration :
    (k j : MetricKey) (d : ℕ) (m : List (MetricKey × ℕ))
    → count j (add_duration k d m) ≡ (if key_eq k j then (count k m + d) % 2 ^ 64 else count j m)
unfolding count add_duration
count-add_duration k j d [] = ground arith
count-add_duration k j d ((i, n) ∷ m) =
    ground (arith, key_eq_iff i k, key_eq_iff i j, key_eq_iff k j, count-add_duration k j d m)

-- A request that was served: the status its writer holds, the duration, and the reply.
pub record Served : Type 0 where
  pub written : ℕ
  pub duration : ℕ
  pub reply : Reply

unfoldable pub observe_all : List Served → Metrics → Metrics
unfolding observe
observe_all [] m = m
observe_all (s ∷ rest) m = observe_all rest (observe s.written s.duration s.reply m)

-- Whether a request that was served has a key: one that panicked has none.
unfoldable pub has_key : MetricKey → ℕ → Reply → Bool
unfolding recorded_key str_eq
has_key k written (returned e c) = key_eq (recorded_key e written c) k
has_key k written (panicked v c) = false

-- How many of the requests have a key.
unfoldable pub hits : MetricKey → List Served → ℕ
unfolding has_key
hits k [] = 0
hits k (s ∷ rest) = if has_key k s.written s.reply then suc (hits k rest) else hits k rest

-- How long the requests that have a key took.
unfoldable pub spent : MetricKey → List Served → ℕ
unfolding has_key
spent k [] = 0
spent k (s ∷ rest) = if has_key k s.written s.reply then s.duration + spent k rest else spent k rest

-- What the maps hold for a key.
abbrev Counts : MetricKey → Metrics → ℕ → ℕ → Type 0
Counts k m n d =
    (count k m.requests_total ≡ n % 2 ^ 64) × (count k m.request_duration_ns ≡ d % 2 ^ 64)

Counts-observe :
    (k : MetricKey) (written duration : ℕ) (r : Reply) (m : Metrics) (n d : ℕ)
    → Counts k m n d
    → Counts k
        (observe written duration r m)
        (if has_key k written r then suc n else n)
        (if has_key k written r then d + duration else d)
unfolding observe record_call has_key
Counts-observe k written duration (panicked v c) m n d h = h
Counts-observe k written duration (returned e c) m n d (hn, hd) =
    let j = recorded_key e written c in
    (
      ground (arith, hn, key_eq_iff j k, count-record_request j k m.requests_total),
      ground (arith, hd, key_eq_iff j k, count-add_duration j k duration m.request_duration_ns),
    )

Counts-observe_all :
    (k : MetricKey) (rest : List Served) (m : Metrics) (n d : ℕ)
    → Counts k m n d
    → Counts k (observe_all rest m) (n + hits k rest) (d + spent k rest)
unfolding observe_all hits spent
Counts-observe_all k [] m n d (hn, hd) = (ground (arith, hn), ground (arith, hd))
Counts-observe_all k (s ∷ rest) m n d h =
    let next =
      Counts-observe_all k rest (observe s.written s.duration s.reply m) _ _
        (Counts-observe k s.written s.duration s.reply m n d h) in
    (ground (arith, next.0), ground (arith, next.1))

-- After any sequence of requests the counter of a key is the number of requests that were recorded
-- under the key, and its duration the sum of theirs, both in uint64; those that panicked count nowhere.
pub observe_all-hits :
    (k : MetricKey) (rest : List Served)
    → (count k (observe_all rest new_metrics).requests_total ≡ hits k rest % 2 ^ 64)
      × (count k (observe_all rest new_metrics).request_duration_ns ≡ spent k rest % 2 ^ 64)
unfolding count
observe_all-hits k rest =
    let (total, time) = Counts-observe_all k rest new_metrics 0 0 (refl, refl) in
    (ground (arith, total), ground (arith, time))
