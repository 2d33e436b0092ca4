-- ===== src/Metrics/Lines.antt =====
-- observability/metrics.go: reading an export back.
use mathlib.Core.List.{Perm}
use elgon.Base.{
  ℕ, zero, suc, ◌≡◌, refl, inl, inr, Option, none, some, List, [], ◌∷◌, ◌++◌, map, append_assoc,
  append-nil, arith, Bool-cases, ◌==◌, if◌then◌else◌, length, All, All-weaken,
}
use elgon.Base.Text.{Str, str, cut, decimal, is_decimal}
use elgon.Base.Text.Decimal.{value_from, decimal-digits, value_from-decimal}
use elgon.Base.Optional.{◌>>=◌}
use elgon.Base.Text.Splits.{Avoids, cut-append}
use elgon.Middleware.{MetricKey}
use elgon.Metrics.{
  Metrics, escape, sample, concat, count, key_leb, place_key, sorted_keys, total_name,
  duration_name, export,
}
use elgon.Metrics.Order.{Ascending, Ascending-sorted_keys, Perm-sorted_keys, length-sorted_keys}
use elgon.Metrics.Text.{OneLine, read_label, read_label-escape}

-- The text behind a literal that it starts with.
unfoldable pub expect : Str → Str → Option Str
expect [] t = some t
expect (c ∷ s) [] = none
expect (c ∷ s) (d ∷ t) = if d == c then expect s t else none

-- One line of a sample, read back: the key, the text of the value, and what follows the line.
unfoldable pub read_sample : Str → Str → Option ((MetricKey × Str) × Str)
unfolding expect read_label cut value_from
read_sample name text = do
  t1 ← expect name text
  t2 ← expect (str "{method=\"") t1
  (method, t3) ← read_label t2
  t4 ← expect (str ",route=\"") t3
  (route, t5) ← read_label t4
  t6 ← expect (str ",status=\"") t5
  (status, t7) ← cut b'"' t6
  t8 ← expect (str "} ") t7
  (v, rest) ← cut b'\n' t8
  some ((record { method = method; route = route; status = value_from 0 status }, v), rest)

expect-append : (s t : Str) → expect s (s ++ t) ≡ some t
unfolding expect
expect-append [] t = refl
expect-append (c ∷ s) t = ground (arith, expect-append s t)

decimal-unquoted : (n : ℕ) → Avoids (λ c. c == b'"') (decimal n)
unfolding is_decimal
decimal-unquoted n = All-weaken (λ c h. ground (arith, h)) (decimal n) (decimal-digits n)

sample-append :
    (name : Str) (k : MetricKey) (v rest : Str)
    → sample name k v ++ rest
      ≡ name
        ++ (str "{method=\""
            ++ (escape k.method
                ++ (str "\",route=\""
                    ++ (escape k.route
                        ++ (str "\",status=\""
                            ++ (decimal k.status ++ (str "\"} " ++ (v ++ (str "\n" ++ rest)))))))))
unfolding sample
sample-append name k v rest = simp append_assoc

-- The texts of a key are on one line.
abbrev pub OneLineKey : MetricKey → Type 0
OneLineKey k = OneLine k.method × OneLine k.route

read_sample-sample :
    (name : Str) (k : MetricKey) (v rest : Str)
    → OneLineKey k
    → OneLine v
    → read_sample name (sample name k v ++ rest) ≡ some ((k, v), rest)
unfolding read_sample
read_sample-sample name k v rest h hv =
    rw
      (
        sample-append name k v rest,
        expect-append name _,
        read_label-escape k.method _ h.0,
        read_label-escape k.route _ h.1,
        cut-append b'"' (decimal k.status) _ (decimal-unquoted k.status),
        cut-append b'\n' v rest hv,
        value_from-decimal k.status,
      )
      refl

-- As many lines as a number says, one after the other.
unfoldable pub read_samples : ℕ → Str → Str → Option (List (MetricKey × Str) × Str)
unfolding read_sample
read_samples zero name text = some ([], text)
read_samples (suc n) name text = do
  (entry, t) ← read_sample name text
  (entries, rest) ← read_samples n name t
  some (entry ∷ entries, rest)

read_samples-concat :
    (name : Str) (value : MetricKey → Str) (ks : List MetricKey) (rest : Str)
    → All OneLineKey ks
    → ((k : MetricKey) → OneLine (value k))
    → read_samples (length ks) name (concat (map (λ k. sample name k (value k)) ks) ++ rest)
      ≡ some (map (λ k. (k, value k)) ks, rest)
unfolding read_samples concat
read_samples-concat name value [] rest h hv = refl
read_samples-concat name value (k ∷ ks) rest (hk, h) hv =
    rw
      (
        append_assoc (sample name k (value k)) (concat (map (λ j. sample name j (value j)) ks))
            rest,
        read_sample-sample name k (value k) (concat (map (λ j. sample name j (value j)) ks) ++ rest)
            hk (hv k),
        read_samples-concat name value ks rest h hv,
      )
      refl

abbrev counters_head : Str
counters_head =
    str
      "# HELP elgon_http_requests_total Total HTTP requests.\n# TYPE elgon_http_requests_total counter\n"

abbrev duration_help : Str
duration_help =
    str "# HELP elgon_http_request_duration_seconds_total Total request duration seconds.\n"

abbrev duration_type : Str
duration_type = str "# TYPE elgon_http_request_duration_seconds_total counter\n"

abbrev durations_head : Str
durations_head = duration_help ++ duration_type

regroup : (a b c d : Str) → a ++ b ++ c ++ d ≡ a ++ ((b ++ c) ++ (d ++ []))
regroup a b c d = simp (append_assoc, append-nil)

-- The counters and the durations of an export with `n` keys, and nothing behind them.
unfoldable pub read_metrics : ℕ → Str → Option (List (MetricKey × Str) × List (MetricKey × Str))
unfolding read_samples expect
read_metrics n text = do
  t1 ← expect counters_head text
  (totals, t2) ← read_samples n total_name t1
  t3 ← expect durations_head t2
  (durations, rest) ← read_samples n duration_name t3
  some (totals, durations)

decimal-OneLine : (n : ℕ) → OneLine (decimal n)
unfolding is_decimal
decimal-OneLine n = All-weaken (λ c h. ground (arith, h)) (decimal n) (decimal-digits n)

All-place_key :
    (P : MetricKey → Type 0) (k : MetricKey) (ks : List MetricKey)
    → P k
    → All P ks
    → All P (place_key k ks)
unfolding place_key
All-place_key P k [] h hs = (h, tt)
All-place_key P k (j ∷ ks) h hs = elim (Bool-cases (key_leb k j)) [
  | inl le ↦ rw le (h, hs)
  | inr gt ↦ rw gt (hs.0, All-place_key P k ks h hs.1)
]

All-sorted_keys :
    (P : MetricKey → Type 0) (m : List (MetricKey × ℕ)) → All (λ e. P e.0) m → All P (sorted_keys m)
unfolding sorted_keys
All-sorted_keys P [] h = tt
All-sorted_keys P ((k, n) ∷ m) (hk, h) =
    All-place_key P k (sorted_keys m) hk (All-sorted_keys P m h)

module _ (seconds_text : ℕ → Str) where
  -- An export read back under the keys in the code's order.
  read_sorted-export :
      (m : Metrics)
      → All (λ e. OneLineKey e.0) m.requests_total
      → ((n : ℕ) → OneLine (seconds_text n))
      → read_metrics (length (sorted_keys m.requests_total)) (export seconds_text m)
        ≡ some (
          map (λ k. (k, decimal (count k m.requests_total))) (sorted_keys m.requests_total),
          map
              (λ k. (k, seconds_text (count k m.request_duration_ns)))
              (sorted_keys m.requests_total),
        )
  unfolding export read_metrics
  read_sorted-export m h hs =
      let keys = sorted_keys m.requests_total in
      let clean = All-sorted_keys OneLineKey m.requests_total h in
      let total : MetricKey → Str = λ k. decimal (count k m.requests_total) in
      let duration : MetricKey → Str = λ k. seconds_text (count k m.request_duration_ns) in
      let totals = concat (map (λ k. sample total_name k (total k)) keys) in
      let durations = concat (map (λ k. sample duration_name k (duration k)) keys) in
      rw
        (
          regroup totals duration_help duration_type durations,
          read_samples-concat total_name total keys (durations_head ++ (durations ++ [])) clean
              (λ k. decimal-OneLine (count k m.requests_total)),
          read_samples-concat duration_name duration keys [] clean
              (λ k. hs (count k m.request_duration_ns)),
        )
        refl

  -- An export whose keys have no line feeds is read back, as many lines twice as the map of the counters
  -- has keys, when the texts of the durations are on one line: the keys of the map, each as often as the
  -- map has it and in ascending order, once with their counts and once with their durations.
  pub read_metrics-export :
      (m : Metrics)
      → All (λ e. OneLineKey e.0) m.requests_total
      → ((n : ℕ) → OneLine (seconds_text n))
      → (keys : List MetricKey) × Ascending keys
        × Perm keys (map (λ e. e.0) m.requests_total)
        × (read_metrics (length m.requests_total) (export seconds_text m)
            ≡ some (
              map (λ k. (k, decimal (count k m.requests_total))) keys,
              map (λ k. (k, seconds_text (count k m.request_duration_ns))) keys,
            ))
  read_metrics-export m h hs = (
    sorted_keys m.requests_total,
    Ascending-sorted_keys m.requests_total,
    Perm-sorted_keys m.requests_total,
    rw (← length-sorted_keys m.requests_total) (read_sorted-export m h hs),
  )
