-- ===== src/Metrics/Order.antt =====
-- observability/metrics.go: the order of the keys in an export, described without the code's tests.
use mathlib.Core.List.{Perm}
use mathlib.Core.List.Perm
use elgon.Base.{
  ℕ, suc, ◌<◌, ◌≡◌, ◌⊎◌, refl, sym, ap, ◌∙◌, inl, inr, true, false, List, [], ◌∷◌, map, arith, ltb,
  leb, ◌==◌, ltb→lt, length, Bool-cases,
}
use elgon.Base.Text.{Str, str_eq, str_eq_iff}
use elgon.Orm.Value.{str_leb}
use elgon.Middleware.{MetricKey}
use elgon.Metrics.{key_leb, place_key, sorted_keys}

-- A text comes before another one: at the first byte where they differ, or because it ends first.
abbrev pub Before : Str → Str → Type 0
Before s [] = ⊥
Before [] (d ∷ t) = Unit
Before (c ∷ s) (d ∷ t) = (c < d) ⊎ (c ≡ d) × Before s t

-- A key comes before another one: by the method, then by the route, then by the status.
pub data KeyBefore (a b : MetricKey) : Type 0 where
  by_method : Before a.method b.method → KeyBefore a b
  by_route : a.method ≡ b.method → Before a.route b.route → KeyBefore a b
  by_status : a.method ≡ b.method → a.route ≡ b.route → a.status < b.status → KeyBefore a b

abbrev pub AtMost : MetricKey → MetricKey → Type 0
AtMost a b = KeyBefore a b ⊎ (a ≡ b)

-- Each key of a list is at most the next one.
abbrev pub Ascending : List MetricKey → Type 0
Ascending [] = Unit
Ascending (k ∷ []) = Unit
Ascending (k ∷ j ∷ ks) = AtMost k j × Ascending (j ∷ ks)

str_leb-Before : (s t : Str) → str_leb s t ≡ true → Before s t ⊎ (s ≡ t)
unfolding str_leb
str_leb-Before [] [] h = inr refl
str_leb-Before [] (d ∷ t) h = inl tt
str_leb-Before (c ∷ s) [] h = cc
str_leb-Before (c ∷ s) (d ∷ t) h = elim (Bool-cases (ltb c d)) [
  | inl lt ↦ inl (inl (ltb→lt c d lt))
  | inr ge ↦ elim (Bool-cases (c == d)) [
    | inr ne ↦ let no : false ≡ true = rw (ge, ne) at h in cc
    | inl same ↦
        let e : c ≡ d = ground (arith, same) in
        elim (str_leb-Before s t (rw (ge, same) at h)) [
          | inl before ↦ inl (inr (e, before))
          | inr q ↦ inr (λ i. e i ∷ q i)
        ]
  ]
]

str_leb-After : (s t : Str) → str_leb s t ≡ false → Before t s
unfolding str_leb
str_leb-After [] t h = cc
str_leb-After (c ∷ s) [] h = tt
str_leb-After (c ∷ s) (d ∷ t) h = elim (Bool-cases (ltb c d)) [
  | inl lt ↦ let no : true ≡ false = rw lt at h in cc
  | inr ge ↦ elim (Bool-cases (c == d)) [
    | inr ne ↦ inl (ground (arith, ge, ne))
    | inl same ↦ inr (ground (arith, same), str_leb-After s t (rw (ge, same) at h))
  ]
]

key_ext : (a b : MetricKey) → a.method ≡ b.method → a.route ≡ b.route → a.status ≡ b.status → a ≡ b
key_ext a b m r s = λ i. record { method = m i; route = r i; status = s i }

-- The code's test of two keys: the first is at most the second, or comes behind it.
key_leb-AtMost :
    (a b : MetricKey) → ((key_leb a b ≡ true) × AtMost a b) ⊎ ((key_leb a b ≡ false) × AtMost b a)
unfolding key_leb
key_leb-AtMost a b = elim (Bool-cases (str_eq a.method b.method)) [
  | inr other ↦ elim (Bool-cases (str_leb a.method b.method)) [
    | inr gt ↦ inr (rw (other, gt) refl, inl (by_method (str_leb-After a.method b.method gt)))
    | inl le ↦ elim (str_leb-Before a.method b.method le) [
      | inl before ↦ inl (rw (other, le) refl, inl (by_method before))
      | inr same ↦ let no : false ≡ true = sym other ∙ (str_eq_iff a.method b.method).1 same in cc
    ]
  ]
  | inl method ↦
      let m = (str_eq_iff a.method b.method).0 method in
      elim (Bool-cases (str_eq a.route b.route)) [
        | inr other ↦ elim (Bool-cases (str_leb a.route b.route)) [
          | inr gt ↦ inr (
            rw (method, other, gt) refl,
            inl (by_route (sym m) (str_leb-After a.route b.route gt)),
          )
          | inl le ↦ elim (str_leb-Before a.route b.route le) [
            | inl before ↦ inl (rw (method, other, le) refl, inl (by_route m before))
            | inr same ↦
                let no : false ≡ true = sym other ∙ (str_eq_iff a.route b.route).1 same in cc
          ]
        ]
        | inl route ↦
            let r = (str_eq_iff a.route b.route).0 route in
            elim (Bool-cases (leb a.status b.status)) [
              | inr gt ↦ inr (
                rw (method, route, gt) refl,
                inl (by_status (sym m) (sym r) (ground (arith, gt))),
              )
              | inl le ↦ elim (Bool-cases (a.status == b.status)) [
                | inl same ↦
                    inl (rw (method, route, le) refl, inr (key_ext a b m r (ground (arith, same))))
                | inr ne ↦
                    inl (rw (method, route, le) refl, inl (by_status m r (ground (arith, le, ne))))
              ]
            ]
      ]
]

-- A key that is placed behind one that is at most it.
Ascending-behind :
    (i k : MetricKey) (ks : List MetricKey)
    → AtMost i k
    → Ascending (i ∷ ks)
    → Ascending (place_key k ks)
    → Ascending (i ∷ place_key k ks)
unfolding place_key
Ascending-behind i k [] h asc rest = (h, tt)
Ascending-behind i k (j ∷ ks) h (hj, asc) rest = elim (Bool-cases (key_leb k j)) [
  | inl le ↦ rw le (h, rw le at rest)
  | inr gt ↦ rw gt (hj, rw gt at rest)
]

Ascending-tail : (j : MetricKey) (ks : List MetricKey) → Ascending (j ∷ ks) → Ascending ks
Ascending-tail j [] asc = tt
Ascending-tail j (i ∷ ks) (h, asc) = asc

Ascending-place_key :
    (k : MetricKey) (ks : List MetricKey) → Ascending ks → Ascending (place_key k ks)
unfolding place_key
Ascending-place_key k [] asc = tt
Ascending-place_key k (j ∷ ks) asc = elim (key_leb-AtMost k j) [
  | inl (le, h) ↦ rw le (h, asc)
  | inr (gt, h) ↦
      rw gt (Ascending-behind j k ks h asc (Ascending-place_key k ks (Ascending-tail j ks asc)))
]

-- The keys of an export are in ascending order.
pub Ascending-sorted_keys : (m : List (MetricKey × ℕ)) → Ascending (sorted_keys m)
unfolding sorted_keys
Ascending-sorted_keys [] = tt
Ascending-sorted_keys ((k, n) ∷ m) = Ascending-place_key k (sorted_keys m) (Ascending-sorted_keys m)

Perm-place_key : (k : MetricKey) (ks : List MetricKey) → Perm (place_key k ks) (k ∷ ks)
unfolding place_key
Perm-place_key k [] = Perm.refl (k ∷ [])
Perm-place_key k (j ∷ ks) = elim (Bool-cases (key_leb k j)) [
  | inl le ↦ rw le (Perm.refl (k ∷ j ∷ ks))
  | inr gt ↦ rw gt (Perm.trans (Perm.cons j (Perm-place_key k ks)) (Perm.swap k j ks))
]

-- The keys of an export are those of the map, each as often.
pub Perm-sorted_keys : (m : List (MetricKey × ℕ)) → Perm (sorted_keys m) (map (λ e. e.0) m)
unfolding sorted_keys
Perm-sorted_keys [] = Perm.refl []
Perm-sorted_keys ((k, n) ∷ m) =
    Perm.trans (Perm-place_key k (sorted_keys m)) (Perm.cons k (Perm-sorted_keys m))

length-place_key : (k : MetricKey) (ks : List MetricKey) → length (place_key k ks) ≡ suc (length ks)
unfolding place_key
length-place_key k [] = refl
length-place_key k (j ∷ ks) = elim (Bool-cases (key_leb k j)) [
  | inl le ↦ rw le refl
  | inr gt ↦ rw gt (ap suc (length-place_key k ks))
]

pub length-sorted_keys : (m : List (MetricKey × ℕ)) → length (sorted_keys m) ≡ length m
unfolding sorted_keys
length-sorted_keys [] = refl
length-sorted_keys ((k, n) ∷ m) = length-place_key k (sorted_keys m) ∙ ap suc (length-sorted_keys m)
