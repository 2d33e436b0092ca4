-- ===== src/Command/Files/Models.antt =====
-- cmd/elgon/main.go: which files `resolveModelFiles` gives.
use elgon.Base.{
  ◌≡◌, ◌≢◌, sym, inl, inr, Bool, true, false, List, [], ◌∷◌, ◌++◌, Bool-cases, arith, All,
  All-append,
}
use elgon.Base.Text.{Str, str, str_eq, str_eq_iff, split, trim_space}
use elgon.Base.Result.{Result, ok, err, ◌>>=◌, >>=-eq-ok, ok_inj}
use elgon.Orm.Records.{insert_text, sort_texts}
use elgon.Orm.Value.{str_leb}
use elgon.Command.Files.{
  is_go_file, ResolveError, listed, add_matches, add_parts, globbed, sorted_files,
  resolve_model_files,
}

-- A text that is none of a list.
abbrev pub Fresh : Str → List Str → Type 0
Fresh s = All (λ t. str_eq t s ≡ false)

-- No text stands twice in the list.
unfoldable pub Distinct : List Str → Type 0
Distinct [] = Unit
Distinct (s ∷ ts) = Fresh s ts × Distinct ts

-- Go files, each once.
abbrev pub Chosen : List Str → Type 0
Chosen fs = All (λ f. is_go_file f ≡ true) fs × Distinct fs

Fresh-listed : (s : Str) (ts : List Str) → listed s ts ≡ false → Fresh s ts
unfolding listed
Fresh-listed s [] h = tt
Fresh-listed s (t ∷ ts) h = (ground (arith, h), Fresh-listed s ts (ground (arith, h)))

str_eq-sym : (s t : Str) → str_eq s t ≡ false → str_eq t s ≡ false
str_eq-sym s t h = ground (arith, h, str_eq_iff s t, str_eq_iff t s)

Distinct-append : (ts : List Str) (s : Str) → Distinct ts → Fresh s ts → Distinct (ts ++ s ∷ [])
unfolding Distinct
Distinct-append [] s d f = (tt, tt)
Distinct-append (t ∷ ts) s (ft, d) (h, f) = (
  All-append (λ u. str_eq u t ≡ false) ts (s ∷ []) ft (str_eq-sym t s h, tt),
  Distinct-append ts s d f,
)

Chosen-add_matches : (ms out : List Str) → Chosen out → Chosen (add_matches ms out)
unfolding add_matches
Chosen-add_matches [] out h = h
Chosen-add_matches (m ∷ ms) out (g, d) = elim (Bool-cases (is_go_file m)) [
  | inr skip ↦ rw skip (Chosen-add_matches ms out (g, d))
  | inl go ↦ elim (Bool-cases (listed m out)) [
    | inl old ↦ rw (go, old) (Chosen-add_matches ms out (g, d))
    | inr new ↦
        rw (go, new)
          (Chosen-add_matches ms (out ++ m ∷ []) (
            All-append (λ f. is_go_file f ≡ true) out (m ∷ []) g (go, tt),
            Distinct-append out m d (Fresh-listed m out new),
          ))
  ]
]

All-insert_text :
    (P : Str → Type 0) (s : Str) (ts : List Str) → P s → All P ts → All P (insert_text s ts)
unfolding insert_text
All-insert_text P s [] h hs = (h, tt)
All-insert_text P s (t ∷ ts) h (ht, hs) = elim (Bool-cases (str_leb s t)) [
  | inl le ↦ rw le (h, (ht, hs))
  | inr gt ↦ rw gt (ht, All-insert_text P s ts h hs)
]

insert_text-ne-nil : (s : Str) (ts : List Str) → insert_text s ts ≢ []
unfolding insert_text
insert_text-ne-nil s [] = λ q. cc
insert_text-ne-nil s (t ∷ ts) = elim (Bool-cases (str_leb s t)) [
  | inl le ↦ rw le (λ q. cc)
  | inr gt ↦ rw gt (λ q. cc)
]

All-sort_texts : (P : Str → Type 0) (ts : List Str) → All P ts → All P (sort_texts ts)
unfolding sort_texts
All-sort_texts P [] h = tt
All-sort_texts P (t ∷ ts) (ht, h) = All-insert_text P t (sort_texts ts) ht (All-sort_texts P ts h)

Distinct-insert_text :
    (s : Str) (ts : List Str) → Fresh s ts → Distinct ts → Distinct (insert_text s ts)
unfolding insert_text Distinct
Distinct-insert_text s [] f d = (tt, tt)
Distinct-insert_text s (t ∷ ts) (ft, f) (dt, d) = elim (Bool-cases (str_leb s t)) [
  | inl le ↦ rw le ((ft, f), (dt, d))
  | inr gt ↦ rw gt (
    All-insert_text (λ u. str_eq u t ≡ false) s ts (str_eq-sym t s ft) dt,
    Distinct-insert_text s ts f d,
  )
]

Distinct-sort_texts : (ts : List Str) → Distinct ts → Distinct (sort_texts ts)
unfolding sort_texts Distinct
Distinct-sort_texts [] d = tt
Distinct-sort_texts (t ∷ ts) (f, d) =
    Distinct-insert_text t (sort_texts ts) (All-sort_texts (λ u. str_eq u t ≡ false) ts f)
      (Distinct-sort_texts ts d)

-- What holds of the value of a result.
abbrev OnOk : {E : Type 0} → (List Str → Type 0) → Result E (List Str) → Type 0
OnOk P (err e) = Unit
OnOk P (ok fs) = P fs

module _ (glob : Str → Result Str (List Str)) (exists : Str → Bool) where
  Chosen-bind :
      (r : Result ResolveError (List Str)) (k : List Str → Result ResolveError (List Str))
      → ((ms : List Str) → OnOk Chosen (k ms))
      → OnOk Chosen (r >>= k)
  Chosen-bind (err e) k h = tt
  Chosen-bind (ok ms) k h = h ms

  Chosen-add_parts : (ps out : List Str) → Chosen out → OnOk Chosen (add_parts glob exists ps out)
  unfolding add_parts
  Chosen-add_parts [] out h = h
  Chosen-add_parts (p ∷ ps) out h = elim (Bool-cases (str_eq (trim_space p) (str ""))) [
    | inl blank ↦ rw blank (Chosen-add_parts ps out h)
    | inr part ↦ rw part (
        Chosen-bind (globbed glob exists (trim_space p)) _
          (λ ms. Chosen-add_parts ps (add_matches ms out) (Chosen-add_matches ms out h)))
  ]

  sorted_files-Chosen :
      (raw : Str) (out fs : List Str)
      → Chosen out
      → sorted_files raw out ≡ ok fs
      → (fs ≢ []) × Chosen fs
  unfolding sort_texts
  sorted_files-Chosen raw [] fs h q = cc
  sorted_files-Chosen raw (f ∷ out) fs (g, d) q =
      let e : sort_texts (f ∷ out) ≡ fs = ok_inj q in
      rw (sym e) (
        insert_text-ne-nil f (sort_texts out),
        (All-sort_texts (λ x. is_go_file x ≡ true) (f ∷ out) g, Distinct-sort_texts (f ∷ out) d),
      )

  -- The model files of `elgon migrate generate` are Go files, each of them once, and there are some.
  pub resolve_model_files-Chosen :
      (raw : Str) (fs : List Str)
      → resolve_model_files glob exists raw ≡ ok fs
      → (fs ≢ []) × Chosen fs
  unfolding resolve_model_files Distinct
  resolve_model_files-Chosen raw fs q = elim (Bool-cases (str_eq (trim_space raw) (str ""))) [
    | inl blank ↦ let no : err _ ≡ ok fs = rw blank at q in cc
    | inr some_text ↦
        let (out, found, chosen) =
          >>=-eq-ok (add_parts glob exists (split b',' raw) []) _ (rw some_text at q) in
        sorted_files-Chosen raw out fs (rw found at (Chosen-add_parts (split b',' raw) [] (tt, tt)))
          chosen
  ]
