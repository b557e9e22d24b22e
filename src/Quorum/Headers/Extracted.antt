-- ===== src/Quorum/Headers/Extracted.antt =====
-- internal/quorum/quorum.go: the signatures that are extracted are those of the headers.
use nodecore.Base.{
  subst, ℕ, suc, ◌+◌, ◌^◌, List, [], ◌∷◌, ◌++◌, none, some, length, ◌≡◌, refl, sym, ◌∙◌, ap, All,
  All-append, length-append, Option-cases, inl, inr, arith,
}
use nodecore.Quorum.Bytes.{within, read_number}
use nodecore.Quorum.Headers.{
  Result, failed, parsed, Signature, Malformed, bad_index, match_name, parse_value, and_more,
  parse_values, parse_indexed, parse_header, joined, parse_headers, sorted,
}
use nodecore.Quorum.Headers.Sorted.{stable_sort-All, All-stable_sort, length-stable_sort}

some_of : {A : Type 0} {a b : A} → some a ≡ some b → a ≡ b
some_of e = cc

-- The values of the headers with a QR name.
abbrev pub header_count : List ℕ × List (List ℕ) → ℕ
header_count (name, values) = elim (match_name name) [ none ↦ 0 | some _ ↦ length values ]

abbrev pub count_values : List (List ℕ × List (List ℕ)) → ℕ
count_values [] = 0
count_values (h ∷ hs) = header_count h + count_values hs

-- Each value of a header with a QR name is parsed to a signature that satisfies `P`.
module _ (P : Signature → Type 0) where
  abbrev pub Holds : ℕ → List ℕ → List ℕ → Type 0
  Holds index request_id value =
      (s : Signature) × (parse_value index request_id value ≡ parsed s) × P s

  -- The index is a number, and the values are parsed.
  abbrev pub ValuesHold : List ℕ × List ℕ → List (List ℕ) → Type 0
  ValuesHold (ds, request_id) values =
      (index : ℕ) × (within (2 ^ 63) (read_number ds) ≡ some index)
      × All (Holds index request_id) values

  abbrev pub HeaderHolds : List ℕ × List (List ℕ) → Type 0
  HeaderHolds (name, values) =
      (m : List ℕ × List ℕ) → match_name name ≡ some m → ValuesHold m values

  -- The signatures that a part of the headers gives.
  abbrev pub Gives : Result Malformed (List Signature) → ℕ → Type 0
  Gives (failed e) n = ⊥
  Gives (parsed ss) n = (length ss ≡ n) × All P ss

  and_more-Gives :
      (r : Result Malformed Signature) (rest : Result Malformed (List Signature)) (n : ℕ)
      → ((s : Signature) × (r ≡ parsed s) × P s)
      → Gives rest n
      → Gives (and_more r rest) (suc n)
  and_more-Gives r (failed e) n h g = elim g [ ]
  and_more-Gives r (parsed ss) n (s, e, p) (l, a) = rw e (ap suc l, (p, a))

  Gives-and_more :
      (r : Result Malformed Signature) (rest : Result Malformed (List Signature)) (n : ℕ)
      → Gives (and_more r rest) n
      → ((s : Signature) × (r ≡ parsed s) × P s) × (m : ℕ) × (suc m ≡ n) × Gives rest m
  Gives-and_more (failed e) rest n g = elim g [ ]
  Gives-and_more (parsed s) (failed e) n g = elim g [ ]
  Gives-and_more (parsed s) (parsed ss) n (l, a) = ((s, refl, a.0), length ss, l, (refl, a.1))

  parse_values-Gives :
      (index : ℕ) (request_id : List ℕ) (values : List (List ℕ))
      → All (Holds index request_id) values
      → Gives (parse_values index request_id values) (length values)
  unfolding parse_values
  parse_values-Gives index request_id [] h = (refl, tt)
  parse_values-Gives index request_id (v ∷ vs) h =
      and_more-Gives (parse_value index request_id v) (parse_values index request_id vs) (length vs)
        h.0 (parse_values-Gives index request_id vs h.1)

  Gives-parse_values :
      (index : ℕ) (request_id : List ℕ) (values : List (List ℕ)) (n : ℕ)
      → Gives (parse_values index request_id values) n
      → (n ≡ length values) × All (Holds index request_id) values
  unfolding parse_values
  Gives-parse_values index request_id [] n h = (sym h.0, tt)
  Gives-parse_values index request_id (v ∷ vs) n h =
      let g =
        Gives-and_more (parse_value index request_id v) (parse_values index request_id vs) n h in
      let i = Gives-parse_values index request_id vs g.1 g.3 in (sym g.2 ∙ ap suc i.0, (g.0, i.1))

  parse_header-Gives :
      (h : List ℕ × List (List ℕ)) → HeaderHolds h → Gives (parse_header h) (header_count h)
  unfolding parse_header
  parse_header-Gives (name, values) h = elim (Option-cases (match_name name)) [
    | inl e ↦ rw (e) (refl, tt)
    | inr (m, e) ↦ let i = h m e in rw (e, i.1) (parse_values-Gives i.0 m.1 values i.2)
  ]

  Gives-parse_indexed :
      (m : List ℕ × List ℕ) (values : List (List ℕ)) (n : ℕ)
      → Gives (parse_indexed (within (2 ^ 63) (read_number m.0)) m.1 values) n
      → (n ≡ length values) × ValuesHold m values
  Gives-parse_indexed m values n g = elim (Option-cases (within (2 ^ 63) (read_number m.0))) [
    | inl e ↦ let f : Gives (failed bad_index) n = rw e at g in absurd f
    | inr (i, e) ↦
        let f : Gives (parse_values i m.1 values) n = rw e at g in
        let a = Gives-parse_values i m.1 values n f in (a.0, (i, e, a.1))
  ]

  All-split : (ss ts : List Signature) → All P (ss ++ ts) → All P ss × All P ts
  All-split [] ts h = (tt, h)
  All-split (s ∷ ss) ts h = let i = All-split ss ts h.1 in ((h.0, i.0), i.1)

  Gives-parse_header :
      (h : List ℕ × List (List ℕ)) (n : ℕ)
      → Gives (parse_header h) n
      → (n ≡ header_count h) × HeaderHolds h
  unfolding parse_header
  Gives-parse_header (name, values) n g = elim (Option-cases (match_name name)) [
    | inl e ↦
        let f : Gives (parsed []) n = rw (e) at g in
        (rw e (sym f.0), λ m q. let r = sym e ∙ q in cc)
    | inr (m, e) ↦
        let f : Gives (parse_indexed (within (2 ^ 63) (read_number m.0)) m.1 values) n =
          rw (e) at g in
        let i = Gives-parse_indexed m values n f in
        (
          rw e i.0,
          λ k q. let r : m ≡ k = some_of (sym e ∙ q) in subst (λ k. ValuesHold k values) r i.1,
        )
  ]

  joined-Gives :
      (r rest : Result Malformed (List Signature)) (n m : ℕ)
      → Gives r n
      → Gives rest m
      → Gives (joined r rest) (n + m)
  joined-Gives (failed e) rest n m g h = elim g [ ]
  joined-Gives (parsed ss) (failed e) n m g h = elim h [ ]
  joined-Gives (parsed ss) (parsed ts) n m (l, a) (k, b) =
      (omega (arith, length-append ss ts, l, k), All-append P ss ts a b)

  Gives-joined :
      (r rest : Result Malformed (List Signature)) (n : ℕ)
      → Gives (joined r rest) n
      → (m k : ℕ) × (m + k ≡ n) × Gives r m × Gives rest k
  Gives-joined (failed e) rest n g = elim g [ ]
  Gives-joined (parsed ss) (failed e) n g = elim g [ ]
  Gives-joined (parsed ss) (parsed ts) n (l, a) =
      let b = All-split ss ts a in
      (length ss, length ts, omega (arith, length-append ss ts, l), (refl, b.0), (refl, b.1))

  -- The headers hold exactly if their signatures are extracted and satisfy `P`.
  pub parse_headers-Gives :
      (hs : List (List ℕ × List (List ℕ)))
      → All HeaderHolds hs
      → Gives (parse_headers hs) (count_values hs)
  unfolding parse_headers
  parse_headers-Gives [] h = (refl, tt)
  parse_headers-Gives (x ∷ hs) h =
      joined-Gives (parse_header x) (parse_headers hs) (header_count x) (count_values hs)
        (parse_header-Gives x h.0) (parse_headers-Gives hs h.1)

  pub Gives-parse_headers :
      (hs : List (List ℕ × List (List ℕ))) (n : ℕ)
      → Gives (parse_headers hs) n
      → (n ≡ count_values hs) × All HeaderHolds hs
  unfolding parse_headers
  Gives-parse_headers [] n g = (sym g.0, tt)
  Gives-parse_headers (x ∷ hs) n g =
      let j = Gives-joined (parse_header x) (parse_headers hs) n g in
      let a = Gives-parse_header x j.0 j.3 in
      let b = Gives-parse_headers hs j.1 j.4 in (omega (arith, j.2, a.0, b.0), (a.1, b.1))

  pub sorted-Gives :
      (r : Result Malformed (List Signature)) (n : ℕ) → Gives r n → Gives (sorted r) n
  sorted-Gives (failed e) n g = g
  sorted-Gives (parsed ss) n g = (length-stable_sort _ ss ∙ g.0, stable_sort-All P _ ss g.1)

  pub Gives-sorted :
      (r : Result Malformed (List Signature)) (n : ℕ) → Gives (sorted r) n → Gives r n
  Gives-sorted (failed e) n g = g
  Gives-sorted (parsed ss) n g = (sym (length-stable_sort _ ss) ∙ g.0, All-stable_sort P _ ss g.1)
