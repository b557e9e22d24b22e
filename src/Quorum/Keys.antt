-- ===== src/Quorum/Keys.antt =====
-- internal/quorum/quorum.go: the keys of the providers. The base64 and X.509 decoders and the trimming
-- of spaces are parameters.
use nodecore.Base.{
  ℕ, Bool, true, false, ◌||◌, ◌==◌, List, [], ◌∷◌, Option, none, some, if◌then◌else◌, bytes_dec,
  ◌≡◌, ◌⊎◌, subst, refl, sym, ◌∙◌, All, Bool-cases, Option-cases, inl, inr, if_true, if_false,
  if_pos, if_neg,
}
use nodecore.Keyed.{load, store, load-store}
use nodecore.Quorum.Headers.{Result, failed, parsed, is_nil}
use nodecore.Quorum.Verify.{PublicKey, ecdsa_key, rsa_key, other_key, Keys}

-- Why a key or an entry is refused.
pub data KeyError : Type 0 where
  empty_key undecoded_key unsupported_key empty_provider_id duplicate_provider_id : KeyError

-- Whether `strings.TrimSpace` leaves nothing, and the decoding of base64 and of X.509 behind it.
pub record KeyReader (E R : Type 0) : Type 0 where
  pub is_blank : List ℕ → Bool
  pub decode : List ℕ → Option (PublicKey E R)

abbrev pub is_space : ℕ → Bool
is_space c = c == 32 || c == 9 || c == 13 || c == 10

abbrev pub strip_whitespace : List ℕ → List ℕ
strip_whitespace [] = []
strip_whitespace (c ∷ cs) = let rest = strip_whitespace cs in if is_space c then rest else c ∷ rest

abbrev pub supported : {E R : Type 0} → Option (PublicKey E R) → Result KeyError (PublicKey E R)
supported none = failed undecoded_key
supported (some (ecdsa_key k)) = parsed (ecdsa_key k)
supported (some (rsa_key k)) = parsed (rsa_key k)
supported (some other_key) = failed unsupported_key

unfoldable pub parse_public_key :
    {E R : Type 0} → KeyReader E R → List ℕ → Result KeyError (PublicKey E R)
parse_public_key reader raw =
    let cleaned = strip_whitespace raw in
    if is_nil cleaned then failed empty_key else supported (reader.decode cleaned)

-- providerKeyEntry.
pub record KeyEntry : Type 0 where
  pub provider_id : List ℕ
  pub public_key : List ℕ

abbrev pub is_known : {E R : Type 0} → List ℕ → Keys E R → Bool
is_known provider_id keys = elim (load bytes_dec provider_id keys) [ none ↦ false | some k ↦ true ]

-- The loop of LoadRegistry over the entries of the parsed file.
unfoldable pub load_registry :
    {E R : Type 0} → KeyReader E R → List KeyEntry → Keys E R → Result KeyError (Keys E R)
unfolding parse_public_key
load_registry reader [] keys = parsed keys
load_registry reader (e ∷ es) keys =
    if reader.is_blank e.provider_id
    then failed empty_provider_id
    else if is_known e.provider_id keys
    then failed duplicate_provider_id
    else elim (parse_public_key reader e.public_key) [
      | failed x ↦ failed x
      | parsed key ↦ load_registry reader es (store bytes_dec e.provider_id key keys)
    ]

Result-cases :
    {X A : Type 0} (r : Result X A) → ((x : X) × (r ≡ failed x)) ⊎ ((a : A) × (r ≡ parsed a))
Result-cases (failed x) = inl (x, refl)
Result-cases (parsed a) = inr (a, refl)

-- What is found under a key of the one map is found in the other.
abbrev Extends : {E R : Type 0} → Keys E R → Keys E R → Type 0
Extends {E = E} {R = R} keys more =
    (p : List ℕ) (k : PublicKey E R)
    → load bytes_dec p keys ≡ some k
    → load bytes_dec p more ≡ some k

module _ {E R : Type 0} (reader : KeyReader E R) where
  -- The key of the entry is read, and is the one of its provider.
  abbrev pub IsRead : Keys E R → KeyEntry → Type 0
  IsRead keys e =
      (key : PublicKey E R) × (parse_public_key reader e.public_key ≡ parsed key)
      × (load bytes_dec e.provider_id keys ≡ some key)

  abbrev Reads : Result KeyError (Keys E R) → Keys E R → List KeyEntry → Type 0
  Reads (failed x) keys es = Unit
  Reads (parsed more) keys es = Extends keys more × All (IsRead more) es

  unknown :
      (provider_id : List ℕ) (keys : Keys E R)
      → is_known provider_id keys ≡ false
      → load bytes_dec provider_id keys ≡ none
  unknown provider_id keys e = elim (Option-cases (load bytes_dec provider_id keys)) [
    | inl l ↦ l
    | inr (k, l) ↦ let f : true ≡ false = rw (is_known, l) at e in cc
  ]

  stored :
      (e : KeyEntry) (es : List KeyEntry) (keys : Keys E R) (key : PublicKey E R)
      (r : Result KeyError (Keys E R))
      → load bytes_dec e.provider_id keys ≡ none
      → parse_public_key reader e.public_key ≡ parsed key
      → Reads r (store bytes_dec e.provider_id key keys) es
      → Reads r keys (e ∷ es)
  stored e es keys key (failed x) n p h = tt
  stored e es keys key (parsed more) n p (f, a) =
      let id = e.provider_id in
      (
        (λ q k l. elim (bytes_dec id q) [
          | yes s ↦ let m = sym n ∙ subst (λ q. load bytes_dec q keys ≡ some k) (sym s) l in cc
          | no d ↦ f q k (
              load-store bytes_dec id q key keys
              ∙ if_neg (bytes_dec id q) d (some key) (load bytes_dec q keys)
              ∙ l)
        ]),
        (
          (
            key,
            p,
            f id key (
                load-store bytes_dec id id key keys
                ∙ if_pos (bytes_dec id id) refl (some key) (load bytes_dec id keys)),
          ),
          a,
        ),
      )

  load_registry-Reads :
      (es : List KeyEntry) (keys : Keys E R) → Reads (load_registry reader es keys) keys es
  unfolding load_registry
  load_registry-Reads [] keys = (λ p k e. e, tt)
  load_registry-Reads (e ∷ es) keys = elim (Bool-cases (reader.is_blank e.provider_id)) [
    | inl b ↦ rw (if_true _ _ b) tt
    | inr b ↦ elim (Bool-cases (is_known e.provider_id keys)) [
      | inl k ↦ rw (if_false _ _ b, if_true _ _ k) tt
      | inr k ↦ elim (Result-cases (parse_public_key reader e.public_key)) [
        | inl (x, p) ↦ rw (if_false _ _ b, if_false _ _ k, p) tt
        | inr (key, p) ↦
            let h =
              stored e es keys key
                (load_registry reader es (store bytes_dec e.provider_id key keys))
                (unknown e.provider_id keys k) p
                (load_registry-Reads es (store bytes_dec e.provider_id key keys)) in
            rw (if_false _ _ b, if_false _ _ k, p) h
      ]
    ]
  ]

  -- In a registry that was loaded each entry of the file has its own key, which was parsed.
  pub load_registry-IsRead :
      (es : List KeyEntry) (keys : Keys E R)
      → load_registry reader es [] ≡ parsed keys
      → All (IsRead keys) es
  load_registry-IsRead es keys e = (subst (λ r. Reads r [] es) e (load_registry-Reads es [])).1
