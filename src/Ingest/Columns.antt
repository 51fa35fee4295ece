-- ===== src/Ingest/Columns.antt =====
-- Every value that is handed to the statement fits the column that it is written to.
use silence_watch.Cache.{CheckMetadata}
use silence_watch.Ingest.{IngestCommand, Runtime, Service, values_of}
use silence_watch.Ingest.Values.{
  Number, address_or_null, before_percent, clamp_int, finite, int32_min, is_address_char,
  normalise_ip, not_finite, text_or_null, truncate, truncate_body,
}
use silence_watch.Ingest.Sql.{IngestValues, int32_max}
use silence_watch.Prelude.Int.{pos, ℤ, ◌≤ℤ◌}
use silence_watch.Prelude.{
  Bool-cases, List, Option, Text, [], all, any, arith, false, filter, if◌then◌else◌, inl, inr,
  length, length-filter-le, length-take, ltb, nat_eq, none, not, refl, some, suc, take, text_keys,
  true, ℕ, ◌==◌, ◌∷◌, ◌≡◌, ◌≢◌, ◌≤◌,
}

-- What holds of a nullable value, if it is not null.
abbrev pub Each : {A : Type 0} → (A → Type 0) → Option A → Type 0
Each P none = Unit {0}
Each P (some a) = P a

pub record Fits (max_body : ℕ) (v : IngestValues) : Type 0 where
  pub exit_code : Each (λ n. (int32_min ≤ℤ n) × (n ≤ℤ pos int32_max)) v.exit_code
  pub duration_ms : Each (λ n. (pos 0 ≤ℤ n) × (n ≤ℤ pos int32_max)) v.duration_ms
  pub body :
      Each (λ (t : Text). (t ≢ []) × (length t ≤ max_body) × (any (λ c. c == 0) t ≡ false)) v.body
  pub source_ip :
      Each (λ (t : Text). (t ≢ []) × (length t ≤ 45) × (all is_address_char t ≡ true)) v.source_ip
  pub user_agent : Each (λ (t : Text). (t ≢ []) × (length t ≤ 300)) v.user_agent

clamp_int-bounds :
    (n : Option Number) (lo : ℤ)
    → lo ≤ℤ pos int32_max
    → Each (λ r. (lo ≤ℤ r) × (r ≤ℤ pos int32_max)) (clamp_int n lo)
unfolding clamp_int
clamp_int-bounds none lo h = tt
clamp_int-bounds (some not_finite) lo h = tt
clamp_int-bounds (some (finite n)) lo h = ground arith

truncate-short :
    (t : Option Text) (n : ℕ)
    → Each (λ (t : Text). (t ≢ []) × (length t ≤ suc n)) (truncate t (suc n))
unfolding truncate
truncate-short none n = tt
truncate-short (some []) n = tt
truncate-short (some (c ∷ s)) n = elim (Bool-cases (ltb (suc n) (length (c ∷ s)))) [
  | inl long ↦ rw long (λ e. cc, omega (arith, length-take n s))
  | inr short ↦ rw short (λ e. cc, ground arith)
]

address_or_null-fits :
    (t : Text)
    → Each
        (λ (t : Text). (t ≢ []) × (length t ≤ 45) × (all is_address_char t ≡ true))
        (address_or_null t)
unfolding address_or_null
address_or_null-fits [] = tt
address_or_null-fits (c ∷ s) = elim (Bool-cases (ltb 45 (length (c ∷ s)))) [
  | inl long ↦ rw long tt
  | inr short ↦ elim (Bool-cases (all is_address_char (c ∷ s))) [
    | inl good ↦ rw (short, good) (λ e. cc, ground arith, good)
    | inr bad ↦ rw (short, bad) tt
  ]
]

no_nul : (t : Text) → any (λ c. c == 0) (filter (λ c. not (c == 0)) t) ≡ false
no_nul [] = refl
no_nul (c ∷ s) = ground (arith, no_nul s)

text_or_null-fits :
    (t : Text) (limit : ℕ)
    → length t ≤ limit
    → any (λ c. c == 0) t ≡ false
    → Each
        (λ (t : Text). (t ≢ []) × (length t ≤ limit) × (any (λ c. c == 0) t ≡ false))
        (text_or_null t)
unfolding text_or_null
text_or_null-fits [] limit short h = tt
text_or_null-fits (c ∷ s) limit short h = (λ e. cc, short, h)

-- The bytes that are decoded.
abbrev cut_bytes : ℕ → List ℕ → List ℕ
cut_bytes limit bytes = if ltb limit (length bytes) then take limit bytes else bytes

length-cut_bytes : (limit : ℕ) (bytes : List ℕ) → length (cut_bytes limit bytes) ≤ limit
length-cut_bytes limit bytes = ground (arith, length-take limit bytes)

normalise_ip-fits :
    (ip : Option Text)
    → Each
        (λ (t : Text). (t ≢ []) × (length t ≤ 45) × (all is_address_char t ≡ true))
        (normalise_ip ip)
unfolding normalise_ip
normalise_ip-fits none = tt
normalise_ip-fits (some ip) = address_or_null-fits (before_percent ip)

truncate_body-fits :
    (decode : List ℕ → Text) (limit : ℕ) (body : Option (List ℕ))
    → ((bytes : List ℕ) → length (decode bytes) ≤ length bytes)
    → Each
        (λ (t : Text). (t ≢ []) × (length t ≤ limit) × (any (λ c. c == 0) t ≡ false))
        (truncate_body decode limit body)
unfolding truncate_body
truncate_body-fits decode limit none units = tt
truncate_body-fits decode limit (some []) units = tt
truncate_body-fits decode limit (some (b ∷ bytes)) units = elim (Bool-cases (limit == 0)) [
  | inl off ↦ rw off tt
  | inr on ↦
      let slice = cut_bytes limit (b ∷ bytes) in
      let decoded = decode slice in
      let kept = filter (λ c. not (c == 0)) decoded in
      let short : length kept ≤ limit = omega (
        arith,
        length-filter-le (λ c. not (c == 0)) decoded,
        units slice,
        length-cut_bytes limit (b ∷ bytes),
      ) in
      rw on (text_or_null-fits kept limit short (no_nul decoded))
]

-- A malformed or oversized value of the caller becomes null or is cut to fit: numbers lie in the
-- range of an `int`, a duration is not negative, an address has only the characters of one and at
-- most 45 of them, a user agent at most 300 characters, and a body at most `max_body_bytes` and no
-- NUL; no text is empty. The decoder makes no more characters than it is given bytes.
pub values_of-Fits :
    (rt : Runtime) (s : Service) (command : IngestCommand) (key : Text) (m : CheckMetadata)
    (now : ℕ)
    → ((bytes : List ℕ) → length (rt.decode bytes) ≤ length bytes)
    → Fits s.max_body_bytes (values_of rt s command key m now)
unfolding values_of
values_of-Fits rt s command key m now units = record {
  exit_code = clamp_int-bounds command.exit_code int32_min (omega arith);
  duration_ms = clamp_int-bounds command.duration_ms (pos 0) (omega arith);
  body = truncate_body-fits rt.decode s.max_body_bytes command.body units;
  source_ip = normalise_ip-fits command.ip;
  user_agent = truncate-short command.user_agent 299;
}
