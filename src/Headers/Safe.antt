-- ===== src/Headers/Safe.antt =====
-- What `normalize_asset_headers` lets through.
use mupitech_player.Prelude.{
  All, Bool-cases, Option-cases, Text, TextDict, [], any, ap, arith, byte_length, dict_set, false,
  inl, inr, leb, length, length-dict_set, some, strip, subst, sym, text_eq, text_eq_refl,
  text_eq_sound, true, ℕ, ◌<◌, ◌∙◌, ◌∷◌, ◌≡◌, ◌≤◌,
}
use mupitech_player.Headers.{
  at_most, is_splitting, is_valid_header_name, is_valid_header_value, keep_header,
  max_asset_headers, max_header_name_len, max_header_value_len, normalize_asset_headers,
  normalize_fields, take_header,
}
use mupitech_player.Models.{Fields, Json, end, field, null, obj, str}
use mupitech_player.Headers.Names.{AllTchar, valid_name-AllTchar}

-- A header that cannot split a request: a token for a name, and a value with no CR, LF or NUL and
-- at most 4096 bytes.
pub record IsSafe (h : Text × Text) : Type 0 where
  pub token : AllTchar h.0
  pub nonempty : 1 ≤ length h.0
  pub short : length h.0 ≤ max_header_name_len
  pub whole : any is_splitting h.1 ≡ false
  pub bytes : (n : ℕ) × (byte_length h.1 ≡ some n) × (n ≤ max_header_value_len)

abbrev pub Fresh : Text → TextDict → Type 0
Fresh k [] = Unit
Fresh k ((j, w) ∷ d) = (text_eq j k ≡ false) × Fresh k d

abbrev pub Distinct : TextDict → Type 0
Distinct [] = Unit
Distinct ((k, v) ∷ d) = Fresh k d × Distinct d

pub record IsSafeDict (d : TextDict) : Type 0 where
  pub few : length d ≤ max_asset_headers
  pub safe : All IsSafe d
  pub distinct : Distinct d

pub text_eq_sym_false : (s t : Text) → text_eq s t ≡ false → text_eq t s ≡ false
text_eq_sym_false s t h = elim (Bool-cases (text_eq t s)) [
  | inl e ↦ absurd (ground (arith, h, ap (λ x. text_eq s x) (text_eq_sound t s e), text_eq_refl s))
  | inr e ↦ e
]

Fresh-dict_set :
    (j k v : Text) (d : TextDict) → Fresh j d → text_eq k j ≡ false → Fresh j (dict_set k v d)
unfolding dict_set
Fresh-dict_set j k v [] f apart = (apart, tt)
Fresh-dict_set j k v ((i, w) ∷ d) f apart = ground (arith, f, Fresh-dict_set j k v d)

pub dict_set-Distinct : (k v : Text) (d : TextDict) → Distinct d → Distinct (dict_set k v d)
unfolding dict_set
dict_set-Distinct k v [] h = (tt, tt)
dict_set-Distinct k v ((j, w) ∷ d) h = elim (Bool-cases (text_eq j k)) [
  | inl same ↦ rw same h
  | inr apart ↦
      rw apart
        ((Fresh-dict_set j k v d h.0 (text_eq_sym_false j k apart), dict_set-Distinct k v d h.1))
]

IsSafe-revalue : (j k v : Text) → text_eq j k ≡ true → IsSafe (k, v) → IsSafe (j, v)
IsSafe-revalue j k v e h = subst (λ n. IsSafe (n, v)) (sym (text_eq_sound j k e)) h

dict_set-IsSafe :
    (k v : Text) (d : TextDict) → IsSafe (k, v) → All IsSafe d → All IsSafe (dict_set k v d)
unfolding dict_set
dict_set-IsSafe k v [] h a = (h, tt)
dict_set-IsSafe k v ((j, w) ∷ d) h a = elim (Bool-cases (text_eq j k)) [
  | inl same ↦ rw same ((IsSafe-revalue j k v same h, a.1))
  | inr apart ↦ rw apart ((a.0, dict_set-IsSafe k v d h a.1))
]

valid_value :
    (value : Text)
    → is_valid_header_value value ≡ some true
    → (any is_splitting value ≡ false)
      × ((n : ℕ) × (byte_length value ≡ some n) × (n ≤ max_header_value_len))
unfolding is_valid_header_value at_most
valid_value value h = elim (Option-cases (byte_length value)) [
  | inl e ↦ absurd (ground (arith, h, e))
  | inr (n, e) ↦ (ground (arith, h), (n, e, ground (arith, h, e)))
]

pub checked-IsSafe :
    (raw value : Text)
    → is_valid_header_name (strip raw) ≡ true
    → is_valid_header_value value ≡ some true
    → IsSafe (strip raw, value)
checked-IsSafe raw value p q =
    let (token, nonempty, short) = valid_name-AllTchar raw p in
    let (whole, bytes) = valid_value value q in
    record { token = token; nonempty = nonempty; short = short; whole = whole; bytes = bytes }

pub dict_set-IsSafeDict :
    (k v : Text) (d : TextDict)
    → IsSafe (k, v)
    → length d < max_asset_headers
    → IsSafeDict d
    → IsSafeDict (dict_set k v d)
dict_set-IsSafeDict k v d s room h = record {
  few = omega (arith, length-dict_set k v d);
  safe = dict_set-IsSafe k v d s h.safe;
  distinct = dict_set-Distinct k v d h.distinct;
}

take_header-IsSafeDict :
    (raw : Text) (value : Json) (d d' : TextDict)
    → take_header raw value d ≡ some d'
    → length d < max_asset_headers
    → IsSafeDict d
    → IsSafeDict d'
unfolding take_header keep_header
take_header-IsSafeDict raw (str value) d d' h room k =
    elim (Bool-cases (is_valid_header_name (strip raw))) [
      | inl named ↦ elim (Option-cases (is_valid_header_value value)) [
        | inl e ↦ absurd (ground (arith, h, named, e))
        | inr (fine, e) ↦ elim (Bool-cases fine) [
          | inl good ↦
              let is_set : dict_set (strip raw) value d ≡ d' = ground (arith, h, named, e, good) in
              subst IsSafeDict is_set (
                dict_set-IsSafeDict (strip raw) value d
                  (checked-IsSafe raw value named (e ∙ ap some good)) room k)
          | inr bad ↦
              let same : d ≡ d' = ground (arith, h, named, e, bad) in subst IsSafeDict same k
        ]
      ]
      | inr unnamed ↦ let same : d ≡ d' = ground (arith, h, unnamed) in subst IsSafeDict same k
    ]
take_header-IsSafeDict raw null d d' h room k = let same : d ≡ d' = cc in subst IsSafeDict same k
take_header-IsSafeDict raw _ d d' h room k = let same : d ≡ d' = cc in subst IsSafeDict same k

normalize_fields-IsSafeDict :
    (fields : Fields) (d d' : TextDict)
    → normalize_fields fields d ≡ some d'
    → IsSafeDict d
    → IsSafeDict d'
unfolding normalize_fields
normalize_fields-IsSafeDict end d d' h k = let same : d ≡ d' = cc in subst IsSafeDict same k
normalize_fields-IsSafeDict (field raw value rest) d d' h k =
    elim (Bool-cases (leb max_asset_headers (length d))) [
      | inl full ↦ let same : d ≡ d' = ground (arith, h, full) in subst IsSafeDict same k
      | inr room ↦ elim (Option-cases (take_header raw value d)) [
        | inl e ↦ absurd (ground (arith, h, room, e))
        | inr (d1, e) ↦
            normalize_fields-IsSafeDict rest d1 d' (ground (arith, h, room, e))
              (take_header-IsSafeDict raw value d d1 e (ground (arith, room)) k)
      ]
    ]

-- Whatever JSON value a row holds, the headers that `normalize_asset_headers` returns are at most
-- 20, with different names, each name a token of at most 256 characters, each value free of CR, LF
-- and NUL and at most 4096 bytes of UTF-8.
pub normalize_asset_headers-IsSafeDict :
    (value : Json) (d : TextDict) → normalize_asset_headers value ≡ some d → IsSafeDict d
unfolding normalize_asset_headers
normalize_asset_headers-IsSafeDict (obj fields) d h =
    normalize_fields-IsSafeDict fields [] d h
      (record { few = omega arith; safe = tt; distinct = tt })
normalize_asset_headers-IsSafeDict _ d h =
    let same : [] ≡ d = cc in
    subst IsSafeDict same (record { few = omega arith; safe = tt; distinct = tt })
