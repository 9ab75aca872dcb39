-- ===== src/Headers/Agree.antt =====
-- The strict and the forgiving check of headers agree on what they accept, and the forgiving one
-- changes nothing that is clean.
use mathlib.Core.List.{append_assoc, append-nil}
use mupitech_player.Prelude.{
  All, Bool-cases, Option-cases, Text, TextDict, [], any, ap, arith, byte_length, dict_set, false,
  if◌then◌else◌, inl, inr, leb, length, length-append, length-dict_set, none, refl, some, strip,
  subst, sym, text_eq, true, ◌++◌, ◌+◌, ◌∷◌, ◌≡◌, ◌≢◌, ◌≤◌,
}
use mupitech_player.Headers.{
  at_most, check_value, count_fields, is_splitting, is_valid_header_name, is_valid_header_value,
  keep_header, max_asset_headers, normalize_asset_headers, normalize_fields, take_header, to_fields,
  valid, validate_asset_headers, validate_fields,
}
use mupitech_player.Models.{Fields, Json, end, field, null, obj, str}
use mupitech_player.Headers.Names.{strip_id, tchars_valid}
use mupitech_player.Headers.Safe.{
  Distinct, Fresh, IsSafe, normalize_asset_headers-IsSafeDict, text_eq_sym_false,
}

validate_fields-normalize :
    (fields : Fields) (out d : TextDict)
    → validate_fields fields out ≡ valid d
    → length out + count_fields fields ≤ max_asset_headers
    → normalize_fields fields out ≡ some d
unfolding validate_fields normalize_fields count_fields check_value take_header keep_header
validate_fields-normalize end out d h room = ground (arith, h)
validate_fields-normalize (field raw (str value) rest) out d h room =
    elim (Bool-cases (is_valid_header_name (strip raw))) [
      | inl named ↦ elim (Option-cases (is_valid_header_value value)) [
        | inl e ↦ absurd (ground (arith, h, named, e))
        | inr (fine, e) ↦ elim (Bool-cases fine) [
          | inl good ↦
              let next = dict_set (strip raw) value out in
              let later : validate_fields rest next ≡ valid d = ground (arith, h, named, e, good) in
              let all_right =
                validate_fields-normalize rest next d later
                  (omega (arith, room, length-dict_set (strip raw) value out)) in
              ground (arith, room, named, e, good, all_right)
          | inr bad ↦ absurd (ground (arith, h, named, e, bad))
        ]
      ]
      | inr unnamed ↦ absurd (ground (arith, h, unnamed))
    ]
validate_fields-normalize (field raw null rest) out d h room = absurd (ground (arith, h))
validate_fields-normalize (field raw _ rest) out d h room = absurd (ground (arith, h))

-- Headers that the API's strict check accepts are read back unchanged by the viewer: both checks
-- give the same dictionary.
pub validate-normalize_asset_headers :
    (value : Json) (d : TextDict)
    → validate_asset_headers value ≡ valid d
    → normalize_asset_headers value ≡ some d
unfolding validate_asset_headers normalize_asset_headers
validate-normalize_asset_headers (obj fields) d h =
    validate_fields-normalize fields [] d (ground (arith, h)) (ground (arith, h))
validate-normalize_asset_headers null d h = absurd (cc)
validate-normalize_asset_headers _ d h = absurd (cc)

dict_set_new :
    (k v : Text) (d1 d2 : TextDict)
    → Distinct (d1 ++ (k, v) ∷ d2)
    → dict_set k v d1 ≡ d1 ++ (k, v) ∷ []
unfolding dict_set
dict_set_new k v [] d2 h = refl
dict_set_new k v ((j, w) ∷ d1) d2 h =
    ground (arith, dict_set_new k v d1 d2 h.1, text_eq_sym_false k j (Fresh-middle j k v d1 d2 h.0))
  where
    Fresh-middle :
        (j k v : Text) (d1 d2 : TextDict) → Fresh j (d1 ++ (k, v) ∷ d2) → text_eq k j ≡ false
    Fresh-middle j k v [] d2 f = f.0
    Fresh-middle j k v (e ∷ d1) d2 f = Fresh-middle j k v d1 d2 f.1

IsSafe-checked :
    (k v : Text)
    → IsSafe (k, v)
    → (strip k ≡ k) × (is_valid_header_name k ≡ true) × (is_valid_header_value v ≡ some true)
unfolding is_valid_header_value at_most
IsSafe-checked k v s =
    let (n, e, l) = s.bytes in
    (strip_id k s.token, tchars_valid k s.token s.nonempty s.short, ground (arith, s.whole, e, l))

take_header_safe :
    (k v : Text) (d : TextDict) → IsSafe (k, v) → take_header k (str v) d ≡ some (dict_set k v d)
unfolding take_header keep_header
take_header_safe k v d s = let (p, q, r) = IsSafe-checked k v s in rw (p, q, r)

normalize_fields_clean :
    (d2 d1 : TextDict)
    → All IsSafe d2
    → Distinct (d1 ++ d2)
    → length (d1 ++ d2) ≤ max_asset_headers
    → normalize_fields (to_fields d2) d1 ≡ some (d1 ++ d2)
unfolding normalize_fields to_fields
normalize_fields_clean [] d1 s h room = ap some (sym (append-nil d1))
normalize_fields_clean ((k, v) ∷ d2) d1 s h room =
    let regroup : (d1 ++ (k, v) ∷ []) ++ d2 ≡ d1 ++ (k, v) ∷ d2 = append_assoc d1 _ d2 in
    let rest =
      normalize_fields_clean d2 (d1 ++ (k, v) ∷ []) s.1 (subst Distinct (sym regroup) h)
        (subst (λ d. length d ≤ max_asset_headers) (sym regroup) room) in
    let taken = take_header_safe k v d1 s.0 in
    let added = dict_set_new k v d1 d2 h in
    ground (arith, room, length-append d1 ((k, v) ∷ d2), taken, added, rest, regroup)

-- Reading is idempotent: headers that `normalize_asset_headers` returned, stored and read again,
-- come back as they are, in the same order.
pub normalize_asset_headers_idem :
    (value : Json) (d : TextDict)
    → normalize_asset_headers value ≡ some d
    → normalize_asset_headers (obj (to_fields d)) ≡ some d
unfolding normalize_asset_headers
normalize_asset_headers_idem value d h =
    let clean = normalize_asset_headers-IsSafeDict value d h in
    normalize_fields_clean d [] clean.safe clean.distinct clean.few

-- No value crashes the read unless some text in it has a surrogate.
abbrev pub Encodable : Fields → Type 0
Encodable end = Unit
Encodable (field k (str v) rest) = (byte_length v ≢ none) × Encodable rest
Encodable (field k _ rest) = Encodable rest

unencodable_value : (v : Text) → is_valid_header_value v ≡ none → byte_length v ≡ none
unfolding is_valid_header_value at_most
unencodable_value v e = ground (arith, e)

take_header-Encodable :
    (k : Text) (value : Json) (rest : Fields) (d : TextDict)
    → Encodable (field k value rest)
    → ((d' : TextDict) × (take_header k value d ≡ some d')) × Encodable rest
unfolding take_header keep_header
take_header-Encodable k (str v) rest d h = (
  elim (Bool-cases (is_valid_header_name (strip k))) [
    | inl named ↦ elim (Option-cases (is_valid_header_value v)) [
      | inl e ↦ absurd (h.0 (unencodable_value v e))
      | inr (fine, e) ↦ ((if fine then dict_set (strip k) v d else d), ground (arith, named, e))
    ]
    | inr unnamed ↦ (d, ground (arith, unnamed))
  ],
  h.1,
)
take_header-Encodable k null rest d h = ((d, refl), h)
take_header-Encodable k _ rest d h = ((d, refl), h)

normalize_fields_total :
    (fields : Fields) (d : TextDict)
    → Encodable fields
    → (d' : TextDict) × (normalize_fields fields d ≡ some d')
unfolding normalize_fields
normalize_fields_total end d h = (d, refl)
normalize_fields_total (field k value rest) d h =
    let (taken, later) = take_header-Encodable k value rest d h in
    let (d1, e) = taken in
    let (d2, f) = normalize_fields_total rest d1 later in
    elim (Bool-cases (leb max_asset_headers (length d))) [
      | inl full ↦ (d, ground (arith, full))
      | inr room ↦ (d2, ground (arith, room, e, f))
    ]

-- `normalize_asset_headers` never raises on an object whose texts can all be encoded. A value with
-- a surrogate, free of CR, LF and NUL and under a valid name that comes first, does make it raise.
pub normalize_asset_headers_raises :
    (fields : Fields)
    → (Encodable fields → (d : TextDict) × (normalize_asset_headers (obj fields) ≡ some d))
      × ((k v : Text)
          → is_valid_header_name (strip k) ≡ true
          → any is_splitting v ≡ false
          → byte_length v ≡ none
          → normalize_asset_headers (obj (field k (str v) fields)) ≡ none)
unfolding normalize_asset_headers normalize_fields take_header is_valid_header_value keep_header
    at_most
normalize_asset_headers_raises fields =
    (λ h. normalize_fields_total fields [] h, λ k v p q r. ground (arith, p, q, r))
