-- ===== src/Headers/Names.antt =====
-- Header names: after `strip` the pattern leaves only the characters of a token.
use mupitech_player.Prelude.{
  Bool, Text, [], all, ap, arith, both_true, false, if◌then◌else◌, is_empty, is_space, length,
  lstrip, not, refl, rstrip, space_10, strip, true, ℕ, ◌&&◌, ◌∙◌, ◌∷◌, ◌≡◌, ◌≤◌,
}
use mupitech_player.Headers.{
  is_tchar, is_valid_header_name, max_header_name_len, name_matches, rest_matches,
}

pub ends_plain : Text → Bool
ends_plain [] = true
ends_plain (c ∷ []) = not (is_space c)
ends_plain (c ∷ d ∷ ds) = ends_plain (d ∷ ds)

rstrip_ends : (s : Text) → ends_plain (rstrip s) ≡ true
unfolding rstrip ends_plain
rstrip_ends [] = refl
rstrip_ends (c ∷ cs) = go (rstrip cs) (rstrip_ends cs)
  where
    go :
        (r : Text)
        → ends_plain r ≡ true
        → ends_plain (if is_empty r && is_space c then [] else c ∷ r) ≡ true
    go [] h = ground arith
    go (d ∷ ds) h = h

pub strip_ends : (s : Text) → ends_plain (strip s) ≡ true
unfolding strip
strip_ends s = rstrip_ends (lstrip s)

tchar_not_space : (c : ℕ) → is_tchar c ≡ true → is_space c ≡ false
unfolding is_tchar is_space
tchar_not_space c h = ground (arith, h)

abbrev pub AllTchar : Text → Type 0
AllTchar s = all is_tchar s ≡ true

rest_tchars : (s : Text) → rest_matches s ≡ true → ends_plain s ≡ true → AllTchar s
unfolding rest_matches ends_plain
rest_tchars [] h e = refl
rest_tchars (c ∷ []) h e = ground (arith, h, e, space_10 c)
rest_tchars (c ∷ d ∷ ds) h e = ground (arith, h, rest_tchars (d ∷ ds))

-- A name that was stripped and passes the pattern is 1 to 256 characters of a token.
pub valid_name-AllTchar :
    (raw : Text)
    → is_valid_header_name (strip raw) ≡ true
    → AllTchar (strip raw) × (1 ≤ length (strip raw)) × (length (strip raw) ≤ max_header_name_len)
unfolding is_valid_header_name name_matches ends_plain rest_matches
valid_name-AllTchar raw h = go (strip raw) (strip_ends raw) h
  where
    go :
        (s : Text)
        → ends_plain s ≡ true
        → is_valid_header_name s ≡ true
        → AllTchar s × (1 ≤ length s) × (length s ≤ max_header_name_len)
    go [] e k = absurd (cc)
    go (c ∷ []) e k = (ground (arith, k), omega arith, omega arith)
    go (c ∷ d ∷ ds) e k =
        let tail : AllTchar (d ∷ ds) = rest_tchars (d ∷ ds) (ground (arith, k)) e in
        (ground (arith, k, tail), omega arith, ground (arith, k))

tchars_match : (s : Text) → AllTchar s → rest_matches s ≡ true
unfolding rest_matches
tchars_match [] h = refl
tchars_match (c ∷ []) h = ground (arith, h)
tchars_match (c ∷ d ∷ ds) h = ground (arith, h, tchars_match (d ∷ ds))

pub tchars_valid :
    (s : Text)
    → AllTchar s
    → 1 ≤ length s
    → length s ≤ max_header_name_len
    → is_valid_header_name s ≡ true
unfolding is_valid_header_name name_matches
tchars_valid [] h l u = absurd (omega arith)
tchars_valid (c ∷ cs) h l u = ground (arith, h, u, tchars_match cs)

rstrip_id : (s : Text) → AllTchar s → rstrip s ≡ s
unfolding rstrip
rstrip_id [] h = refl
rstrip_id (c ∷ cs) h =
    let (now, later) = both_true (is_tchar c) (all is_tchar cs) h in
    ground (arith, rstrip_id cs later, tchar_not_space c now)

lstrip_id : (s : Text) → AllTchar s → lstrip s ≡ s
unfolding lstrip
lstrip_id [] h = refl
lstrip_id (c ∷ cs) h =
    let (now, later) = both_true (is_tchar c) (all is_tchar cs) h in
    ground (arith, tchar_not_space c now)

-- Stripping such a name changes nothing.
pub strip_id : (s : Text) → AllTchar s → strip s ≡ s
unfolding strip
strip_id s h = ap rstrip (lstrip_id s h) ∙ rstrip_id s h
