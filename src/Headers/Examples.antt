-- ===== src/Headers/Examples.antt =====
-- Header values, and the theorems about them applied to these.
use mupitech_player.Prelude.{
  Option, Text, TextDict, [], any, byte_length, codes, dict_set, false, is_space, none, refl, some,
  strip, text_eq, true, ℕ, ◌∷◌, ◌≡◌, ◌≢◌, ◌≤◌,
}
use mupitech_player.Prelude.Int.{negsuc, pos, ℤ}
use mupitech_player.Headers.{
  clamp_duration, duration_s_max, is_splitting, is_tchar, is_valid_header_name,
  is_valid_header_value, normalize_asset_headers, parse_header_lines, to_fields, valid,
  validate_asset_headers,
}
use mupitech_player.Models.{Fields, Json, end, field, float, infinite, int, null, obj, str}
use mupitech_player.Headers.Agree.{
  Encodable, normalize_asset_headers_idem, normalize_asset_headers_raises,
  validate-normalize_asset_headers,
}
use mupitech_player.Headers.Clamps.{clamp_duration_bounds}
use mupitech_player.Headers.Safe.{IsSafeDict, normalize_asset_headers-IsSafeDict}

-- A padded name, a name with a space inside, and a value with a line feed.
abbrev sample : Fields
sample = field (codes " X-Token ") (str (codes "a:b")) (
    field (codes "bad name") (str (codes "x"))
      (field (codes "Split") (str (b'a' ∷ 10 ∷ [])) (field (codes "N") null end)))

abbrev token_only : TextDict
token_only = (codes "X-Token", codes "a:b") ∷ []

header_code : Unit {0}
unfolding normalize_asset_headers validate_asset_headers is_valid_header_name is_valid_header_value
    is_tchar is_space strip byte_length dict_set text_eq
header_code = tt

sample_normalized : normalize_asset_headers (obj sample) ≡ some token_only
unfolding header_code
sample_normalized = refl

lines_parsed : parse_header_lines (str (codes "X-Token: a:b\r\n\r\nnonsense\n")) ≡ some token_only
unfolding header_code parse_header_lines
lines_parsed = refl

normalize_asset_headers-IsSafeDict_example : IsSafeDict token_only
normalize_asset_headers-IsSafeDict_example =
    normalize_asset_headers-IsSafeDict (obj sample) token_only sample_normalized

normalize_asset_headers_idem_example :
    normalize_asset_headers (obj (to_fields token_only)) ≡ some token_only
normalize_asset_headers_idem_example =
    normalize_asset_headers_idem (obj sample) token_only sample_normalized

abbrev good_one : Json
good_one = obj (field (codes " X-Token ") (str (codes "a:b")) end)

good_one_accepted : validate_asset_headers good_one ≡ valid token_only
unfolding header_code
good_one_accepted = refl

validate-normalize_asset_headers_example : normalize_asset_headers good_one ≡ some token_only
validate-normalize_asset_headers_example =
    validate-normalize_asset_headers good_one token_only good_one_accepted

normalize_asset_headers_raises_example :
    (Encodable end → (d : TextDict) × (normalize_asset_headers (obj end) ≡ some d))
    × ((k v : Text)
        → is_valid_header_name (strip k) ≡ true
        → any is_splitting v ≡ false
        → byte_length v ≡ none
        → normalize_asset_headers (obj (field k (str v) end)) ≡ none)
normalize_asset_headers_raises_example = normalize_asset_headers_raises end

-- A lone surrogate in a stored value.
surrogate_raises : normalize_asset_headers (obj (field (codes "X") (str (0xD800 ∷ [])) end)) ≡ none
unfolding header_code
surrogate_raises = refl

no_text : Text → Option ℤ
no_text t = none

clamp_duration_bounds_example :
    (int (pos 9_999_999_999_999) ≢ float infinite
      → (n : ℕ) × (clamp_duration no_text (int (pos 9_999_999_999_999)) ≡ some n)
        × (n ≤ duration_s_max))
    × ((n : ℕ)
        → int (pos 9_999_999_999_999) ≡ int (pos n)
        → n ≤ duration_s_max
        → clamp_duration no_text (int (pos 9_999_999_999_999)) ≡ some n)
    × ((n : ℕ)
        → int (pos 9_999_999_999_999) ≡ int (negsuc n)
        → clamp_duration no_text (int (pos 9_999_999_999_999)) ≡ some 0)
    × (int (pos 9_999_999_999_999) ≡ float infinite
        → clamp_duration no_text (int (pos 9_999_999_999_999)) ≡ none)
clamp_duration_bounds_example = clamp_duration_bounds no_text (int (pos 9_999_999_999_999))
