-- ===== src/Headers.antt =====
-- The custom request headers and the clamps of src/anthias_server/app/models.py: every value that
-- a database row may hold is made safe before it reaches the wire or a timer.
pub mod Names
pub mod Safe
pub mod Agree
pub mod Clamps
pub mod Examples
use mathlib.Core.Option
use mupitech_player.Prelude.{
  Bool, List, Option, Text, TextDict, [], any, between, byte_length, codes, dict_set, false,
  if◌then◌else◌, is_line_break, leb, length, ltb, none, not, some, strip, suc, true, ℕ, ◌&&◌, ◌*◌,
  ◌==◌, ◌||◌, ◌∷◌,
}
use mupitech_player.Prelude.Int.{clamp_to, pos, ℤ}
use mupitech_player.Models.{
  Fields, Float, Json, arr, bool, end, field, finite, float, infinite, int, nan, null, obj, str,
}

abbrev pub max_asset_headers : ℕ
max_asset_headers = 20

abbrev pub max_header_name_len : ℕ
max_header_name_len = 256

abbrev pub max_header_value_len : ℕ
max_header_value_len = 4096

-- The characters of `_HEADER_NAME_RE`.
pub is_tchar : ℕ → Bool
is_tchar c =
    between b'0' b'9' c
    || (between b'A' b'Z' c || (between b'a' b'z' c || any (λ d. c == d) (codes "!#$%&'*+-.^_`|~")))

-- `$` also matches before a last line feed.
rest_matches : Text → Bool
rest_matches [] = true
rest_matches (c ∷ []) = is_tchar c || c == 10
rest_matches (c ∷ d ∷ ds) = is_tchar c && rest_matches (d ∷ ds)

name_matches : Text → Bool
unfolding rest_matches
name_matches [] = false
name_matches (c ∷ cs) = is_tchar c && rest_matches cs

pub is_valid_header_name : Text → Bool
unfolding name_matches
is_valid_header_name name = leb (length name) max_header_name_len && name_matches name

-- `none` is the `UnicodeEncodeError` of a surrogate.
at_most : ℕ → Option ℕ → Option Bool
at_most bound none = none
at_most bound (some n) = some (leb n bound)

abbrev pub is_splitting : ℕ → Bool
is_splitting c = c == 13 || (c == 10 || c == 0)

pub is_valid_header_value : Text → Option Bool
unfolding at_most
is_valid_header_value value =
    if any is_splitting value then some false else at_most max_header_value_len (byte_length value)

-- One entry of the loop in `normalize_asset_headers`.
keep_header : Text → Text → Option Bool → TextDict → Option TextDict
keep_header name value none out = none
keep_header name value (some fine) out = some (if fine then dict_set name value out else out)

take_header : Text → Json → TextDict → Option TextDict
unfolding keep_header
take_header raw_name (str value) out =
    if not (is_valid_header_name (strip raw_name))
    then some out
    else keep_header (strip raw_name) value (is_valid_header_value value) out
take_header raw_name _ out = some out

-- The loop; the exception of an entry ends it.
normalize_fields : Fields → TextDict → Option TextDict
normalize_fields end out = some out
normalize_fields (field raw_name value rest) out = elim (leb max_asset_headers (length out)) [
  | true ↦ some out
  | false ↦ elim (take_header raw_name value out) [
    | none ↦ none
    | some out' ↦ normalize_fields rest out'
  ]
]

pub normalize_asset_headers : Json → Option TextDict
unfolding normalize_fields take_header
normalize_asset_headers (obj fields) = normalize_fields fields []
normalize_asset_headers _ = some []

-- What `validate_asset_headers` raises, or its result.
pub data Checked : Type 0 where
  valid : TextDict → Checked
  not_object too_many unencodable : Checked
  invalid_name invalid_value : Text → Checked

count_fields : Fields → ℕ
count_fields end = 0
count_fields (field k v rest) = suc (count_fields rest)

-- The value's test in the strict loop: `none` where the encoding raises.
check_value : Json → Option Bool
check_value (str value) = is_valid_header_value value
check_value _ = some false

abbrev text_of : Json → Text
text_of (str value) = value
text_of _ = []

validate_fields : Fields → TextDict → Checked
unfolding check_value
validate_fields end out = valid out
validate_fields (field raw_name value rest) out = elim (is_valid_header_name (strip raw_name)) [
  | false ↦ invalid_name raw_name
  | true ↦ elim (check_value value) [
    | none ↦ unencodable
    | some false ↦ invalid_value (strip raw_name)
    | some true ↦ validate_fields rest (dict_set (strip raw_name) (text_of value) out)
  ]
]

pub validate_asset_headers : Json → Checked
unfolding count_fields validate_fields
validate_asset_headers (obj fields) =
    if ltb max_asset_headers (count_fields fields) then too_many else validate_fields fields []
validate_asset_headers _ = not_object

-- `text.splitlines()`; an extra empty line, as between CR and LF, is skipped by the caller.
push_char : ℕ → List Text → List Text
push_char c [] = (c ∷ []) ∷ []
push_char c (line ∷ lines) = (c ∷ line) ∷ lines

split_lines : Text → List Text
unfolding push_char
split_lines [] = []
split_lines (c ∷ cs) =
    let rest = split_lines cs in if is_line_break c then [] ∷ rest else push_char c rest

-- `line.partition(':')`, without the colon; `none` where there is none.
partition_colon : Text → Option (Text × Text)
partition_colon [] = none
partition_colon (c ∷ cs) =
    if c == b':' then some ([], cs) else Option.map (λ (a, b). (c ∷ a, b)) (partition_colon cs)

add_line : Option (Text × Text) → TextDict → TextDict
add_line none headers = headers
add_line (some (name, raw_value)) headers = dict_set (strip name) (strip raw_value) headers

header_lines : List Text → TextDict → TextDict
unfolding add_line partition_colon
header_lines [] headers = headers
header_lines (line ∷ lines) headers =
    header_lines lines (add_line (partition_colon (strip line)) headers)

pub to_fields : TextDict → Fields
to_fields [] = end
to_fields ((k, v) ∷ d) = field k (str v) (to_fields d)

pub parse_header_lines : Json → Option TextDict
unfolding split_lines header_lines to_fields
parse_header_lines (str s) =
    normalize_asset_headers (obj (to_fields (header_lines (split_lines s) [])))
parse_header_lines _ = some []

-- `DURATION_S_MAX`, `REFRESH_INTERVAL_S_MAX`, in seconds
abbrev pub duration_s_max : ℕ
duration_s_max = 365 * 24 * 60 * 60

abbrev pub refresh_interval_s_max : ℕ
refresh_interval_s_max = 86400

-- `int(value)`: a number, one of the two errors that the clamps catch, or an `OverflowError`.
pub data IntResult : Type 0 where
  number : ℤ → IntResult
  refused overflow : IntResult

of_parsed : Option ℤ → IntResult
of_parsed none = refused
of_parsed (some z) = number z

int_of_float : Float → IntResult
int_of_float (finite z) = number z
int_of_float infinite = overflow
int_of_float nan = refused

-- Python's reading of a numeral in a string is the parameter `parse_int`.
unfoldable pub int_of : (Text → Option ℤ) → Json → IntResult
unfolding of_parsed int_of_float
int_of parse_int null = refused
int_of parse_int (bool b) = number (pos (if b then 1 else 0))
int_of parse_int (int z) = number z
int_of parse_int (float x) = int_of_float x
int_of parse_int (str s) = of_parsed (parse_int s)
int_of parse_int (arr items) = refused
int_of parse_int (obj fields) = refused

-- `max(0, min(number, bound))`, or 0 after a caught error; `none` is the exception that escapes.
clamp_result : ℕ → IntResult → Option ℕ
unfolding clamp_to
clamp_result bound (number z) = some (clamp_to bound z)
clamp_result bound refused = some 0
clamp_result bound overflow = none

pub clamp_duration : (Text → Option ℤ) → Json → Option ℕ
unfolding int_of clamp_result
clamp_duration parse_int value = clamp_result duration_s_max (int_of parse_int value)

pub clamp_refresh_interval : (Text → Option ℤ) → Json → Option ℕ
unfolding int_of clamp_result
clamp_refresh_interval parse_int value =
    clamp_result refresh_interval_s_max (int_of parse_int value)
