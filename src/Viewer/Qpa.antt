-- ===== src/Viewer/Qpa.antt =====
-- The display options of the viewer: Qt's platform string, `wlr-randr`, and whether the framebuffer
-- is gone.
pub mod Rotation
use mupitech_player.Prelude.{
  Bool, List, Option, Text, [], any, codes, contains, false, if◌then◌else◌, is_empty, is_space,
  join_with, none, not, partition, some, split_on, starts_with, strip, text_eq, true, zero, ℕ, ◌&&◌,
  ◌++◌, ◌==◌, ◌||◌, ◌∷◌,
}
use mupitech_player.Prelude.Int.{negsuc, pos, ℤ}
use mupitech_player.Headers.{int_of, number, overflow, refused}
use mupitech_player.Models.{Json}

-- `partition(':')` keeps the options of a Qt platform behind the plugin's name.
abbrev pub colon : ℕ
colon = 58

abbrev pub comma : ℕ
comma = 44

abbrev pub fb_option : Text
fb_option = codes "fb"

fb_of : List Text → Text
fb_of [] = codes "/dev/fb0"
fb_of (option ∷ rest) =
    let (key, value) = partition 61 (strip option) in
    if text_eq key fb_option && not (is_empty value) then value else fb_of rest

-- `_linuxfb_device`, for the value of QT_QPA_PLATFORM.
pub linuxfb_device : Text → Text
unfolding fb_of
linuxfb_device platform = fb_of (split_on comma (partition colon platform).1)

abbrev pub no_screen_signatures : List Text
no_screen_signatures =
    codes "Unable to figure out framebuffer device"
    ∷ codes "linuxfb: Failed to initialize screen"
    ∷ codes "no screens available"
    ∷ codes "Failed to open framebuffer"
    ∷ []

-- `_display_device_vanished`; without QT_QPA_PLATFORM the platform is linuxfb.
pub display_device_vanished : (Text → Bool) → Option Text → Text → Bool
unfolding linuxfb_device
display_device_vanished exists platform failure_text =
    let named = elim platform as (λ x. Text) [ none ↦ codes "linuxfb" | some p ↦ p ] in
    let set = elim platform as (λ x. Text) [ none ↦ [] | some p ↦ p ] in
    if starts_with (codes "wayland") set
    then false
    else if starts_with (codes "eglfs") named
    then false
    else if not (any (λ signature. contains signature failure_text) no_screen_signatures)
    then false
    else not (exists (linuxfb_device named))

-- The options that `_set_qpa_rotation` keeps.
pub kept_options : List Text → List Text
kept_options [] = []
kept_options (option ∷ rest) =
    let others = kept_options rest in
    if not (is_empty (strip option)) && not (starts_with (codes "rotation=") (strip option))
    then strip option ∷ others
    else others

-- The four angles of `SCREEN_ROTATION_CHOICES`, and how each is printed.
pub data Angle : Type 0 where
  zero_deg quarter half three_quarters : Angle

pub angle_text : Angle → Text
angle_text zero_deg = codes "0"
angle_text quarter = codes "90"
angle_text half = codes "180"
angle_text three_quarters = codes "270"

-- `if rotation: options.append(f'rotation={rotation}')`
pub rotation_option : Angle → List Text
unfolding angle_text
rotation_option zero_deg = []
rotation_option angle = (codes "rotation=" ++ angle_text angle) ∷ []

qpa_of : Text → List Text → Text
qpa_of plugin [] = plugin
qpa_of plugin (option ∷ rest) = plugin ++ colon ∷ join_with comma (option ∷ rest)

-- `_set_qpa_rotation`
pub set_qpa_rotation : Text → Angle → Text
unfolding kept_options rotation_option qpa_of
set_qpa_rotation qpa angle =
    let (plugin, options) = partition colon qpa in
    qpa_of plugin (kept_options (split_on comma options) ++ rotation_option angle)

-- `clamp_screen_rotation`, on what `int(value)` comes to; `none` is an exception that it lets through.
angle_of : ℕ → Angle
angle_of n =
    if n == 90
    then quarter
    else if n == 180
    then half
    else if n == 270
    then three_quarters
    else zero_deg

pub clamp_screen_rotation : (Text → Option ℤ) → Json → Option Angle
unfolding angle_of
clamp_screen_rotation parse_int value = elim (int_of parse_int value) [
  | number z ↦ some (elim z [ pos n ↦ angle_of n | negsuc n ↦ zero_deg ])
  | refused ↦ some zero_deg
  | overflow ↦ none
]

-- `_wlr_transform_value`
pub wlr_transform_value : Angle → Text
wlr_transform_value zero_deg = codes "normal"
wlr_transform_value quarter = codes "270"
wlr_transform_value half = codes "180"
wlr_transform_value three_quarters = codes "90"

-- The output of `wlr-randr` that is being read: its name, and its `Enabled` line.
pub record Block : Type 0 where
  pub name : Option Text
  pub enabled : Option Bool

-- `if current is not None and (include_disabled or current_enabled is not False)`
named_output : Bool → Block → List Text
named_output include_disabled b = elim b.name [
  | none ↦ []
  | some name ↦
      if include_disabled || elim b.enabled [ none ↦ true | some e ↦ e ] then name ∷ [] else []
]

first_word : Text → Text
first_word [] = []
first_word (c ∷ s) = if is_space c then [] else c ∷ first_word s

enabled_line : (Text → Text) → Text → Option Bool → Option Bool
enabled_line lower line before =
    if starts_with (codes "Enabled:") (strip line)
    then some (text_eq (lower (strip (partition colon (strip line)).1)) (codes "yes"))
    else before

pub output_names : (Text → Text) → Bool → Block → List Text → List Text
unfolding named_output first_word enabled_line
output_names lower include_disabled b [] = named_output include_disabled b
output_names lower include_disabled b ([] ∷ lines) = output_names lower include_disabled b lines
output_names lower include_disabled b ((c ∷ line) ∷ lines) = elim (is_space c) [
  | true ↦
      output_names lower include_disabled
        (record b { enabled = enabled_line lower (c ∷ line) b.enabled }) lines
  | false ↦
      named_output include_disabled b
      ++ output_names lower include_disabled
          (record { name = some (first_word (c ∷ line)); enabled = none }) lines
]

-- What comes of running `wlr-randr`: its exit code, and its output in lines.
pub data Run : Type 0 where
  unavailable : Run
  exited : (code : ℕ) → (stdout : List Text) → Run

-- `_wlr_output_names`
pub wlr_output_names : (Text → Text) → Bool → Run → List Text
unfolding output_names
wlr_output_names lower include_disabled (exited zero lines) =
    output_names lower include_disabled (record { name = none; enabled = none }) lines
wlr_output_names lower include_disabled _ = []

succeeded : Run → Bool
succeeded (exited zero lines) = true
succeeded _ = false

-- The loop over the outputs; `run` is what each `wlr-randr --output` comes to.
pub run_each : (List Text → Run) → List Text → List Text → Bool
unfolding succeeded
run_each run options [] = false
run_each run options (name ∷ names) =
    succeeded (run (codes "wlr-randr" ∷ codes "--output" ∷ name ∷ options))
    || run_each run options names

-- `_apply_wlr_transform`, and the power switch of blanking.
pub apply_wlr_transform : (List Text → Run) → (Text → Text) → Bool → Angle → Bool
unfolding wlr_output_names run_each wlr_transform_value
apply_wlr_transform run lower wayland angle =
    if not wayland
    then true
    else run_each run (codes "--transform" ∷ wlr_transform_value angle ∷ [])
        (wlr_output_names lower false (run (codes "wlr-randr" ∷ [])))

pub apply_wlr_power : (List Text → Run) → (Text → Text) → Bool → Bool → Bool
unfolding wlr_output_names run_each
apply_wlr_power run lower wayland on =
    if not wayland
    then false
    else run_each run ((if on then codes "--on" else codes "--off") ∷ [])
        (wlr_output_names lower true (run (codes "wlr-randr" ∷ [])))
