-- ===== src/Audio.antt =====
-- src/anthias_viewer/media_player.py: the audio device that a video plays on. What `pactl` prints,
-- the files of the kernel and the type of the device are parameters, and so are the cards that
-- `_list_pulse_cards` reads; `lower` is `str.lower`.
pub mod Sinks
pub mod Examples
use mupitech_player.Prelude.{
  Bool, List, Option, Text, [], any, codes, contains, false, if◌then◌else◌, is_empty, ltb, none,
  not, some, split_on, strip, text_eq, text_le, true, ℕ, ◌&&◌, ◌++◌, ◌+◌, ◌||◌, ◌∷◌,
}

-- An entry of /sys/class/drm: its name, and the text of its file `status`, `none` for an `OSError`.
pub record DrmEntry : Type 0 where
  pub name : Text
  pub status : Option Text

-- `s.endswith(end)`
ends_with : Text → Text → Bool
ends_with suffix [] = is_empty suffix
ends_with suffix (c ∷ s) = text_eq suffix (c ∷ s) || ends_with suffix s

abbrev hdmi_1 : Text
hdmi_1 = codes "HDMI-A-1"

abbrev hdmi_2 : Text
hdmi_2 = codes "HDMI-A-2"

-- The card of a port, by the table `hdmi_to_alsa`.
port_card : Text → Option Text
unfolding ends_with
port_card name =
    if ends_with hdmi_1 name
    then some (codes "vc4hdmi0")
    else if ends_with hdmi_2 name
    then some (codes "vc4hdmi1")
    else none

-- The loop over the entries, which pairs a port with its card.
ports_of : List DrmEntry → List (Text × DrmEntry)
unfolding port_card
ports_of [] = []
ports_of (e ∷ entries) = elim (port_card e.name) [
  | none ↦ ports_of entries
  | some card ↦ (card, e) ∷ ports_of entries
]

-- `ports.sort(key=...)`: stable, and the cards are in the order of the suffixes.
insert_port : Text × DrmEntry → List (Text × DrmEntry) → List (Text × DrmEntry)
insert_port (card, e) [] = (card, e) ∷ []
insert_port (card, e) ((card', e') ∷ ports) =
    if text_le card card'
    then (card, e) ∷ (card', e') ∷ ports
    else (card', e') ∷ insert_port (card, e) ports

sort_ports : List (Text × DrmEntry) → List (Text × DrmEntry)
unfolding insert_port
sort_ports [] = []
sort_ports (port ∷ ports) = insert_port port (sort_ports ports)

is_connected : Option Text → Bool
is_connected none = false
is_connected (some s) = text_eq (strip s) (codes "connected")

-- The card of the first connected port.
connected_card : List (Text × DrmEntry) → Option Text
unfolding is_connected
connected_card [] = none
connected_card ((card, e) ∷ ports) =
    if is_connected e.status then some card else connected_card ports

-- `_detect_hdmi_audio_device`; `none` where the directory cannot be read.
pub detect_hdmi_audio_device : Option (List DrmEntry) → Text
unfolding connected_card sort_ports ports_of
detect_hdmi_audio_device none = codes "sysdefault:CARD=vc4hdmi0"
detect_hdmi_audio_device (some entries) = elim (connected_card (sort_ports (ports_of entries))) [
  | none ↦ codes "sysdefault:CARD=vc4hdmi0"
  | some card ↦ codes "sysdefault:CARD=" ++ card
]

pub is_one_of_names : Text → List Text → Bool
is_one_of_names s texts = any (text_eq s) texts

-- `_pi_alsa_device`
pub pi_alsa_device : Option (List DrmEntry) → Text → Text → Option Text
unfolding detect_hdmi_audio_device is_one_of_names
pi_alsa_device drm device_type audio_output =
    if text_eq audio_output (codes "local")
    then (if text_eq device_type (codes "pi5")
        then some (detect_hdmi_audio_device drm)
        else if is_one_of_names device_type
            (codes "pi1" ∷ codes "pi2" ∷ codes "pi3" ∷ codes "pi4" ∷ [])
        then some (codes "plughw:CARD=Headphones")
        else none)
    else if is_one_of_names device_type (codes "pi4" ∷ codes "pi5" ∷ [])
    then some (detect_hdmi_audio_device drm)
    else if is_one_of_names device_type (codes "pi1" ∷ codes "pi2" ∷ codes "pi3" ∷ [])
    then some (codes "sysdefault:CARD=vc4hdmi")
    else none

abbrev analog_keywords : List Text
analog_keywords = codes "analog" ∷ codes "headphone" ∷ codes "speaker" ∷ codes "lineout" ∷ []

abbrev hdmi_keywords : List Text
hdmi_keywords = codes "hdmi" ∷ codes "displayport" ∷ codes "iec958" ∷ []

-- `_output_keywords`
unfoldable pub output_keywords : Text → List Text
output_keywords audio_output =
    if text_eq audio_output (codes "local") then analog_keywords else hdmi_keywords

-- The name of a sink in a line of `pactl list short sinks`.
sink_of : List Text → Option Text
sink_of (index ∷ (c ∷ name) ∷ fields) = some (c ∷ name)
sink_of _ = none

sinks_of : List Text → List Text
unfolding sink_of
sinks_of [] = []
sinks_of (line ∷ lines) = elim (sink_of (split_on 9 line)) [
  | none ↦ sinks_of lines
  | some sink ↦ sink ∷ sinks_of lines
]

abbrev pub sink_cache_ttl : ℕ
sink_cache_ttl = 5_000

-- `_sink_cache`, with the time of `monotonic()` in milliseconds.
pub Cache : Type 0
Cache = Option (ℕ × List Text)

-- What `pactl` prints, in lines, and `none` for an error of the call.
run_sinks : ℕ → Option (List Text) → Cache → List Text × Cache
unfolding sinks_of Cache
run_sinks now none cache = ([], cache)
run_sinks now (some lines) cache = (sinks_of lines, some (now, sinks_of lines))

-- `_list_pulse_sinks`
pub list_pulse_sinks : ℕ → Option (List Text) → Cache → List Text × Cache
unfolding run_sinks Cache
list_pulse_sinks now printed none = run_sinks now printed none
list_pulse_sinks now printed (some (t, sinks)) =
    if ltb now (t + sink_cache_ttl)
    then (sinks, some (t, sinks))
    else run_sinks now printed (some (t, sinks))

-- `any(keyword in name for keyword in keywords)`
unfoldable pub matches_any : List Text → Text → Bool
matches_any keywords name = any (λ keyword. contains keyword name) keywords

-- The key of `min`, as the list of its three components: numbers, then the name.
unfoldable pub sink_key : (lower : Text → Text) → Text → Text
sink_key lower sink =
    (if contains (codes "stereo") (lower sink) then 0 else 1)
    ∷ (if contains (codes "surround") (lower sink) then 1 else 0)
    ∷ sink

-- The loop of `min`: an earlier one wins a tie.
pub least : (Text → Text) → Text → List Text → Text
least key best [] = best
least key best (s ∷ rest) = least key (if text_le (key best) (key s) then best else s) rest

pub least_of : (Text → Text) → List Text → Option Text
unfolding least
least_of key [] = none
least_of key (s ∷ rest) = some (least key s rest)

pub matching : (Text → Bool) → List Text → List Text
matching p [] = []
matching p (s ∷ rest) = if p s then s ∷ matching p rest else matching p rest

-- `_select_pulse_sink`
pub select_pulse_sink : (lower : Text → Text) → List Text → Text → Option Text
unfolding matching least_of
select_pulse_sink lower sinks audio_output =
    least_of (sink_key lower)
      (matching (λ sink. matches_any (output_keywords audio_output) (lower sink)) sinks)

-- `_PulseCard`, with its profiles in the order of the dictionary.
pub record PulseCard : Type 0 where
  pub card_name : Text
  pub active_profile : Option Text
  pub output_profiles : List (Text × Bool)

available_profiles : List (Text × Bool) → List Text
available_profiles [] = []
available_profiles ((profile, available) ∷ rest) =
    if available then profile ∷ available_profiles rest else available_profiles rest

profile_key : Text → Text
profile_key profile = (if contains (codes "stereo") profile then 0 else 1) ∷ profile

is_profile : Option Text → Text → Bool
is_profile none target = false
is_profile (some profile) target = text_eq profile target

-- `_activate_output_profile`: whether a profile was switched; `switches` tells whether
-- `pactl set-card-profile` succeeds.
pub activate_output_profile : (switches : Text → Text → Bool) → Text → List PulseCard → Bool
unfolding available_profiles profile_key least_of matching is_profile
activate_output_profile switches audio_output [] = false
activate_output_profile switches audio_output (card ∷ cards) =
    let rest = activate_output_profile switches audio_output cards in
    elim (least_of profile_key (
      matching (matches_any (output_keywords audio_output))
        (available_profiles card.output_profiles))) [
          | none ↦ rest
          | some target ↦
              if is_profile card.active_profile target
              then false
              else switches card.card_name target
        ]

-- What `_resolve_pulse_sink` meets: the clock and the output of `pactl` at its two listings.
pub record Pulse : Type 0 where
  pub lower : Text → Text
  pub now : ℕ
  pub printed : Option (List Text)
  pub cards : List PulseCard
  pub switches : Text → Text → Bool
  pub now_later : ℕ
  pub printed_later : Option (List Text)

is_nil : List Text → Bool
is_nil [] = true
is_nil (s ∷ sinks) = false

or_default : Option Text → Text
or_default none = codes "default"
or_default (some sink) = sink

-- `_resolve_pulse_sink`
pub resolve_pulse_sink : Pulse → Text → Cache → Text × Cache
unfolding list_pulse_sinks select_pulse_sink activate_output_profile or_default is_nil Cache
resolve_pulse_sink p audio_output cache =
    let (sinks, cache') = list_pulse_sinks p.now p.printed cache in
    let (sinks', cache'') = list_pulse_sinks p.now_later p.printed_later none in
    elim (select_pulse_sink p.lower sinks audio_output) [
      | some sink ↦ (sink, cache')
      | none ↦
          if not (is_nil sinks) && activate_output_profile p.switches audio_output p.cards
          then (or_default (select_pulse_sink p.lower sinks' audio_output), cache'')
          else (codes "default", cache')
    ]

-- `get_alsa_audio_device`
pub get_alsa_audio_device :
    Pulse → Option (List DrmEntry) → (arm64 : Bool) → Text → Text → Cache → Text × Cache
unfolding pi_alsa_device resolve_pulse_sink
get_alsa_audio_device p drm arm64 device_type audio_output cache =
    let resolved = resolve_pulse_sink p audio_output cache in
    if arm64 then resolved else elim (pi_alsa_device drm device_type audio_output) [
      | some device ↦ (device, cache)
      | none ↦ resolved
    ]
