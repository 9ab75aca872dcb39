-- ===== src/Audio/Examples.antt =====
-- The sinks of a laptop with two HDMI ports, and the choice among them.
use mathlib.Core.List.Perm
use mupitech_player.Prelude.{Text, [], codes, contains, refl, some, text_eq, text_le, ◌∷◌, ◌≡◌}
use mupitech_player.Audio.{matches_any, output_keywords, select_pulse_sink, sink_key}
use mupitech_player.Audio.Sinks.{select_pulse_sink-perm}

abbrev hdmi_sink : Text
hdmi_sink = codes "alsa_output.hdmi-stereo"

abbrev surround_sink : Text
surround_sink = codes "alsa_output.hdmi-surround"

-- The stereo port is selected, although the other one is printed first.
picks_stereo :
    select_pulse_sink (λ s. s) (surround_sink ∷ hdmi_sink ∷ []) (codes "hdmi") ≡ some hdmi_sink
unfolding select_pulse_sink matches_any output_keywords text_eq contains text_le sink_key
picks_stereo = refl

select_pulse_sink-perm_example :
    select_pulse_sink (λ s. s) (surround_sink ∷ hdmi_sink ∷ []) (codes "hdmi")
    ≡ select_pulse_sink (λ s. s) (hdmi_sink ∷ surround_sink ∷ []) (codes "hdmi")
select_pulse_sink-perm_example =
    select_pulse_sink-perm (λ s. s) (codes "hdmi") (Perm.swap hdmi_sink surround_sink [])
