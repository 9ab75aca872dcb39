-- ===== src/Viewer/Qpa/Rotation.antt =====
-- Setting the rotation again: the last angle stays, and the plugin's other options are kept.
use mupitech_player.Prelude.{
  All, Bool-cases, Free, Free-partition, Free-strip, List, Text, [], ap, append_nil, arith, codes,
  false, inl, inr, is_empty, is_space, join_with, partition, partition-append, partition_absent,
  refl, split_on, split_on-join_with, split_on_parts, starts_with, strip, strip_again, sym, ◌++◌,
  ◌∙◌, ◌∷◌, ◌≡◌,
}
use mupitech_player.Viewer.Qpa.{
  Angle, angle_text, colon, comma, half, kept_options, qpa_of, quarter, rotation_option,
  set_qpa_rotation, three_quarters, zero_deg,
}
use mupitech_player.Viewer.Watchdog.{written}

-- An option that `_set_qpa_rotation` keeps as it is.
Plain : Text → Type 0
Plain o =
    Free comma o
    × (strip o ≡ o)
    × (is_empty o ≡ false)
    × (starts_with (codes "rotation=") o ≡ false)

kept-Plain : (parts : List Text) → All (Free comma) parts → All Plain (kept_options parts)
unfolding kept_options Plain
kept-Plain [] h = tt
kept-Plain (o ∷ parts) (here, h) = elim (Bool-cases (is_empty (strip o))) [
  | inl blank ↦ rw blank (kept-Plain parts h)
  | inr full ↦ elim (Bool-cases (starts_with (codes "rotation=") (strip o))) [
    | inl turned ↦ rw (full, turned) (kept-Plain parts h)
    | inr straight ↦
        rw (full, straight)
          ((Free-strip comma o here, strip_again o, full, straight), kept-Plain parts h)
  ]
]

kept_options-Plain :
    (parts more : List Text)
    → All Plain parts
    → kept_options (parts ++ more) ≡ parts ++ kept_options more
unfolding kept_options Plain
kept_options-Plain [] more h = refl
kept_options-Plain (o ∷ parts) more ((free, same, full, straight), h) =
    rw (same, full, straight) (ap (λ x. o ∷ x) (kept_options-Plain parts more h))

nothing_kept : kept_options (split_on comma []) ≡ kept_options []
unfolding kept_options split_on strip
nothing_kept = refl

kept_rotation : (a : Angle) → kept_options (rotation_option a) ≡ []
unfolding kept_options rotation_option angle_text strip is_space starts_with
kept_rotation zero_deg = refl
kept_rotation quarter = refl
kept_rotation half = refl
kept_rotation three_quarters = refl

rotation-Free : (a : Angle) → All (Free comma) (rotation_option a)
unfolding rotation_option angle_text Free
rotation-Free zero_deg = tt
rotation-Free quarter = omega arith
rotation-Free half = omega arith
rotation-Free three_quarters = omega arith

All-Free :
    (options more : List Text)
    → All Plain options
    → All (Free comma) more
    → All (Free comma) (options ++ more)
unfolding Plain
All-Free [] more h k = k
All-Free (o ∷ options) more ((free, same, full, straight), h) k = (free, All-Free options more h k)

-- The options come back from the platform string; no option at all reads as one empty option.
read_options :
    (plugin : Text) (written options : List Text)
    → Free colon plugin
    → All (Free comma) written
    → kept_options written ≡ options
    → (let (p, rest) = partition colon (qpa_of plugin written) in
        (p ≡ plugin) × (kept_options (split_on comma rest) ≡ options))
unfolding qpa_of
read_options plugin [] options free h e =
    rw (partition_absent colon plugin free) (refl, nothing_kept ∙ e)
read_options plugin (o ∷ written) options free h e =
    rw (partition-append colon plugin (join_with comma (o ∷ written)) free)
      (refl, ap kept_options (split_on-join_with comma o written h) ∙ e)

set_options : Text → List Text → Angle → Text
unfolding qpa_of rotation_option
set_options plugin options b = qpa_of plugin (options ++ rotation_option b)

set_qpa_rotation_lem :
    (qpa : Text) (b : Angle)
    → set_qpa_rotation qpa b
      ≡ set_options
          (partition colon qpa).0
          (kept_options (split_on comma (partition colon qpa).1))
          b
unfolding set_qpa_rotation set_options
set_qpa_rotation_lem qpa b = refl

-- After any angle, setting an angle gives the platform string that setting it at once gives.
pub set_qpa_rotation_again :
    (qpa : Text) (a b : Angle)
    → set_qpa_rotation (set_qpa_rotation qpa a) b ≡ set_qpa_rotation qpa b
unfolding set_options
set_qpa_rotation_again qpa a b =
    let plugin = (partition colon qpa).0 in
    let options = kept_options (split_on comma (partition colon qpa).1) in
    let plain =
      kept-Plain (split_on comma (partition colon qpa).1)
        (split_on_parts comma (partition colon qpa).1) in
    let written = options ++ rotation_option a in
    let kept : kept_options written ≡ options =
      kept_options-Plain options (rotation_option a) plain
      ∙ ap (λ x. options ++ x) (kept_rotation a)
      ∙ append_nil options in
    let (p, o) =
      read_options plugin written options (Free-partition colon qpa)
        (All-Free options (rotation_option a) plain (rotation-Free a)) kept in
    set_qpa_rotation_lem (set_qpa_rotation qpa a) b
    ∙ ap
        (λ q.
          set_options (partition colon q).0 (kept_options (split_on comma (partition colon q).1)) b)
        (set_qpa_rotation_lem qpa a)
    ∙ ap
        (λ x.
          set_options x (kept_options (split_on comma (partition colon (qpa_of plugin written)).1))
            b)
        p
    ∙ ap (λ x. set_options plugin x b) o
    ∙ sym (set_qpa_rotation_lem qpa b)
