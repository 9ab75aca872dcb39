-- ===== src/Audio/Sinks.antt =====
-- The sink that is chosen, whatever the order in which `pactl` prints the sinks.
use mathlib.Core.List.{Perm, Permᴰ}
use mathlib.Core.List.Permᴰ
use mathlib.Core.Logic.{∥∥₁_elim}
use mupitech_player.Prelude.{
  Bool, Bool-cases, List, Option, Text, [], ap, arith, if◌then◌else◌, inl, inr, none, refl, some,
  subst, sym, text_le, text_le-total, text_le_antisymm, text_le_trans, ◌∙◌, ◌∷◌, ◌≡◌,
}
use mupitech_player.Audio.{
  least, least_of, matches_any, matching, output_keywords, select_pulse_sink, sink_key,
}

module _ (key : Text → Text) (injective : (s t : Text) → key s ≡ key t → s ≡ t) where
  -- The better of two, the first one on a tie.
  better : Text → Text → Text
  better a b = if text_le (key a) (key b) then a else b

  better_assoc : (a b c : Text) → better (better a b) c ≡ better a (better b c)
  unfolding better
  better_assoc a b c = elim (Bool-cases (text_le (key a) (key b))) [
    | inl ab ↦ elim (Bool-cases (text_le (key b) (key c))) [
      | inl bc ↦ ground (arith, ab, bc, text_le_trans (key a) (key b) (key c) ab bc)
      | inr cb ↦ ground (arith, ab, cb)
    ]
    | inr ba ↦ elim (Bool-cases (text_le (key b) (key c))) [
      | inl bc ↦ ground (arith, ba, bc)
      | inr cb ↦ elim (Bool-cases (text_le (key a) (key c))) [
        | inl ac ↦
            absurd
              (cc (ba, text_le_trans (key a) (key c) (key b) ac (text_le-total (key b) (key c) cb)))
        | inr ca ↦ ground (arith, ba, cb, ca)
      ]
    ]
  ]

  better_comm : (a b : Text) → better a b ≡ better b a
  unfolding better
  better_comm a b = elim (Bool-cases (text_le (key a) (key b))) [
    | inl ab ↦ elim (Bool-cases (text_le (key b) (key a))) [
      | inl ba ↦
          let same : a ≡ b = injective a b (text_le_antisymm (key a) (key b) ab ba) in
          ground (arith, ab, ba, same)
      | inr worse ↦ ground (arith, ab, worse)
    ]
    | inr worse ↦ ground (arith, worse, text_le-total (key a) (key b) worse)
  ]

  add_one : Text → Option Text → Option Text
  unfolding better
  add_one s none = some s
  add_one s (some t) = some (better s t)

  least_first :
      (s t : Text) (rest : List Text)
      → some (least key (better s t) rest) ≡ add_one s (some (least key t rest))
  unfolding least add_one better
  least_first s t [] = refl
  least_first s t (r ∷ rest) =
      ap (λ b. some (least key b rest)) (better_assoc s t r) ∙ least_first s (better t r) rest

  least_of_cons :
      (s : Text) (rest : List Text) → least_of key (s ∷ rest) ≡ add_one s (least_of key rest)
  unfolding least_of least add_one better
  least_of_cons s [] = refl
  least_of_cons s (r ∷ rest) = least_first s r rest

  add_one_comm : (a b : Text) (o : Option Text) → add_one a (add_one b o) ≡ add_one b (add_one a o)
  unfolding add_one
  add_one_comm a b none = ap some (better_comm a b)
  add_one_comm a b (some t) =
      ap some
        (sym (better_assoc a b t) ∙ ap (λ x. better x t) (better_comm a b) ∙ better_assoc b a t)

  pair :
      (a b : Text) (l : List Text)
      → least_of key (a ∷ b ∷ l) ≡ add_one a (add_one b (least_of key l))
  pair a b l = least_of_cons a (b ∷ l) ∙ ap (add_one a) (least_of_cons b l)

  least_of-permᴰ : {xs ys : List Text} → Permᴰ xs ys → least_of key xs ≡ least_of key ys
  least_of-permᴰ Permᴰ.nil = refl
  least_of-permᴰ (Permᴰ.cons {a = a} {b = b} {l₁ = xs} {l₂ = ys} e d) =
      least_of_cons a xs
      ∙ ap (add_one a) (least_of-permᴰ d)
      ∙ ap (λ x. add_one x (least_of key ys)) e
      ∙ sym (least_of_cons b ys)
  least_of-permᴰ (Permᴰ.swap {a = a} {b = b} {a' = c} {b' = d} {l = l} e f) =
      pair a b l ∙ add_one_comm a b (least_of key l) ∙ cc (e, f) ∙ sym (pair c d l)
  least_of-permᴰ (Permᴰ.trans d d') = least_of-permᴰ d ∙ least_of-permᴰ d'

module _ (p : Text → Bool) where
  keep_one :
      (a : Text) (xs ys : List Text)
      → Permᴰ (matching p xs) (matching p ys)
      → Permᴰ (matching p (a ∷ xs)) (matching p (a ∷ ys))
  unfolding matching
  keep_one a xs ys d = elim (Bool-cases (p a)) [
    | inl taken ↦ rw taken (Permᴰ.cons refl d)
    | inr gone ↦ rw gone d
  ]

  keep_two : (a b : Text) (l : List Text) → Permᴰ (matching p (a ∷ b ∷ l)) (matching p (b ∷ a ∷ l))
  unfolding matching
  keep_two a b l = elim (Bool-cases (p a)) [
    | inl here ↦ elim (Bool-cases (p b)) [
      | inl there ↦ rw (here, there) (Permᴰ.swap refl refl)
      | inr gone ↦ rw (here, gone) (Permᴰ.refl (a ∷ matching p l))
    ]
    | inr gone ↦ rw gone (Permᴰ.refl (matching p (b ∷ l)))
  ]

  matching-permᴰ : {xs ys : List Text} → Permᴰ xs ys → Permᴰ (matching p xs) (matching p ys)
  unfolding matching
  matching-permᴰ Permᴰ.nil = Permᴰ.nil
  matching-permᴰ (Permᴰ.cons {a = a} {b = b} {l₁ = xs} {l₂ = ys} e d) =
      subst (λ x. Permᴰ (matching p (a ∷ xs)) (matching p (x ∷ ys))) e
        (keep_one a xs ys (matching-permᴰ d))
  matching-permᴰ (Permᴰ.swap {a = a} {b = b} {a' = c} {b' = d} {l = l} e f) =
      subst (λ x. Permᴰ (matching p (a ∷ b ∷ l)) (matching p (c ∷ x ∷ l))) e
        (subst (λ x. Permᴰ (matching p (a ∷ b ∷ l)) (matching p (x ∷ a ∷ l))) f (keep_two a b l))
  matching-permᴰ (Permᴰ.trans d d') = Permᴰ.trans (matching-permᴰ d) (matching-permᴰ d')

sink_key-injective :
    (lower : Text → Text) (s t : Text) → sink_key lower s ≡ sink_key lower t → s ≡ t
unfolding sink_key
sink_key-injective lower s t h = cc (h)

Choice-set : IsSet (Option Text)
Choice-set = hlevel

-- The order in which `pactl` prints the sinks does not change the sink that is selected.
pub select_pulse_sink-perm :
    (lower : Text → Text) (audio_output : Text) {sinks sinks' : List Text}
    → Perm sinks sinks'
    → select_pulse_sink lower sinks audio_output ≡ select_pulse_sink lower sinks' audio_output
unfolding select_pulse_sink
select_pulse_sink-perm lower audio_output {sinks} {sinks'} d =
    ∥∥₁_elim d
      (Choice-set (select_pulse_sink lower sinks audio_output)
        (select_pulse_sink lower sinks' audio_output))
      (λ e.
        least_of-permᴰ (sink_key lower) (sink_key-injective lower)
          (matching-permᴰ (λ sink. matches_any (output_keywords audio_output) (lower sink)) e))
