-- ===== src/Channel/Dispatch.antt =====
-- What a message of the publishers calls.
use mupitech_player.Prelude.{
  All, Bool-cases, Free, List, Option, Text, [], ap, arith, codes, inl, inr, none, partition-append,
  partition_absent, refl, some, text_eq, text_eq_apart, text_eq_refl, text_eq_sound,
  text_eq_unequal, ℕ, ◌++◌, ◌∙◌, ◌∷◌, ◌≡◌, ◌≢◌, ◌⊎◌,
}
use mupitech_player.Channel.{
  call_of, consume_one, get_command, handler_for, message_call, with_parameter,
}

-- The first handler that the table has for a name.
pub data Leads (name : Text) (handler : ℕ) : List (Text × ℕ) → Type 0 where
  here :
      {other : Text} {k : ℕ} {rest : List (Text × ℕ)}
      → other ≡ name
      → k ≡ handler
      → Leads name handler ((other, k) ∷ rest)
  behind :
      {other : Text} {k : ℕ} {rest : List (Text × ℕ)}
      → other ≢ name
      → Leads name handler rest
      → Leads name handler ((other, k) ∷ rest)

unfoldable pub Lacks : Text → List (Text × ℕ) → Type 0
Lacks name commands = All (λ entry. entry.0 ≢ name) commands

-- Who serves a command: its own handler, or else that of `unknown`, or else nobody.
pub data Serves (commands : List (Text × ℕ)) (command : Text) : Option ℕ → Type 0 where
  by_name : {handler : ℕ} → Leads command handler commands → Serves commands command (some handler)
  by_unknown :
      {handler : ℕ}
      → Lacks command commands
      → Leads (codes "unknown") handler commands
      → Serves commands command (some handler)
  by_nobody :
      Lacks command commands → Lacks (codes "unknown") commands → Serves commands command none

Leads_or_Lacks :
    (name : Text) (commands : List (Text × ℕ))
    → ((handler : ℕ) × Leads name handler commands) ⊎ Lacks name commands
unfolding Lacks
Leads_or_Lacks name [] = inr tt
Leads_or_Lacks name ((other, k) ∷ rest) = elim (Bool-cases (text_eq other name)) [
  | inl same ↦ inl (k, Leads.here (text_eq_sound other name same) refl)
  | inr apart ↦ elim (Leads_or_Lacks name rest) [
    | inl (h, leads) ↦ inl (h, Leads.behind (text_eq_unequal other name apart) leads)
    | inr lacks ↦ inr (text_eq_unequal other name apart, lacks)
  ]
]

-- Every command of every table is served by a handler or by nobody.
pub Serves-total :
    (commands : List (Text × ℕ)) (command : Text)
    → (found : Option ℕ) × Serves commands command found
Serves-total commands command = elim (Leads_or_Lacks command commands) [
  | inl (h, leads) ↦ (some h, Serves.by_name leads)
  | inr lacks ↦ elim (Leads_or_Lacks (codes "unknown") commands) [
    | inl (h, leads) ↦ (some h, Serves.by_unknown lacks leads)
    | inr none_left ↦ (none, Serves.by_nobody lacks none_left)
  ]
]

get_command-Leads :
    (name : Text) (handler : ℕ) (commands : List (Text × ℕ))
    → Leads name handler commands
    → get_command name commands ≡ some handler
unfolding get_command
get_command-Leads name handler [] h = elim h [ ]
get_command-Leads name handler ((other, k) ∷ rest) (Leads.here same e) =
    rw (same, text_eq_refl name) (ap some e)
get_command-Leads name handler ((other, k) ∷ rest) (Leads.behind apart h) =
    rw (text_eq_apart other name apart) (get_command-Leads name handler rest h)

get_command-Lacks :
    (name : Text) (commands : List (Text × ℕ))
    → Lacks name commands
    → get_command name commands ≡ none
unfolding get_command Lacks
get_command-Lacks name [] h = refl
get_command-Lacks name ((other, k) ∷ rest) (apart, h) =
    rw (text_eq_apart other name apart) (get_command-Lacks name rest h)

handler_for_found :
    (commands : List (Text × ℕ)) (command : Text) (handler : ℕ)
    → get_command command commands ≡ some handler
    → handler_for command commands ≡ some handler
unfolding handler_for
handler_for_found commands command handler h = ground (arith, h)

handler_for_unknown :
    (commands : List (Text × ℕ)) (command : Text)
    → get_command command commands ≡ none
    → handler_for command commands ≡ get_command (codes "unknown") commands
unfolding handler_for
handler_for_unknown commands command h = ground (arith, h)

handler_for-Serves :
    (commands : List (Text × ℕ)) (command : Text) (found : Option ℕ)
    → Serves commands command found
    → handler_for command commands ≡ found
handler_for-Serves commands command (some handler) (Serves.by_name h) =
    handler_for_found commands command handler (get_command-Leads command handler commands h)
handler_for-Serves commands command (some handler) (Serves.by_unknown lacks h) =
    handler_for_unknown commands command (get_command-Lacks command commands lacks)
    ∙ get_command-Leads (codes "unknown") handler commands h
handler_for-Serves commands command none (Serves.by_nobody lacks h) =
    handler_for_unknown commands command (get_command-Lacks command commands lacks)
    ∙ get_command-Lacks (codes "unknown") commands h

-- The call of the handler found, if there is one.
pub called_with : Option Text → Option ℕ → Option (ℕ × Option Text)
called_with argument none = none
called_with argument (some handler) = some (handler, argument)

with_parameter-some :
    (d : ℕ) (parameter : Text) (found : Option ℕ)
    → with_parameter (d ∷ parameter) found ≡ called_with (some (d ∷ parameter)) found
unfolding with_parameter called_with
with_parameter-some d parameter none = refl
with_parameter-some d parameter (some handler) = refl

with_parameter-none : (found : Option ℕ) → with_parameter [] found ≡ called_with none found
unfolding with_parameter called_with
with_parameter-none none = refl
with_parameter-none (some handler) = refl

not_ours :
    (commands : List (Text × ℕ)) (topic head message : Text)
    → head ≢ topic
    → message_call commands topic (head, message) ≡ none
unfolding message_call
not_ours commands topic head [] apart = refl
not_ours commands topic head (c ∷ message) apart = elim (Bool-cases (text_eq head topic)) [
  | inl same ↦ elim (apart (text_eq_sound head topic same)) [ ]
  | inr different ↦ rw different refl
]

-- The parts of a message for the topic, with a parameter and without `&`.
published :
    (commands : List (Text × ℕ)) (topic command parameter : Text) (c : ℕ)
    → Free 32 topic
    → Free 38 (c ∷ command)
    → (consume_one commands topic (some (topic ++ 32 ∷ c ∷ (command ++ 38 ∷ parameter)))
        ≡ with_parameter parameter (handler_for (c ∷ command) commands))
      × (consume_one commands topic (some (topic ++ 32 ∷ c ∷ command))
          ≡ with_parameter [] (handler_for (c ∷ command) commands))
unfolding consume_one message_call call_of
published commands topic command parameter c ft fc = (
  rw
      (
        partition-append 32 topic (c ∷ (command ++ 38 ∷ parameter)) ft,
        text_eq_refl topic,
        partition-append 38 (c ∷ command) parameter fc,
      )
      refl,
  rw
      (
        partition-append 32 topic (c ∷ command) ft,
        text_eq_refl topic,
        partition_absent 38 (c ∷ command) fc,
      )
      refl,
)

elsewhere_lem :
    (commands : List (Text × ℕ)) (topic elsewhere message : Text)
    → Free 32 elsewhere
    → elsewhere ≢ topic
    → consume_one commands topic (some (elsewhere ++ 32 ∷ message)) ≡ none
unfolding consume_one
elsewhere_lem commands topic elsewhere message fe apart =
    rw (partition-append 32 elsewhere message fe) (not_ours commands topic elsewhere message apart)

-- A message for the subscriber's topic, where the topic has no space and the command is not empty and
-- has no `&`, calls the first handler that the table has for the command, or, where it has none,
-- that of `unknown`, or nothing where it has neither. The message `topic command&parameter` calls it
-- with the parameter; `topic command&` and `topic command` call it with None. A message for
-- another topic without a space calls nothing.
pub consume_one_published :
    (commands : List (Text × ℕ)) (topic command parameter elsewhere message : Text) (c d : ℕ)
    (found : Option ℕ)
    → Free 32 topic
    → Free 38 (c ∷ command)
    → Serves commands (c ∷ command) found
    → Free 32 elsewhere
    → elsewhere ≢ topic
    → (consume_one commands topic (some (topic ++ 32 ∷ c ∷ (command ++ 38 ∷ d ∷ parameter)))
        ≡ called_with (some (d ∷ parameter)) found)
      × (consume_one commands topic (some (topic ++ 32 ∷ c ∷ (command ++ 38 ∷ [])))
          ≡ called_with none found)
      × (consume_one commands topic (some (topic ++ 32 ∷ c ∷ command)) ≡ called_with none found)
      × (consume_one commands topic (some (elsewhere ++ 32 ∷ message)) ≡ none)
consume_one_published commands topic command parameter elsewhere message c d found ft fc serves fe
      apart =
    let served = handler_for-Serves commands (c ∷ command) found serves in
    let (full, bare) = published commands topic command (d ∷ parameter) c ft fc in
    let (empty, again) = published commands topic command [] c ft fc in
    (
      full ∙ ap (with_parameter (d ∷ parameter)) served ∙ with_parameter-some d parameter found,
      empty ∙ ap (with_parameter []) served ∙ with_parameter-none found,
      bare ∙ ap (with_parameter []) served ∙ with_parameter-none found,
      elsewhere_lem commands topic elsewhere message fe apart,
    )
