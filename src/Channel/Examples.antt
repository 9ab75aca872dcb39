-- ===== src/Channel/Examples.antt =====
-- A subscriber of two commands.
use mupitech_player.Prelude.{
  All, Bool, Free, List, Text, [], arith, codes, false, none, not, refl, some, text_eq,
  text_eq_unequal, true, ℕ, ◌++◌, ◌∷◌, ◌≡◌, ◌≢◌, ◌≤◌,
}
use mupitech_player.Channel.{
  consume_one, ended, handler_for, lost, max_retry_delay, run, started, turn, with_parameter,
}
use mupitech_player.Channel.Backoff.{any_clears, refusals, run-waits, wait_after, waits}
use mupitech_player.Channel.Dispatch.{Lacks, Leads, Serves, called_with, consume_one_published}

abbrev commands : List (Text × ℕ)
commands = (codes "next", 1) ∷ (codes "unknown", 9) ∷ []

viewer_has_no_space : Free 32 (codes "viewer")
unfolding Free
viewer_has_no_space =
    (omega arith, (omega arith, (omega arith, (omega arith, (omega arith, (omega arith, tt))))))

other_has_no_space : Free 32 (codes "other")
unfolding Free
other_has_no_space = (omega arith, (omega arith, (omega arith, (omega arith, (omega arith, tt)))))

stop_has_no_amp : Free 38 (codes "stop")
unfolding Free
stop_has_no_amp = (omega arith, (omega arith, (omega arith, (omega arith, tt))))

stop_is_unknown : Serves commands (codes "stop") (some 9)
unfolding Lacks text_eq
stop_is_unknown =
    Serves.by_unknown (text_eq_unequal _ _ refl, (text_eq_unequal _ _ refl, tt))
      (Leads.behind (text_eq_unequal _ _ refl) (Leads.here refl refl))

other_topic : codes "other" ≢ codes "viewer"
unfolding text_eq
other_topic = text_eq_unequal _ _ refl

unknown_called :
    consume_one commands (codes "viewer") (some (codes "viewer stop&x"))
    ≡ some (9, some (codes "x"))
unfolding consume_one handler_for text_eq with_parameter
unknown_called = refl

consume_one_published_example :
    (consume_one commands (codes "viewer") (some (codes "viewer stop&7"))
      ≡ called_with (some (codes "7")) (some 9))
    × (consume_one commands (codes "viewer") (some (codes "viewer stop&"))
        ≡ called_with none (some 9))
    × (consume_one commands (codes "viewer") (some (codes "viewer stop"))
        ≡ called_with none (some 9))
    × (consume_one commands (codes "viewer") (some (codes "other stop")) ≡ none)
consume_one_published_example =
    consume_one_published commands (codes "viewer") (codes "top") [] (codes "other") (codes "stop")
      115 55 (some 9) viewer_has_no_space stop_has_no_amp stop_is_unknown other_has_no_space
      other_topic

-- The first two writes of the flag fail, the third gets through.
abbrev seven_flags : List Bool
seven_flags = false ∷ false ∷ true ∷ false ∷ false ∷ true ∷ true ∷ []

run-waits_example :
    (let heard = some (codes "viewer next") ∷ [] in
      let served = turn commands (codes "viewer") (ended heard) started in
      let after = run commands (codes "viewer") (ended heard ∷ refusals seven_flags) started in
      let after_loss =
        run commands (codes "viewer") (lost heard false ∷ refusals seven_flags) started in
      (served.ready ≡ true)
      × (after.sleeps ≡ started.sleeps ++ waits 0 7)
      × (after.calls ≡ served.calls)
      × (after.ready ≡ not (any_clears seven_flags))
      × (after_loss.sleeps ≡ started.sleeps ++ waits 0 8)
      × (after_loss.calls ≡ served.calls)
      × (after_loss.ready ≡ not (any_clears (false ∷ seven_flags)))
      × All (λ t. (1 ≤ t) × (t ≤ max_retry_delay)) (waits 0 8))
run-waits_example =
    run-waits commands (codes "viewer") started (some (codes "viewer next") ∷ []) false seven_flags

seven_waits : waits 0 7 ≡ 1 ∷ 2 ∷ 4 ∷ 8 ∷ 16 ∷ 30 ∷ 30 ∷ []
unfolding waits wait_after
seven_waits = refl
