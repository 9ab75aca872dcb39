-- ===== src/Channel.antt =====
-- src/anthias_viewer/messaging.py: the thread `ViewerSubscriber`, which reads the viewer's commands
-- from Redis. What Redis does at each turn of the loop is a value of `Turn`; a handler is known by
-- the value that the table `commands` has for it.
pub mod Backoff
pub mod Dispatch
pub mod Examples
use mupitech_player.Prelude.{
  Bool, List, Option, Text, [], codes, false, if◌then◌else◌, min, none, not, partition, some,
  text_eq, true, ℕ, ◌*◌, ◌++◌, ◌∷◌,
}

abbrev pub initial_retry_delay : ℕ
initial_retry_delay = 1

abbrev pub max_retry_delay : ℕ
max_retry_delay = 30

-- `commands.get(command)`
pub get_command : Text → List (Text × ℕ) → Option ℕ
get_command command [] = none
get_command command ((name, handler) ∷ rest) =
    if text_eq name command then some handler else get_command command rest

-- `commands.get(command, commands.get('unknown'))`
pub handler_for : Text → List (Text × ℕ) → Option ℕ
unfolding get_command
handler_for command commands = elim (get_command command commands) [
  | some handler ↦ some handler
  | none ↦ get_command (codes "unknown") commands
]

-- `parameter or None`
or_none : Text → Option Text
or_none [] = none
or_none (c ∷ s) = some (c ∷ s)

pub with_parameter : Text → Option ℕ → Option (ℕ × Option Text)
unfolding or_none
with_parameter parameter none = none
with_parameter parameter (some handler) = some (handler, or_none parameter)

call_of : List (Text × ℕ) → Text × Text → Option (ℕ × Option Text)
unfolding with_parameter handler_for
call_of commands (command, parameter) = with_parameter parameter (handler_for command commands)

message_call : List (Text × ℕ) → Text → Text × Text → Option (ℕ × Option Text)
unfolding call_of partition
message_call commands topic (head, []) = none
message_call commands topic (head, c ∷ message) =
    if not (text_eq head topic) then none else call_of commands (partition 38 (c ∷ message))

-- The body of the loop of `_consume`: the handler that one message calls, with its argument. The
-- data of a message is a string, or something else.
pub consume_one : List (Text × ℕ) → Text → Option Text → Option (ℕ × Option Text)
unfolding message_call partition
consume_one commands topic none = none
consume_one commands topic (some data_text) = message_call commands topic (partition 32 data_text)

-- `_consume`, over the messages that arrive before it ends.
pub consume : List (Text × ℕ) → Text → List (Option Text) → List (ℕ × Option Text)
consume commands topic [] = []
consume commands topic (m ∷ messages) =
    let rest = consume commands topic messages in
    elim (consume_one commands topic m) [ none ↦ rest | some call ↦ call ∷ rest ]

-- What a turn of the loop meets: the connection fails before the readiness flag is set, or the
-- messages arrive, and then the stream ends or the connection is lost. `clears` says whether the
-- write of the flag after a failure gets through.
pub data Turn : Type 0 where
  refused : (clears : Bool) → Turn
  ended : List (Option Text) → Turn
  lost : List (Option Text) → (clears : Bool) → Turn

pub record Subscriber : Type 0 where
  pub delay : ℕ
  pub ready : Bool
  -- the handlers called, and the seconds slept, in order
  pub calls : List (ℕ × Option Text)
  pub sleeps : List ℕ

pub started : Subscriber
started = record { delay = initial_retry_delay; ready = false; calls = []; sleeps = [] }

-- `except redis.ConnectionError`
back_off : Bool → Subscriber → Subscriber
back_off clears s = record s {
  delay = min (s.delay * 2) max_retry_delay;
  ready = if clears then false else s.ready;
  sleeps = s.sleeps ++ s.delay ∷ [];
}

serve : List (Text × ℕ) → Text → List (Option Text) → Subscriber → Subscriber
unfolding consume
serve commands topic messages s = record s {
  delay = initial_retry_delay;
  ready = true;
  calls = s.calls ++ consume commands topic messages;
}

-- One turn of `while True` in `run`.
pub turn : List (Text × ℕ) → Text → Turn → Subscriber → Subscriber
unfolding back_off serve
turn commands topic (refused clears) s = back_off clears s
turn commands topic (ended messages) s = serve commands topic messages s
turn commands topic (lost messages clears) s = back_off clears (serve commands topic messages s)

-- `run`, over its turns so far.
pub run : List (Text × ℕ) → Text → List Turn → Subscriber → Subscriber
unfolding turn
run commands topic [] s = s
run commands topic (t ∷ turns) s = run commands topic turns (turn commands topic t s)
