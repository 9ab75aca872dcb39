-- ===== src/Viewer/Webview.antt =====
-- The web view as the viewer drives it: `view_webpage`, `view_image` and what they call over D-Bus.
-- What the bus replies, whether the process is alive and how a launch goes may depend on all that
-- happened before, which `log` keeps with the newest first.
pub mod Steps
pub mod Staged
pub mod Kept
use mupitech_player.Prelude.{
  Bool, List, Option, Text, TextDict, [], any, codes, contains, false, if◌then◌else◌, is_empty,
  length, none, not, some, text_eq, true, ℕ, ◌&&◌, ◌++◌, ◌==◌, ◌||◌, ◌∷◌,
}
use mupitech_player.Viewer.Launch.{
  Loaded, Spawn, device_gone, gave_up, load_browser, loaded, no_binary,
}
use mupitech_player.Viewer.Qpa.{Angle}

pub data Call : Type 0 where
  set_request_headers : TextDict → Call
  set_reload_interval : ℕ → Call
  -- with or without `skipSslVerify`
  load_page load_image : Text → Option Bool → Call
  -- with the audio device
  play_video : Text → Text → Call
  stop_video : Call

-- A D-Bus call returns, or raises an exception with this text.
pub data Reply : Type 0 where
  returned : Reply
  raised : Text → Reply

pub data Event : Type 0 where
  sent : Call → Reply → Event
  terminated spawned : Event

pub record Bus : Type 0 where
  pub reply : List Event → Call → Reply
  pub is_alive : List Event → Bool
  pub spawn : List Event → ℕ → Spawn
  pub vanished : Text → Bool
  -- the text of the exception that ends a launch
  pub launch_text : List Event → Loaded → Text
  pub lower : Text → Text
  pub rotation : Angle
  pub wayland : Bool
  pub transformed : List Event → Bool
  pub prefer_dark_mode : Bool
  -- `urlparse(uri).query` and the URL with another query, `none` for a `ValueError`
  pub query : Text → Option Text
  pub with_query : Text → Text → Text
  -- the digits of the wall clock in milliseconds
  pub clock_text : List Event → Text

-- The variables of the module; `none` for `_last_applied_rotation` is its -1.
pub record Webview : Type 0 where
  pub has_browser : Bool
  pub supports_set_reload_interval : Bool
  pub supports_set_request_headers : Bool
  pub supports_ssl_arg : Bool
  pub current_browser_url : Option Text
  pub current_browser_headers : TextDict
  pub current_browser_skip_ssl : Bool
  pub last_applied_rotation : Option Angle
  pub last_applied_dark_mode : Bool
  pub log : List Event

-- A step returns, or raises an exception with this text; either way the variables are as it left them.
pub data Step : Type 0 where
  done : Webview → Step
  fails : Text → Webview → Step

infixl 5 ◌>>=◌
abbrev pub ◌>>=◌ : Step → (Webview → Step) → Step
done w >>= f = f w
fails message w >>= f = fails message w

abbrev pub inline_max_attempts : ℕ
inline_max_attempts = 3

abbrev pub inline_backoff_cap : ℕ
inline_backoff_cap = 2

abbrev gone_errors : List Text
gone_errors =
    codes "org.freedesktop.DBus.Error.NoReply"
    ∷ codes "org.freedesktop.DBus.Error.ServiceUnknown"
    ∷ codes "org.freedesktop.DBus.Error.NameHasNoOwner"
    ∷ []

-- `_is_webview_gone_error`
pub is_gone : Text → Bool
is_gone message = any (λ code. contains code message) gone_errors

-- `'UnknownMethod' in message or 'no such method' in message.lower()`
pub is_method_missing : Bus → Text → Bool
is_method_missing bus message =
    contains (codes "UnknownMethod") message
    || contains (codes "no such method") (bus.lower message)

-- What `load_browser` sets before its first attempt.
reset_webview : Bus → Webview → Webview
reset_webview bus w = record w {
  has_browser = false;
  supports_set_reload_interval = true;
  supports_set_request_headers = true;
  supports_ssl_arg = true;
  current_browser_url = none;
  current_browser_headers = [];
  current_browser_skip_ssl = false;
  last_applied_rotation =
      if bus.wayland && not (bus.transformed w.log) then none else some bus.rotation;
  last_applied_dark_mode = bus.prefer_dark_mode;
}

loaded_as : Bus → Webview → Loaded → Step
loaded_as bus w (loaded attempt) = done (record w { has_browser = true; log = spawned ∷ w.log })
loaded_as bus w no_binary = fails (bus.launch_text w.log no_binary) w
loaded_as bus w gave_up = fails (bus.launch_text w.log gave_up) w
loaded_as bus w (device_gone m) = fails (bus.launch_text w.log (device_gone m)) w

-- `load_browser` with the budget of a respawn.
pub respawn : Bus → Webview → Step
unfolding reset_webview loaded_as load_browser
respawn bus w =
    loaded_as bus (reset_webview bus w)
      (load_browser (bus.spawn w.log) bus.vanished inline_max_attempts inline_backoff_cap).0

-- A call over the bus, as it is logged.
abbrev pub after_call : Bus → Call → Webview → Webview
after_call bus call w = record w { log = sent call (bus.reply w.log call) ∷ w.log }

step_of : Reply → Webview → Step
step_of returned w = done w
step_of (raised message) w = fails message w

pub send_once : Bus → Call → Webview → Step
unfolding step_of
send_once bus call w = step_of (bus.reply w.log call) (after_call bus call w)

unfoldable pub reaped : Webview → Webview
reaped w = if w.has_browser then record w { log = terminated ∷ w.log } else w

retry_send : Bus → Call → Step → Step
unfolding send_once respawn reaped is_gone
retry_send bus call (done w) = done w
retry_send bus call (fails message w) =
    if is_gone message
    then (do w' ← respawn bus (reaped w); send_once bus call w')
    else fails message w

-- `_send_to_webview`
pub send_to_webview : Bus → Call → Webview → Step
unfolding retry_send
send_to_webview bus call w = retry_send bus call (send_once bus call w)

-- The fallback of `_load_via_webview`: without the argument, or the first error.
fallback : Text → Step → Step
fallback message (done w) = done (record w { supports_ssl_arg = false })
fallback message (fails other_message w) = fails message w

after_skip : Bus → Call → Step → Step
unfolding fallback send_to_webview
after_skip bus without (done w) = done w
after_skip bus without (fails message w) =
    if is_gone message then fails message w else fallback message (send_to_webview bus without w)

-- `_load_via_webview`
pub load_via_webview : Bus → Call → Call → Webview → Step
unfolding after_skip
load_via_webview bus with_skip without w =
    if w.supports_ssl_arg
    then after_skip bus without (send_to_webview bus with_skip w)
    else send_to_webview bus without w

-- Whether the headers are in effect, after `setRequestHeaders` came to this reply.
headers_reply : Bus → Reply → Webview → Bool × Webview
unfolding is_method_missing
headers_reply bus returned w = (true, w)
headers_reply bus (raised message) w =
    if is_method_missing bus message
    then (true, record w { supports_set_request_headers = false })
    else (false, w)

-- `_apply_request_headers`
pub apply_request_headers : Bus → TextDict → Webview → Bool × Webview
unfolding headers_reply
apply_request_headers bus headers w =
    if not w.supports_set_request_headers
    then (true, w)
    else headers_reply bus (bus.reply w.log (set_request_headers headers))
        (after_call bus (set_request_headers headers) w)

interval_reply : Bus → Reply → Webview → Webview
unfolding is_method_missing
interval_reply bus returned w = w
interval_reply bus (raised message) w =
    if is_method_missing bus message then record w { supports_set_reload_interval = false } else w

-- The end of `view_webpage`, which never raises.
apply_reload_interval : Bus → ℕ → Webview → Webview
unfolding interval_reply
apply_reload_interval bus interval w =
    if w.supports_set_reload_interval
    then interval_reply bus (bus.reply w.log (set_reload_interval interval))
        (after_call bus (set_reload_interval interval) w)
    else w

-- `d[k]`, and `==` on dictionaries, whatever the order of their keys.
dict_get : Text → TextDict → Option Text
dict_get k [] = none
dict_get k ((j, v) ∷ d) = if text_eq j k then some v else dict_get k d

same_value : Option Text → Text → Bool
same_value none v = false
same_value (some u) v = text_eq u v

contained : TextDict → TextDict → Bool
unfolding dict_get same_value
contained [] e = true
contained ((k, v) ∷ d) e = same_value (dict_get k e) v && contained d e

pub dict_eq : TextDict → TextDict → Bool
unfolding contained
dict_eq d e = length d == length e && contained d e

abbrev pub same_flag : Bool → Bool → Bool
same_flag true b = b
same_flag false b = not b

unfoldable pub is_url : Option Text → Text → Bool
is_url none uri = false
is_url (some u) uri = text_eq u uri

-- The web view shows this URL with these headers and this SSL policy.
pub is_shown : Text → TextDict → Bool → Webview → Bool
unfolding is_url dict_eq
is_shown uri headers skip w =
    is_url w.current_browser_url uri
    && (dict_eq w.current_browser_headers headers && same_flag w.current_browser_skip_ssl skip)

-- `_cache_busted_url`
pub cache_busted_url : Bus → List Event → Text → Option Text
cache_busted_url bus log uri = elim (bus.query uri) [
  | none ↦ none
  | some query ↦
      let token = codes "_anthias_nc=" ++ bus.clock_text log in
      some (bus.with_query uri (if is_empty query then token else query ++ 38 ∷ token))
]

-- `if browser is None or not browser.is_alive(): load_browser(...)`
unfoldable pub ensure_browser : Bus → Webview → Step
unfolding respawn
ensure_browser bus w = if w.has_browser && bus.is_alive w.log then done w else respawn bus w

load_if_applied : Bus → Text → TextDict → Bool → Bool × Webview → Step
unfolding load_via_webview
load_if_applied bus uri headers skip (false, w) = done w
load_if_applied bus uri headers skip (true, w) = do
  w' ← load_via_webview bus (load_page uri (some skip)) (load_page uri none) w
  done (record w' {
    current_browser_url = some uri;
    current_browser_headers = headers;
    current_browser_skip_ssl = skip;
  })

pub navigate : Bus → Text → TextDict → Bool → Bool × Webview → Step
unfolding load_if_applied is_shown
navigate bus uri headers skip (applied, w) =
    if is_shown uri headers skip w
    then done w
    else load_if_applied bus uri headers skip (applied, w)

show_page : Bus → Text → ℕ → TextDict → Bool → Webview → Step
unfolding ensure_browser apply_request_headers navigate apply_reload_interval
show_page bus uri interval headers skip w = do
  w' ← ensure_browser bus w
  w'' ← navigate bus uri headers skip (apply_request_headers bus headers w')
  done (apply_reload_interval bus interval w'')

-- `view_webpage`
pub view_webpage : Bus → Text → ℕ → Bool → TextDict → Bool → Webview → Step
unfolding show_page cache_busted_url
view_webpage bus uri interval nocache headers skip w =
    if nocache
    then elim (cache_busted_url bus w.log uri) [
      | none ↦ fails (codes "ValueError") w
      | some busted ↦ show_page bus busted interval headers skip w
    ]
    else show_page bus uri interval headers skip w

-- `view_image`
unfoldable pub view_image : Bus → Text → Bool → Webview → Step
unfolding ensure_browser load_via_webview is_url
view_image bus uri skip w = do
  w' ← ensure_browser bus w
  if is_url w'.current_browser_url uri && same_flag w'.current_browser_skip_ssl skip
      then done w'
      else (do
        w'' ← load_via_webview bus (load_image uri (some skip)) (load_image uri none) w'
        done (record w'' { current_browser_url = some uri; current_browser_skip_ssl = skip }))
