-- ===== src/Viewer/Loop/Blank.antt =====
-- A blanked display: the first turn paints it black, and the turns after it leave the web view alone.
use mupitech_player.Prelude.{
  All, Bool, Bool-cases, List, Text, [], ap, arith, false, if◌then◌else◌, inl, inr, none, refl,
  some, subst, sym, text_eq_refl, true, ◌&&◌, ◌∙◌, ◌∷◌, ◌≡◌,
}
use mupitech_player.Viewer.Loop.{
  Env, Tick, Viewer, act, crashed, paint_black, paused_for, quit, stopped_delay, ticked, turn_once,
  with_web,
}
use mupitech_player.Viewer.Webview.{
  Bus, Step, Webview, done, ensure_browser, fails, is_url, load_image, load_via_webview, same_flag,
  view_image, ◌>>=◌,
}
use mupitech_player.Viewer.Loop.Control.{Input, continue, run_inputs, step_input, turned}

-- A step that returns leaves the variables so.
IfDone : (Webview → Type 0) → Step → Type 0
IfDone P (done w) = P w
IfDone P (fails message w) = Unit

IfDone-bind :
    (P : Webview → Type 0) (m : Step) (f : Webview → Step)
    → ((w : Webview) → IfDone P (f w))
    → IfDone P (m >>= f)
unfolding IfDone
IfDone-bind P (done w) f k = k w
IfDone-bind P (fails message w) f k = tt

Shows : Text → Webview → Type 0
Shows uri w = is_url w.current_browser_url uri ≡ true

both_branch :
    {A : Type 0} (P : A → Type 0) (a b : Bool) {x y : A}
    → (a ≡ true → P x)
    → P y
    → P (if a && b then x else y)
both_branch P true true h k = h refl
both_branch P true false h k = k
both_branch P false b h k = k

view_image-Shows :
    (bus : Bus) (uri : Text) (skip : Bool) (w : Webview)
    → IfDone (Shows uri) (view_image bus uri skip w)
unfolding view_image IfDone Shows is_url
view_image-Shows bus uri skip w = IfDone-bind (Shows uri) (ensure_browser bus w) _ (λ v.
    both_branch (IfDone (Shows uri)) (is_url v.current_browser_url uri)
      (same_flag v.current_browser_skip_ssl skip) (λ shown. shown)
      (IfDone-bind (Shows uri)
        (load_via_webview bus (load_image uri (some skip)) (load_image uri none) v) _
        (λ u. text_eq_refl uri)))

-- What a paused viewer keeps over its turns.
Paused : Text → Viewer → Type 0
Paused black v =
    (v.loop_is_stopped ≡ true)
    × (v.display_blanked ≡ true)
    × (is_url v.web.current_browser_url black ≡ true)

turn_once-Paused :
    (env : Env) (v : Viewer)
    → Paused env.black_screen v
    → turn_once env v ≡ ticked (act (paused_for stopped_delay) v)
unfolding turn_once paint_black Paused
turn_once-Paused env v (halted, blanked, black) = ground (arith, halted, blanked, black)

-- What holds if a tick returns.
IfTicked : (Viewer → Type 0) → Tick → Type 0
IfTicked P (ticked v) = P v
IfTicked P (crashed v) = Unit
IfTicked P (quit v) = Unit

with_web-Paused :
    (black : Text) (v : Viewer) (m : Step)
    → v.loop_is_stopped ≡ true
    → v.display_blanked ≡ true
    → IfDone (Shows black) m
    → IfTicked (Paused black) (with_web v m (λ v'. ticked (act (paused_for stopped_delay) v')))
unfolding with_web act IfDone IfTicked Paused Shows
with_web-Paused black v (done w) halted blanked h = (halted, blanked, h)
with_web-Paused black v (fails message w) halted blanked h = tt

turn_once_paints :
    (env : Env) (v : Viewer)
    → v.loop_is_stopped ≡ true
    → v.display_blanked ≡ true
    → is_url v.web.current_browser_url env.black_screen ≡ false
    → turn_once env v
      ≡ with_web v
          (view_image env.bus env.black_screen false v.web)
          (λ v'. ticked (act (paused_for stopped_delay) v'))
unfolding turn_once paint_black
turn_once_paints env v halted blanked new = ground (arith, halted, blanked, new)

turn_once_first :
    (env : Env) (v : Viewer)
    → v.loop_is_stopped ≡ true
    → v.display_blanked ≡ true
    → IfTicked (Paused env.black_screen) (turn_once env v)
unfolding IfTicked Paused act
turn_once_first env v halted blanked =
    elim (Bool-cases (is_url v.web.current_browser_url env.black_screen)) [
      | inl shown ↦
          subst (IfTicked (Paused env.black_screen))
            (sym (turn_once-Paused env v (halted, blanked, shown))) (halted, blanked, shown)
      | inr new ↦
          subst (IfTicked (Paused env.black_screen))
            (sym (turn_once_paints env v halted blanked new))
            (with_web-Paused env.black_screen v (view_image env.bus env.black_screen false v.web)
              halted blanked (view_image-Shows env.bus env.black_screen false v.web))
    ]

pub turns_of : List Env → List Input
turns_of [] = []
turns_of (env ∷ envs) = turned env ∷ turns_of envs

run_inputs-Paused :
    (black : Text) (envs : List Env) (v : Viewer)
    → All (λ env. env.black_screen ≡ black) envs
    → Paused black v
    → (u : Viewer) × (run_inputs (turns_of envs) v ≡ ticked u)
      × (u.web ≡ v.web)
      × (u.scheduler ≡ v.scheduler)
unfolding run_inputs step_input turns_of Paused act
run_inputs-Paused black [] v same paused = (v, refl, refl, refl)
run_inputs-Paused black (env ∷ envs) v (same, others) paused =
    let (u, p, web, sched) =
      run_inputs-Paused black envs (act (paused_for stopped_delay) v) others paused in
    let now : turn_once env v ≡ ticked (act (paused_for stopped_delay) v) =
      turn_once-Paused env v (subst (λ b. Paused b v) (sym same) paused) in
    (u, ap (λ t. continue t (run_inputs (turns_of envs))) now ∙ p, web, sched)

-- While the loop is stopped and the display blanked, once a first turn has returned, every later turn
-- returns and leaves the web view and the scheduler as the first turn left them: the black image is
-- asked for at most once.
pub blanked_turns :
    (env : Env) (envs : List Env) (v v1 : Viewer)
    → v.loop_is_stopped ≡ true
    → v.display_blanked ≡ true
    → turn_once env v ≡ ticked v1
    → All (λ e. e.black_screen ≡ env.black_screen) envs
    → (u : Viewer) × (run_inputs (turned env ∷ turns_of envs) v ≡ ticked u)
      × (u.web ≡ v1.web)
      × (u.scheduler ≡ v1.scheduler)
      × (is_url u.web.current_browser_url env.black_screen ≡ true)
unfolding run_inputs step_input Paused IfTicked
blanked_turns env envs v v1 halted blanked first same =
    let paused : Paused env.black_screen v1 =
      subst (IfTicked (Paused env.black_screen)) first (turn_once_first env v halted blanked) in
    let (u, p, web, sched) = run_inputs-Paused env.black_screen envs v1 same paused in
    (
      u,
      ap (λ t. continue t (run_inputs (turns_of envs))) first ∙ p,
      web,
      sched,
      ap (λ w. is_url w.current_browser_url env.black_screen) web ∙ paused.2,
    )
