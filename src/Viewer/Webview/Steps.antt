-- ===== src/Viewer/Webview/Steps.antt =====
-- How a fact about the variables of the module passes through the steps of the web view.
use mupitech_player.Prelude.{Bool, false, if◌then◌else◌, true, ◌≡◌}
use mupitech_player.Viewer.Webview.{Step, Webview, done, fails, ◌>>=◌}

-- A step leaves the variables so, whether it returns or raises.
unfoldable pub Leaves : (Webview → Type 0) → Step → Type 0
Leaves P (done w) = P w
Leaves P (fails message w) = P w

pub Leaves-bind :
    (P : Webview → Type 0) (m : Step) (f : Webview → Step)
    → Leaves P m
    → ((w : Webview) → P w → Leaves P (f w))
    → Leaves P (m >>= f)
unfolding Leaves
Leaves-bind P (done w) f h k = k w h
Leaves-bind P (fails message w) f h k = h

pub second_branch :
    {A : Type 0} (P : A → Type 0) (test : Bool) (x : A) {y : A}
    → test ≡ false
    → P y
    → P (if test then x else y)
second_branch P true x e k = cc
second_branch P false x e k = k
