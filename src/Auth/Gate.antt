-- ===== src/Auth/Gate.antt =====
-- `authorized`: when the view runs, and what the login page is told.
use mupitech_player.Prelude.{
  List, Option-cases, Text, arith, codes, false, inl, inr, none, some, text_eq_sound, true, ◌≡◌,
}
use mupitech_player.Auth.{
  Argument, Request, authorized, first_request, gate, is_safe_login_next_source, is_set, login,
  login_redirect, run_view,
}

-- While authentication is on, the view runs only for a request whose user is authenticated; a
-- redirect to the login page answers only a request that is not, and carries a way back only if
-- that was a GET that did not come from htmx, and then its own path.
pub authorized_gate :
    (auth_backend : Text) (args : List Argument)
    → is_set auth_backend ≡ true
    → (authorized auth_backend args ≡ run_view
        → (r : Request) × (first_request args ≡ some r) × (r.authenticated ≡ true))
      × ((path : Text)
          → authorized auth_backend args ≡ login (some path)
          → (r : Request) × (first_request args ≡ some r)
            × (r.authenticated ≡ false)
            × (r.method ≡ codes "GET")
            × (r.hx_request ≡ none)
            × (path ≡ r.full_path))
      × (authorized auth_backend args ≡ login none
          → (r : Request) × (first_request args ≡ some r) × (r.authenticated ≡ false))
unfolding authorized gate login_redirect is_safe_login_next_source
authorized_gate b args on = elim (Option-cases (first_request args)) [
  | inl e ↦ (
    λ h. absurd (ground (arith, on, e, h)),
    λ path h. absurd (ground (arith, on, e, h)),
    λ h. absurd (ground (arith, on, e, h)),
  )
  | inr (r, e) ↦ (
    λ h. (r, e, ground (arith, on, e, h)),
    λ path h. (
      r,
      e,
      ground (arith, on, e, h),
      text_eq_sound r.method (codes "GET") (ground (arith, on, e, h)),
      ground (arith, on, e, h),
      ground (arith, on, e, h),
    ),
    λ h. (r, e, ground (arith, on, e, h)),
  )
]
