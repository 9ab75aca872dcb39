-- ===== src/Csrf/SameHost.antt =====
-- What an accepted Origin header has in common with the host of the request.
use mupitech_player.Prelude.{
  Option, Text, [], ap, arith, false, none, refl, some, subst, sym, text_eq, text_eq_refl,
  text_eq_sound, true, ℕ, ◌↔◌, ◌∷◌, ◌≡◌, ◌⊎◌,
}
use mupitech_player.Csrf.{
  Request, Urls, check_origin, compare_to_host, is_scheme_drift, origin_verified, request_scheme,
  same_host, split_origin,
}

-- The pairs of ports that count as the same site: equal ports, or the two default ones.
unfoldable pub PortsAgree : ℕ → ℕ → Type 0
PortsAgree p q = (p ≡ q) ⊎ (((p ≡ 80) × (q ≡ 443)) ⊎ ((p ≡ 443) × (q ≡ 80)))

-- The two values name the same host, on ports that agree.
unfoldable pub SameSite : Option (Text × ℕ) → Option (Text × ℕ) → Type 0
SameSite a b =
    (h : Text) × (p : ℕ) × (q : ℕ) × (a ≡ some (h, p)) × (b ≡ some (h, q)) × PortsAgree p q

drift_ports : (p q : ℕ) → is_scheme_drift p q ≡ true → PortsAgree p q
unfolding is_scheme_drift PortsAgree
drift_ports p q h = ground (arith, h)

ports_pass : (h : Text) (p q : ℕ) → PortsAgree p q → same_host (some (h, p)) (some (h, q)) ≡ true
unfolding same_host is_scheme_drift PortsAgree
ports_pass h p q agree = ground (arith, agree, text_eq_refl h)

ports_compared :
    (s t : Text) (p q : ℕ) → same_host (some (s, p)) (some (t, q)) ≡ true → PortsAgree p q
unfolding same_host PortsAgree is_scheme_drift
ports_compared s t p q h = ground (arith, h)

same_host-SameSite : (a b : Option (Text × ℕ)) → same_host a b ≡ true → SameSite a b
unfolding same_host SameSite
same_host-SameSite none b h = cc
same_host-SameSite (some x) none h = cc
same_host-SameSite (some (s, p)) (some (t, q)) h =
    let hosts : text_eq s t ≡ true = ground (arith, h) in
    let same : s ≡ t = text_eq_sound s t hosts in
    (t, p, q, ap (λ x. some (x, p)) same, refl, ports_compared s t p q h)

SameSite-same_host : (a b : Option (Text × ℕ)) → SameSite a b → same_host a b ≡ true
unfolding SameSite
SameSite-same_host a b (h, p, q, e, f, agree) = rw (e, f) (ports_pass h p q agree)

check_origin_iff :
    (urls : Urls) (scheme : Text) (o host : Option Text)
    → (check_origin urls scheme o host ≡ true) ↔ (
        (c : ℕ) × (origin : Text) × (h : Text) × (o ≡ some (c ∷ origin))
        × (host ≡ some h)
        × SameSite (split_origin urls scheme (c ∷ origin)) (split_origin urls scheme h))
unfolding check_origin compare_to_host
check_origin_iff urls scheme none host = ((λ h. cc), λ (c, origin, h, e, f, site). cc)
check_origin_iff urls scheme (some []) host = ((λ h. cc), λ (c, origin, h, e, f, site). cc)
check_origin_iff urls scheme (some (c ∷ origin)) none = ((λ h. cc), λ (d, o, h, e, f, site). cc)
check_origin_iff urls scheme (some (c ∷ origin)) (some h) = (
  λ passed. (c, origin, h, refl, refl, same_host-SameSite _ _ passed),
  λ (d, o, k, e, f, site).
      let header : (c ∷ origin) ≡ (d ∷ o) = cc in
      let same : h ≡ k = cc in
      subst (λ x. check_origin urls scheme (some x) (some h) ≡ true) (sym header)
        (subst (λ x. check_origin urls scheme (some (d ∷ o)) (some x) ≡ true) (sym same)
          (SameSite-same_host _ _ site)),
)

-- A request whose origin Django's own check refuses is accepted if and only if it has an Origin
-- header that is not empty, an allowed host, and the two split into the same host name, in lower
-- case, on equal ports or on the ports 80 and 443 in either order. One that Django's check accepts
-- is accepted.
pub origin_verified_same_host :
    (urls : Urls) (r : Request)
    → (r.stock_verified ≡ true → origin_verified urls r ≡ true)
      × (r.stock_verified ≡ false
          → (origin_verified urls r ≡ true) ↔ (
              (c : ℕ) × (origin : Text) × (host : Text) × (r.http_origin ≡ some (c ∷ origin))
              × (r.host ≡ some host)
              × SameSite
                  (split_origin urls (request_scheme urls r.scheme) (c ∷ origin))
                  (split_origin urls (request_scheme urls r.scheme) host)))
unfolding origin_verified
origin_verified_same_host urls r = (
  λ e. rw e,
  λ e. rw e (check_origin_iff urls (request_scheme urls r.scheme) r.http_origin r.host),
)
