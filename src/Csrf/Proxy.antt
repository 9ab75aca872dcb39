-- ===== src/Csrf/Proxy.antt =====
-- The proxies that the middleware is written for: HTTPS outside, plain HTTP inside.
use mupitech_player.Prelude.{
  Bool-cases, Option, Text, codes, false, inl, inr, refl, some, subst, sym, text_eq, true, ℕ, ◌++◌,
  ◌∷◌, ◌≡◌, ◌⊎◌,
}
use mupitech_player.Csrf.{
  Request, UrlParts, Urls, absent, default_port, has_scheme, host_and_port, http, https, or_else,
  origin_verified, request_scheme, resolve_port, split_host, split_origin, split_url, with_port,
}
use mupitech_player.Csrf.SameHost.{PortsAgree, SameSite, origin_verified_same_host}

-- `urlsplit` gives the scheme, a host name that is not empty, and no port.
unfoldable pub Portless : Option UrlParts → Text → ℕ → Text → Type 0
Portless split s c name =
    split ≡ some (record { scheme = s; hostname = some (c ∷ name); port = absent })

scheme_drift :
    (s t : Text)
    → (s ≡ http) ⊎ (s ≡ https)
    → (t ≡ http) ⊎ (t ≡ https)
    → (p : ℕ) × (q : ℕ) × (default_port s ≡ some p) × (default_port t ≡ some q) × PortsAgree p q
unfolding default_port PortsAgree text_eq
scheme_drift s t (inl e) (inl f) = rw (e, f) (80, 80, refl, refl, inl refl)
scheme_drift s t (inl e) (inr f) = rw (e, f) (80, 443, refl, refl, inr (inl (refl, refl)))
scheme_drift s t (inr e) (inl f) = rw (e, f) (443, 80, refl, refl, inr (inr (refl, refl)))
scheme_drift s t (inr e) (inr f) = rw (e, f) (443, 443, refl, refl, inl refl)

or_else_named :
    (s default lowered : Text)
    → (s ≡ http) ⊎ (s ≡ https)
    → lowered ≡ s
    → or_else lowered default ≡ s
unfolding or_else
or_else_named s default lowered (inl e) f = rw (f, e) refl
or_else_named s default lowered (inr e) f = rw (f, e) refl

split_origin_url :
    (urls : Urls) (default s : Text) (value : Text) (c : ℕ) (name : Text) (p : ℕ)
    → has_scheme value ≡ true
    → Portless (urls.urlsplit value) s c name
    → or_else (urls.lower s) default ≡ s
    → default_port s ≡ some p
    → split_origin urls default value ≡ some (urls.lower (c ∷ name), p)
unfolding split_origin split_url host_and_port resolve_port with_port Portless
split_origin_url urls default s value c name p schemed split lowered port =
    rw (schemed, split, lowered, port) refl

split_origin_bare :
    (urls : Urls) (default s : Text) (value : Text) (c : ℕ) (name : Text) (p : ℕ)
    → has_scheme value ≡ false
    → Portless (urls.urlsplit (codes "//" ++ value)) s c name
    → default_port default ≡ some p
    → split_origin urls default value ≡ some (urls.lower (c ∷ name), p)
unfolding split_origin split_host host_and_port resolve_port with_port Portless
split_origin_bare urls default s value c name p bare split port = rw (bare, split, port) refl

-- A request is accepted whichever of http and https it came by, where its Origin header has a scheme
-- that `urlsplit` reads as http or https and `str.lower` keeps, its host header has no scheme,
-- neither names a port, and the two have the same host name after `str.lower`.
pub origin_verified_behind_proxy :
    (urls : Urls) (r : Request) (o host s u name_o name_h : Text) (a c d : ℕ)
    → r.http_origin ≡ some (a ∷ o)
    → r.host ≡ some host
    → (s ≡ http) ⊎ (s ≡ https)
    → (request_scheme urls r.scheme ≡ http) ⊎ (request_scheme urls r.scheme ≡ https)
    → urls.lower s ≡ s
    → has_scheme (a ∷ o) ≡ true
    → has_scheme host ≡ false
    → Portless (urls.urlsplit (a ∷ o)) s c name_o
    → Portless (urls.urlsplit (codes "//" ++ host)) u d name_h
    → urls.lower (c ∷ name_o) ≡ urls.lower (d ∷ name_h)
    → origin_verified urls r ≡ true
unfolding SameSite
origin_verified_behind_proxy urls r o host s u name_o name_h a c d ho hh so sr low sch bare po ph
      same =
    elim (Bool-cases r.stock_verified) [
      | inl sure ↦ (origin_verified_same_host urls r).0 sure
      | inr unsure ↦
          let (p, q, dp, dq, agree) = scheme_drift s (request_scheme urls r.scheme) so sr in
          ((origin_verified_same_host urls r).1 unsure).1 (
            a,
            o,
            host,
            ho,
            hh,
            (
              urls.lower (c ∷ name_o),
              p,
              q,
              split_origin_url urls (request_scheme urls r.scheme) s (a ∷ o) c name_o p sch po
                  (or_else_named s _ _ so low) dp,
              subst (λ x. split_origin urls (request_scheme urls r.scheme) host ≡ some (x, q))
                  (sym same)
                  (split_origin_bare urls (request_scheme urls r.scheme) u host d name_h q bare ph
                    dq),
              agree,
            ),
          )
    ]
