-- ===== src/Csrf/Examples.antt =====
-- Requests to a player behind a proxy, with the two URLs that they split.
use mupitech_player.Prelude.{
  Option, Text, [], codes, false, if◌then◌else◌, inl, inr, refl, some, text_eq, true, ℕ, ◌↔◌, ◌∷◌,
  ◌≡◌,
}
use mupitech_player.Csrf.{
  Request, UrlParts, Urls, absent, explicit, has_scheme, http, https, origin_verified,
  request_scheme, same_host, split_origin,
}
use mupitech_player.Csrf.Proxy.{Portless, origin_verified_behind_proxy}
use mupitech_player.Csrf.SameHost.{SameSite, origin_verified_same_host}

abbrev secure_url : Text
secure_url = codes "https://pi"

abbrev plain_url : Text
plain_url = codes "//pi"

abbrev pi : Text
pi = codes "pi"

-- A `urlsplit` of the two values below, all in lower case.
urlsplit_pi : Text → Option UrlParts
urlsplit_pi value =
    if text_eq value secure_url
    then some (record { scheme = https; hostname = some pi; port = absent })
    else if text_eq value plain_url
    then some (record { scheme = []; hostname = some pi; port = absent })
    else some (record { scheme = http; hostname = some (codes "evil"); port = explicit 8080 })

abbrev pi_urls : Urls
pi_urls = record { urlsplit = urlsplit_pi; lower = λ s. s }

abbrev proxied : Request
proxied = record {
  stock_verified = false;
  http_origin = some secure_url;
  host = some pi;
  scheme = some http;
}

abbrev foreign : Request
foreign = record {
  stock_verified = false;
  http_origin = some (codes "http://evil:8080");
  host = some pi;
  scheme = some http;
}

foreign_refused : origin_verified pi_urls foreign ≡ false
unfolding origin_verified urlsplit_pi text_eq same_host
foreign_refused = refl

pi_split : split_origin pi_urls http pi ≡ some (pi, 80)
unfolding split_origin urlsplit_pi text_eq
pi_split = refl

secure_split : split_origin pi_urls http secure_url ≡ some (pi, 443)
unfolding split_origin urlsplit_pi text_eq
secure_split = refl

origin_verified_same_host_example :
    (proxied.stock_verified ≡ true → origin_verified pi_urls proxied ≡ true)
    × (proxied.stock_verified ≡ false
        → (origin_verified pi_urls proxied ≡ true) ↔ (
            (c : ℕ) × (origin : Text) × (host : Text) × (some secure_url ≡ some (c ∷ origin))
            × (some pi ≡ some host)
            × SameSite
                (split_origin pi_urls (request_scheme pi_urls (some http)) (c ∷ origin))
                (split_origin pi_urls (request_scheme pi_urls (some http)) host)))
origin_verified_same_host_example = origin_verified_same_host pi_urls proxied

origin_verified_behind_proxy_example : origin_verified pi_urls proxied ≡ true
unfolding has_scheme Portless urlsplit_pi text_eq request_scheme
origin_verified_behind_proxy_example =
    origin_verified_behind_proxy pi_urls proxied (codes "ttps://pi") pi https [] (codes "i")
      (codes "i") 104 112 112 refl refl (inr refl) (inl refl) refl refl refl refl refl refl
