-- ===== src/Csrf.antt =====
-- src/anthias_server/lib/csrf.py: which Origin headers the CSRF middleware accepts. `urlsplit` and
-- `str.lower` are the parameter `Urls`; what Django answers about a request is the record `Request`.
pub mod SameHost
pub mod Proxy
pub mod Examples
use mupitech_player.Prelude.{
  Bool, Option, Text, [], codes, contains, false, if◌then◌else◌, none, not, some, text_eq, true, ℕ,
  ◌&&◌, ◌++◌, ◌==◌, ◌||◌, ◌∷◌,
}

-- The attribute `port` of a split URL: a number, nothing, or a `ValueError`.
pub data Port : Type 0 where
  explicit : ℕ → Port
  absent invalid : Port

pub record UrlParts : Type 0 where
  pub scheme : Text
  pub hostname : Option Text
  pub port : Port

-- `urlsplit`, `none` where it raises `ValueError`, and `str.lower`.
pub record Urls : Type 0 where
  pub urlsplit : Text → Option UrlParts
  pub lower : Text → Text

-- A request: what the stock middleware says of its origin, the header `HTTP_ORIGIN`, `get_host()`,
-- `none` for `DisallowedHost`, and the scheme.
pub record Request : Type 0 where
  pub stock_verified : Bool
  pub http_origin : Option Text
  pub host : Option Text
  pub scheme : Option Text

abbrev pub http : Text
http = codes "http"

abbrev pub https : Text
https = codes "https"

-- `_DEFAULT_PORTS.get(scheme)`
pub default_port : Text → Option ℕ
default_port scheme =
    if text_eq scheme http then some 80 else if text_eq scheme https then some 443 else none

-- `'://' in value`
pub has_scheme : Text → Bool
unfolding contains
has_scheme value = contains (codes "://") value

-- `x or y` on strings.
pub or_else : Text → Text → Text
or_else [] y = y
or_else (c ∷ x) y = c ∷ x

-- The port of a split value under its scheme.
resolve_port : Port → Text → Option ℕ
unfolding default_port
resolve_port (explicit n) scheme = some n
resolve_port absent scheme = default_port scheme
resolve_port invalid scheme = none

with_port : Text → Option ℕ → Option (Text × ℕ)
with_port hostname none = none
with_port hostname (some port) = some (hostname, port)

-- The end of `_split_origin`, from `hostname = netloc.hostname`.
host_and_port : Urls → Text → Option Text → Port → Option (Text × ℕ)
unfolding resolve_port with_port
host_and_port urls scheme none port = none
host_and_port urls scheme (some []) port = none
host_and_port urls scheme (some (c ∷ hostname)) port =
    with_port (urls.lower (c ∷ hostname)) (resolve_port port scheme)

split_url : Urls → Text → Option UrlParts → Option (Text × ℕ)
unfolding or_else host_and_port
split_url urls default_scheme none = none
split_url urls default_scheme (some parts) =
    host_and_port urls (or_else (urls.lower parts.scheme) default_scheme) parts.hostname parts.port

split_host : Urls → Text → Option UrlParts → Option (Text × ℕ)
unfolding host_and_port
split_host urls default_scheme none = none
split_host urls default_scheme (some parts) =
    host_and_port urls default_scheme parts.hostname parts.port

-- `_split_origin`
pub split_origin : Urls → Text → Text → Option (Text × ℕ)
unfolding split_url split_host has_scheme
split_origin urls default_scheme value =
    if has_scheme value
    then split_url urls default_scheme (urls.urlsplit value)
    else split_host urls default_scheme (urls.urlsplit (codes "//" ++ value))

-- `{a, b} == set(_DEFAULT_PORTS.values())`
is_scheme_drift : ℕ → ℕ → Bool
is_scheme_drift a b =
    ((a == 80 || a == 443) && (b == 80 || b == 443))
    && ((a == 80 || b == 80) && (a == 443 || b == 443))

-- The comparison at the end of `_origin_verified`.
pub same_host : Option (Text × ℕ) → Option (Text × ℕ) → Bool
unfolding is_scheme_drift
same_host none target = false
same_host (some origin) none = false
same_host (some (origin_host, origin_port)) (some (target_host, target_port)) =
    if not (text_eq origin_host target_host)
    then false
    else if origin_port == target_port
    then true
    else is_scheme_drift origin_port target_port

-- `(request.scheme or 'http').lower()`
pub request_scheme : Urls → Option Text → Text
unfolding or_else
request_scheme urls none = urls.lower http
request_scheme urls (some scheme) = urls.lower (or_else scheme http)

compare_to_host : Urls → Text → Text → Option Text → Bool
unfolding split_origin same_host
compare_to_host urls scheme origin none = false
compare_to_host urls scheme origin (some host) =
    same_host (split_origin urls scheme origin) (split_origin urls scheme host)

check_origin : Urls → Text → Option Text → Option Text → Bool
unfolding compare_to_host
check_origin urls scheme none host = false
check_origin urls scheme (some []) host = false
check_origin urls scheme (some (c ∷ origin)) host = compare_to_host urls scheme (c ∷ origin) host

-- `SameHostOriginCsrfMiddleware._origin_verified`
pub origin_verified : Urls → Request → Bool
unfolding check_origin request_scheme
origin_verified urls r =
    if r.stock_verified
    then true
    else check_origin urls (request_scheme urls r.scheme) r.http_origin r.host
