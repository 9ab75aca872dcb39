-- ===== src/Ingest.antt =====
-- src/anthias_server/lib/integrations/ingest.py: the URLs and the names of imported files, and the
-- download of an original. `urlparse`, `os.path.splitext`, `validate_url` and `str.lower` are
-- parameters, and so are the answers of the network and of the file system.
pub mod Download
pub mod Examples
use mupitech_player.Prelude.{
  Bool, List, Option, Text, TextDict, [], codes, false, if◌then◌else◌, is_empty, leb, ltb, none,
  not, partition, some, strip, suc, text_eq, true, zero, ℕ, ◌&&◌, ◌*◌, ◌+◌, ◌==◌, ◌^◌, ◌||◌, ◌∷◌,
}
use mupitech_player.Models.{Json, str}

abbrev pub max_download_bytes : ℕ
max_download_bytes = 5 * 1024 ^ 3

-- What `validate_url` and `urlparse(url).scheme` tell of a text.
pub record UrlRules : Type 0 where
  pub validate_url : Text → Bool
  pub scheme : Text → Text

is_http : UrlRules → Text → Bool
is_http rules url =
    rules.validate_url url
    && (text_eq (rules.scheme url) (codes "http") || text_eq (rules.scheme url) (codes "https"))

-- `first_http_url`, over values of JSON.
pub first_http_url : UrlRules → List Json → Option Text
unfolding is_http
first_http_url rules [] = none
first_http_url rules (str (c ∷ s) ∷ candidates) =
    let rest = first_http_url rules candidates in
    if is_http rules (c ∷ s) then some (c ∷ s) else rest
first_http_url rules (_ ∷ candidates) = first_http_url rules candidates

-- `[A-Za-z0-9]`
unfoldable pub is_alnum : ℕ → Bool
is_alnum c = (leb 48 c && leb c 57) || ((leb 65 c && leb c 90) || (leb 97 c && leb c 122))

-- `s.lstrip('.')`
lstrip_dots : Text → Text
lstrip_dots [] = []
lstrip_dots (c ∷ s) = if c == 46 then lstrip_dots s else c ∷ s

-- `re.sub(r'[^A-Za-z0-9]', '', s)`
pub only_alnum : Text → Text
unfolding is_alnum
only_alnum [] = []
only_alnum (c ∷ s) = if is_alnum c then c ∷ only_alnum s else only_alnum s

-- `s[:n]`
pub first_chars : ℕ → Text → Text
first_chars n [] = []
first_chars zero (c ∷ s) = []
first_chars (suc n) (c ∷ s) = c ∷ first_chars n s

pub with_dot : Text → Text
with_dot [] = []
with_dot (c ∷ s) = 46 ∷ c ∷ s

-- `_sanitise_ext`
unfoldable pub sanitise_ext : Text → Text
unfolding lstrip_dots only_alnum first_chars with_dot
sanitise_ext raw = with_dot (first_chars 16 (only_alnum (lstrip_dots (strip raw))))

or_empty : Option Text → Text
or_empty none = []
or_empty (some s) = s

-- `file_ext_from`; `splitext` is the second component of `os.path.splitext`.
pub file_ext_from : (splitext : Text → Text) → Option Text → Text → Text
unfolding sanitise_ext or_empty
file_ext_from splitext ext_hint url =
    let ext = sanitise_ext (or_empty ext_hint) in
    if not (is_empty ext) then ext else sanitise_ext (splitext (partition 63 url).0)

-- What `response.iter_content` yields, as the sizes of its chunks: it ends, or raises.
pub data Body : Type 0 where
  ended broken : Body
  chunk : ℕ → Body → Body

-- What the network and the file system answer to one download.
pub record Site : Type 0 where
  -- `session.get`: `none` for an exception, and `response.ok` with the body
  pub response : Option (Bool × Body)
  pub opens : Bool
  -- whether a write succeeds, after so many bytes
  pub writes : ℕ → Bool
  pub replaces : Bool
  -- whether the file system lets the part and the staged file be unlinked
  pub unlinks : Bool

-- The sizes of the two files, `none` where there is none.
pub record Files : Type 0 where
  pub part : Option ℕ
  pub staged : Option ℕ

-- How the loop over the chunks ends, with the bytes that the part then holds.
pub data Written : Type 0 where
  all_written failed_after : ℕ → Written

pub write_body : (writes : ℕ → Bool) → ℕ → Body → Written
write_body writes written ended = all_written written
write_body writes written broken = failed_after written
write_body writes written (chunk zero body) = write_body writes written body
write_body writes written (chunk (suc n) body) =
    let rest = write_body writes (written + suc n) body in
    if ltb max_download_bytes (written + suc n)
    then failed_after written
    else if writes written
    then rest
    else failed_after written

-- `_safe_unlink` of both files.
clean_up : Site → Files → Files
clean_up site files = if site.unlinks then record { part = none; staged = none } else files

-- `os.replace(part, staged)` once the whole body landed, and else the error path.
pub after_body : Site → Written → Bool × Files
unfolding clean_up
after_body site (failed_after n) = (false, clean_up site (record { part = some n; staged = none }))
after_body site (all_written zero) =
    (false, clean_up site (record { part = some 0; staged = none }))
after_body site (all_written (suc n)) =
    if site.replaces
    then (true, record { part = none; staged = some (suc n) })
    else (false, clean_up site (record { part = some (suc n); staged = none }))

pub after_get : Site → Option (Bool × Body) → Bool × Files
unfolding after_body write_body clean_up
after_get site none = (false, clean_up site (record { part = none; staged = none }))
after_get site (some (false, body)) = (false, clean_up site (record { part = none; staged = none }))
after_get site (some (true, body)) =
    if site.opens
    then after_body site (write_body site.writes 0 body)
    else (false, clean_up site (record { part = none; staged = none }))

-- `send_auth`: whether the host of the URL is the one that the headers are for.
pub sends_auth : (netloc lower : Text → Text) → Text → Option Text → Bool
sends_auth netloc lower url none = false
sends_auth netloc lower url (some host) =
    not (is_empty host) && text_eq (lower (netloc url)) (lower host)

-- `_download_to_assetdir`: the headers that it sends, whether it returns, and the files after it.
pub download_to_assetdir :
    (netloc lower : Text → Text) → Site → Text → TextDict → Option Text → TextDict × Bool × Files
unfolding sends_auth after_get
download_to_assetdir netloc lower site url headers auth_host =
    let (returns, files) = after_get site site.response in
    (if sends_auth netloc lower url auth_host then headers else [], returns, files)
