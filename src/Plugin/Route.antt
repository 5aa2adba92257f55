-- ===== src/Plugin/Route.antt =====
-- The HTTP route of plugin/index.ts, which serves the files of the web page. `join` and `extname` of
-- node:path and the state of the file system are parameters.
pub mod Paths
use Prim.Native.Char.{Char, code}
use Prim.Native.String.{◌++◌}
use text.Mathlib.Text.{starts_with}
use openclaw_rtc_plugin.Common.{
  ℕ, ◌==◌, String, str_eq, Bool, true, false, not, ◌&&◌, ◌||◌, Option, none, some, if◌then◌else◌,
}

pub record FileSystem : Type 0 where
  pub join : String → String → String
  pub extname : String → String
  pub exists_sync : String → Bool
  pub is_file : String → Bool

pub data HttpResponse : Type 0 where
  forbidden : HttpResponse
  not_found : HttpResponse
  file : String → String → HttpResponse

-- `s` behind a prefix, if it has it.
abbrev pub after_prefix : String → String → Option String
after_prefix String.[] s = some s
after_prefix (String.◌∷◌ c p) String.[] = none
after_prefix (String.◌∷◌ c p) (String.◌∷◌ d s) = if code c == code d then after_prefix p s else none

abbrev or_self : Option String → String → String
or_self none s = s
or_self (some t) s = t

abbrev slash_before : Option String → String → String
slash_before none url = url
slash_before (some rest) url = "/" ++ or_self (after_prefix "/" rest) rest

-- `url.replace(/^\/plugins\/webrtc\/?/, "/")`
unfoldable pub strip_prefix : String → String
strip_prefix url = slash_before (after_prefix "/plugins/webrtc" url) url

abbrev is_question : Char → Bool
is_question c = code c == 63

-- `s.split("?")[0]`
unfoldable pub before_query : String → String
before_query String.[] = String.[]
before_query (String.◌∷◌ c s) = if is_question c then String.[] else String.◌∷◌ c (before_query s)

abbrev pub url_of : Option String → String
url_of none = "/"
url_of (some url) = url

unfoldable pub clean_path : Option String → String
unfolding strip_prefix before_query
clean_path url = before_query (strip_prefix (url_of url))

unfoldable pub file_path : FileSystem → String → String → String
file_path fs base clean =
    if str_eq clean "/" || str_eq clean "" then fs.join base "index.html" else fs.join base clean

-- `MIME_TYPES[ext] ?? "application/octet-stream"`
unfoldable pub content_type : String → String
content_type ext =
    if str_eq ext ".html"
    then "text/html; charset=utf-8"
    else if str_eq ext ".css"
    then "text/css; charset=utf-8"
    else if str_eq ext ".js"
    then "text/javascript; charset=utf-8"
    else if str_eq ext ".ts"
    then "text/javascript; charset=utf-8"
    else if str_eq ext ".json"
    then "application/json"
    else if str_eq ext ".svg"
    then "image/svg+xml"
    else if str_eq ext ".png"
    then "image/png"
    else if str_eq ext ".ico"
    then "image/x-icon"
    else "application/octet-stream"

-- The answer for the file that a URL names.
unfoldable pub serve_path : FileSystem → String → String → HttpResponse
unfolding content_type
serve_path fs base path =
    if not (starts_with path base)
    then forbidden
    else if not (fs.exists_sync path) || not (fs.is_file path)
    then if fs.exists_sync (fs.join base "index.html")
      then file (fs.join base "index.html") "text/html; charset=utf-8"
      else not_found
    else file path (content_type (fs.extname path))

-- The handler, with the directory of the page as `base`.
unfoldable pub serve_static : FileSystem → String → Option String → HttpResponse
unfolding clean_path file_path serve_path
serve_static fs base url = serve_path fs base (file_path fs base (clean_path url))
