-- ===== src/Tests/Route.antt =====
-- Requests to the HTTP route of plugin/index.ts.
use Prim.Native.String.{◌++◌}
use text.Mathlib.Text.{starts_with}
use openclaw_rtc_plugin.Common.{String, str_eq, true, ◌≡◌, refl, Option, some, if◌then◌else◌}
use openclaw_rtc_plugin.Plugin.Route.{
  FileSystem, forbidden, file, clean_path, strip_prefix, before_query, file_path, content_type,
  serve_path, serve_static,
}
use openclaw_rtc_plugin.Plugin.Route.Paths.{serve_static-inside, serve_static-beside}

-- A page in /p/ui, and a directory /p/ui-old beside it.
abbrev fs : FileSystem
fs = record {
  join = λ dir name.
      if str_eq name "/../ui-old/key.json"
      then "/p/ui-old/key.json"
      else if str_eq name "/../key.json"
      then "/p/key.json"
      else if str_eq name "index.html"
      then "/p/ui/index.html"
      else dir ++ name;
  extname = λ path. if str_eq path "/p/ui-old/key.json" then ".json" else ".js";
  exists_sync = λ path. true;
  is_file = λ path. true;
}

abbrev script : Option String
script = some "/plugins/webrtc/app.js?v=2"

served : serve_static fs "/p/ui" script ≡ file "/p/ui/app.js" "text/javascript; charset=utf-8"
unfolding serve_static clean_path strip_prefix before_query file_path serve_path content_type
served = refl

outside : serve_static fs "/p/ui" (some "/plugins/webrtc/../key.json") ≡ forbidden
unfolding serve_static clean_path strip_prefix before_query file_path serve_path
outside = refl

serve_static-inside_example :
    (fs.exists_sync "/p/ui/app.js" ≡ true) × (starts_with "/p/ui/app.js" "/p/ui" ≡ true)
serve_static-inside_example =
    serve_static-inside fs "/p/ui" script "/p/ui/app.js" "text/javascript; charset=utf-8" refl
      served

abbrev secret : Option String
secret = some "/plugins/webrtc/../ui-old/key.json"

serve_static-beside_example :
    serve_static fs "/p/ui" secret ≡ file "/p/ui-old/key.json" (content_type ".json")
unfolding clean_path strip_prefix before_query
serve_static-beside_example =
    serve_static-beside fs "/p/ui" secret "-old/key.json" refl refl refl refl refl
