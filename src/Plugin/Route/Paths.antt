-- ===== src/Plugin/Route/Paths.antt =====
-- Which files the HTTP route of plugin/index.ts serves.
use Prim.Native.String.{◌++◌}
use text.Mathlib.Text.{starts_with}
use text.Mathlib.TextPositions.{starts_with-append}
use openclaw_rtc_plugin.Common.{String, str_eq, true, false, ◌≡◌, ap, ◌∙◌, Option, arith}
use openclaw_rtc_plugin.Plugin.Route.{
  FileSystem, file, clean_path, file_path, content_type, serve_path, serve_static,
}

-- What `join` does to a plain file name.
abbrev pub JoinsName : FileSystem → String → Type 0
JoinsName fs base = fs.join base "index.html" ≡ base ++ "/index.html"

index_inside :
    (fs : FileSystem) (base : String)
    → JoinsName fs base
    → starts_with (fs.join base "index.html") base ≡ true
index_inside fs base names =
    ap (λ p. starts_with p base) names ∙ starts_with-append base "/index.html"

-- A file that is served exists, and its path starts with the text of the page's directory.
pub serve_static-inside :
    (fs : FileSystem) (base : String) (url : Option String) (path type : String)
    → JoinsName fs base
    → serve_static fs base url ≡ file path type
    → (fs.exists_sync path ≡ true) × (starts_with path base ≡ true)
unfolding serve_static serve_path
serve_static-inside fs base url path type names served = ground (arith, index_inside fs base names)

pub serve_static-beside :
    (fs : FileSystem) (base : String) (url : Option String) (beside : String)
    → str_eq (clean_path url) "/" ≡ false
    → str_eq (clean_path url) "" ≡ false
    → fs.join base (clean_path url) ≡ base ++ beside
    → fs.exists_sync (base ++ beside) ≡ true
    → fs.is_file (base ++ beside) ≡ true
    → serve_static fs base url ≡ file (base ++ beside) (content_type (fs.extname (base ++ beside)))
unfolding serve_static serve_path file_path
serve_static-beside fs base url beside not_root not_empty joined there plain =
    ground (arith, starts_with-append base beside)
