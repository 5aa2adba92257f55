-- ===== src/Node/Print.antt =====
-- What the command line of plugin/node/index.ts means: each option sets its field, and the last one
-- of a kind counts.
use openclaw_rtc_plugin.Common.{
  String, str_eq, Bool, true, false, ◌≡◌, refl, ap, ◌∙◌, Option, none, some, List, [], ◌∷◌, ◌++◌,
  All, arith, if◌then◌else◌,
}
use openclaw_rtc_plugin.Common.Texts.{is_empty}
use openclaw_rtc_plugin.Node.Args.{
  Runtime, Args, defaults, seconds, with_value, alone, next, scan, or_else, or_token, parse_args,
}

-- An option of the command line, or another word.
pub data Flag : Type 0 where
  gateway : String → Flag
  token : String → Flag
  node_id : String → Flag
  loopback : String → Flag
  no_loopback : Flag
  word : String → Flag

abbrev pub is_flag : String → Bool
is_flag s =
    if str_eq s "--gateway"
    then true
    else if str_eq s "--token"
    then true
    else if str_eq s "--node-id"
    then true
    else if str_eq s "--loopback"
    then true
    else str_eq s "--no-loopback"

-- A value is not empty, and another word is not an option.
abbrev pub IsFlag : Flag → Type 0
IsFlag (gateway s) = is_empty s ≡ false
IsFlag (token s) = is_empty s ≡ false
IsFlag (node_id s) = is_empty s ≡ false
IsFlag (loopback s) = is_empty s ≡ false
IsFlag no_loopback = Unit
IsFlag (word s) = is_flag s ≡ false

abbrev pub words_of : Flag → List String
words_of (gateway s) = "--gateway" ∷ s ∷ []
words_of (token s) = "--token" ∷ s ∷ []
words_of (node_id s) = "--node-id" ∷ s ∷ []
words_of (loopback s) = "--loopback" ∷ s ∷ []
words_of no_loopback = "--no-loopback" ∷ []
words_of (word s) = s ∷ []

unfoldable pub print : List Flag → List String
print [] = []
print (f ∷ fs) = words_of f ++ print fs

module _ (runtime : Runtime) where
  abbrev pub set : Flag → Args runtime → Args runtime
  set (gateway s) a = record a { gateway = s }
  set (token s) a = record a { token = some s }
  set (node_id s) a = record a { node_id = s }
  set (loopback s) a = record a { loopback_sec = seconds runtime s }
  set no_loopback a = record a { loopback_sec = runtime.zero_seconds }
  set (word s) a = a

  unfoldable pub set_all : List Flag → Args runtime → Args runtime
  set_all [] a = a
  set_all (f ∷ fs) a = set_all fs (set f a)

  scan-some :
      (flag value : String) (rest : List String) (a b : Args runtime)
      → with_value runtime flag value a ≡ some b
      → scan runtime (flag ∷ value ∷ rest) a ≡ scan runtime rest b
  unfolding scan
  scan-some flag value rest a b h =
      ap
        (λ o.
          next runtime o (scan runtime (value ∷ rest) (alone runtime flag a))
            (λ c. scan runtime rest c))
        h

  scan-alone :
      (flag : String) (rest : List String) (a : Args runtime)
      → ((value : String) → with_value runtime flag value a ≡ none)
      → scan runtime (flag ∷ rest) a ≡ scan runtime rest (alone runtime flag a)
  unfolding scan
  scan-alone flag [] a h = refl
  scan-alone flag (value ∷ rest) a h =
      ap
        (λ o.
          next runtime o (scan runtime (value ∷ rest) (alone runtime flag a))
            (λ c. scan runtime rest c))
        (h value)

  if-some : (b : Bool) (x y : Option (Args runtime)) → b ≡ false → (if b then x else y) ≡ y
  if-some true x y h = absurd (ground (arith, h))
  if-some false x y h = refl

  if-same : (b : Bool) (x : Option (Args runtime)) → x ≡ none → (if b then none else x) ≡ none
  if-same true x h = refl
  if-same false x h = h

  word_alone :
      (s value : String) (a : Args runtime)
      → is_flag s ≡ false
      → with_value runtime s value a ≡ none
  word_alone s value a h = ground (arith, h)

  word_sets : (s : String) (a : Args runtime) → is_flag s ≡ false → alone runtime s a ≡ a
  word_sets s a h = ground (arith, h)

  -- Every option and every other word is read as it was meant, in order.
  scan-print :
      (fs : List Flag) (a : Args runtime) → All IsFlag fs → scan runtime (print fs) a ≡ set_all fs a
  unfolding scan print set_all
  scan-print [] a h = refl
  scan-print (gateway s ∷ fs) a h =
      scan-some "--gateway" s (print fs) a (record a { gateway = s }) (if-some (is_empty s) _ _ h.0)
      ∙ scan-print fs (record a { gateway = s }) h.1
  scan-print (token s ∷ fs) a h =
      scan-some "--token" s (print fs) a (record a { token = some s })
        (if-some (is_empty s) _ _ h.0)
      ∙ scan-print fs (record a { token = some s }) h.1
  scan-print (node_id s ∷ fs) a h =
      scan-some "--node-id" s (print fs) a (record a { node_id = s }) (if-some (is_empty s) _ _ h.0)
      ∙ scan-print fs (record a { node_id = s }) h.1
  scan-print (loopback s ∷ fs) a h =
      scan-some "--loopback" s (print fs) a (record a { loopback_sec = seconds runtime s })
        (if-some (is_empty s) _ _ h.0)
      ∙ scan-print fs (record a { loopback_sec = seconds runtime s }) h.1
  scan-print (no_loopback ∷ fs) a h =
      scan-alone "--no-loopback" (print fs) a (λ value. if-same (is_empty value) _ refl)
      ∙ scan-print fs (record a { loopback_sec = runtime.zero_seconds }) h.1
  scan-print (word s ∷ fs) a h =
      scan-alone s (print fs) a (λ value. word_alone s value a h.0)
      ∙ ap (scan runtime (print fs)) (word_sets s a h.0)
      ∙ scan-print fs a h.1

  -- A command line of options with values that are not empty, and of other words, is read field by
  -- field: each option sets its field, so that the last of a kind counts, other words do nothing,
  -- and the two variables of the environment come before the options.
  pub parse_args-print :
      (fs : List Flag)
      → All IsFlag fs
      → (let a = set_all fs (defaults runtime) in
          parse_args runtime (print fs) ≡ record a {
            gateway = or_else runtime (runtime.env "OPENCLAW_GATEWAY_URL") a.gateway;
            token = or_token runtime (runtime.env "OPENCLAW_GATEWAY_TOKEN") a.token;
          })
  unfolding parse_args
  parse_args-print fs h =
      ap {A = Args runtime} {B = Args runtime}
        (λ a. record a {
          gateway = or_else runtime (runtime.env "OPENCLAW_GATEWAY_URL") a.gateway;
          token = or_token runtime (runtime.env "OPENCLAW_GATEWAY_TOKEN") a.token;
        })
        (scan-print fs (defaults runtime) h)
