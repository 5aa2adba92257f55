-- ===== src/Json.antt =====
-- Values that arrive from outside the process: what `JSON.parse` returns, and the parameters of a
-- gateway method. The tests that plugin/index.ts and plugin/src/config.ts make on them.
use openclaw_rtc_plugin.Common.{
  ℕ, ◌==◌, String, str_eq, Bool, true, false, not, Option, none, some, if◌then◌else◌,
}
use openclaw_rtc_plugin.Common.Texts.{is_empty}
use openclaw_rtc_plugin.Common.Int.{ℤ, pos, negsuc}

-- `num m e` is the number m / 10 ^ e.
mutual
  pub data Value : Type 0 where
    null : Value
    bool : Bool → Value
    num : ℤ → ℕ → Value
    str : String → Value
    obj : Fields → Value
    arr : Items → Value

  pub data Fields : Type 0 where
    end : Fields
    field : String → Value → Fields → Fields

  pub data Items : Type 0 where
    nil : Items
    cons : Value → Items → Items

-- `o.k`, where `none` is `undefined`
unfoldable pub get : String → Fields → Option Value
get k end = none
get k (field j v fs) = if str_eq j k then some v else get k fs

-- `Boolean(v)`
abbrev pub truthy : Value → Bool
truthy null = false
truthy (bool b) = b
truthy (num (pos n) e) = not (n == 0)
truthy (num (negsuc n) e) = true
truthy (str s) = not (is_empty s)
truthy (arr xs) = true
truthy (obj fs) = true

abbrev pub truthy? : Option Value → Bool
truthy? none = false
truthy? (some v) = truthy v

-- `params?.k`
abbrev pub param : Option Fields → String → Option Value
param none k = none
param (some fs) k = get k fs

-- `typeof v === "string" ? v : d`
abbrev pub text_or : String → Option Value → String
text_or d (some (str s)) = s
text_or d v = d

-- `v.k`, which is `undefined` on a value that is no object; `null` and `undefined` do not
-- come here
abbrev pub property : String → Value → Option Value
property k (obj fs) = get k fs
property k _ = none

-- A field whose value may be `undefined`, which JSON leaves out.
abbrev pub optional : String → Option Value → Fields → Fields
optional k none fs = fs
optional k (some v) fs = field k v fs
