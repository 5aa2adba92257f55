-- ===== src/Node/Args.antt =====
-- `parseArgs` of plugin/node/index.ts.
use Prim.Native.String.{◌++◌}
use openclaw_rtc_plugin.Common.{
  ℕ, String, str_eq, Bool, Option, none, some, List, [], ◌∷◌, if◌then◌else◌,
}
use openclaw_rtc_plugin.Common.Texts.{is_empty, show}

-- What the code takes from JavaScript's numbers and from the process.
pub record Runtime : Type 1 where
  pub Number : Type 0
  pub number : String → Number  -- `Number(s)`
  pub is_falsy : Number → Bool
  pub five : Number
  pub zero_seconds : Number
  pub pid : ℕ
  pub env : String → Option String

module _ (runtime : Runtime) where
  pub record Args : Type 0 where
    pub gateway : String
    pub token : Option String
    pub node_id : String
    pub loopback_sec : runtime.Number

  abbrev pub defaults : Args
  defaults = record {
    gateway = "ws://127.0.0.1:18789";
    token = none;
    node_id = "rtc-node-" ++ show runtime.pid;
    loopback_sec = runtime.five;
  }

  -- `Number(s) || 5`
  abbrev pub seconds : String → runtime.Number
  seconds s = if runtime.is_falsy (runtime.number s) then runtime.five else runtime.number s

  -- The branch of an option that takes the next argument, if that is one.
  abbrev pub with_value : String → String → Args → Option Args
  with_value flag value a =
      if is_empty value
      then none
      else if str_eq flag "--gateway"
      then some (record a { gateway = value })
      else if str_eq flag "--token"
      then some (record a { token = some value })
      else if str_eq flag "--node-id"
      then some (record a { node_id = value })
      else if str_eq flag "--loopback"
      then some (record a { loopback_sec = seconds value })
      else none

  -- The branch of an option that takes nothing.
  abbrev pub alone : String → Args → Args
  alone flag a =
      if str_eq flag "--no-loopback" then record a { loopback_sec = runtime.zero_seconds } else a

  -- One argument further, or two.
  abbrev pub next : Option Args → Args → (Args → Args) → Args
  next none one two = one
  next (some b) one two = two b

  -- The loop: at `flag`, with the arguments that follow.
  unfoldable pub scan : List String → Args → Args
  scan [] a = a
  scan (flag ∷ []) a = alone flag a
  scan (flag ∷ value ∷ rest) a =
      next (with_value flag value a) (scan (value ∷ rest) (alone flag a)) (λ b. scan rest b)

  -- `a ?? b`
  abbrev pub or_else : Option String → String → String
  or_else none b = b
  or_else (some a) b = a

  abbrev pub or_token : Option String → Option String → Option String
  or_token none b = b
  or_token (some a) b = some a

  unfoldable pub parse_args : List String → Args
  unfolding scan
  parse_args args =
      let a = scan args defaults in
      record a {
        gateway = or_else (runtime.env "OPENCLAW_GATEWAY_URL") a.gateway;
        token = or_token (runtime.env "OPENCLAW_GATEWAY_TOKEN") a.token;
      }
