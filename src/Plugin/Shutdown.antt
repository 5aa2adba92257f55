-- ===== src/Plugin/Shutdown.antt =====
-- The shutdown of plugin/index.ts, in any state of the event loop.
use openclaw_rtc_plugin.Common.{
  ℕ, String, str_eq, true, ◌≡◌, refl, ◌≢◌, ◌⊎◌, inl, inr, Option, some, List, [], ◌∷◌, ok, arith,
  eq_iff, Bool-cases, Option-cases,
}
use openclaw_rtc_plugin.Common.Maps.{Entries, lookup, keys, lookup-insert}
use openclaw_rtc_plugin.Json.{Value}
use openclaw_rtc_plugin.Call.{hangup_node, is_terminal, IceServer, RtcCallRecord}
use openclaw_rtc_plugin.Orchestrator.{CallOrchestrator, new, write, require_call, ended, hangup}
use openclaw_rtc_plugin.Orchestrator.Valid.{Reach-IsValid}
use openclaw_rtc_plugin.Plugin.{Settings}
use openclaw_rtc_plugin.Plugin.Service.{stop_record, stop_one, stop_each, stop}
use openclaw_rtc_plugin.Plugin.Server.{Server, Served}
use openclaw_rtc_plugin.Plugin.Refine.{Served-PluginRun, PluginRun-Reach}

abbrev Listed : String → List String → Type 0
Listed j [] = ⊥
Listed j (k ∷ ks) = (j ≡ k) ⊎ Listed j ks

lookup-Listed {ℓ} :
    {V : Type ℓ} (j : String) (m : Entries V) (v : V) → lookup j m ≡ some v → Listed j (keys m)
unfolding lookup keys
lookup-Listed j [] v h = absurd (ground arith)
lookup-Listed j ((k, w) ∷ m) v h = elim (Bool-cases (str_eq k j)) [
  | inl hit ↦ inl (ground (arith, eq_iff k j))
  | inr miss ↦ inr (lookup-Listed j m v (ground arith))
]

-- Each record is stored under its id.
abbrev IsKeyed : CallOrchestrator → Type 0
IsKeyed o = (k : String) (r : RtcCallRecord) → lookup k o.calls ≡ some r → r.call_id ≡ k

-- `o` with the call under `k` ended, and every other record as it was.
abbrev IsEndedAt : CallOrchestrator → String → CallOrchestrator → Type 0
IsEndedAt o k o' =
    (j : String) (c : RtcCallRecord)
    → lookup j o'.calls ≡ some c
    → (is_terminal c.state ≡ true) ⊎ ((j ≢ k) × (lookup j o.calls ≡ some c))

stop_one-ends :
    (now : ℕ) (o : CallOrchestrator) (k : String)
    → IsKeyed o
    → (o' : CallOrchestrator) × (stop_one now o k ≡ ok o') × IsKeyed o' × IsEndedAt o k o'
unfolding stop_one hangup require_call write
stop_one-ends now o k keyed = elim (Option-cases (lookup k o.calls)) [
  | inl missing ↦ (o, rw missing, keyed, λ j c h. inr (λ e. ground (arith, eq_iff j k), h))
  | inr (call, found) ↦ elim (Bool-cases (is_terminal call.state)) [
    | inl over ↦ (
      o,
      rw (found, stop_record, over),
      keyed,
      λ j c h. elim (Bool-cases (str_eq j k)) [
        | inl hit ↦ inl (ground (arith, eq_iff j k))
        | inr miss ↦ inr (ground (arith, eq_iff j k), h)
      ],
    )
    | inr live ↦
        let call' = ended hangup_node "gateway-shutdown" now call in
        (
          write o k call',
          ground (arith, keyed k call found),
          λ j c h.
              ground (arith, lookup-insert k j call' o.calls, eq_iff k j, keyed j c, keyed k call),
          λ j c h. elim (Bool-cases (str_eq k j)) [
            | inl hit ↦ inl (ground (arith, lookup-insert k j call' o.calls))
            | inr miss ↦
                inr (ground (arith, eq_iff k j), ground (arith, lookup-insert k j call' o.calls))
          ],
        )
  ]
]

stop_each-ends :
    (now : ℕ) (ks : List String) (o : CallOrchestrator)
    → IsKeyed o
    → ((j : String) (c : RtcCallRecord)
        → lookup j o.calls ≡ some c
        → (is_terminal c.state ≡ true) ⊎ Listed j ks)
    → (o' : CallOrchestrator) × (stop_each now ks o ≡ ok o')
      × ((j : String) (c : RtcCallRecord) → lookup j o'.calls ≡ some c → is_terminal c.state ≡ true)
unfolding stop_each
stop_each-ends now [] o keyed left =
    (o, refl, λ j c h. elim (left j c h) [ inl over ↦ over | inr l ↦ absurd l ])
stop_each-ends now (k ∷ ks) o keyed left =
    let (p, went, keyed_p, ends) = stop_one-ends now o k keyed in
    let (o', rest, over) = stop_each-ends now ks p keyed_p λ j c h. elim (ends j c h) [
      | inl over ↦ inl over
      | inr (other, old) ↦ elim (left j c old) [
        | inl over ↦ inl over
        | inr (inl same) ↦ absurd (other same)
        | inr (inr later) ↦ inr later
      ]
    ] in
    (o', rw went rest, over)

-- Whatever events came before, the shutdown does not throw, and leaves every call ended.
pub stop-ends :
    (parse : String → Option Value) (settings : Settings) (most : Option ℕ)
    (servers : Option (List IceServer)) (s : Server)
    → Served parse settings (new most servers) s
    → (now : ℕ)
    → (o : CallOrchestrator) × (stop now s.orchestrator ≡ ok o)
      × ((k : String) (c : RtcCallRecord) → lookup k o.calls ≡ some c → is_terminal c.state ≡ true)
unfolding stop
stop-ends parse settings most servers s served now =
    let run = Served-PluginRun parse settings (new most servers) s served in
    let v = Reach-IsValid most servers s.orchestrator (PluginRun-Reach run) in
    stop_each-ends now (keys s.orchestrator.calls) s.orchestrator v.keyed
      (λ j c h. inr (lookup-Listed j s.orchestrator.calls c h))
