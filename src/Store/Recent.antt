-- ===== src/Store/Recent.antt =====
-- `readRecent` of plugin/src/store.ts.
use openclaw_rtc_plugin.Common.{
  ℕ, zero, ◌≤◌, min, leb, ◌==◌, ◌≡◌, refl, Bool-cases, inl, inr, String, Option, some, List, [],
  ◌∷◌, ◌++◌, All, take, drop, length, length-take, take-append-drop, if◌then◌else◌, arith,
}
use openclaw_rtc_plugin.Common.Int.{pos}
use openclaw_rtc_plugin.Json.{Value, num, property}
use openclaw_rtc_plugin.Store.{JsonText, read_all}

-- `record.startedAt ?? 0`, a natural number as `append` writes it. The order in which `sort` leaves
-- a value of another kind is not specified; it counts as 0 here.
abbrev started : Option Value → ℕ
started (some (num (pos n) zero)) = n
started _ = 0

abbrev pub started_at : Value → ℕ
started_at v = started (property "startedAt" v)

-- The sort of JavaScript is stable: a record goes before those that started with it or earlier.
unfoldable pub place : Value → List Value → List Value
place v [] = v ∷ []
place v (w ∷ ws) = if leb (started_at w) (started_at v) then v ∷ w ∷ ws else w ∷ place v ws

unfoldable pub sort : List Value → List Value
sort [] = []
sort (v ∷ vs) = place v (sort vs)

-- For a limit that is not negative.
unfoldable pub read_recent : JsonText → ℕ → Option String → List Value
read_recent json limit file = take limit (sort (read_all json file))

-- The latest comes first.
abbrev pub IsRecentFirst : List Value → Type 0
IsRecentFirst [] = Unit
IsRecentFirst (v ∷ vs) = All (λ w. started_at w ≤ started_at v) vs × IsRecentFirst vs

-- The records that started at `t`, in their order.
unfoldable pub from_time : ℕ → List Value → List Value
from_time t [] = []
from_time t (v ∷ vs) = if started_at v == t then v ∷ from_time t vs else from_time t vs

place-All :
    (t : ℕ) (v : Value) (ws : List Value)
    → started_at v ≤ t
    → All (λ w. started_at w ≤ t) ws
    → All (λ w. started_at w ≤ t) (place v ws)
unfolding place
place-All t v [] h hs = (h, tt)
place-All t v (w ∷ ws) h hs = elim (Bool-cases (leb (started_at w) (started_at v))) [
  | inl e ↦ rw e (h, hs)
  | inr e ↦ rw e (hs.0, place-All t v ws h hs.1)
]

All-le :
    (s t : ℕ) (ws : List Value)
    → s ≤ t
    → All (λ w. started_at w ≤ s) ws
    → All (λ w. started_at w ≤ t) ws
All-le s t [] h hs = tt
All-le s t (w ∷ ws) h hs = (omega (arith, h, hs.0), All-le s t ws h hs.1)

place-IsRecentFirst : (v : Value) (ws : List Value) → IsRecentFirst ws → IsRecentFirst (place v ws)
unfolding place
place-IsRecentFirst v [] h = (tt, tt)
place-IsRecentFirst v (w ∷ ws) h = elim (Bool-cases (leb (started_at w) (started_at v))) [
  | inl e ↦
      let le : started_at w ≤ started_at v = ground (arith, e) in
      rw e ((le, All-le (started_at w) (started_at v) ws le h.0), h)
  | inr e ↦
      rw e (place-All (started_at w) v ws (ground (arith, e)) h.0, place-IsRecentFirst v ws h.1)
]

sort-IsRecentFirst : (vs : List Value) → IsRecentFirst (sort vs)
unfolding sort
sort-IsRecentFirst [] = tt
sort-IsRecentFirst (v ∷ vs) = place-IsRecentFirst v (sort vs) (sort-IsRecentFirst vs)

from_time-place :
    (t : ℕ) (v : Value) (ws : List Value) → from_time t (place v ws) ≡ from_time t (v ∷ ws)
unfolding from_time place
from_time-place t v [] = refl
from_time-place t v (w ∷ ws) = ground (arith, from_time-place t v ws)

from_time-sort : (t : ℕ) (vs : List Value) → from_time t (sort vs) ≡ from_time t vs
unfolding from_time sort
from_time-sort t [] = refl
from_time-sort t (v ∷ vs) = ground (arith, from_time-place t v (sort vs), from_time-sort t vs)

-- The records that are left out.
unfoldable pub rest_of : JsonText → ℕ → Option String → List Value
rest_of json limit file = drop limit (sort (read_all json file))

pub read_recent_latest :
    (json : JsonText) (limit : ℕ) (file : Option String)
    → (let recent = read_recent json limit file in
        let rest = rest_of json limit file in
        (length recent ≡ min limit (length (recent ++ rest)))
        × IsRecentFirst (recent ++ rest)
        × ((t : ℕ) → from_time t (recent ++ rest) ≡ from_time t (read_all json file)))
unfolding read_recent rest_of
read_recent_latest json limit file =
    let all = sort (read_all json file) in
    rw (take-append-drop limit all) (
      length-take limit all,
      sort-IsRecentFirst (read_all json file),
      λ t. from_time-sort t (read_all json file),
    )
