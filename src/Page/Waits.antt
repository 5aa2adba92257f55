-- ===== src/Page/Waits.antt =====
-- The peers of plugin/ui/app.ts that wait for the microphone: each is asked for once, and holds
-- nothing yet.
use openclaw_rtc_plugin.Common.{
  ℕ, zero, suc, ◌+◌, ◌==◌, ==_iff, ◌≤◌, ◌≡◌, ◌⊎◌, inl, inr, refl, none, some, List, [], ◌∷◌, ◌++◌,
  length, get_elem?, remove_at, Bool-cases, ap, sym, subst, ◌∙◌, arith,
}
use openclaw_rtc_plugin.Common.Maps.{to_ℕ}
use openclaw_rtc_plugin.Page.{
  Effect, RtcPeer, Wait, at_media, at_offer, at_local, at_remote, at_candidate, Page, new,
}
use openclaw_rtc_plugin.Page.Peer.{put, blank}
use openclaw_rtc_plugin.Page.Loop.{Event}
use openclaw_rtc_plugin.Page.Moves.{
  IsLater, Move, shows, plays, asks, answers, counts, dials, takes, quits, joins, names, frees,
  rests, Moves, still, then_move,
}
use openclaw_rtc_plugin.Page.Script.{Step, moves, loses, reconnects, unset, Script}
use openclaw_rtc_plugin.Page.Run.{Run, Run-keeps}

abbrev asks_of : ℕ → Wait → ℕ
asks_of i (at_media k) = to_ℕ (k == i)
asks_of i _ = 0

-- How many waits are for the microphone of the peer `i`.
unfoldable pub asking : ℕ → List Wait → ℕ
asking i [] = 0
asking i (w ∷ ws) = asks_of i w + asking i ws

pub asking-append : (i : ℕ) (ws vs : List Wait) → asking i (ws ++ vs) ≡ asking i ws + asking i vs
unfolding asking
asking-append i [] vs = omega arith
asking-append i (w ∷ ws) vs = omega (arith, asking-append i ws vs)

pub asking-remove_at :
    (i j : ℕ) (w : Wait) (ws : List Wait)
    → get_elem? ws j ≡ some w
    → asking i ws ≡ asks_of i w + asking i (remove_at j ws)
unfolding asking
asking-remove_at i j w [] at = absurd (ground arith)
asking-remove_at i zero w (v ∷ ws) at = ground arith
asking-remove_at i (suc j) w (v ∷ ws) at = omega (arith, asking-remove_at i j w ws at)

pub asking-remove_at_le : (i j : ℕ) (ws : List Wait) → asking i (remove_at j ws) ≤ asking i ws
unfolding asking
asking-remove_at_le i j [] = omega arith
asking-remove_at_le i zero (v ∷ ws) = omega arith
asking-remove_at_le i (suc j) (v ∷ ws) = omega (arith, asking-remove_at_le i j ws)

pub later_asks : (i : ℕ) (w : Wait) → IsLater w → asks_of i w ≡ 0
later_asks i (at_media k) h = elim h [ ]
later_asks i (at_offer k) h = refl
later_asks i (at_local k sdp) h = refl
later_asks i (at_remote v) h = refl
later_asks i (at_candidate cs) h = refl

pub get-put_same :
    (i : ℕ) (r q : RtcPeer) (rs : List RtcPeer)
    → get_elem? rs i ≡ some q
    → get_elem? (put i r rs) i ≡ some r
unfolding put
get-put_same i r q [] at = absurd (ground arith)
get-put_same zero r q (p ∷ rs) at = refl
get-put_same (suc i) r q (p ∷ rs) at = get-put_same i r q rs at

pub get-put_other :
    (i j : ℕ) (r : RtcPeer) (rs : List RtcPeer)
    → (i ≡ j → ⊥)
    → get_elem? (put i r rs) j ≡ get_elem? rs j
unfolding put
get-put_other i j r [] h = refl
get-put_other zero zero r (p ∷ rs) h = absurd (h refl)
get-put_other zero (suc j) r (p ∷ rs) h = refl
get-put_other (suc i) zero r (p ∷ rs) h = refl
get-put_other (suc i) (suc j) r (p ∷ rs) h = get-put_other i j r rs (λ e. h (omega (arith, e)))

pub get-append :
    (i : ℕ) (rs qs : List RtcPeer) (r : RtcPeer)
    → get_elem? rs i ≡ some r
    → get_elem? (rs ++ qs) i ≡ some r
get-append i [] qs r at = absurd (ground arith)
get-append zero (q ∷ rs) qs r at = at
get-append (suc i) (q ∷ rs) qs r at = get-append i rs qs r at

get-length : (rs : List RtcPeer) (r : RtcPeer) → get_elem? (rs ++ r ∷ []) (length rs) ≡ some r
get-length [] r = refl
get-length (q ∷ rs) r = get-length rs r

pub get-past : (rs : List RtcPeer) → get_elem? rs (length rs) ≡ none
get-past [] = refl
get-past (q ∷ rs) = get-past rs

-- A peer that waits for its microphone waits once and is blank.
abbrev pub IsWaiting : Page → ℕ → Type 0
IsWaiting p i =
    (asking i p.waits ≡ 0) ⊎ ((asking i p.waits ≡ 1) × (get_elem? p.peers i ≡ some blank))

kept :
    (i : ℕ) (ws ws' : List Wait) (rs rs' : List RtcPeer)
    → asking i ws' ≡ asking i ws
    → (get_elem? rs i ≡ some blank → get_elem? rs' i ≡ some blank)
    → (asking i ws ≡ 0) ⊎ ((asking i ws ≡ 1) × (get_elem? rs i ≡ some blank))
    → (asking i ws' ≡ 0) ⊎ ((asking i ws' ≡ 1) × (get_elem? rs' i ≡ some blank))
kept i ws ws' rs rs' same keep (inl zero_) = inl (same ∙ zero_)
kept i ws ws' rs rs' same keep (inr (one_, at)) = inr (same ∙ one_, keep at)

dials_waits :
    (ws : List Wait) (rs : List RtcPeer)
    → ((i : ℕ) → (asking i ws ≡ 0) ⊎ ((asking i ws ≡ 1) × (get_elem? rs i ≡ some blank)))
    → (i : ℕ)
    → (let ws' = ws ++ at_media (length rs) ∷ [] in
        (asking i ws' ≡ 0) ⊎ ((asking i ws' ≡ 1) × (get_elem? (rs ++ blank ∷ []) i ≡ some blank)))
unfolding asking
dials_waits ws rs h i = elim (Bool-cases (length rs == i)) [
  | inr other ↦
      kept i ws (ws ++ at_media (length rs) ∷ []) rs (rs ++ blank ∷ [])
        (ground (arith, asking-append i ws (at_media (length rs) ∷ [])))
        (get-append i rs (blank ∷ []) blank) (h i)
  | inl same ↦ elim (h i) [
    | inl z ↦ inr (
      ground (arith, asking-append i ws (at_media (length rs) ∷ [])),
      subst (λ k. get_elem? (rs ++ blank ∷ []) k ≡ some blank) ((==_iff (length rs) i).0 same)
          (get-length rs blank),
    )
    | inr (o, at) ↦
        absurd (ground (arith, get-past rs, ap (get_elem? rs) ((==_iff (length rs) i).0 same)))
  ]
]

takes_waits :
    (j i : ℕ) (r : RtcPeer) (ws : List Wait) (rs : List RtcPeer)
    → get_elem? ws j ≡ some (at_media i)
    → ((k : ℕ) → (asking k ws ≡ 0) ⊎ ((asking k ws ≡ 1) × (get_elem? rs k ≡ some blank)))
    → (k : ℕ)
    → (let ws' = remove_at j ws ++ at_offer i ∷ [] in
        (asking k ws' ≡ 0) ⊎ ((asking k ws' ≡ 1) × (get_elem? (put i r rs) k ≡ some blank)))
unfolding asking
takes_waits j i r ws rs at h k =
    let more = asking-append k (remove_at j ws) (at_offer i ∷ []) in
    let less = asking-remove_at k j (at_media i) ws at in
    elim (Bool-cases (i == k)) [
      | inr other ↦
          kept k ws (remove_at j ws ++ at_offer i ∷ []) rs (put i r rs) (ground (arith, more, less))
            (λ b. get-put_other i k r rs (λ e. absurd (ground (arith, ==_iff i k))) ∙ b) (h k)
      | inl same ↦ elim (h k) [
        | inl z ↦ absurd (ground (arith, less))
        | inr (o, b) ↦ inl (ground (arith, more, less))
      ]
    ]

at_most_one : (n : ℕ) → n ≤ 1 → (n ≡ 0) ⊎ (n ≡ 1)
at_most_one zero h = inl refl
at_most_one (suc n) h = inr (omega (arith, h))

quits_waits :
    (j k : ℕ) (ws : List Wait) (rs : List RtcPeer)
    → (asking k ws ≡ 0) ⊎ ((asking k ws ≡ 1) × (get_elem? rs k ≡ some blank))
    → (asking k (remove_at j ws) ≡ 0)
      ⊎ ((asking k (remove_at j ws) ≡ 1) × (get_elem? rs k ≡ some blank))
quits_waits j k ws rs (inl z) = inl (omega (arith, z, asking-remove_at_le k j ws))
quits_waits j k ws rs (inr (o, b)) =
    elim (at_most_one (asking k (remove_at j ws)) (omega (arith, o, asking-remove_at_le k j ws))) [
      | inl z ↦ inl z
      | inr e ↦ inr (e, b)
    ]

put-blank :
    (i k : ℕ) (rs : List RtcPeer)
    → get_elem? rs k ≡ some blank
    → get_elem? (put i blank rs) k ≡ some blank
put-blank i k rs at = elim (Bool-cases (i == k)) [
  | inr other ↦ get-put_other i k blank rs (λ e. absurd (ground (arith, ==_iff i k))) ∙ at
  | inl same ↦
      subst (λ n. get_elem? (put n blank rs) k ≡ some blank) (sym ((==_iff i k).0 same))
        (get-put_same k blank blank rs at)
]

Move-IsWaiting :
    {p p' : Page} {es : List Effect}
    → Move p p' es
    → ((i : ℕ) → IsWaiting p i)
    → (i : ℕ) → IsWaiting p' i
unfolding asking
Move-IsWaiting (shows s) h k = h k
Move-IsWaiting plays h k = h k
Move-IsWaiting (asks socket id method params purpose at fresh) h k = h k
Move-IsWaiting (answers id purpose s at) h k = h k
Move-IsWaiting (counts n) h k = h k
Move-IsWaiting {p} (dials s at) h k = dials_waits p.waits p.peers h k
Move-IsWaiting {p} (takes j i stream pc at) h k = takes_waits j i _ p.waits p.peers at h k
Move-IsWaiting {p} (quits j) h k = quits_waits j k p.waits p.peers (h k)
Move-IsWaiting {p} (joins w later) h k =
    kept k p.waits (p.waits ++ w ∷ []) p.peers p.peers
      (omega (arith, asking-append k p.waits (w ∷ []), later_asks k w later)) (λ b. b) (h k)
Move-IsWaiting (names i v at) h k = h k
Move-IsWaiting {p} (frees i at) h k =
    kept k p.waits p.waits p.peers (put i blank p.peers) refl (put-blank i k p.peers) (h k)
Move-IsWaiting (rests at) h k = h k

pub Moves-IsWaiting :
    {p p' : Page} {es : List Effect}
    → Moves p p' es
    → ((i : ℕ) → IsWaiting p i)
    → (i : ℕ) → IsWaiting p' i
Moves-IsWaiting still h = h
Moves-IsWaiting (then_move ms m) h = Move-IsWaiting m (Moves-IsWaiting ms h)

pub Step-IsWaiting :
    (p p' : Page) (e : Event) (es : List Effect)
    → Step p e p' es
    → ((i : ℕ) → IsWaiting p i)
    → (i : ℕ) → IsWaiting p' i
Step-IsWaiting p _ e es (moves h ms) w = Moves-IsWaiting ms w
Step-IsWaiting p _ _ _ loses w = w
Step-IsWaiting p _ _ _ (reconnects id n at) w = w
Step-IsWaiting p _ _ _ (unset id at) w = w

pub Run-IsWaiting :
    (script : Script) (p : Page) (es : List Effect) (n : ℕ)
    → Run script p es n
    → (i : ℕ) → IsWaiting p i
unfolding new asking
Run-IsWaiting script p es n r =
    Run-keeps (λ q. (i : ℕ) → IsWaiting q i) Step-IsWaiting script (λ s id i. inl refl) r
