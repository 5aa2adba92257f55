-- ===== src/Orchestrator/Valid.antt =====
-- The invariant of the orchestrator's two maps, of its slots and of each record, kept by every
-- method of plugin/src/orchestrator.ts.
use openclaw_rtc_plugin.Common.{
  ℕ, ◌+◌, ◌≤◌, ◌<◌, String, true, false, ◌≡◌, subst, ◌≢◌, ◌⊎◌, inl, inr, Option, none, some, List,
  arith, eq_iff, eq_refl, Bool-cases, str_eq, sym,
}
use openclaw_rtc_plugin.Common.Texts.{is_empty}
use openclaw_rtc_plugin.Common.Maps.{lookup, count, lookup-insert, count-insert}
use openclaw_rtc_plugin.Call.{IceServer, RtcCallRecord, is_live}
use openclaw_rtc_plugin.Orchestrator.{
  CallOrchestrator, StartCallParams, new, active_calls, blocking_call, new_record, admit, write,
}
use openclaw_rtc_plugin.Orchestrator.Run.{Operation, step, IsFresh, Reach, here, more}
use openclaw_rtc_plugin.Orchestrator.Records.{IsConsistent, Change-Keeps, Change-IsConsistent}
use openclaw_rtc_plugin.Orchestrator.Effect.{Change, Effect, idle, changed, admitted, step-Effect}

pub record IsValid (o : CallOrchestrator) : Type 0 where
  pub keyed : (k : String) (r : RtcCallRecord) → lookup k o.calls ≡ some r → r.call_id ≡ k
  pub named : (k : String) (r : RtcCallRecord) → lookup k o.calls ≡ some r → is_empty k ≡ false
  pub consistent : (k : String) (r : RtcCallRecord) → lookup k o.calls ≡ some r → IsConsistent r
  pub indexed :
      (k : String) (r : RtcCallRecord)
      → lookup k o.calls ≡ some r
      → is_live r ≡ true
      → lookup r.session_key o.session_call_map ≡ some k
  pub linked :
      (s k : String)
      → lookup s o.session_call_map ≡ some k
      → (c : RtcCallRecord) × (lookup k o.calls ≡ some c) × (c.session_key ≡ s)
  pub within : active_calls o ≤ o.options.max_concurrent_calls

module _ (o : CallOrchestrator) (id : String) (r r' : RtcCallRecord)
    (found : lookup id o.calls ≡ some r) (change : Change r r') where
  active_calls-write : active_calls (write o id r') ≤ active_calls o
  unfolding active_calls write
  active_calls-write = ground (arith, count-insert is_live id r' o.calls, Change-Keeps change)

  pub write_cases :
      (k : String) (c : RtcCallRecord)
      → lookup k (write o id r').calls ≡ some c
      → ((k ≡ id) × (r' ≡ c)) ⊎ (lookup k o.calls ≡ some c)
  unfolding write
  write_cases k c h = ground (arith, lookup-insert id k r' o.calls, eq_iff id k)

  write-indexed :
      IsValid o
      → (k : String) (c : RtcCallRecord) → lookup k (write o id r').calls ≡ some c
      → is_live c ≡ true
      → lookup c.session_key o.session_call_map ≡ some k
  write-indexed v k c h live = elim (write_cases k c h) [
    | inl (at, same) ↦ ground (arith, Change-Keeps change, v.indexed id r found)
    | inr old ↦ v.indexed k c old live
  ]

  write-linked :
      IsValid o
      → (s k : String) → lookup s o.session_call_map ≡ some k
      → (c : RtcCallRecord) × (lookup k (write o id r').calls ≡ some c) × (c.session_key ≡ s)
  unfolding write
  write-linked v s k at =
      let (c, here_k, same) = v.linked s k at in
      elim (Bool-cases (str_eq id k)) [
        | inl hit ↦
            (r', rw lookup-insert (rw hit), ground (arith, eq_iff id k, Change-Keeps change))
        | inr miss ↦ (c, rw lookup-insert (rw miss here_k), same)
      ]

  write-IsValid : IsValid o → IsValid (write o id r')
  unfolding write
  write-IsValid v = record {
    keyed = λ k c h. elim (write_cases k c h) [
      | inl (at, same) ↦ ground (arith, Change-Keeps change, v.keyed id r found)
      | inr old ↦ v.keyed k c old
    ];
    named = λ k c h. elim (write_cases k c h) [
      | inl (at, same) ↦ ground (arith, v.named id r found)
      | inr old ↦ v.named k c old
    ];
    consistent = λ k c h. elim (write_cases k c h) [
      | inl (at, same) ↦
          subst IsConsistent same (Change-IsConsistent change (v.consistent id r found))
      | inr old ↦ v.consistent k c old
    ];
    indexed = write-indexed v;
    linked = write-linked v;
    within = omega (arith, active_calls-write, v.within);
  }

pub other_session :
    (o : CallOrchestrator) (key : String)
    → blocking_call o key ≡ none
    → IsValid o
    → (k : String) (c : RtcCallRecord) → lookup k o.calls ≡ some c
    → is_live c ≡ true
    → c.session_key ≢ key
unfolding blocking_call
other_session o key clear v k c h live same = ground (arith, v.indexed k c h live, v.named k c h)

module _ (o : CallOrchestrator) (p : StartCallParams) (id : String) (now : ℕ)
    (fresh : lookup id o.calls ≡ none) (free : active_calls o < o.options.max_concurrent_calls)
    (clear : blocking_call o p.session_key ≡ none) where
  pub admit_cases :
      (k : String) (c : RtcCallRecord)
      → lookup k (admit o p id now).calls ≡ some c
      → ((k ≡ id) × (new_record p id now ≡ c)) ⊎ (lookup k o.calls ≡ some c)
  unfolding admit
  admit_cases k c h = ground (arith, lookup-insert id k (new_record p id now) o.calls, eq_iff id k)

  active_calls-admit : active_calls (admit o p id now) ≡ active_calls o + 1
  unfolding active_calls admit new_record
  active_calls-admit = ground (arith, count-insert is_live id (new_record p id now) o.calls)

  new_record-IsConsistent : IsConsistent (new_record p id now)
  unfolding new_record
  new_record-IsConsistent = ground arith

  admit-indexed :
      IsValid o
      → (k : String) (c : RtcCallRecord) → lookup k (admit o p id now).calls ≡ some c
      → is_live c ≡ true
      → lookup c.session_key (admit o p id now).session_call_map ≡ some k
  unfolding admit new_record
  admit-indexed v k c h live = elim (admit_cases k c h) [
    | inl (at, same) ↦ ground (
      arith,
      lookup-insert p.session_key c.session_key id o.session_call_map,
      eq_refl p.session_key,
    )
    | inr old ↦ ground (
      arith,
      lookup-insert p.session_key c.session_key id o.session_call_map,
      eq_iff p.session_key c.session_key,
      other_session o p.session_key clear v k c old live,
      v.indexed k c old live,
    )
  ]

  admit-linked :
      IsValid o
      → (s k : String) → lookup s (admit o p id now).session_call_map ≡ some k
      → (c : RtcCallRecord) × (lookup k (admit o p id now).calls ≡ some c) × (c.session_key ≡ s)
  unfolding admit
  admit-linked v s k at = elim (Bool-cases (str_eq p.session_key s)) [
    | inl hit ↦
        let e : id ≡ k = ground (arith, lookup-insert p.session_key s id o.session_call_map) in
        (
          new_record p id now,
          rw lookup-insert (ground (arith, eq_iff id k)),
          unfold new_record in ground (arith, eq_iff p.session_key s),
        )
    | inr miss ↦
        let old : lookup s o.session_call_map ≡ some k =
          ground (arith, lookup-insert p.session_key s id o.session_call_map) in
        let (c, here_k, same) = v.linked s k old in
        (c, rw lookup-insert (ground (arith, eq_iff id k)), same)
  ]

  admit-IsValid : is_empty id ≡ false → IsValid o → IsValid (admit o p id now)
  admit-IsValid id_named v = record {
    keyed = λ k c h. elim (admit_cases k c h) [
      | inl (at, same) ↦ unfold new_record in ground arith
      | inr old ↦ v.keyed k c old
    ];
    named = λ k c h. elim (admit_cases k c h) [
      | inl (at, same) ↦ ground arith
      | inr old ↦ v.named k c old
    ];
    consistent = λ k c h. elim (admit_cases k c h) [
      | inl (at, same) ↦ subst IsConsistent same new_record-IsConsistent
      | inr old ↦ v.consistent k c old
    ];
    indexed = admit-indexed v;
    linked = admit-linked v;
    within = unfold admit in omega (arith, active_calls-admit);
  }

Effect-IsValid : {o o' : CallOrchestrator} → Effect o o' → IsValid o → IsValid o'
Effect-IsValid (idle e) v = subst IsValid (sym e) v
Effect-IsValid {o} (changed id r r' found change e) v =
    subst IsValid (sym e) (write-IsValid o id r r' found change v)
Effect-IsValid {o} (admitted p id now fresh id_named free clear e) v =
    subst IsValid (sym e) (admit-IsValid o p id now fresh free clear id_named v)

pub step-IsValid :
    (o : CallOrchestrator) (op : Operation) → IsFresh o op → IsValid o → IsValid (step o op)
step-IsValid o op fresh v = Effect-IsValid (step-Effect o op fresh) v

new-IsValid : (most : Option ℕ) (servers : Option (List IceServer)) → IsValid (new most servers)
unfolding new lookup active_calls count
new-IsValid most servers = record {
  keyed = λ k r h. cc;
  named = λ k r h. cc;
  consistent = λ k r h. cc;
  indexed = λ k r h. cc;
  linked = λ s k h. absurd (ground arith);
  within = omega arith;
}

pub Reach-keeps : {o o' : CallOrchestrator} → IsValid o → Reach o o' → IsValid o'
Reach-keeps v here = v
Reach-keeps v (more {o'} r op fresh) = step-IsValid o' op fresh (Reach-keeps v r)

-- Whatever methods run, with a new id for each new call: each record stands under its id, which is
-- not empty, and has the optional fields of its state; the session index has every live call under
-- its session and only calls that exist; and no more calls are live than the options allow.
pub Reach-IsValid :
    (most : Option ℕ) (servers : Option (List IceServer)) (o : CallOrchestrator)
    → Reach (new most servers) o
    → IsValid o
Reach-IsValid most servers o r = Reach-keeps (new-IsValid most servers) r

-- Whatever methods run, with a new id for each new call: two live calls of one session are the same
-- call.
one_live_call :
    (most : Option ℕ) (servers : Option (List IceServer)) (o : CallOrchestrator)
    → Reach (new most servers) o
    → (j k : String) (c d : RtcCallRecord) → lookup j o.calls ≡ some c
    → lookup k o.calls ≡ some d
    → is_live c ≡ true
    → is_live d ≡ true
    → c.session_key ≡ d.session_key
    → j ≡ k
one_live_call most servers o r j k c d at_j at_k live_c live_d same =
    let v = Reach-IsValid most servers o r in
    ground (arith, v.indexed j c at_j live_c, v.indexed k d at_k live_d)
