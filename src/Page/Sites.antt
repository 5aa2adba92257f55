-- ===== src/Page/Sites.antt =====
-- What holds of both scripts of the page, plugin/ui/app.ts and plugin/ui/app.js, by the properties of
-- every script whose events are steps.
use openclaw_rtc_plugin.Common.{ℕ, ◌+◌, ◌≡◌, some, List, get_elem?}
use openclaw_rtc_plugin.Page.{Browser, Effect, at_media, Page}
use openclaw_rtc_plugin.Page.Call.{Moment, streamed}
use openclaw_rtc_plugin.Page.Loop.{wait_over}
use openclaw_rtc_plugin.Page.Script.{Script}
use openclaw_rtc_plugin.Page.Run.{sockets_made, Run, Later}
use openclaw_rtc_plugin.Page.Events.{app_ts}
use openclaw_rtc_plugin.Page.Web.{WebBrowser}
use openclaw_rtc_plugin.Page.Web.Events.{app_js}
use openclaw_rtc_plugin.Page.Coherent.{IsCoherent, Script-IsCoherent}
use openclaw_rtc_plugin.Page.Connection.{IsLinked, Script-IsLinked}
use openclaw_rtc_plugin.Page.Media.{Part, taken, released, held, Script-releases}
use openclaw_rtc_plugin.Page.Abandoned.{dropped_peer_keeps}

-- A browser with one of the two scripts.
pub data Site : Type 0 where
  with_ts : Browser → Site
  with_js : WebBrowser → Site

abbrev pub script_of : Site → Script
script_of (with_ts browser) = app_ts browser
script_of (with_js web) = app_js web

-- Whatever the browser does, and in any order: the call button is hidden, and the hangup button
-- shown, exactly while the page has a peer; a page without a peer has no call id; and its peer is
-- the last one that was made.
pub Run-IsCoherent :
    (site : Site) (p : Page) (es : List Effect) (n : ℕ) → Run (script_of site) p es n → IsCoherent p
Run-IsCoherent site = Script-IsCoherent (script_of site)

-- Whatever the browser does, and in any order: the page has one socket in use, or one timer that
-- will make the next one, never both, never two and never none; and every socket that was made and
-- is not in use has closed.
pub Run-IsLinked :
    (site : Site) (p : Page) (es : List Effect) (n : ℕ)
    → Run (script_of site) p es n
    → IsLinked p (sockets_made es) n
Run-IsLinked site = Script-IsLinked (script_of site)

-- Whatever the browser does, and in any order: each microphone stream and each connection was
-- released as often as it was taken, or a peer of the page still holds it. None is released twice,
-- and none is lost in a peer that was overwritten.
pub Run-releases :
    (site : Site) (p : Page) (es : List Effect) (n : ℕ)
    → Run (script_of site) p es n
    → (k : Part) (x : ℕ) → taken k x es ≡ released k x es + held k x p.peers
Run-releases site = Script-releases (script_of site)

-- When a call is hung up, or ends, while the browser still asks for the microphone, and the
-- microphone is granted then, the peer that the page has dropped takes it and holds it, with a
-- connection, after whatever events come later: nothing in the page can stop it.
pub late_grant_stays :
    (site : Site) (p : Page) (es : List Effect) (n : ℕ)
    → Run (script_of site) p es n
    → (j i : ℕ) → get_elem? p.waits j ≡ some (at_media i)
    → (p.rtc_peer ≡ some i → ⊥)
    → (m : Moment) (stream pc : ℕ) (q : Page) (fs : List Effect)
    → Later (script_of site) ((script_of site).happen m (wait_over j (streamed stream pc)) p).0 q fs
    → get_elem? q.peers i ≡ some (record { pc = some pc; local_stream = some stream })
late_grant_stays site = dropped_peer_keeps (script_of site)
