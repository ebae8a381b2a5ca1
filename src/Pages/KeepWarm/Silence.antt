-- ===== src/Pages/KeepWarm/Silence.antt =====
-- When the heartbeat of frontend/lib/keep-warm.ts is silent, and that it holds one interval at most.
use pfv.Common.{
  ℕ, suc, ◌≡◌, refl, ◌∙◌, arith, Bool, true, false, ◌||◌, not, Option, none, some, List, [], ◌∷◌,
}
use pfv.Pages.KeepWarm.{
  Heartbeat, Beat, hides, shows, visibility_event, unauthenticated, unmount, tick, ping, start,
  stop, on_visibility_change, on_unauthenticated, cleanup, beat, beat_all, start_keep_warm,
}

abbrev handles_of : Option ℕ → List ℕ
handles_of none = []
handles_of (some h) = h ∷ []

-- The only live interval is the one that `timer` names, and there is none once the user is signed
-- out or the component unmounted.
pub record IsSingle (b : Heartbeat) : Type 0 where
  pub own : b.live ≡ handles_of b.timer
  pub ended : (b.stopped_permanently || not b.listening) ≡ true → b.timer ≡ none

stop_fields :
    (b : Heartbeat) → b.live ≡ handles_of b.timer → ((stop b).live ≡ []) × ((stop b).timer ≡ none)
unfolding stop
stop_fields b h = ground arith

start-IsSingle : (b : Heartbeat) → b.listening ≡ true → IsSingle b → IsSingle (start b)
unfolding start ping
start-IsSingle b l h = record { own = ground (arith, h.own); ended = ground (arith, h.ended) }

stop-IsSingle : (b : Heartbeat) → IsSingle b → IsSingle (stop b)
unfolding stop
stop-IsSingle b h = record { own = ground (arith, h.own); ended = ground (arith, h.ended) }

unauthenticated-IsSingle : (b : Heartbeat) → IsSingle b → IsSingle (on_unauthenticated b)
unfolding on_unauthenticated stop
unauthenticated-IsSingle b h = record {
  own = ground (arith, h.own);
  ended = ground (arith, h.ended);
}

cleanup-IsSingle : (b : Heartbeat) → IsSingle b → IsSingle (cleanup b)
unfolding cleanup stop
cleanup-IsSingle b h = record { own = ground (arith, h.own); ended = ground (arith, h.ended) }

visibility-IsSingle :
    (b : Heartbeat) → b.listening ≡ true → IsSingle b → IsSingle (on_visibility_change b)
unfolding on_visibility_change
visibility-IsSingle b l h = ground (arith, start-IsSingle b l h, stop-IsSingle b h)

ping-IsSingle : (b : Heartbeat) → IsSingle b → IsSingle (ping b)
unfolding ping
ping-IsSingle b h = record { own = ground (arith, h.own); ended = ground (arith, h.ended) }

beat-IsSingle : (a : Beat) (b : Heartbeat) → IsSingle b → IsSingle (beat a b)
unfolding beat
beat-IsSingle hides b h = record { own = h.own; ended = h.ended }
beat-IsSingle shows b h = record { own = h.own; ended = h.ended }
beat-IsSingle visibility_event b h = ground (arith, visibility-IsSingle b, h)
beat-IsSingle unauthenticated b h = ground (arith, unauthenticated-IsSingle b h, h)
beat-IsSingle unmount b h = cleanup-IsSingle b h
beat-IsSingle (tick k) b h = ground (arith, ping-IsSingle b h, h)

beat_all-IsSingle_from :
    (trace : List Beat) (b : Heartbeat) → IsSingle b → IsSingle (beat_all trace b)
unfolding beat_all
beat_all-IsSingle_from [] b h = h
beat_all-IsSingle_from (a ∷ rest) b h = beat_all-IsSingle_from rest (beat a b) (beat-IsSingle a b h)

start_keep_warm-IsSingle : (hidden : Bool) → IsSingle (start_keep_warm hidden)
unfolding start_keep_warm start ping
start_keep_warm-IsSingle true = record { own = refl; ended = λ e. cc }
start_keep_warm-IsSingle false = record { own = refl; ended = λ e. cc }

-- Whatever the browser does, at most one interval is ever alive, it is the one that the closure can
-- clear, and none is alive once the user is signed out or the component is unmounted.
pub beat_all-IsSingle :
    (trace : List Beat) (hidden : Bool) → IsSingle (beat_all trace (start_keep_warm hidden))
beat_all-IsSingle trace hidden =
    beat_all-IsSingle_from trace (start_keep_warm hidden) (start_keep_warm-IsSingle hidden)

-- The end of the heartbeat, from which on it is silent.
abbrev IsOver : Heartbeat → Type 0
IsOver b = (b.stopped_permanently || not b.listening) ≡ true

silent :
    (a : Beat) (b : Heartbeat)
    → IsSingle b
    → IsOver b
    → IsOver (beat a b) × ((beat a b).pings ≡ b.pings)
unfolding beat ping on_visibility_change on_unauthenticated cleanup start stop
silent hides b h o = (o, refl)
silent shows b h o = (o, refl)
silent visibility_event b h o = ground (arith, h.ended o)
silent unauthenticated b h o = ground (arith, h.ended o)
silent unmount b h o = ground (arith, h.ended o)
silent (tick k) b h o = ground (arith, h.ended o, h.own)

all_silent :
    (trace : List Beat) (b : Heartbeat) → IsSingle b → IsOver b → (beat_all trace b).pings ≡ b.pings
unfolding beat_all
all_silent [] b h o = refl
all_silent (a ∷ rest) b h o =
    all_silent rest (beat a b) (beat-IsSingle a b h) (silent a b h o).0 ∙ (silent a b h o).1

-- Signing out or unmounting.
abbrev pub is_end : Beat → Bool
is_end unauthenticated = true
is_end unmount = true
is_end _ = false

end-IsOver : (a : Beat) (b : Heartbeat) → is_end a ≡ true → IsSingle b → IsOver (beat a b)
unfolding beat on_unauthenticated cleanup stop
end-IsOver unauthenticated b e h = ground (arith, h.own)
end-IsOver unmount b e h = ground (arith, h.own)
end-IsOver hides b e h = cc
end-IsOver shows b e h = cc
end-IsOver visibility_event b e h = cc
end-IsOver (tick k) b e h = cc

end_silent : (a : Beat) (b : Heartbeat) → is_end a ≡ true → (beat a b).pings ≡ b.pings
unfolding beat on_unauthenticated cleanup stop
end_silent unauthenticated b e = ground arith
end_silent unmount b e = ground arith
end_silent hides b e = refl
end_silent shows b e = refl
end_silent visibility_event b e = cc
end_silent (tick k) b e = cc

-- After any history, once the user is signed out or the component unmounted, no later event makes
-- the heartbeat ping again, the tab becoming visible included.
pub beat_all-silent :
    (before after : List Beat) (hidden : Bool) (a : Beat)
    → is_end a ≡ true
    → let b = beat_all before (start_keep_warm hidden) in
      (beat_all after (beat a b)).pings ≡ b.pings
beat_all-silent before after hidden a e =
    let b = beat_all before (start_keep_warm hidden) in
    let h : IsSingle b = beat_all-IsSingle before hidden in
    all_silent after (beat a b) (beat-IsSingle a b h) (end-IsOver a b e h) ∙ end_silent a b e

-- While the document is hidden no event, not even a due interval, makes the heartbeat ping.
pub beat-hidden : (a : Beat) (b : Heartbeat) → b.document_hidden ≡ true → (beat a b).pings ≡ b.pings
unfolding beat ping on_visibility_change on_unauthenticated cleanup start stop
beat-hidden a b h = ground arith

-- A tab of a signed-in user that was hidden, so that the timer stopped, and is shown again pings at
-- once and has an interval again, which pings when it comes due.
pub visible-resumes :
    (b : Heartbeat)
    → b.listening ≡ true
    → b.stopped_permanently ≡ false
    → b.timer ≡ none
    → let shown = beat_all (shows ∷ visibility_event ∷ []) b in
      (shown.pings ≡ suc b.pings) × ((beat (tick b.handles) shown).pings ≡ suc (suc b.pings))
unfolding beat_all beat ping on_visibility_change start
visible-resumes b l s t = ground arith
