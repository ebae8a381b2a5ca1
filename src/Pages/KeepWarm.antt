-- ===== src/Pages/KeepWarm.antt =====
-- startKeepWarm of frontend/lib/keep-warm.ts: a ping every four minutes while the tab is visible and
-- the user signed in. The state is the closure's variables with the browser's side: whether the
-- document is hidden, the live intervals by their handles, and the pings that were sent.
pub mod Silence
use pfv.Common.{
  ℕ, suc, Bool, true, false, ◌||◌, not, Option, none, some, List, [], ◌∷◌, if◌then◌else◌, ◌==◌,
  is_some, any,
}

abbrev pub keep_warm_interval_ms : ℕ
keep_warm_interval_ms = 240_000

pub record Heartbeat : Type 0 where
  pub timer : Option ℕ
  pub stopped_permanently : Bool
  pub listening : Bool
  pub document_hidden : Bool
  pub live : List ℕ
  pub handles : ℕ
  pub pings : ℕ

-- A failed ping is swallowed, so only its sending counts.
unfoldable pub ping : Heartbeat → Heartbeat
ping b = if b.document_hidden then b else record b { pings = suc b.pings }

-- `setInterval`, whose handle is kept.
abbrev set_interval : Heartbeat → Heartbeat
set_interval b = record b {
  timer = some b.handles;
  live = b.handles ∷ b.live;
  handles = suc b.handles;
}

-- `clearInterval`
abbrev pub without : ℕ → List ℕ → List ℕ
without h [] = []
without h (x ∷ xs) = let rest = without h xs in if x == h then rest else x ∷ rest

unfoldable pub start : Heartbeat → Heartbeat
unfolding ping
start b = if b.stopped_permanently || is_some b.timer then b else set_interval (ping b)

abbrev stop_timer : Option ℕ → Heartbeat → Heartbeat
stop_timer none b = b
stop_timer (some h) b = record b { timer = none; live = without h b.live }

unfoldable pub stop : Heartbeat → Heartbeat
stop b = stop_timer b.timer b

unfoldable pub on_visibility_change : Heartbeat → Heartbeat
unfolding start stop
on_visibility_change b = if b.document_hidden then stop b else start b

unfoldable pub on_unauthenticated : Heartbeat → Heartbeat
unfolding stop
on_unauthenticated b = stop (record b { stopped_permanently = true })

-- The returned function: the timer ends and both listeners are removed.
unfoldable pub cleanup : Heartbeat → Heartbeat
unfolding stop
cleanup b = record (stop b) { listening = false }

-- `hides` and `shows` change document.hidden, before its event; `tick h` is interval `h` coming due.
pub data Beat : Type 0 where
  hides shows visibility_event unauthenticated unmount : Beat
  tick : (handle : ℕ) → Beat

abbrev pub is_live : ℕ → Heartbeat → Bool
is_live h b = any (λ x. x == h) b.live

unfoldable pub beat : Beat → Heartbeat → Heartbeat
unfolding ping on_visibility_change on_unauthenticated cleanup
beat hides b = record b { document_hidden = true }
beat shows b = record b { document_hidden = false }
beat visibility_event b = if b.listening then on_visibility_change b else b
beat unauthenticated b = if b.listening then on_unauthenticated b else b
beat unmount b = cleanup b
beat (tick h) b = if is_live h b then ping b else b

unfoldable pub beat_all : List Beat → Heartbeat → Heartbeat
unfolding beat
beat_all [] b = b
beat_all (a ∷ rest) b = beat_all rest (beat a b)

-- A call of startKeepWarm in a document that is hidden or not.
unfoldable pub start_keep_warm : Bool → Heartbeat
unfolding start
start_keep_warm hidden = start (record {
  timer = none;
  stopped_permanently = false;
  listening = true;
  document_hidden = hidden;
  live = [];
  handles = 0;
  pings = 0;
})
