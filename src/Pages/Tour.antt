-- ===== src/Pages/Tour.antt =====
-- The product tour of frontend/components/tour/useTour.ts: a list of step ids that is walked from
-- the first to past the last. `start` is guarded until the microtask that it queues has run.
pub mod Walk
use pfv.Common.{
  ℕ, zero, suc, Bool, true, false, ◌&&◌, not, Option, none, some, List, [], ◌∷◌, if◌then◌else◌, leb,
  length, get_elem?,
}
use pfv.Common.Int.{ℤ, pos, negsuc}
use pfv.Common.Text.{Text}

pub data TourPhase : Type 0 where
  idle active finished : TourPhase

pub record TourState : Type 0 where
  pub phase : TourPhase
  pub steps : List Text
  pub index : ℤ

abbrev pub initial_state : TourState
initial_state = record { phase = idle; steps = []; index = negsuc 0 }

abbrev pub is_active_phase : TourPhase → Bool
is_active_phase active = true
is_active_phase _ = false

abbrev pub finish_at : TourState → TourState
finish_at s = record { phase = finished; steps = s.steps; index = negsuc 0 }

-- `index + 1`, past the end of the list the tour finishes.
abbrev pub next_index : ℤ → ℤ
next_index (pos n) = pos (suc n)
next_index (negsuc zero) = pos 0
next_index (negsuc (suc n)) = negsuc n

abbrev pub reaches : ℤ → ℕ → Bool
reaches (pos n) total = leb total n
reaches (negsuc n) total = false

unfoldable pub next : TourState → TourState
next s =
    if not (is_active_phase s.phase)
    then s
    else if reaches (next_index s.index) (length s.steps)
    then finish_at s
    else record s { index = next_index s.index }

-- `index <= 0` leaves the state alone, else it becomes `index - 1`.
abbrev pub prev_index : ℤ → ℤ
prev_index (pos (suc n)) = pos n
prev_index i = i

unfoldable pub prev : TourState → TourState
prev s = if not (is_active_phase s.phase) then s else record s { index = prev_index s.index }

unfoldable pub close : TourState → TourState
close s = if not (is_active_phase s.phase) then s else finish_at s

-- The hook's state, with the guard of `start`.
pub record Engine : Type 0 where
  pub state : TourState
  pub guard : Bool

abbrev pub mounted : Engine
mounted = record { state = initial_state; guard = false }

abbrev begin_at : List Text → Engine → Engine
begin_at [] e = e
begin_at (step ∷ steps) e = record {
  state = record { phase = active; steps = step ∷ steps; index = pos 0 };
  guard = true;
}

unfoldable pub start : List Text → Engine → Engine
start steps e = if e.guard then e else begin_at steps e

-- What a component or the browser does to the tour; `microtask` is the end of `start`'s guard.
pub data TourAction : Type 0 where
  on_start : (steps : List Text) → TourAction
  microtask on_next on_prev on_close on_finish on_reset : TourAction

unfoldable pub act : TourAction → Engine → Engine
unfolding start next prev close
act (on_start steps) e = start steps e
act microtask e = record e { guard = false }
act on_next e = record e { state = next e.state }
act on_prev e = record e { state = prev e.state }
act on_close e = record e { state = close e.state }
act on_finish e = record e { state = finish_at e.state }
act on_reset e = record e { state = initial_state }

unfoldable pub act_all : List TourAction → Engine → Engine
unfolding act
act_all [] e = e
act_all (a ∷ rest) e = act_all rest (act a e)

-- `steps[index] ?? null` where the index is not negative
abbrev step_at : List Text → ℤ → Option Text
step_at steps (pos n) = get_elem? steps n
step_at steps (negsuc n) = none

unfoldable pub current_step : TourState → Option Text
current_step s = if is_active_phase s.phase then step_at s.steps s.index else none

unfoldable pub current_index : TourState → ℤ
current_index s = if is_active_phase s.phase then s.index else negsuc 0
