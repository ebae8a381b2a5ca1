-- ===== src/Api/Token/Schedule.antt =====
-- The schedule of the proactive refresh, and the base64 padding (frontend/lib/api.ts).
use pfv.Common.{
  ℕ, zero, suc, ◌+◌, ◌-◌, ◌*◌, ◌%◌, ◌≤◌, ◌<◌, true, some, [], ◌∷◌, ◌++◌, ◌≡◌, ◌⊎◌, inl, inr, arith,
  if◌then◌else◌, ◌==◌, length, length-append, Bool-cases, leb,
}
use pfv.Common.Int.{ℤ, pos, negsuc}
use pfv.Common.Text.{Text}
use pfv.Api.Token.{
  Runtime, Client, pad, near_expiry, is_access_token_near_expiry, delay_for,
  schedule_proactive_refresh,
}

pad-step :
    (n : ℕ) (s : Text) → pad (suc n) s ≡ (if length s % 4 == 0 then s else pad n (s ++ b'=' ∷ []))
unfolding pad
pad-step n s = ground arith

-- With enough rounds the padded text has a length divisible by four, and at most `n` more units.
length-pad_from :
    (n : ℕ) (s : Text)
    → 4 ≤ n + length s % 4 ⊎ (length s % 4 ≡ 0)
    → (length (pad n s) % 4 ≡ 0) × (length (pad n s) ≤ length s + n)
length-pad_from zero s h = unfold pad in (omega arith, omega arith)
length-pad_from (suc n) s h = elim (Bool-cases (length s % 4 == 0)) [
  | inl done ↦ rw (pad-step, done) (ground arith, omega arith)
  | inr more ↦
      rw (pad-step, more)
        (ground (arith, length-pad_from n (s ++ b'=' ∷ []), length-append s (b'=' ∷ [])))
]

-- The padding loop ends with a length that `atob` accepts, and appends at most three signs.
pub length-pad : (s : Text) → (length (pad 3 s) % 4 ≡ 0) × (length (pad 3 s) ≤ length s + 3)
length-pad s = length-pad_from 3 s (elim (Bool-cases (length s % 4 == 0)) [
  | inl done ↦ inr (ground arith)
  | inr more ↦ inl (ground arith)
])

delay_for-far :
    (e now : ℕ) → now + 60 < e → delay_for (pos e) now ≡ some (pos ((e - 60 - now) * 1000))
unfolding delay_for
delay_for-far e now h = ground arith

near_expiry_of_le : (e now : ℕ) → e ≤ now + 60 → near_expiry (pos e) now ≡ true
unfolding near_expiry
near_expiry_of_le e now h = ground arith

near_expiry_at : (e now : ℕ) → now + 60 < e → near_expiry (pos e) (now + (e - 60 - now)) ≡ true
unfolding near_expiry
near_expiry_at e now h = ground arith

near_expiry_of_negsuc : (e now : ℕ) → near_expiry (negsuc e) now ≡ true
unfolding near_expiry
near_expiry_of_negsuc e now = ground arith

-- The token is inside the window now, or a timer is armed for a moment when it will be.
abbrev pub IsCovered : Client → ℕ → Type 0
IsCovered c now =
    (is_access_token_near_expiry c now ≡ true)
    ⊎ ((s : ℕ) × (0 < s)
        × (c.timer ≡ some (pos (s * 1000)))
        × (is_access_token_near_expiry c (now + s) ≡ true))

-- Once a token with a readable expiry is scheduled in a browser, either the preflight of the next
-- request refreshes it, or a timer is armed for a whole positive number of seconds, and when it
-- fires on time the token is near its expiry, so that the timer's refresh is not skipped.
pub schedule_proactive_refresh-IsCovered :
    (rt : Runtime) (now : ℕ) (c : Client) (exp : ℤ)
    → rt.has_window ≡ true
    → c.access_token_exp ≡ some exp
    → IsCovered (schedule_proactive_refresh rt now c) now
unfolding schedule_proactive_refresh is_access_token_near_expiry
schedule_proactive_refresh-IsCovered rt now c (negsuc e) w h =
    inl (rw h (near_expiry_of_negsuc e now))
schedule_proactive_refresh-IsCovered rt now c (pos e) w h = elim (Bool-cases (leb e (now + 60))) [
  | inl near ↦ inl (rw h (near_expiry_of_le e now (ground arith)))
  | inr far ↦
      let late : now + 60 < e = ground arith in
      inr (
        e - 60 - now,
        omega arith,
        rw (w, h) (delay_for-far e now late),
        rw h (near_expiry_at e now late),
      )
]
