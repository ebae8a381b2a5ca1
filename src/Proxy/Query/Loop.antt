-- ===== src/Proxy/Query/Loop.antt =====
-- The loop of sanitizeQuery in frontend/proxy.ts against what it is for.
use pfv.Common.{
  ℕ, zero, suc, ◌≤◌, ◌≡◌, refl, sym, ap, ◌∙◌, arith, Bool, true, false, none, some, List, [], ◌∷◌,
  ◌++◌, if◌then◌else◌, any, length, get_elem?, All, Bool-cases, inl, inr,
}
use mathlib.Core.List.{append_assoc, append-nil}
use pfv.Common.Text.{Text, text_eq, text_eq_iff, text_eq_refl}
use pfv.Proxy.Query.{
  Params, is_sensitive, redacted_marker, drop_name, set_param, redact, redact_from, redact_params,
}

abbrev pub is_seen : Text → List Text → Bool
is_seen key seen = any (text_eq key) seen

-- The first pair of a sensitive name keeps its place without its value, the later ones of that name
-- go, and all others stay.
unfoldable pub redacted : (Text → Text) → List Text → Params → Params
redacted lower seen [] = []
redacted lower seen ((k, v) ∷ ps) =
    let again = redacted lower seen ps in
    let first = (k, redacted_marker) ∷ redacted lower (k ∷ seen) ps in
    if is_sensitive lower k then (if is_seen k seen then again else first) else (k, v) ∷ again

-- The pairs that are left once all names in `seen` have been set.
unfoldable drop_seen : List Text → Params → Params
drop_seen seen [] = []
drop_seen seen ((k, v) ∷ ps) =
    let rest = drop_seen seen ps in if is_seen k seen then rest else (k, v) ∷ rest

drop_name-drop_seen :
    (key : Text) (seen : List Text) (ps : Params)
    → drop_name key (drop_seen seen ps) ≡ drop_seen (key ∷ seen) ps
unfolding drop_name drop_seen
drop_name-drop_seen key seen [] = refl
drop_name-drop_seen key seen ((k, v) ∷ ps) = ground (arith, drop_name-drop_seen key seen ps)

drop_seen_none : (ps : Params) → drop_seen [] ps ≡ ps
unfolding drop_seen
drop_seen_none [] = refl
drop_seen_none ((k, v) ∷ ps) = ap (λ qs. (k, v) ∷ qs) (drop_seen_none ps)

abbrev IsOther : Text → Text × Text → Type 0
IsOther key p = text_eq p.0 key ≡ false

set_param-other :
    (key value v : Text) (before after : Params)
    → All (IsOther key) before
    → set_param key value (before ++ (key, v) ∷ after)
      ≡ before ++ (key, value) ∷ drop_name key after
unfolding set_param
set_param-other key value v [] after h = ground (arith, text_eq_refl key)
set_param-other key value v ((k, w) ∷ before) after (o, h) =
    ground (arith, set_param-other key value v before after h, o)

-- A sensitive name that the loop has passed is among the seen ones.
abbrev IsTold : (Text → Text) → List Text → Text × Text → Type 0
IsTold lower seen p = is_sensitive lower p.0 ≡ true → is_seen p.0 seen ≡ true

told-IsOther :
    (lower : Text → Text) (seen : List Text) (key : Text) (before : Params)
    → All (IsTold lower seen) before
    → is_sensitive lower key ≡ true
    → is_seen key seen ≡ false
    → All (IsOther key) before
told-IsOther lower seen key [] h s n = h
told-IsOther lower seen key ((k, v) ∷ before) (t, h) s n = (
  elim (Bool-cases (text_eq k key)) [
    | inl same ↦
        let e = (text_eq_iff k key).0 same in
        absurd (ground (arith, ap (λ x. is_seen x seen) e, t (ap (is_sensitive lower) e ∙ s), n))
    | inr other ↦ other
  ],
  told-IsOther lower seen key before h s n,
)

IsTold-more :
    (lower : Text → Text) (seen : List Text) (key : Text) (before : Params)
    → All (IsTold lower seen) before
    → All (IsTold lower (key ∷ seen)) before
IsTold-more lower seen key [] h = h
IsTold-more lower seen key ((k, v) ∷ before) (t, h) =
    (λ s. ground (arith, t s), IsTold-more lower seen key before h)

All-append_last :
    (P : Text × Text → Type 0) (ps : Params) (p : Text × Text)
    → All P ps
    → P p
    → All P (ps ++ p ∷ [])
All-append_last P [] p h k = (k, h)
All-append_last P (q ∷ ps) p (x, h) k = (x, All-append_last P ps p h k)

get_elem?-end : (ps : Params) (n : ℕ) → length ps ≤ n → get_elem? ps n ≡ none
get_elem?-end [] n h = refl
get_elem?-end (p ∷ ps) zero h = absurd (omega (arith, h))
get_elem?-end (p ∷ ps) (suc n) h = get_elem?-end ps n (omega (arith, h))

redact_from-end :
    (lower : Text → Text) (fuel : ℕ) (ps : Params) (n : ℕ)
    → length ps ≤ n
    → redact_from lower fuel n ps ≡ ps
unfolding redact_from
redact_from-end lower zero ps n h = refl
redact_from-end lower (suc fuel) ps n h =
    rw (get_elem?-end ps n h) (redact_from-end lower fuel ps (suc n) (omega (arith, h)))

get_elem?-middle :
    (before : Params) (p : Text × Text) (after : Params)
    → get_elem? (before ++ p ∷ after) (length before) ≡ some p
get_elem?-middle [] p after = refl
get_elem?-middle (q ∷ before) p after = get_elem?-middle before p after

length-append_last : (ps : Params) (p : Text × Text) → length (ps ++ p ∷ []) ≡ suc (length ps)
length-append_last [] p = refl
length-append_last (q ∷ ps) p = ap suc (length-append_last ps p)

-- The pair that the loop has passed joins those before it.
advance :
    (lower : Text → Text) (fuel : ℕ) (before : Params) (p : Text × Text) (rest result : Params)
    → redact_from lower fuel (length (before ++ p ∷ [])) ((before ++ p ∷ []) ++ rest)
      ≡ (before ++ p ∷ []) ++ result
    → redact_from lower fuel (suc (length before)) (before ++ p ∷ rest) ≡ before ++ p ∷ result
advance lower fuel before p rest result h =
    ap (redact_from lower fuel (suc (length before))) (sym (append_assoc before (p ∷ []) rest))
    ∙ ap (λ n. redact_from lower fuel n ((before ++ p ∷ []) ++ rest))
        (sym (length-append_last before p))
    ∙ h
    ∙ append_assoc before (p ∷ []) result

redact-middle :
    (lower : Text → Text) (before : Params) (k v : Text) (after : Params)
    → redact lower (get_elem? (before ++ (k, v) ∷ after) (length before)) (before ++ (k, v) ∷ after)
      ≡ redact lower (some (k, v)) (before ++ (k, v) ∷ after)
redact-middle lower before k v after =
    ap (λ o. redact lower o (before ++ (k, v) ∷ after)) (get_elem?-middle before (k, v) after)

-- The loop at a sensitive name that it meets for the first time.
redact-first :
    (lower : Text → Text) (seen : List Text) (before : Params) (k v : Text) (ps : Params)
    → is_sensitive lower k ≡ true
    → is_seen k seen ≡ false
    → All (IsTold lower seen) before
    → redact lower (some (k, v)) (before ++ (k, v) ∷ drop_seen seen ps)
      ≡ before ++ (k, redacted_marker) ∷ drop_seen (k ∷ seen) ps
redact-first lower seen before k v ps s n t = rw s (
    set_param-other k redacted_marker v before (drop_seen seen ps)
      (told-IsOther lower seen k before t s n)
    ∙ ap (λ qs. before ++ (k, redacted_marker) ∷ qs) (drop_name-drop_seen k seen ps))

sensitive_more :
    (lower : Text → Text) (seen : List Text) (k : Text)
    → ((key : Text) → is_seen key seen ≡ true → is_sensitive lower key ≡ true)
    → is_sensitive lower k ≡ true
    → (key : Text) → is_seen key (k ∷ seen) ≡ true
    → is_sensitive lower key ≡ true
sensitive_more lower seen k f s key h = elim (Bool-cases (text_eq key k)) [
  | inl same ↦ ap (is_sensitive lower) ((text_eq_iff key k).0 same) ∙ s
  | inr other ↦ f key (ground (arith, h, other))
]

redact_from-redacted :
    (lower : Text → Text) (fuel : ℕ) (seen : List Text) (before ps : Params)
    → length ps ≤ fuel
    → ((key : Text) → is_seen key seen ≡ true → is_sensitive lower key ≡ true)
    → All (IsTold lower seen) before
    → redact_from lower fuel (length before) (before ++ drop_seen seen ps)
      ≡ before ++ redacted lower seen ps
unfolding redact_from redacted drop_seen
redact_from-redacted lower fuel seen before [] h f t =
    redact_from-end lower fuel (before ++ []) (length before)
      (omega (arith, ap {B = ℕ} length (append-nil before)))
redact_from-redacted lower zero seen before ((k, v) ∷ ps) h f t = absurd (omega (arith, h))
redact_from-redacted lower (suc fuel) seen before ((k, v) ∷ ps) h f t =
    elim (Bool-cases (is_seen k seen)) [
      | inl known ↦
          rw (known, f k known)
            (redact_from-redacted lower (suc fuel) seen before ps (omega (arith, h)) f t)
      | inr new ↦ elim (Bool-cases (is_sensitive lower k)) [
        | inl secret ↦
            rw (new, secret)
              (ap (redact_from lower fuel (suc (length before))) (
                  redact-middle lower before k v (drop_seen seen ps)
                  ∙ redact-first lower seen before k v ps secret new t)
                ∙ advance lower fuel before (k, redacted_marker) (drop_seen (k ∷ seen) ps)
                    (redacted lower (k ∷ seen) ps)
                    (redact_from-redacted lower fuel (k ∷ seen)
                      (before ++ (k, redacted_marker) ∷ []) ps (omega (arith, h))
                      (sensitive_more lower seen k f secret)
                      (All-append_last (IsTold lower (k ∷ seen)) before (k, redacted_marker)
                        (IsTold-more lower seen k before t) (λ s. ground (arith, text_eq_refl k)))))
        | inr plain ↦
            rw (new, plain)
              (ap (redact_from lower fuel (suc (length before)))
                  (redact-middle lower before k v (drop_seen seen ps) ∙ rw plain refl)
                ∙ advance lower fuel before (k, v) (drop_seen seen ps) (redacted lower seen ps)
                    (redact_from-redacted lower fuel seen (before ++ (k, v) ∷ []) ps
                      (omega (arith, h)) f
                      (All-append_last (IsTold lower seen) before (k, v) t (λ s. absurd (cc)))))
      ]
    ]

-- The loop over the keys of a list that it changes leaves the first pair of each sensitive name with
-- the marker for its value, drops the later pairs of that name and keeps all others in their order.
pub redact_params-redacted :
    (lower : Text → Text) (ps : Params) → redact_params lower ps ≡ redacted lower [] ps
unfolding redact_params
redact_params-redacted lower ps =
    ap (redact_from lower (length ps) 0) (sym (drop_seen_none ps))
    ∙ redact_from-redacted lower (length ps) [] [] ps (omega arith) (λ key h. cc) tt
