-- ===== src/Batch/Entry/Keys.antt =====
-- The keys of the rows of batch entry, and what each handler does with them
-- (frontend/app/transactions/batch/page.tsx).
use pfv.Common.{
  ℕ, zero, suc, ◌+◌, ◌<◌, ◌≤◌, ◌≡◌, ◌∙◌, refl, ap, sym, subst, arith, Bool, false, Option, none,
  some, List, [], ◌∷◌, ◌++◌, map, ◌==◌, length, filter_by, All, All-append, All-imp, either,
  Bool-cases, ◌≢◌, ==_iff, inl, inr,
}
use pfv.Batch.Entry.{
  DraftRow, Browser, Response, Page, Patch, patched, blank_rows, update_row, pick, without,
  pick_suggestion, set_date, set_description, set_amount, set_type, set_account, set_category,
  set_tx_status,
}
use pfv.Batch.Entry.Submits.{marked, splat_row, splat}

-- No key is there twice.
abbrev pub Distinct : List ℕ → Type 0
Distinct [] = Unit
Distinct (k ∷ ks) = All (λ l. (l == k) ≡ false) ks × Distinct ks

abbrev pub keys : List DraftRow → List ℕ
keys rows = map (λ row. row.key) rows

-- The key is one of those that the first `calls` calls have returned.
abbrev pub Issued : Browser → ℕ → ℕ → Type 0
Issued b calls k = (n : ℕ) × (n < calls) × (k ≡ b.random_uuid n)

-- The calls of `crypto.randomUUID()` return different identifiers.
abbrev pub IsUnique : Browser → Type 0
IsUnique b = (m n : ℕ) → b.random_uuid m ≡ b.random_uuid n → m ≡ n

abbrev pub sent_keys : Option (List DraftRow) → List ℕ
sent_keys none = []
sent_keys (some sent) = keys sent

-- A grid of 1 to 500 rows with different keys, and captured rows with different keys.
abbrev pub IsSound : Browser → Page → Type 0
IsSound b p =
    (1 ≤ length p.rows)
    × (length p.rows ≤ 500)
    × Distinct (keys p.rows)
    × All (Issued b p.calls) (keys p.rows)
    × Distinct (sent_keys p.in_flight)

pub length-keys : (rows : List DraftRow) → length (keys rows) ≡ length rows
length-keys [] = refl
length-keys (row ∷ rows) = ap suc (length-keys rows)

-- Handlers that keep the keys.
patched-key : (patch : Patch) (row : DraftRow) → (patched patch row).key ≡ row.key
patched-key (set_date d) row = refl
patched-key (set_description d) row = refl
patched-key (set_amount a) row = refl
patched-key (pick_suggestion d c) row = refl
patched-key (set_type t) row = refl
patched-key (set_account a) row = refl
patched-key (set_category c) row = refl
patched-key (set_tx_status s) row = refl

pub keys-update_row :
    (idx : ℕ) (patch : Patch) (rows : List DraftRow) → keys (update_row idx patch rows) ≡ keys rows
unfolding update_row
keys-update_row idx patch [] = refl
keys-update_row zero patch (row ∷ rows) = ap (λ k. k ∷ keys rows) (patched-key patch row)
keys-update_row (suc idx) patch (row ∷ rows) =
    ap (λ ks. row.key ∷ ks) (keys-update_row idx patch rows)

pub keys-pick :
    (idx : ℕ) (d : List ℕ) (c : ℕ) (rows : List DraftRow) → keys (pick idx d c rows) ≡ keys rows
unfolding pick update_row
keys-pick idx d c [] = refl
keys-pick zero d c (row ∷ rows) = ground arith
keys-pick (suc idx) d c (row ∷ rows) = ap (λ ks. row.key ∷ ks) (keys-pick idx d c rows)

pub key-marked : (resp : Response) (n : ℕ) (row : DraftRow) → (marked resp n row).key ≡ row.key
unfolding marked
key-marked resp n row = ground arith

pub keys-splat_row :
    (resp : Response) (key n : ℕ) (rows : List DraftRow)
    → keys (splat_row resp key n rows) ≡ keys rows
unfolding splat_row
keys-splat_row resp key n [] = refl
keys-splat_row resp key n (row ∷ rows) =
    ground (arith, key-marked resp n row, keys-splat_row resp key n rows)

pub keys-splat :
    (resp : Response) (n : ℕ) (ps rows : List DraftRow) → keys (splat resp n ps rows) ≡ keys rows
unfolding splat
keys-splat resp n [] rows = refl
keys-splat resp n (p ∷ ps) rows =
    cc (keys-splat resp (n + 1) ps (splat_row resp p.key n rows), keys-splat_row resp p.key n rows)

-- A list of fresh keys at the end.
pub Distinct-append :
    (ks : List ℕ) (k : ℕ) → Distinct ks → All (λ l. (k == l) ≡ false) ks → Distinct (ks ++ k ∷ [])
Distinct-append [] k d h = (tt, tt)
Distinct-append (l ∷ ks) k (f, d) (e, h) =
    (All-append (λ m. (m == l) ≡ false) ks (k ∷ []) f (e, tt), Distinct-append ks k d h)

module _ (b : Browser) where
  IsOther : IsUnique b → (m n k : ℕ) → m ≢ n → k ≡ b.random_uuid n → (k == b.random_uuid m) ≡ false
  IsOther u m n k ne e = elim (Bool-cases (k == b.random_uuid m)) [
    | inl t ↦ absurd (ne (u m n (sym ((==_iff k (b.random_uuid m)).0 t) ∙ e)))
    | inr f ↦ f
  ]

  pub Issued-fresh :
      IsUnique b
      → (calls : ℕ) (ks : List ℕ) → All (Issued b calls) ks
      → All (λ l. (b.random_uuid calls == l) ≡ false) ks
  Issued-fresh u calls =
      All-imp (Issued b calls) (λ l. (b.random_uuid calls == l) ≡ false)
        λ k (n, l, e).
          subst (λ j. (b.random_uuid calls == j) ≡ false) (sym e)
            (IsOther u n calls (b.random_uuid calls) (λ q. omega (arith, l, q)) refl)

  abbrev pub Later : (calls n : ℕ) → ℕ → Type 0
  Later calls n k = (i : ℕ) × (calls ≤ i) × (i < calls + n) × (k ≡ b.random_uuid i)

  -- A new grid: its keys are issued one after the other.
  pub blank_rows-Later : (n calls : ℕ) → All (Later calls n) (keys (blank_rows b n calls))
  blank_rows-Later zero calls = tt
  blank_rows-Later (suc n) calls = (
    (calls, omega arith, omega arith, refl),
    All-imp (Later (suc calls) n) (Later calls (suc n))
        (λ k (i, g, l, e). (i, omega (arith, g), omega (arith, l), e))
        (keys (blank_rows b n (suc calls))) (blank_rows-Later n (suc calls)),
  )

  pub blank_rows-Distinct : IsUnique b → (n calls : ℕ) → Distinct (keys (blank_rows b n calls))
  blank_rows-Distinct u zero calls = tt
  blank_rows-Distinct u (suc n) calls = (
    All-imp (Later (suc calls) n) (λ l. (l == b.random_uuid calls) ≡ false)
        (λ k (i, g, l, e). IsOther u calls i k (λ q. omega (arith, g, q)) e)
        (keys (blank_rows b n (suc calls))) (blank_rows-Later n (suc calls)),
    blank_rows-Distinct u n (suc calls),
  )

-- Rows that leave the grid.
pub All-without :
    (P : ℕ → Type 0) (idx : ℕ) (rows : List DraftRow)
    → All P (keys rows)
    → All P (keys (without idx rows))
unfolding without
All-without P idx [] h = tt
All-without P zero (row ∷ rows) (p, h) = h
All-without P (suc idx) (row ∷ rows) (p, h) = (p, All-without P idx rows h)

pub Distinct-without :
    (idx : ℕ) (rows : List DraftRow) → Distinct (keys rows) → Distinct (keys (without idx rows))
unfolding without
Distinct-without idx [] d = tt
Distinct-without zero (row ∷ rows) (f, d) = d
Distinct-without (suc idx) (row ∷ rows) (f, d) =
    (All-without (λ l. (l == row.key) ≡ false) idx rows f, Distinct-without idx rows d)

pub length-without :
    (idx : ℕ) (rows : List DraftRow)
    → (length (without idx rows) ≤ length rows) × (length rows ≤ suc (length (without idx rows)))
unfolding without
length-without idx [] = (omega arith, omega arith)
length-without zero (row ∷ rows) = (omega arith, omega arith)
length-without (suc idx) (row ∷ rows) =
    let (l, g) = length-without idx rows in (omega (arith, l), omega (arith, g))

pub keys-filter_by :
    (P : ℕ → Type 0) (q : DraftRow → Bool) (rows : List DraftRow)
    → All P (keys rows)
    → All P (keys (filter_by q rows))
keys-filter_by P q [] h = tt
keys-filter_by P q (row ∷ rows) (p, h) =
    let rest = keys-filter_by P q rows h in either (λ rs. All P (keys rs)) (q row) (p, rest) rest

pub Distinct-filter_by :
    (q : DraftRow → Bool) (rows : List DraftRow)
    → Distinct (keys rows)
    → Distinct (keys (filter_by q rows))
Distinct-filter_by q [] d = tt
Distinct-filter_by q (row ∷ rows) (f, d) =
    let rest = Distinct-filter_by q rows d in
    either (λ rs. Distinct (keys rs)) (q row)
      (keys-filter_by (λ l. (l == row.key) ≡ false) q rows f, rest) rest
