-- ===== src/SpotSink/Ledger.antt =====
-- The counts that `SpotSink` of wspr_recorder/spot_sink.py keeps of its rows.
use wspr_recorder.Common.{
  ℕ, ◌+◌, Bool, true, false, Option, none, some, List, [], ◌∷◌, ◌≡◌, refl, arith, inl, inr, ◌==◌,
  if◌then◌else◌, if_intro, length, Option-cases, subst,
}
use wspr_recorder.SpotSink.Sink.{TableWriter, SpotSink, convert_rows, insert_rows, submit_rows}

-- The rows that are accounted for.
abbrev pub ledger : {W V : Type 0} → SpotSink W V → ℕ
ledger s = s.rows_written + s.rows_dropped

-- An enabled sink that has its writer.
abbrev pub has_writer : {W V : Type 0} → SpotSink W V → Bool
has_writer s = if s.enabled then (elim s.writer [ none ↦ false | some _ ↦ true ]) else false

convert_rows-Counts {ℓ κ} :
    {A : Type ℓ} {X : Type κ} (row : A → Option X) (items : List A)
    → length (convert_rows row items).0 + (convert_rows row items).1 ≡ length items
unfolding convert_rows
convert_rows-Counts row [] = omega arith
convert_rows-Counts row (a ∷ items) = ground (arith, convert_rows-Counts row items)

-- The rows that come of the items, in their order.
abbrev pub converted {ℓ κ} : {A : Type ℓ} {X : Type κ} → (A → Option X) → List A → List X
converted row [] = []
converted row (a ∷ items) = elim (row a) [
  | none ↦ converted row items
  | some x ↦ x ∷ converted row items
]

convert_rows-converted {ℓ κ} :
    {A : Type ℓ} {X : Type κ} (row : A → Option X) (items : List A)
    → (convert_rows row items).0 ≡ converted row items
unfolding convert_rows
convert_rows-converted row [] = refl
convert_rows-converted row (a ∷ items) = ground (arith, convert_rows-converted row items)

-- What a submission of some items does to a sink with its writer: it returns the rows that it
-- wrote, counts every other item as dropped, and keeps its writer.
abbrev pub Accounts : {W V : Type 0} → ℕ → SpotSink W V → ℕ × SpotSink W V → Type 0
Accounts items s (n, t) =
    (t.rows_written ≡ s.rows_written + n) × (ledger t ≡ ledger s + items) × (has_writer t ≡ true)

module _ {W V X : Type 0} (spots : TableWriter W X) where
  insert_rows-Accounts :
      (w : W) (rows : List X) (bad : ℕ) (s : SpotSink W V)
      → s.enabled ≡ true
      → s.writer ≡ some w
      → Accounts (length rows + bad) s (insert_rows spots w (rows, bad) s)
  unfolding insert_rows
  insert_rows-Accounts w rows bad s e h =
      if_intro (Accounts (length rows + bad) s) (length rows == 0) (λ t. ground arith)
        (λ _.
          if_intro (Accounts (length rows + bad) s) (spots.insert rows w).0
            (λ _. (omega arith, omega arith, rw e refl))
            (λ _. (omega arith, omega arith, rw e refl)))

  -- The books of a submission.
  pub submit_rows-Counts {ℓ} :
      {A : Type ℓ} (row : A → Option X) (items : List A) (s : SpotSink W V)
      → has_writer s ≡ true
      → Accounts (length items) s (submit_rows spots row items s)
  unfolding submit_rows
  submit_rows-Counts row items s h = elim (Option-cases s.writer) [
    | inl n ↦ absurd (ground arith)
    | inr (w, p) ↦
        let e : s.enabled ≡ true = ground arith in
        rw e (
          rw p (
            subst (λ n. Accounts n s (insert_rows spots w (convert_rows row items) s))
              (convert_rows-Counts row items)
              (insert_rows-Accounts w (convert_rows row items).0 (convert_rows row items).1 s e p)))
  ]

  -- What a submission to a writer does with the rows: it hands them over where there are any, and
  -- returns their number where the writer takes them, and 0 where it raises.
  abbrev pub HandsOver : W → List X → ℕ × SpotSink W V → Type 0
  HandsOver w rows (n, t) =
      (n ≡ (if (spots.insert rows w).0 then length rows else 0))
      × (t.writer ≡ some (if length rows == 0 then w else (spots.insert rows w).1))

  insert_rows-HandsOver :
      (w : W) (rows : List X) (bad : ℕ) (s : SpotSink W V)
      → s.writer ≡ some w
      → HandsOver w rows (insert_rows spots w (rows, bad) s)
  unfolding insert_rows
  insert_rows-HandsOver w rows bad s h =
      if_intro (HandsOver w rows) (length rows == 0) (λ t. (ground arith, rw t h))
        (λ f.
          if_intro (HandsOver w rows) (spots.insert rows w).0 (λ t. (rw t refl, rw f refl))
            (λ g. (rw g refl, rw f refl)))

  -- A submission to an enabled sink with its writer counts every item once, as written or as
  -- dropped, and hands the rows of the items that convert to the writer, in their order, where there
  -- are any. Where the writer takes them, they are what is counted as written and returned; where it
  -- raises, nothing is, and they are counted as dropped with the items that do not convert.
  pub submit_rows-Accounts {ℓ} :
      {A : Type ℓ} (row : A → Option X) (items : List A) (s : SpotSink W V) (w : W)
      → s.enabled ≡ true
      → s.writer ≡ some w
      → Accounts (length items) s (submit_rows spots row items s)
        × HandsOver w (converted row items) (submit_rows spots row items s)
  unfolding submit_rows
  submit_rows-Accounts row items s w e h = (
    submit_rows-Counts row items s (rw (e, h) refl),
    rw e (
        rw h (
          subst (λ xs. HandsOver w xs (insert_rows spots w (convert_rows row items) s))
            (convert_rows-converted row items)
            (insert_rows-HandsOver w (convert_rows row items).0 (convert_rows row items).1 s h))),
  )
