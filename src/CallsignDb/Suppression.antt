-- ===== src/CallsignDb/Suppression.antt =====
-- The cache of rejected calls of wspr_recorder/callsign_db.py, and the exports that leave them out.
use wspr_recorder.Common.{
  ℕ, ◌-◌, ◌<◌, Bool, true, false, Option, some, List, [], ◌∷◌, ◌≡◌, refl, sym, ap, ◌∙◌, subst,
  arith, inl, inr, ◌⊎◌,
}
use wspr_recorder.Common.Dict.{Dict, contains, get_or, chars_eq}
use wspr_recorder.Common.Logs.{Log, Recent, Answered, Answered-Recent}
use wspr_recorder.Common.Texts.{Chars, empty}
use wspr_recorder.CallsignDb.{
  HashTable, CallsignDb, suppressed_for_rx, write_wsprd_hashtable, write_jt9_calls, grids,
}

-- What the audit answered, each with the time of the question.
abbrev pub Answers : Type 0
Answers = Log (List Chars)

abbrev pub asked : ℕ → Option (List Chars) → Answers → Answers
asked now answer log = (now, get_or [] answer) ∷ log

some_injective : (a b : List Chars) → some a ≡ some b → a ≡ b
some_injective a b p = ap (get_or []) p

module _ {T : Type 0} where
  -- The cache, if there is one, is the answer of the time that stands with it.
  abbrev pub Remembers : Answers → CallsignDb T → Type 0
  Remembers log db =
      (calls : List Chars)
      → db.suppressed_cache ≡ some calls
      → Answered db.suppressed_cache_at log calls

  -- In a run of questions to the database, each result is recent among the answers so far.
  abbrev pub AllRecent : Answers → List (ℕ × Option (List Chars)) → CallsignDb T → Type 0
  AllRecent log [] db = Unit
  AllRecent log ((now, answer) ∷ qs) db =
      let r = suppressed_for_rx now answer db in
      Recent 60000 now (asked now answer log) r.0 × AllRecent (asked now answer log) qs r.1

  Both : ℕ → Option (List Chars) → Answers → List Chars × CallsignDb T → Type 0
  Both now answer log r =
      Recent 60000 now (asked now answer log) r.0
      × (Remembers (asked now answer log) r.1 × (empty r.1.rx_call ≡ false))

  -- A fresh consultation, and the database with its answer in the cache.
  consulted : ℕ → Option (List Chars) → CallsignDb T → List Chars × CallsignDb T
  consulted now answer db = (
    get_or [] answer,
    record db { suppressed_cache = some (get_or [] answer); suppressed_cache_at = now },
  )

  suppressed_for_rx-cases :
      (now : ℕ) (answer : Option (List Chars)) (db : CallsignDb T)
      → empty db.rx_call ≡ false
      → (suppressed_for_rx now answer db ≡ consulted now answer db)
        ⊎ ((calls : List Chars) × (db.suppressed_cache ≡ some calls)
            × (now - db.suppressed_cache_at < 60000)
            × (suppressed_for_rx now answer db ≡ (calls, db)))
  unfolding suppressed_for_rx consulted
  suppressed_for_rx-cases now answer db set = ground arith

  consulted-Both :
      (now : ℕ) (answer : Option (List Chars)) (log : Answers) (db : CallsignDb T)
      → empty db.rx_call ≡ false
      → Both now answer log (consulted now answer db)
  unfolding Both consulted
  consulted-Both now answer log db set = (
    inl (refl, omega arith),
    ((λ c p. inl (sym (some_injective (get_or [] answer) c p), refl)), set),
  )

  cached-Both :
      (now : ℕ) (answer : Option (List Chars)) (log : Answers) (db : CallsignDb T)
      (calls : List Chars)
      → empty db.rx_call ≡ false
      → Remembers log db
      → db.suppressed_cache ≡ some calls
      → now - db.suppressed_cache_at < 60000
      → Both now answer log (calls, db)
  unfolding Both
  cached-Both now answer log db calls set m e h = (
    inr (Answered-Recent 60000 now db.suppressed_cache_at log calls h (m calls e)),
    ((λ c p. inr (m c p)), set),
  )

  suppressed_for_rx-Recent :
      (now : ℕ) (answer : Option (List Chars)) (log : Answers) (db : CallsignDb T)
      → empty db.rx_call ≡ false
      → Remembers log db
      → Both now answer log (suppressed_for_rx now answer db)
  suppressed_for_rx-Recent now answer log db set m =
      elim (suppressed_for_rx-cases now answer db set) [
        | inl p ↦ subst (Both now answer log) (sym p) (consulted-Both now answer log db set)
        | inr (calls, e, h, p) ↦
            subst (Both now answer log) (sym p) (cached-Both now answer log db calls set m e h)
      ]

  -- Each set of rejected calls that a database with a receiver's call works with is an answer of the
  -- audit of less than a minute before, a failed consultation counting as none rejected.
  pub suppressed_for_rx-AllRecent :
      (log : Answers) (qs : List (ℕ × Option (List Chars))) (db : CallsignDb T)
      → empty db.rx_call ≡ false
      → Remembers log db
      → AllRecent log qs db
  unfolding Both
  suppressed_for_rx-AllRecent log [] db set m = tt
  suppressed_for_rx-AllRecent log ((now, answer) ∷ qs) db set m =
      let r = suppressed_for_rx-Recent now answer log db set m in
      (
        r.0,
        suppressed_for_rx-AllRecent (asked now answer log) qs (suppressed_for_rx now answer db).1
            r.1.1 r.1.0,
      )

module _ {T F : Type 0} (hashes : HashTable T F) (Lists : F → Chars → Type 0)
    (wsprd_excludes : (exclude : Chars → Bool) (t : T) (c : Chars)
      → Lists (hashes.write_wsprd exclude t).1 c
      → exclude c ≡ false)
    (jt9_excludes : (grids : Dict Chars Chars) (exclude : Chars → Bool) (t : T) (c : Chars)
      → Lists (hashes.write_jt9 grids exclude t).1 c
      → exclude c ≡ false) where
  -- A call that is in every answer of the last minute stands in neither export.
  pub export-Suppresses :
      (now : ℕ) (answer : Option (List Chars)) (log : Answers) (db : CallsignDb T) (c : Chars)
      → empty db.rx_call ≡ false
      → Remembers log db
      → ((calls : List Chars)
          → Recent 60000 now (asked now answer log) calls
          → contains calls c ≡ true)
      → (¬ Lists (write_wsprd_hashtable hashes now answer db).0.1 c)
        × (¬ Lists (write_jt9_calls hashes now answer db).0.1 c)
  unfolding write_wsprd_hashtable write_jt9_calls Both
  export-Suppresses now answer log db c set m rejected =
      let r = suppressed_for_rx-Recent now answer log db set m in
      let calls = (suppressed_for_rx now answer db).0 in
      let inside = rejected calls r.0 in
      (
        (λ l. clash (sym inside ∙ wsprd_excludes (contains calls) db.table c l)),
        (λ l. clash (sym inside ∙ jt9_excludes (grids db.callsigns) (contains calls) db.table c l)),
      )
    where
      clash : true ≡ false → ⊥
      clash p = ground arith
