-- ===== src/CallsignDb/Runs.antt =====
-- The calls that change the database of wspr_recorder/callsign_db.py, in any order.
use wspr_recorder.Common.{
  ℕ, suc, ◌+◌, Bool, true, false, Option, none, some, List, [], ◌∷◌, ◌++◌, ◌≡◌, refl, sym, ap, ◌∙◌,
  subst, All, length, arith, inl, inr, if_intro, Option-cases, if◌then◌else◌, ◌||◌,
}
use wspr_recorder.Common.Dict.{NodupKeys, lookup, lookup-upsert, lookup-adjust, contains, chars_eq}
use wspr_recorder.Common.Totals.{++_nil, ++_assoc, same-cases}
use wspr_recorder.Common.Texts.{Chars, empty}
use wspr_recorder.CallsignDb.{
  HashTable, CallsignEntry, CallsignDb, Disk, WriteEnd, canonical, is_refused, new_entry,
  seen_again, size, suppressed_for_rx, observe, add_callsign, add_all, ingest_spots, line_call,
  ingest_lines, ingest_wsprd_hashtable, write_wsprd_hashtable, write_jt9_calls,
}
use wspr_recorder.CallsignDb.Keys.{IsEntry, WellFormed, add_callsign-WellFormed, add_callsign-grows}

-- Times, answers and the ends of writes come with the calls.
pub data Call : Type 0 where
  announced : Chars → Call
  added : (call grid band now : Chars) → Call
  ingested : (band : Chars) → List ((Chars × Chars) × Chars) → WriteEnd → Call
  table_read : Option (List (Chars × Chars)) → Call
  wsprd_written : ℕ → Option (List Chars) → Call
  jt9_written : ℕ → Option (List Chars) → Call

-- What an entry keeps: when its call was first seen, and its bands, to which others may be added.
abbrev pub Extends : CallsignEntry → CallsignEntry → Type 0
Extends e e' = (e'.first_seen ≡ e.first_seen) × (bands : List Chars) × (e'.bands ≡ e.bands ++ bands)

Extends-trans : (a b c : CallsignEntry) → Extends a b → Extends b c → Extends a c
Extends-trans a b c (p, bs, q) (r, cs, s) =
    (r ∙ p, bs ++ cs, s ∙ ap (λ xs. xs ++ cs) q ∙ ++_assoc a.bands bs cs)

Extends-refl : (e : CallsignEntry) → Extends e e
Extends-refl e = (refl, [], sym (++_nil e.bands))

seen_again-Extends :
    (grid band now : Chars) (e : CallsignEntry) → Extends e (seen_again grid band now e)
seen_again-Extends grid band now e =
    if_intro (λ bs. (e.first_seen ≡ e.first_seen) × (more : List Chars) × (bs ≡ e.bands ++ more))
      (empty band || contains e.bands band) (λ _. Extends-refl e) (λ _. (refl, band ∷ [], refl))

module _ {T : Type 0} where
  -- Every call of the one database is in the other, with an entry that extends its own.
  abbrev pub Keeps : CallsignDb T → CallsignDb T → Type 0
  Keeps db db' =
      (k : Chars) (e : CallsignEntry)
      → lookup k db.callsigns ≡ some e
      → (e' : CallsignEntry) × (lookup k db'.callsigns ≡ some e') × Extends e e'

  Keeps-same : (db db' : CallsignDb T) → db'.callsigns ≡ db.callsigns → Keeps db db'
  Keeps-same db db' p k e h = (e, ap (λ d. lookup k d) p ∙ h, Extends-refl e)

  Keeps-trans : (a b c : CallsignDb T) → Keeps a b → Keeps b c → Keeps a c
  Keeps-trans a b c f g k e h =
      let (e', h', x) = f k e h in
      let (e'', h'', y) = g k e' h' in (e'', h'', Extends-trans e e' e'' x y)

  pub record Advances (db : CallsignDb T) (new : ℕ) (db' : CallsignDb T) : Type 0 where
    pub valid : WellFormed db'
    pub keeps : Keeps db db'
    pub counted : size db' ≡ new + size db

  Advances-same :
      (db db' : CallsignDb T) → WellFormed db → db'.callsigns ≡ db.callsigns → Advances db 0 db'
  unfolding size
  Advances-same db db' v p = record {
    valid = record {
      nodup = subst NodupKeys (sym p) v.nodup;
      entries = subst (λ d. All (λ (k, e). IsEntry k e) d) (sym p) v.entries;
    };
    keeps = Keeps-same db db' p;
    counted = ap length p ∙ omega arith;
  }

  Advances-trans :
      (a b c : CallsignDb T) {m n : ℕ} → Advances a m b → Advances b n c → Advances a (m + n) c
  Advances-trans a b c f g = record {
    valid = g.valid;
    keeps = Keeps-trans a b c f.keeps g.keeps;
    counted = omega (arith, f.counted, g.counted);
  }

  -- The same where the code adds to its count under a test.
  Advances-count :
      (a : CallsignDb T) (new : Bool) (b : CallsignDb T) (n : ℕ) (c : CallsignDb T)
      → Advances a (if new then 1 else 0) b
      → Advances b n c
      → Advances a (if new then suc n else n) c
  Advances-count a true b n c f g =
      subst (λ x. Advances a x c) (omega arith) (Advances-trans a b c f g)
  Advances-count a false b n c f g =
      subst (λ x. Advances a x c) (omega arith) (Advances-trans a b c f g)

  suppressed_for_rx-callsigns :
      (now : ℕ) (answer : Option (List Chars)) (db : CallsignDb T)
      → (suppressed_for_rx now answer db).1.callsigns ≡ db.callsigns
  unfolding suppressed_for_rx
  suppressed_for_rx-callsigns now answer db = ground arith

module _ {T F : Type 0} (hashes : HashTable T F) where
  -- The database and the file after a call, with how many new calls it reports.
  abbrev pub step : Call → CallsignDb T → Disk → ℕ × (CallsignDb T × Disk)
  step (announced text) db disk = (0, ((observe hashes text db).1, disk))
  step (added call grid band now) db disk =
      let r = add_callsign hashes call grid band now db in (if r.0 then 1 else 0, (r.1, disk))
  step (ingested band calls outcome) db disk = ingest_spots hashes band calls outcome db disk
  step (table_read lines) db disk =
      let r = ingest_wsprd_hashtable hashes lines db in (r.0, (r.1, disk))
  step (wsprd_written now answer) db disk =
      (0, ((write_wsprd_hashtable hashes now answer db).1, disk))
  step (jt9_written now answer) db disk = (0, ((write_jt9_calls hashes now answer db).1, disk))

  abbrev pub run : List Call → CallsignDb T → Disk → ℕ × (CallsignDb T × Disk)
  run [] db disk = (0, (db, disk))
  run (c ∷ cs) db disk =
      let r = step c db disk in let rest = run cs r.1.0 r.1.1 in (r.0 + rest.0, rest.1)

  add_callsign-Keeps :
      (raw grid band now : Chars) (db : CallsignDb T)
      → Keeps db (add_callsign hashes raw grid band now db).1
  unfolding add_callsign
  add_callsign-Keeps raw grid band now db k e h =
      let call = canonical raw in
      let d = db.callsigns in
      if_intro
        (λ (r : Bool × CallsignDb T).
          (e' : CallsignEntry) × (lookup k r.1.callsigns ≡ some e') × Extends e e')
        (is_refused call) (λ _. (e, h, Extends-refl e))
        (λ _. elim (Option-cases (lookup call d)) [
          | inl m ↦ rw m (
            e,
            lookup-upsert k call (new_entry call grid band now) (λ x. x) d
                ∙ elim (same-cases k call) [
                  | inl (p, t) ↦ absurd (clash (sym h ∙ ap (λ i. lookup i d) p ∙ m))
                  | inr t ↦ rw t h
                ],
            Extends-refl e,
          )
          | inr (w, m) ↦ rw m (elim (same-cases k call) [
            | inl (p, t) ↦ (
              seen_again grid band now e,
              lookup-adjust k call (seen_again grid band now) d
                  ∙ rw t (rw (sym (ap (λ i. lookup i d) p) ∙ h) refl),
              seen_again-Extends grid band now e,
            )
            | inr t ↦
                (e, lookup-adjust k call (seen_again grid band now) d ∙ rw t h, Extends-refl e)
          ])
        ])
    where
      clash : some e ≡ none → ⊥
      clash p = ground arith

  add_callsign-Advances :
      (raw grid band now : Chars) (db : CallsignDb T)
      → WellFormed db
      → Advances db
          (if (add_callsign hashes raw grid band now db).0 then 1 else 0)
          (add_callsign hashes raw grid band now db).1
  add_callsign-Advances raw grid band now db v = record {
    valid = add_callsign-WellFormed hashes raw grid band now db v;
    keeps = add_callsign-Keeps raw grid band now db;
    counted = ground (arith, add_callsign-grows hashes raw grid band now db);
  }

  add_all-Advances :
      (band : Chars) (calls : List ((Chars × Chars) × Chars)) (db : CallsignDb T)
      → WellFormed db
      → Advances db (add_all hashes band calls db).0 (add_all hashes band calls db).1
  unfolding add_all
  add_all-Advances band [] db v = Advances-same db db v refl
  add_all-Advances band (((call, grid), now) ∷ calls) db v =
      let r = add_callsign hashes call grid band now db in
      let first = add_callsign-Advances call grid band now db v in
      Advances-count db r.0 r.1 (add_all hashes band calls r.1).0 (add_all hashes band calls r.1).1
        first (add_all-Advances band calls r.1 first.valid)

  ingest_lines-Advances :
      (lines : List (Chars × Chars)) (db : CallsignDb T)
      → WellFormed db
      → Advances db (ingest_lines hashes lines db).0 (ingest_lines hashes lines db).1
  unfolding ingest_lines
  ingest_lines-Advances [] db v = Advances-same db db v refl
  ingest_lines-Advances ((line, now) ∷ lines) db v = elim (Option-cases (line_call hashes line)) [
    | inl e ↦ rw e (ingest_lines-Advances lines db v)
    | inr (call, e) ↦ rw e (
        let r = add_callsign hashes call [] [] now db in
        let first = add_callsign-Advances call [] [] now db v in
        Advances-count db r.0 r.1 (ingest_lines hashes lines r.1).0
          (ingest_lines hashes lines r.1).1 first (ingest_lines-Advances lines r.1 first.valid))
  ]

  step-Advances :
      (c : Call) (db : CallsignDb T) (disk : Disk)
      → WellFormed db
      → Advances db (step c db disk).0 (step c db disk).1.0
  unfolding observe ingest_spots ingest_wsprd_hashtable write_wsprd_hashtable write_jt9_calls
  step-Advances (announced text) db disk v = Advances-same db (observe hashes text db).1 v refl
  step-Advances (added call grid band now) db disk v = add_callsign-Advances call grid band now db v
  step-Advances (ingested band calls outcome) db disk v = add_all-Advances band calls db v
  step-Advances (table_read none) db disk v = Advances-same db db v refl
  step-Advances (table_read (some lines)) db disk v = ingest_lines-Advances lines db v
  step-Advances (wsprd_written now answer) db disk v =
      Advances-same db (suppressed_for_rx now answer db).1 v
        (suppressed_for_rx-callsigns now answer db)
  step-Advances (jt9_written now answer) db disk v =
      Advances-same db (suppressed_for_rx now answer db).1 v
        (suppressed_for_rx-callsigns now answer db)

  -- Whatever calls come in whatever order, the keys stay spelled as `add_callsign` writes them and
  -- unique, no call is lost and its first sight and bands stay, and the counts of new calls that
  -- are returned add up to the growth.
  pub run-Advances :
      (cs : List Call) (db : CallsignDb T) (disk : Disk)
      → WellFormed db
      → Advances db (run cs db disk).0 (run cs db disk).1.0
  run-Advances [] db disk v = Advances-same db db v refl
  run-Advances (c ∷ cs) db disk v =
      let r = step c db disk in
      let first = step-Advances c db disk v in
      Advances-trans db r.1.0 (run cs r.1.0 r.1.1).1.0 first
        (run-Advances cs r.1.0 r.1.1 first.valid)
