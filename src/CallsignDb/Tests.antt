-- ===== src/CallsignDb/Tests.antt =====
-- The callsign database on small examples.
use wspr_recorder.Common.{
  Bool, true, false, none, some, List, [], ◌∷◌, ◌≡◌, refl, if◌then◌else◌, length, arith, inl, inr,
  ap, sym, ◌∙◌, ◌==◌, subst, Bool-cases,
}
use wspr_recorder.Common.Dict.{contains, chars_eq, get_or}
use wspr_recorder.Common.Totals.{same-cases}
use wspr_recorder.Common.Logs.{Recent}
use wspr_recorder.Common.Texts.{Chars, codes}
use wspr_recorder.CallsignDb.{
  HashTable, CallsignDb, missing, done, init_db, ingest_spots, write_wsprd_hashtable,
  write_jt9_calls, add_callsign, ingest_wsprd_hashtable,
}
use wspr_recorder.CallsignDb.Keys.{WellFormed}
use wspr_recorder.CallsignDb.Runs.{
  Call, announced, added, ingested, table_read, wsprd_written, run, Advances, run-Advances,
}
use wspr_recorder.CallsignDb.Persistence.{restarted, ingest_spots-Survives}
use wspr_recorder.CallsignDb.Suppression.{Remembers, asked, export-Suppresses}

-- A table that is the list of its calls, and files that are lists of calls.
abbrev kept : (Chars → Bool) → List Chars → List Chars
kept exclude [] = []
kept exclude (c ∷ cs) = let rest = kept exclude cs in if exclude c then rest else c ∷ rest

abbrev listing : HashTable (List Chars) (List Chars)
listing = record {
  new_table = [];
  add = λ c t. c ∷ t;
  observe_text = λ text t. (1, text ∷ t);
  by_hash22 = λ hash t. none;
  write_wsprd = λ exclude t. (length (kept exclude t), kept exclude t);
  write_jt9 = λ grids exclude t. (length (kept exclude t), kept exclude t);
}

abbrev first : CallsignDb (List Chars)
first = record {
  db_path = some (codes "db.json");
  rx_call = codes "AC0G";
  callsigns = [];
  table = [];
  suppressed_cache = none;
  suppressed_cache_at = 0;
}

first-WellFormed : WellFormed first
first-WellFormed = record { nodup = tt; entries = tt }

abbrev calls : List Call
calls =
    added (codes " k1abc ") (codes "FN42") (codes "20") (codes "t1")
    ∷ added (codes "K1ABC") [] (codes "40") (codes "t2")
    ∷ ingested (codes "20")
        (((codes "<...>", []), codes "t3") ∷ ((codes "W4UK/P", []), codes "t3") ∷ []) done
    ∷ table_read (some ((codes "  104 G8JNJ", codes "t4") ∷ (codes "7", codes "t4") ∷ []))
    ∷ announced (codes "<PJ4/K1ABC>")
    ∷ wsprd_written 5 none
    ∷ []

calls_new : (run listing calls first missing).0 ≡ 3
unfolding add_callsign ingest_spots chars_eq ingest_wsprd_hashtable
calls_new = refl

run-Advances_example :
    Advances first (run listing calls first missing).0 (run listing calls first missing).1.0
run-Advances_example = run-Advances listing calls first missing first-WellFormed

abbrev spots : List ((Chars × Chars) × Chars)
spots = ((codes "k1abc", codes "FN42"), codes "t1") ∷ ((codes "<...>", []), codes "t1") ∷ []

one_new : (ingest_spots listing (codes "20") spots done first missing).0 ≡ 1
unfolding ingest_spots
one_new = refl

ingest_spots-Survives_example :
    init_db listing
      (some (codes "db.json"))
      (codes "AC0G")
      (ingest_spots listing (codes "20") spots done first missing).1.1
    ≡ restarted (codes "AC0G") (ingest_spots listing (codes "20") spots done first missing).1.0
ingest_spots-Survives_example =
    ingest_spots-Survives listing (codes "db.json") (codes "20") (codes "AC0G") spots first missing
      refl first-WellFormed refl some_new
  where
    some_new : ((ingest_spots listing (codes "20") spots done first missing).0 == 0) ≡ false
    some_new = rw one_new refl

abbrev rejected : List Chars
rejected = codes "W4UK/P" ∷ []

-- A database that asked at 10 ms and holds a rejected call.
abbrev cached : CallsignDb (List Chars)
cached = record first {
  table = codes "W4UK/P" ∷ codes "K1ABC" ∷ [];
  suppressed_cache = some rejected;
  suppressed_cache_at = 10;
}

abbrev Lists : List Chars → Chars → Type 0
Lists file c = contains file c ≡ true

kept_excludes :
    (exclude : Chars → Bool) (t : List Chars) (c : Chars)
    → Lists (kept exclude t) c
    → exclude c ≡ false
kept_excludes exclude [] c h = absurd (ground arith)
kept_excludes exclude (d ∷ t) c h = elim (Bool-cases (exclude d)) [
  | inl e ↦
      kept_excludes exclude t c
        (subst (λ b. contains (if b then kept exclude t else d ∷ kept exclude t) c ≡ true) e h)
  | inr e ↦ elim (same-cases c d) [
    | inl (p, _) ↦ ap exclude p ∙ e
    | inr n ↦ kept_excludes exclude t c (ground arith)
  ]
]

cached-Remembers : Remembers ((10, rejected) ∷ []) cached
cached-Remembers cs p = inl (sym (ap (get_or []) p), refl)

always_rejected :
    (cs : List Chars)
    → Recent 60000 59000 (asked 59000 (some rejected) ((10, rejected) ∷ [])) cs
    → contains cs (codes "W4UK/P") ≡ true
unfolding chars_eq
always_rejected cs (inl (p, _)) = ap (λ x. contains x (codes "W4UK/P")) p
always_rejected cs (inr (inl (p, _))) = ap (λ x. contains x (codes "W4UK/P")) p
always_rejected cs (inr (inr h)) = elim h [ ]

export-Suppresses_example :
    (¬ Lists (write_wsprd_hashtable listing 59000 (some rejected) cached).0.1 (codes "W4UK/P"))
    × (¬ Lists (write_jt9_calls listing 59000 (some rejected) cached).0.1 (codes "W4UK/P"))
export-Suppresses_example =
    export-Suppresses listing Lists kept_excludes (λ grids. kept_excludes) 59000 (some rejected)
      ((10, rejected) ∷ []) cached (codes "W4UK/P") refl cached-Remembers always_rejected
