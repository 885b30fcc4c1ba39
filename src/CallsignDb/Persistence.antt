-- ===== src/CallsignDb/Persistence.antt =====
-- `save` and `load` of wspr_recorder/callsign_db.py: what a restart finds again.
use wspr_recorder.Common.{
  false, ◌==◌, none, some, List, [], ◌∷◌, ◌++◌, ◌≡◌, refl, sym, ap, ◌∙◌, subst, arith,
}
use wspr_recorder.Common.Dict.{Dict, lookup, NodupKeys, chars_eq, same}
use wspr_recorder.Common.Totals.{++_assoc, ++_nil, same-cases}
use wspr_recorder.Common.Texts.{Chars}
use wspr_recorder.CallsignDb.{
  HashTable, CallsignEntry, CallsignDb, Disk, done, stored_entries, stored_entry, loaded_entry,
  load_entries, load, save, init_db, add_all, add_callsign, ingest_spots,
}
use wspr_recorder.CallsignDb.Keys.{
  keys, WellFormed, Mirrors, fill, upsert_missing, add_callsign-path, add_all-WellFormed,
  add_all-Mirrors,
}

lookup-append_fresh :
    {V : Type 0} (j k : Chars) (v : V) (c d : Dict Chars V)
    → lookup j (c ++ ((k, v) ∷ d)) ≡ none
    → same k j ≡ false
unfolding lookup
lookup-append_fresh j k v [] d h = ground (arith, same-cases k j)
lookup-append_fresh j k v ((i, w) ∷ c) d h = ground (arith, lookup-append_fresh j k v c d)

-- A key that stands once stands not before its place.
lookup-before :
    {V : Type 0} (k : Chars) (v : V) (c d : Dict Chars V)
    → NodupKeys (c ++ ((k, v) ∷ d))
    → lookup k c ≡ none
unfolding lookup
lookup-before k v [] d u = refl
lookup-before k v ((j, w) ∷ c) d (fresh, u) =
    ground (arith, lookup-append_fresh j k v c d fresh, lookup-before k v c d u)

loaded-stored : (e : CallsignEntry) → loaded_entry (stored_entry e) e.call ≡ e
loaded-stored e = refl

-- The database after a restart: all of it but the cache of rejected calls.
abbrev pub restarted : {T : Type 0} → (rx_call : Chars) → CallsignDb T → CallsignDb T
restarted rx_call db = record db {
  rx_call = rx_call;
  suppressed_cache = none;
  suppressed_cache_at = 0;
}

module _ {T F : Type 0} (hashes : HashTable T F) where
  load_entries-stored :
      (c d : Dict Chars CallsignEntry) (db : CallsignDb T)
      → NodupKeys (c ++ d)
      → load_entries hashes (stored_entries d) (record db { callsigns = c })
        ≡ record db { callsigns = c ++ d; table = fill hashes (keys d) db.table }
  unfolding load_entries
  load_entries-stored c [] db u = ap (λ x. record db { callsigns = x }) (sym (++_nil c))
  load_entries-stored c ((k, e) ∷ d) db u =
      let whole = ++_assoc c ((k, e) ∷ []) d in
      rw
        (upsert_missing k (loaded_entry (stored_entry e) e.call)
          (λ _. loaded_entry (stored_entry e) e.call) c (lookup-before k e c d u))
        (load_entries-stored (c ++ ((k, e) ∷ [])) d (record db { table = hashes.add k db.table })
            (subst NodupKeys (sym whole) u)
          ∙ ap
              (λ x. record db {
                callsigns = x;
                table = fill hashes (keys d) (hashes.add k db.table);
              })
              whole)

  -- A database that is saved well is loaded as it was.
  pub init_db-save :
      (path rx_call : Chars) (db : CallsignDb T) (disk : Disk)
      → db.db_path ≡ some path
      → WellFormed db
      → Mirrors hashes db
      → init_db hashes (some path) rx_call (save done db disk) ≡ restarted rx_call db
  unfolding init_db load save
  init_db-save path rx_call db disk p v m = rw p (
      load_entries-stored [] db.callsigns
        (record db {
          db_path = some path;
          rx_call = rx_call;
          table = hashes.new_table;
          suppressed_cache = none;
          suppressed_cache_at = 0;
        })
        v.nodup
      ∙ ap
          (λ y. record db {
            db_path = some path;
            rx_call = rx_call;
            table = y;
            suppressed_cache = none;
            suppressed_cache_at = 0;
          })
          (sym m))

  add_all-path :
      (band : Chars) (calls : List ((Chars × Chars) × Chars)) (db : CallsignDb T)
      → (add_all hashes band calls db).1.db_path ≡ db.db_path
  unfolding add_all
  add_all-path band [] db = refl
  add_all-path band (((call, grid), now) ∷ calls) db =
      add_all-path band calls (add_callsign hashes call grid band now db).1
      ∙ add_callsign-path hashes call grid band now db

  -- Spots that bring a new call outlive a restart, where the write goes well.
  pub ingest_spots-Survives :
      (path band rx_call : Chars) (calls : List ((Chars × Chars) × Chars)) (db : CallsignDb T)
      (disk : Disk)
      → db.db_path ≡ some path
      → WellFormed db
      → Mirrors hashes db
      → ((ingest_spots hashes band calls done db disk).0 == 0) ≡ false
      → init_db hashes (some path) rx_call (ingest_spots hashes band calls done db disk).1.1
        ≡ restarted rx_call (ingest_spots hashes band calls done db disk).1.0
  unfolding ingest_spots
  ingest_spots-Survives path band rx_call calls db disk p v m new = rw new (
      init_db-save path rx_call (add_all hashes band calls db).1 disk
        (add_all-path band calls db ∙ p) (add_all-WellFormed hashes band calls db v)
        (add_all-Mirrors hashes band calls db m))
