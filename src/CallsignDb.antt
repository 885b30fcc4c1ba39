-- ===== src/CallsignDb.antt =====
-- wspr_recorder/callsign_db.py: `CallsignDB`. The table of hashes is the package `callhash`: its
-- calls are the fields of an interface. What the database reads of the world is given with a call:
-- the time, what the audit of rejected calls answers, the file's content, and how a write ends.
pub mod Keys
pub mod Runs
pub mod Suppression
pub mod Persistence
mod Tests
use wspr_recorder.Common.{
  ℕ, suc, ◌+◌, ◌-◌, ◌<◌, Bool, true, false, not, ◌&&◌, ◌||◌, Option, none, some, List, [], ◌∷◌,
  ◌++◌, ltb, ◌==◌, if◌then◌else◌, length,
}
use wspr_recorder.Common.Dict.{Dict, lookup, upsert, adjust, contains, get_or, chars_eq}
use wspr_recorder.Common.Texts.{
  Chars, empty, strip, upper, split, lstrip, rstrip, upper_char, split_from,
}

-- `CallHashTable`. The exporters make a file's content and count its entries.
pub record HashTable (T F : Type 0) : Type 0 where
  pub new_table : T
  pub add : Chars → T → T
  pub observe_text : Chars → T → ℕ × T
  pub by_hash22 : ℕ → T → Option Chars
  pub write_wsprd : (Chars → Bool) → T → ℕ × F
  pub write_jt9 : Dict Chars Chars → (Chars → Bool) → T → ℕ × F

pub record CallsignEntry : Type 0 where
  pub call : Chars
  pub grid : Chars
  pub first_seen : Chars
  pub last_seen : Chars
  pub bands : List Chars

-- An entry of the JSON file: each of its keys may be missing.
pub record StoredEntry : Type 0 where
  pub call : Option Chars
  pub grid : Option Chars
  pub first_seen : Option Chars
  pub last_seen : Option Chars
  pub bands : Option (List Chars)

-- The file of the database: `unreadable` is what does not parse.
pub data Disk : Type 0 where
  missing : Disk
  unreadable : Disk
  stored : Dict Chars StoredEntry → Disk

-- How a write ends: before the file is opened, while it is written, or well.
pub data WriteEnd : Type 0 where
  refused : WriteEnd
  torn : WriteEnd
  done : WriteEnd

pub record CallsignDb (T : Type 0) : Type 0 where
  pub db_path : Option Chars
  pub rx_call : Chars
  pub callsigns : Dict Chars CallsignEntry
  pub table : T
  pub suppressed_cache : Option (List Chars)
  pub suppressed_cache_at : ℕ

-- `call.strip().upper()`
abbrev pub canonical : Chars → Chars
canonical call = upper (strip call)

-- `not call or call.startswith("<")`
abbrev pub is_refused : Chars → Bool
is_refused [] = true
is_refused (c ∷ cs) = c == 60

abbrev pub new_entry : (call grid band now : Chars) → CallsignEntry
new_entry call grid band now = record {
  call = call;
  grid = grid;
  first_seen = now;
  last_seen = now;
  bands = if empty band then [] else band ∷ [];
}

abbrev pub seen_again : (grid band now : Chars) → CallsignEntry → CallsignEntry
seen_again grid band now e = record e {
  last_seen = now;
  grid = if empty grid then e.grid else grid;
  bands = if empty band || contains e.bands band then e.bands else e.bands ++ (band ∷ []);
}

unfoldable pub size : {T : Type 0} → CallsignDb T → ℕ
size db = length db.callsigns

-- `_suppressed_for_rx`, at `now` in milliseconds: `answer` is what the audit says, or none where
-- the consultation raises.
unfoldable pub suppressed_for_rx :
    {T : Type 0} → ℕ → Option (List Chars) → CallsignDb T → List Chars × CallsignDb T
suppressed_for_rx {T = T} now answer db =
    let fresh = get_or [] answer in
    let asked : List Chars × CallsignDb T =
      (fresh, record db { suppressed_cache = some fresh; suppressed_cache_at = now }) in
    if empty db.rx_call then ([], db) else elim db.suppressed_cache [
      | none ↦ asked
      | some calls ↦ if ltb (now - db.suppressed_cache_at) 60000 then (calls, db) else asked
    ]

-- The keys of the file, entry by entry: the loop stops where an entry has no call.
abbrev pub loaded_entry : StoredEntry → Chars → CallsignEntry
loaded_entry e call = record {
  call = call;
  grid = get_or [] e.grid;
  first_seen = get_or [] e.first_seen;
  last_seen = get_or [] e.last_seen;
  bands = get_or [] e.bands;
}

abbrev pub stored_entry : CallsignEntry → StoredEntry
stored_entry e = record {
  call = some e.call;
  grid = some e.grid;
  first_seen = some e.first_seen;
  last_seen = some e.last_seen;
  bands = some e.bands;
}

abbrev pub stored_entries : Dict Chars CallsignEntry → Dict Chars StoredEntry
stored_entries [] = []
stored_entries ((k, e) ∷ d) = (k, stored_entry e) ∷ stored_entries d

abbrev pub grids : Dict Chars CallsignEntry → Dict Chars Chars
grids [] = []
grids ((k, e) ∷ d) = (k, e.grid) ∷ grids d

-- `save`: without a path nothing is written.
unfoldable pub save : {T : Type 0} → WriteEnd → CallsignDb T → Disk → Disk
save outcome db disk = elim db.db_path [
  | none ↦ disk
  | some _ ↦ elim outcome [
    | refused ↦ disk
    | torn ↦ unreadable
    | done ↦ stored (stored_entries db.callsigns)
  ]
]

module _ {T F : Type 0} (hashes : HashTable T F) where
  unfoldable pub observe : Chars → CallsignDb T → ℕ × CallsignDb T
  observe text db = let r = hashes.observe_text text db.table in (r.0, record db { table = r.1 })

  unfoldable pub add_callsign : (call grid band now : Chars) → CallsignDb T → Bool × CallsignDb T
  unfolding lstrip rstrip upper_char lookup upsert adjust
  add_callsign raw grid band now db =
      let call = canonical raw in
      if is_refused call then (false, db) else elim (lookup call db.callsigns) [
        | none ↦ (
          true,
          record db {
            callsigns = upsert call (new_entry call grid band now) (λ e. e) db.callsigns;
            table = hashes.add call db.table;
          },
        )
        | some _ ↦
            (false, record db { callsigns = adjust call (seen_again grid band now) db.callsigns })
      ]

  unfoldable pub resolve_hash22 : ℕ → CallsignDb T → Option Chars
  resolve_hash22 hash db = hashes.by_hash22 hash db.table

  -- Calls with their grids, each at its own time.
  unfoldable pub add_all :
      (band : Chars) → List ((Chars × Chars) × Chars) → CallsignDb T → ℕ × CallsignDb T
  unfolding add_callsign
  add_all band [] db = (0, db)
  add_all band (((call, grid), now) ∷ calls) db =
      let r = add_callsign call grid band now db in
      let rest = add_all band calls r.1 in (if r.0 then suc rest.0 else rest.0, rest.1)

  -- `ingest_spots`, with the file after it.
  unfoldable pub ingest_spots :
      (band : Chars)
      → List ((Chars × Chars) × Chars)
      → WriteEnd
      → CallsignDb T
      → Disk
      → ℕ × (CallsignDb T × Disk)
  unfolding add_all save
  ingest_spots band calls outcome db disk =
      let r = add_all band calls db in
      (r.0, (r.1, if r.0 == 0 then disk else save outcome r.1 disk))

  -- A line's call, of what stands after its index.
  unfoldable pub line_call : Chars → Option Chars
  unfolding lstrip rstrip split_from upper_char
  line_call line = elim (split (strip line)) [
    | [] ↦ none
    | _ ∷ [] ↦ none
    | _ ∷ call ∷ _ ↦ some (upper call)
  ]

  unfoldable pub ingest_lines : List (Chars × Chars) → CallsignDb T → ℕ × CallsignDb T
  unfolding add_callsign line_call
  ingest_lines [] db = (0, db)
  ingest_lines ((line, now) ∷ lines) db =
      let r : Bool × CallsignDb T = elim (line_call line) [
        | none ↦ (false, db)
        | some call ↦ add_callsign call [] [] now db
      ] in
      let rest = ingest_lines lines r.1 in (if r.0 then suc rest.0 else rest.0, rest.1)

  -- `ingest_wsprd_hashtable`: none stands for a path where there is no file.
  unfoldable pub ingest_wsprd_hashtable :
      Option (List (Chars × Chars)) → CallsignDb T → ℕ × CallsignDb T
  unfolding ingest_lines
  ingest_wsprd_hashtable none db = (0, db)
  ingest_wsprd_hashtable (some lines) db = ingest_lines lines db

  unfoldable pub write_wsprd_hashtable :
      ℕ → Option (List Chars) → CallsignDb T → (ℕ × F) × CallsignDb T
  unfolding suppressed_for_rx
  write_wsprd_hashtable now answer db =
      let r = suppressed_for_rx now answer db in (hashes.write_wsprd (contains r.0) db.table, r.1)

  unfoldable pub write_jt9_calls : ℕ → Option (List Chars) → CallsignDb T → (ℕ × F) × CallsignDb T
  unfolding suppressed_for_rx
  write_jt9_calls now answer db =
      let r = suppressed_for_rx now answer db in
      (hashes.write_jt9 (grids db.callsigns) (contains r.0) db.table, r.1)

  unfoldable pub load_entries : Dict Chars StoredEntry → CallsignDb T → CallsignDb T
  unfolding upsert
  load_entries [] db = db
  load_entries ((key, e) ∷ d) db = elim e.call [
    | none ↦ db
    | some call ↦
        let entry = loaded_entry e call in
        load_entries d (record db {
          callsigns = upsert key entry (λ _. entry) db.callsigns;
          table = hashes.add key db.table;
        })
  ]

  unfoldable pub load : Disk → CallsignDb T → CallsignDb T
  unfolding load_entries
  load disk db = elim db.db_path [
    | none ↦ db
    | some _ ↦ elim disk [ missing ↦ db | unreadable ↦ db | stored d ↦ load_entries d db ]
  ]

  unfoldable pub init_db : Option Chars → (rx_call : Chars) → Disk → CallsignDb T
  unfolding load
  init_db path rx_call disk = load disk (record {
    db_path = path;
    rx_call = rx_call;
    callsigns = [];
    table = hashes.new_table;
    suppressed_cache = none;
    suppressed_cache_at = 0;
  })
