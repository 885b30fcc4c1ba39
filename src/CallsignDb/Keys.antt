-- ===== src/CallsignDb/Keys.antt =====
-- The dictionary of wspr_recorder/callsign_db.py: its keys, and what an added callsign does to it.
use wspr_recorder.Common.{
  suc, ◌+◌, Bool, false, ◌||◌, none, List, [], ◌∷◌, ◌++◌, ◌≡◌, refl, sym, ap, ◌∙◌, All, arith,
  length-append, inl, inr, length, if◌then◌else◌, if_intro, Option-cases,
}
use wspr_recorder.Common.Dict.{
  Eq, Dict, contains, contains-append, lookup, upsert, adjust, NodupKeys, upsert-NodupKeys,
  adjust-NodupKeys, chars_eq,
}
use wspr_recorder.Common.Totals.{All-upsert, All-adjust}
use wspr_recorder.Common.Texts.{Chars, empty, upper-strip_idem}
use wspr_recorder.CallsignDb.{
  HashTable, CallsignEntry, CallsignDb, canonical, is_refused, new_entry, seen_again, size,
  add_callsign, add_all,
}

abbrev pub keys {ℓ κ} : {K : Type ℓ} {V : Type κ} → Dict K V → List K
keys [] = []
keys ((k, _) ∷ d) = k ∷ keys d

module _ {ℓ κ} {K : Type ℓ} {V : Type κ} ⦃e : Eq K⦄ where
  -- A missing key is appended.
  pub upsert_missing :
      (k : K) (v : V) (f : V → V) (d : Dict K V)
      → lookup k d ≡ none
      → upsert k v f d ≡ d ++ ((k, f v) ∷ [])
  unfolding upsert lookup
  upsert_missing k v f [] h = refl
  upsert_missing k v f ((j, w) ∷ d) h = ground (arith, upsert_missing k v f d)

  pub keys-adjust : (k : K) (f : V → V) (d : Dict K V) → keys (adjust k f d) ≡ keys d
  unfolding adjust
  keys-adjust k f [] = refl
  keys-adjust k f ((j, w) ∷ d) = ground (arith, keys-adjust k f d)

pub keys-append {ℓ κ} :
    {K : Type ℓ} {V : Type κ} (c d : Dict K V) → keys (c ++ d) ≡ keys c ++ keys d
keys-append [] d = refl
keys-append ((k, v) ∷ c) d = ap (λ ks. k ∷ ks) (keys-append c d)

pub length-keys {ℓ κ} : {K : Type ℓ} {V : Type κ} (d : Dict K V) → length (keys d) ≡ length d
length-keys [] = refl
length-keys ((k, v) ∷ d) = ap suc (length-keys d)

abbrev pub Nodup {ℓ} : {A : Type ℓ} → ⦃e : Eq A⦄ → List A → Type 0
Nodup [] = Unit
Nodup (x ∷ xs) = (contains xs x ≡ false) × Nodup xs

Nodup-append {ℓ} :
    {A : Type ℓ} ⦃e : Eq A⦄ (xs : List A) (a : A)
    → contains xs a ≡ false
    → Nodup xs
    → Nodup (xs ++ (a ∷ []))
Nodup-append [] a h u = (refl, tt)
Nodup-append (x ∷ xs) a h (fresh, u) =
    (ground (arith, contains-append xs (a ∷ []) x), Nodup-append xs a (ground arith) u)

-- An entry stands under its own call, which is as `add_callsign` writes it, and lists no band twice.
pub record IsEntry (k : Chars) (e : CallsignEntry) : Type 0 where
  pub named : e.call ≡ k
  pub spelled : canonical k ≡ k
  pub accepted : is_refused k ≡ false
  pub bands_once : Nodup e.bands

pub record WellFormed {T : Type 0} (db : CallsignDb T) : Type 0 where
  pub nodup : NodupKeys db.callsigns
  pub entries : All (λ (k, e). IsEntry k e) db.callsigns

seen_again-IsEntry :
    (grid band now k : Chars) (e : CallsignEntry)
    → IsEntry k e
    → IsEntry k (seen_again grid band now e)
seen_again-IsEntry grid band now k e v = record {
  named = v.named;
  spelled = v.spelled;
  accepted = v.accepted;
  bands_once =
      if_intro (λ bs. Nodup bs) (empty band || contains e.bands band) (λ _. v.bands_once)
        (λ f. Nodup-append e.bands band (ground arith) v.bands_once);
}

new_entry-IsEntry :
    (raw grid band now : Chars)
    → is_refused (canonical raw) ≡ false
    → IsEntry (canonical raw) (new_entry (canonical raw) grid band now)
new_entry-IsEntry raw grid band now h = record {
  named = refl;
  spelled = upper-strip_idem raw;
  accepted = h;
  bands_once = if_intro (λ bs. Nodup bs) (empty band) (λ _. tt) (λ _. (refl, tt));
}

module _ {T F : Type 0} (hashes : HashTable T F) where
  -- The table after the calls `cs`.
  abbrev pub fill : List Chars → T → T
  fill [] t = t
  fill (c ∷ cs) t = fill cs (hashes.add c t)

  pub fill-append : (cs ds : List Chars) (t : T) → fill (cs ++ ds) t ≡ fill ds (fill cs t)
  fill-append [] ds t = refl
  fill-append (c ∷ cs) ds t = fill-append cs ds (hashes.add c t)

  -- The table holds the calls of the dictionary, added in their order.
  abbrev pub Mirrors : CallsignDb T → Type 0
  Mirrors db = db.table ≡ fill (keys db.callsigns) hashes.new_table

  pub add_callsign-WellFormed :
      (raw grid band now : Chars) (db : CallsignDb T)
      → WellFormed db
      → WellFormed (add_callsign hashes raw grid band now db).1
  unfolding add_callsign
  add_callsign-WellFormed raw grid band now db v =
      if_intro (λ (r : Bool × CallsignDb T). WellFormed r.1) (is_refused (canonical raw)) (λ _. v)
        (λ ok. elim (Option-cases (lookup (canonical raw) db.callsigns)) [
          | inl e ↦ rw e (record {
            nodup =
                upsert-NodupKeys (canonical raw) (new_entry (canonical raw) grid band now) (λ x. x)
                  db.callsigns v.nodup;
            entries =
                All-upsert (λ (k, e). IsEntry k e) (canonical raw) _ _ db.callsigns
                  (new_entry-IsEntry raw grid band now ok) (λ _ _ i. i) v.entries;
          })
          | inr (_, e) ↦ rw e (record {
            nodup =
                adjust-NodupKeys (canonical raw) (seen_again grid band now) db.callsigns v.nodup;
            entries =
                All-adjust (λ (k, e). IsEntry k e) (canonical raw) _ db.callsigns
                  (seen_again-IsEntry grid band now) v.entries;
          })
        ])

  pub add_callsign-Mirrors :
      (raw grid band now : Chars) (db : CallsignDb T)
      → Mirrors db
      → Mirrors (add_callsign hashes raw grid band now db).1
  unfolding add_callsign
  add_callsign-Mirrors raw grid band now db m =
      if_intro (λ (r : Bool × CallsignDb T). Mirrors r.1) (is_refused (canonical raw)) (λ _. m)
        (λ ok. elim (Option-cases (lookup (canonical raw) db.callsigns)) [
          | inl e ↦ rw e (
              rw
                (upsert_missing (canonical raw) (new_entry (canonical raw) grid band now) (λ x. x)
                  db.callsigns e)
                (rw
                  (keys-append db.callsigns
                    ((canonical raw, new_entry (canonical raw) grid band now) ∷ []))
                  (ap (hashes.add (canonical raw)) m
                    ∙ sym (fill-append (keys db.callsigns) (canonical raw ∷ []) hashes.new_table))))
          | inr (_, e) ↦ rw e (
              m
              ∙ sym (
                  ap (λ ks. fill ks hashes.new_table)
                    (keys-adjust (canonical raw) (seen_again grid band now) db.callsigns)))
        ])

  -- It says that a call is new exactly where the dictionary grows, by one.
  pub add_callsign-grows :
      (raw grid band now : Chars) (db : CallsignDb T)
      → size (add_callsign hashes raw grid band now db).1
        ≡ (if (add_callsign hashes raw grid band now db).0 then suc (size db) else size db)
  unfolding add_callsign size
  add_callsign-grows raw grid band now db =
      if_intro
        (λ (r : Bool × CallsignDb T).
          length r.1.callsigns ≡ (if r.0 then suc (size db) else size db))
        (is_refused (canonical raw)) (λ _. refl)
        (λ ok. elim (Option-cases (lookup (canonical raw) db.callsigns)) [
          | inl e ↦ rw e (
              rw
                (upsert_missing (canonical raw) (new_entry (canonical raw) grid band now) (λ x. x)
                  db.callsigns e)
                (omega (
                  arith,
                  length-append db.callsigns
                      ((canonical raw, new_entry (canonical raw) grid band now) ∷ []),
                )))
          | inr (_, e) ↦ rw e (
              sym (length-keys (adjust (canonical raw) (seen_again grid band now) db.callsigns))
              ∙ ap length (keys-adjust (canonical raw) (seen_again grid band now) db.callsigns)
              ∙ length-keys db.callsigns)
        ])

  pub add_callsign-path :
      (raw grid band now : Chars) (db : CallsignDb T)
      → (add_callsign hashes raw grid band now db).1.db_path ≡ db.db_path
  unfolding add_callsign
  add_callsign-path raw grid band now db = ground arith

  pub add_all-WellFormed :
      (band : Chars) (calls : List ((Chars × Chars) × Chars)) (db : CallsignDb T)
      → WellFormed db
      → WellFormed (add_all hashes band calls db).1
  unfolding add_all
  add_all-WellFormed band [] db v = v
  add_all-WellFormed band (((call, grid), now) ∷ calls) db v =
      add_all-WellFormed band calls (add_callsign hashes call grid band now db).1
        (add_callsign-WellFormed call grid band now db v)

  pub add_all-Mirrors :
      (band : Chars) (calls : List ((Chars × Chars) × Chars)) (db : CallsignDb T)
      → Mirrors db
      → Mirrors (add_all hashes band calls db).1
  unfolding add_all
  add_all-Mirrors band [] db m = m
  add_all-Mirrors band (((call, grid), now) ∷ calls) db m =
      add_all-Mirrors band calls (add_callsign hashes call grid band now db).1
        (add_callsign-Mirrors call grid band now db m)

  pub add_all-grows :
      (band : Chars) (calls : List ((Chars × Chars) × Chars)) (db : CallsignDb T)
      → size (add_all hashes band calls db).1 ≡ (add_all hashes band calls db).0 + size db
  unfolding add_all
  add_all-grows band [] db = omega arith
  add_all-grows band (((call, grid), now) ∷ calls) db = ground (
    arith,
    add_all-grows band calls (add_callsign hashes call grid band now db).1,
    add_callsign-grows call grid band now db,
  )
