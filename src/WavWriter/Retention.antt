-- ===== src/WavWriter/Retention.antt =====
-- The retention of wspr_recorder/wav_writer.py: how many files stay, and which.
use mathlib.Core.List.{Permᴰ}
use mathlib.Core.List.Permᴰ
use wspr_recorder.Common.{
  ℕ, zero, suc, ◌+◌, ◌-◌, ◌≤◌, Bool, true, Option, List, [], ◌∷◌, ◌++◌, ◌≡◌, refl, sym, ap, ◌∙◌,
  All, All-drop, All-map_weaken, arith, leb, leb→le, leb-false→lt, if_intro, length, length-append,
  length-take, length-drop, take, drop, append-take-drop, subst,
}
use wspr_recorder.WavWriter.{
  insert_by_mtime, sort_by_mtime, snapshot, unlink_all, keep_newest, enforce_max_files_per_band,
}

module _ {P : Type 0} where
  -- Each file is no newer than those after it.
  abbrev pub IsSorted : List (P × ℕ) → Type 0
  IsSorted [] = Unit
  IsSorted (x ∷ xs) = All (λ y. x.1 ≤ y.1) xs × IsSorted xs

  All-insert :
      (Q : P × ℕ → Type 0) (x : P × ℕ) (ys : List (P × ℕ))
      → Q x
      → All Q ys
      → All Q (insert_by_mtime x ys)
  unfolding insert_by_mtime
  All-insert Q x [] q a = (q, tt)
  All-insert Q x (y ∷ ys) q a =
      if_intro (All Q) (leb x.1 y.1) (λ _. (q, a)) (λ _. (a.0, All-insert Q x ys q a.1))

  insert_by_mtime-IsSorted :
      (x : P × ℕ) (ys : List (P × ℕ)) → IsSorted ys → IsSorted (insert_by_mtime x ys)
  unfolding insert_by_mtime
  insert_by_mtime-IsSorted x [] s = (tt, tt)
  insert_by_mtime-IsSorted x (y ∷ ys) (first, s) =
      if_intro IsSorted (leb x.1 y.1)
        (λ t.
          let l = leb→le x.1 y.1 t in
          (
            (
              l,
              All-map_weaken (λ z. y.1 ≤ z.1) (λ (z : P × ℕ). x.1 ≤ z.1) (λ z h. omega arith) ys
                  first,
            ),
            (first, s),
          ))
        (λ f. (
          All-insert (λ z. y.1 ≤ z.1) x ys (omega (arith, leb-false→lt x.1 y.1 f)) first,
          insert_by_mtime-IsSorted x ys s,
        ))

  sort_by_mtime-IsSorted : (xs : List (P × ℕ)) → IsSorted (sort_by_mtime xs)
  unfolding sort_by_mtime
  sort_by_mtime-IsSorted [] = tt
  sort_by_mtime-IsSorted (x ∷ xs) =
      insert_by_mtime-IsSorted x (sort_by_mtime xs) (sort_by_mtime-IsSorted xs)

  length-insert_by_mtime :
      (x : P × ℕ) (ys : List (P × ℕ)) → length (insert_by_mtime x ys) ≡ suc (length ys)
  unfolding insert_by_mtime
  length-insert_by_mtime x [] = refl
  length-insert_by_mtime x (y ∷ ys) = ground (arith, length-insert_by_mtime x ys)

  length-sort_by_mtime : (xs : List (P × ℕ)) → length (sort_by_mtime xs) ≡ length xs
  unfolding sort_by_mtime
  length-sort_by_mtime [] = refl
  length-sort_by_mtime (x ∷ xs) =
      length-insert_by_mtime x (sort_by_mtime xs) ∙ ap suc (length-sort_by_mtime xs)

  -- What a sorted list starts with is no newer than what it ends with.
  IsSorted-split :
      (n : ℕ) (xs : List (P × ℕ))
      → IsSorted xs
      → All (λ x. All (λ y. x.1 ≤ y.1) (drop n xs)) (take n xs)
  IsSorted-split zero xs s = tt
  IsSorted-split (suc n) [] s = tt
  IsSorted-split (suc n) (x ∷ xs) (first, s) =
      (All-drop (λ y. x.1 ≤ y.1) n xs first, IsSorted-split n xs s)

  unlink_all-counts :
      (unlinks : P → Bool) (files : List (P × ℕ))
      → (unlink_all unlinks files).0 + length (unlink_all unlinks files).1 ≡ length files
  unfolding unlink_all
  unlink_all-counts unlinks [] = refl
  unlink_all-counts unlinks ((p, t) ∷ files) = ground (arith, unlink_all-counts unlinks files)

  unlink_all-all :
      (unlinks : P → Bool) (files : List (P × ℕ))
      → ((p : P) → unlinks p ≡ true)
      → (unlink_all unlinks files).1 ≡ []
  unfolding unlink_all
  unlink_all-all unlinks [] h = refl
  unlink_all-all unlinks ((p, t) ∷ files) h = rw (h p) (unlink_all-all unlinks files h)

  insert_by_mtime-Perm : (x : P × ℕ) (ys : List (P × ℕ)) → Permᴰ (insert_by_mtime x ys) (x ∷ ys)
  unfolding insert_by_mtime
  insert_by_mtime-Perm x [] = Permᴰ.refl (x ∷ [])
  insert_by_mtime-Perm x (y ∷ ys) =
      if_intro (λ zs. Permᴰ zs (x ∷ y ∷ ys)) (leb x.1 y.1) (λ _. Permᴰ.refl (x ∷ y ∷ ys))
        (λ _. Permᴰ.trans (Permᴰ.cons refl (insert_by_mtime-Perm x ys)) (Permᴰ.swap refl refl))

  sort_by_mtime-Perm : (xs : List (P × ℕ)) → Permᴰ (sort_by_mtime xs) xs
  unfolding sort_by_mtime
  sort_by_mtime-Perm [] = Permᴰ.nil
  sort_by_mtime-Perm (x ∷ xs) =
      Permᴰ.trans (insert_by_mtime-Perm x (sort_by_mtime xs))
        (Permᴰ.cons refl (sort_by_mtime-Perm xs))

  -- At most the allowed number of the files stays, and the count is right; what went and what stays
  -- make up the files, and nothing that went is newer than what stays.
  pub record KeepsNewest (allowed : ℕ) (files : List (P × ℕ)) (r : ℕ × List (P × ℕ)) : Type 0 where
    pub counted : r.0 + length r.1 ≡ length files
    pub bounded : length r.1 ≤ allowed
    pub gone : List (P × ℕ)
    pub complete : Permᴰ (gone ++ r.1) files
    pub newest : All (λ x. All (λ y. x.1 ≤ y.1) r.1) gone

  -- So it is in every directory where the removals go through, whichever files have gone before the
  -- times are read.
  pub keep_newest-KeepsNewest :
      (allowed : ℕ) (stat : P → Option ℕ) (unlinks : P → Bool) (dir : List P)
      → ((p : P) → unlinks p ≡ true)
      → KeepsNewest allowed (snapshot stat dir) (keep_newest allowed stat unlinks dir)
  unfolding keep_newest
  keep_newest-KeepsNewest allowed stat unlinks dir h =
      let files = snapshot stat dir in
      let sorted = sort_by_mtime files in
      let n = length sorted - allowed in
      let r = unlink_all unlinks (take n sorted) in
      let clean = unlink_all-all unlinks (take n sorted) h in
      record {
        counted = omega (
          arith,
          unlink_all-counts unlinks (take n sorted),
          length-append r.1 (drop n sorted),
          length-take n sorted,
          length-drop n sorted,
          length-sort_by_mtime files,
        );
        bounded =
            subst (λ ys. length (ys ++ drop n sorted) ≤ allowed) (sym clean)
              (omega (arith, length-drop n sorted));
        gone = take n sorted;
        complete =
            subst (λ ys. Permᴰ (take n sorted ++ (ys ++ drop n sorted)) files) (sym clean)
              (subst (λ zs. Permᴰ zs files) (sym (append-take-drop n sorted))
                (sort_by_mtime-Perm files));
        newest =
            subst (λ ys. All (λ x. All (λ y. x.1 ≤ y.1) (ys ++ drop n sorted)) (take n sorted))
              (sym clean) (IsSorted-split n sorted (sort_by_mtime-IsSorted files));
      }

  -- Where the removals go through, no band is left with more files than the limit.
  pub enforce_max_files_per_band-bounded :
      (max_files : ℕ) (stat : P → Option ℕ) (unlinks : P → Bool) (dirs : List (List P))
      → ((p : P) → unlinks p ≡ true)
      → All
          (λ kept. length kept ≤ max_files)
          (enforce_max_files_per_band max_files stat unlinks dirs).1
  unfolding enforce_max_files_per_band
  enforce_max_files_per_band-bounded max_files stat unlinks [] h = tt
  enforce_max_files_per_band-bounded max_files stat unlinks (dir ∷ dirs) h =
      let k = keep_newest-KeepsNewest max_files stat unlinks dir h in
      (k.bounded, enforce_max_files_per_band-bounded max_files stat unlinks dirs h)
