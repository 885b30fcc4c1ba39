-- ===== src/DecodePool/Workers.antt =====
-- The pool with its worker threads: each step is a piece of code that runs under the pool's lock, in
-- any order that the threads produce.
use wspr_recorder.Common.{
  ℕ, suc, ◌+◌, ◌-◌, ◌≤◌, ◌<◌, ◌≡◌, refl, sym, ap, ◌∙◌, Bool, true, false, Option, some, List, [],
  ◌∷◌, arith, length, ◌⊎◌, inl, inr, if◌then◌else◌,
}
use mathlib.Core.Path.{subst}
use wspr_recorder.Common.Results.{ok, value_error}
use wspr_recorder.DecodePool.{
  Entry, Pool, Taken, pending, entry, is_long, take_next, submit, start, finish, release, shutdown,
  init,
}
use wspr_recorder.DecodePool.Order.{
  IsValid, TakesWell, Afterwards, submit-IsValid, take_next-TakesWell,
}

-- `picked`: entries taken from a queue whose job has not started; `active`: jobs that run; `ending`:
-- jobs that are no longer counted as running and whose place has not been given back yet.
pub record System (J : Type 0) : Type 0 where
  pub pool : Pool J
  pub picked : List (Entry J)
  pub active : List (Entry J)
  pub ending : List (Entry J)

module _ {J : Type 0} where
  -- `Removes e l l'`: `l'` is `l` without one occurrence of `e`.
  pub data Removes (e : Entry J) : List (Entry J) → List (Entry J) → Type 0 where
    here : {l : List (Entry J)} → Removes e (e ∷ l) l
    there : {x : Entry J} {l l' : List (Entry J)} → Removes e l l' → Removes e (x ∷ l) (x ∷ l')

  pub data Step : System J → System J → Type 0 where
    submitted :
        {s : System J} {p : Pool J} (period_seconds : Option ℕ) (job : J) (now : ℕ)
        → submit s.pool period_seconds job now ≡ ok p
        → Step s (record s { pool = p })
    taken :
        {s : System J} {p : Pool J} (e : Entry J)
        → take_next s.pool ≡ (entry e, p)
        → Step s (record s { pool = p; picked = e ∷ s.picked })
    skipped :
        {s : System J} {rest : List (Entry J)} (e : Entry J)
        → Removes e s.picked rest
        → Step s (record s { pool = release s.pool e; picked = rest })
    started :
        {s : System J} {rest : List (Entry J)} (e : Entry J)
        → Removes e s.picked rest
        → Step s (record s { pool = start s.pool; picked = rest; active = e ∷ s.active })
    finished :
        {s : System J} {rest : List (Entry J)} (e : Entry J)
        → Removes e s.active rest
        → Step s (record s { pool = finish s.pool; active = rest; ending = e ∷ s.ending })
    released :
        {s : System J} {rest : List (Entry J)} (e : Entry J)
        → Removes e s.ending rest
        → Step s (record s { pool = release s.pool e; ending = rest })
    closed :
        {s : System J} (cancel : Bool) → Step s (record s { pool = (shutdown s.pool cancel).0 })

  pub data Reach (s : System J) : System J → Type 0 where
    done : Reach s s
    next : {t u : System J} → Reach s t → Step t u → Reach s u

  abbrev pub weight : Entry J → ℕ
  weight e = if is_long e then 1 else 0

  abbrev pub longs : List (Entry J) → ℕ
  longs [] = 0
  longs (e ∷ es) = weight e + longs es

  Removes-counts :
      {e : Entry J} {l l' : List (Entry J)}
      → Removes e l l'
      → (length l ≡ suc (length l')) × (longs l ≡ weight e + longs l')
  Removes-counts here = (refl, refl)
  Removes-counts (there r) = omega (arith, Removes-counts r)

  pub record IsConsistent (s : System J) : Type 0 where
    pub valid : IsValid s.pool
    pub inflight : s.pool.long_inflight ≡ longs s.picked + longs s.active + longs s.ending
    pub running : s.pool.running ≡ length s.active
    pub capped : (s.pool.is_shutdown ≡ true) ⊎ (s.pool.long_inflight ≤ s.pool.max_long_inflight)

  -- The counters and the flag, with the queues left alone.
  abbrev with_counters : Pool J → ℕ → ℕ → Bool → Pool J
  with_counters p n m b = record p { long_inflight = n; running = m; is_shutdown = b }

  release-counters :
      (p : Pool J) (e : Entry J)
      → release p e ≡ with_counters p (p.long_inflight - weight e) p.running p.is_shutdown
  unfolding release
  release-counters p e = ground arith

  counters-IsValid : {p : Pool J} (n m : ℕ) (b : Bool) → IsValid p → IsValid (with_counters p n m b)
  counters-IsValid n m b v = record {
    short_sorted = v.short_sorted;
    long_sorted = v.long_sorted;
    short_kind = v.short_kind;
    long_kind = v.long_kind;
    short_seq = v.short_seq;
    long_seq = v.long_seq;
    some_long = v.some_long;
  }

  -- `submit` leaves the counters alone.
  abbrev SameCounters : Pool J → Pool J → Type 0
  SameCounters p p' =
      (p'.long_inflight ≡ p.long_inflight)
      × (p'.running ≡ p.running)
      × (p'.is_shutdown ≡ p.is_shutdown)
      × (p'.max_long_inflight ≡ p.max_long_inflight)

  submit-counters :
      (p : Pool J) (period_seconds : Option ℕ) (job : J) (now : ℕ)
      → Afterwards (SameCounters p) (submit p period_seconds job now)
  unfolding submit
  submit-counters p period_seconds job now = ground arith

  take_next-counters :
      (p : Pool J)
      → ((take_next p).1.running ≡ p.running)
        × ((take_next p).1.is_shutdown ≡ p.is_shutdown)
        × ((take_next p).1.max_long_inflight ≡ p.max_long_inflight)
  unfolding take_next
  take_next-counters p = ground arith

  shutdown-queues :
      (p : Pool J) (s l : List (Entry J)) (cancel : Bool)
      → (shutdown (record p { short = s; long = l }) cancel).0
        ≡ record p { short = s; long = l; is_shutdown = true }
  unfolding shutdown
  shutdown-queues p [] [] true = refl
  shutdown-queues p [] (e ∷ l) true = refl
  shutdown-queues p (e ∷ s) l true = refl
  shutdown-queues p s l false = refl

  -- `shutdown` only raises the flag: it cancels nothing that is queued.
  shutdown-counters :
      (p : Pool J) (cancel : Bool)
      → (shutdown p cancel).0 ≡ with_counters p p.long_inflight p.running true
  shutdown-counters p cancel = shutdown-queues p p.short p.long cancel

  submitted-IsConsistent :
      {s : System J} {p : Pool J} (period_seconds : Option ℕ) (job : J) (now : ℕ)
      → submit s.pool period_seconds job now ≡ ok p
      → IsConsistent s
      → IsConsistent (record s { pool = p })
  submitted-IsConsistent {s} {p} period_seconds job now e c =
      let same : SameCounters s.pool p =
        subst (Afterwards (SameCounters s.pool)) e
          (submit-counters s.pool period_seconds job now) in
      record {
        valid = subst (Afterwards IsValid) e (submit-IsValid period_seconds job now c.valid);
        inflight = same.0 ∙ c.inflight;
        running = same.1 ∙ c.running;
        capped = ground (arith, c.capped, same);
      }

  taken-IsConsistent :
      {s : System J} {p : Pool J} (e : Entry J)
      → take_next s.pool ≡ (entry e, p)
      → IsConsistent s
      → IsConsistent (record s { pool = p; picked = e ∷ s.picked })
  taken-IsConsistent {s} {p} e h c = record {
    valid = well.0;
    inflight = omega (arith, grown, c.inflight);
    running = same.0 ∙ c.running;
    capped = elim well.3 [
      | inl (_, _, under, _, q) ↦ ground (arith, same, under, ap (λ t. t.long_inflight) q)
      | inr (_, _, q) ↦ ground (arith, same, ap (λ t. t.long_inflight) q, c.capped)
    ];
  }
    where
      well : TakesWell s.pool (entry e, p)
      well = subst (TakesWell s.pool) h (take_next-TakesWell s.pool c.valid)

      same :
          (p.running ≡ s.pool.running)
          × (p.is_shutdown ≡ s.pool.is_shutdown)
          × (p.max_long_inflight ≡ s.pool.max_long_inflight)
      same =
          subst
            (λ (x : Taken J × Pool J).
              (x.1.running ≡ s.pool.running)
              × (x.1.is_shutdown ≡ s.pool.is_shutdown)
              × (x.1.max_long_inflight ≡ s.pool.max_long_inflight))
            h (take_next-counters s.pool)

      grown : p.long_inflight ≡ s.pool.long_inflight + weight e
      grown = elim well.3 [
        | inl (l, _, _, _, q) ↦ ground (arith, l, ap (λ t. t.long_inflight) q)
        | inr (l, _, q) ↦ ground (arith, l, ap (λ t. t.long_inflight) q)
      ]

  Step-IsConsistent : {s t : System J} → Step s t → IsConsistent s → IsConsistent t
  unfolding start finish
  Step-IsConsistent (submitted period_seconds job now e) c =
      submitted-IsConsistent period_seconds job now e c
  Step-IsConsistent (taken e h) c = taken-IsConsistent e h c
  Step-IsConsistent (skipped {s} {rest} e r) c =
      subst (λ p. IsConsistent (record s { pool = p; picked = rest }))
        (sym (release-counters s.pool e))
        (record {
          valid = counters-IsValid _ _ _ c.valid;
          inflight = omega (arith, Removes-counts r, c.inflight);
          running = c.running;
          capped = ground (arith, c.capped);
        })
  Step-IsConsistent (started {s} {rest} e r) c = record {
    valid = counters-IsValid s.pool.long_inflight (s.pool.running + 1) s.pool.is_shutdown c.valid;
    inflight = omega (arith, Removes-counts r, c.inflight);
    running = omega (arith, c.running);
    capped = c.capped;
  }
  Step-IsConsistent (finished {s} {rest} e r) c = record {
    valid = counters-IsValid s.pool.long_inflight (s.pool.running - 1) s.pool.is_shutdown c.valid;
    inflight = omega (arith, Removes-counts r, c.inflight);
    running = omega (arith, Removes-counts r, c.running);
    capped = c.capped;
  }
  Step-IsConsistent (released {s} {rest} e r) c =
      subst (λ p. IsConsistent (record s { pool = p; ending = rest }))
        (sym (release-counters s.pool e))
        (record {
          valid = counters-IsValid _ _ _ c.valid;
          inflight = omega (arith, Removes-counts r, c.inflight);
          running = c.running;
          capped = ground (arith, c.capped);
        })
  Step-IsConsistent (closed {s} cancel) c =
      subst (λ p. IsConsistent (record s { pool = p })) (sym (shutdown-counters s.pool cancel))
        (record {
          valid = counters-IsValid _ _ _ c.valid;
          inflight = c.inflight;
          running = c.running;
          capped = inl refl;
        })

  -- The system when the pool is built: nothing queued, nothing running.
  abbrev pub fresh : ℕ → Option ℕ → System J
  fresh workers max_long = record {
    pool = init workers max_long;
    picked = [];
    active = [];
    ending = [];
  }

  init-IsConsistent : (workers : ℕ) (max_long : Option ℕ) → IsConsistent (fresh workers max_long)
  unfolding init
  init-IsConsistent workers max_long = record {
    valid = record {
      short_sorted = tt;
      long_sorted = tt;
      short_kind = tt;
      long_kind = tt;
      short_seq = tt;
      long_seq = tt;
      some_long = omega arith;
    };
    inflight = refl;
    running = refl;
    capped = inr (omega arith);
  }

  -- However the threads interleave: the queues of a pool stay valid, its counters count the long
  -- entries that hold a place and the jobs that run, and until shutdown no more long jobs run than the cap.
  pub Reach-IsConsistent :
      (workers : ℕ) (max_long : Option ℕ) {s : System J}
      → Reach (fresh workers max_long) s
      → IsConsistent s × ((s.pool.is_shutdown ≡ true) ⊎ (longs s.active ≤ s.pool.max_long_inflight))
  Reach-IsConsistent workers max_long r =
      let c = reached r in (c, ground (arith, c.capped, c.inflight))
    where
      reached : {t : System J} → Reach (fresh workers max_long) t → IsConsistent t
      reached done = init-IsConsistent workers max_long
      reached (next q st) = Step-IsConsistent st (reached q)

  -- `shutdown` that is to cancel what is queued raises where anything is queued, and then has
  -- closed the pool with every queued job still in it.
  pub shutdown-cancel_raises :
      (p : Pool J)
      → 0 < pending p
      → ((shutdown p true).1 ≡ some value_error)
        × ((shutdown p true).0 ≡ record p { is_shutdown = true })
  unfolding pending shutdown
  shutdown-cancel_raises p h = (raises p p.short p.long h, shutdown-counters p true)
    where
      raises :
          (q : Pool J) (s l : List (Entry J))
          → 0 < length s + length l
          → (shutdown (record q { short = s; long = l }) true).1 ≡ some value_error
      raises q [] [] k = absurd (omega arith)
      raises q [] (e ∷ l) k = refl
      raises q (e ∷ s) l k = refl
