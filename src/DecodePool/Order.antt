-- ===== src/DecodePool/Order.antt =====
-- Which job a worker is given: short before long, and the least by period and sequence number.
use wspr_recorder.Common.{
  ℕ, suc, ◌+◌, ◌≤◌, ◌<◌, ◌≡◌, refl, ◌⊎◌, true, false, List, [], ◌∷◌, arith, All, Bool-cases, inl,
  inr, leb, ltb, ◌||◌, All-map_weaken, Option, if_intro, length, leb→le, leb-false→lt,
}
use wspr_recorder.DecodePool.{
  Entry, Pool, Taken, entry, sentinel, wait, before, heappush, take_next, submit, period_of,
  pending,
}
use wspr_recorder.Common.Results.{Result, ok, raise, runtime_error}

module _ {J : Type 0} where
  -- `a` comes no later than `b`.
  abbrev pub Precedes : Entry J → Entry J → Type 0
  Precedes a b = (a.period < b.period) ⊎ ((a.period ≡ b.period) × (a.seq ≤ b.seq))

  abbrev pub IsSorted : List (Entry J) → Type 0
  IsSorted [] = Unit
  IsSorted (e ∷ es) = All (Precedes e) es × IsSorted es

  -- Sorted queues, each with its kind of job, and sequence numbers handed out so far.
  pub record IsValid (p : Pool J) : Type 0 where
    pub short_sorted : IsSorted p.short
    pub long_sorted : IsSorted p.long
    pub short_kind : All (λ e. e.period < 900) p.short
    pub long_kind : All (λ e. 900 ≤ e.period) p.long
    pub short_seq : All (λ e. e.seq ≤ p.seq) p.short
    pub long_seq : All (λ e. e.seq ≤ p.seq) p.long
    pub some_long : 0 < p.max_long_inflight

  All-heappush {κ} :
      (P : Entry J → Type κ) (q : List (Entry J)) (e : Entry J)
      → P e
      → All P q
      → All P (heappush q e)
  unfolding heappush
  All-heappush P [] e h a = (h, tt)
  All-heappush P (x ∷ xs) e h a = elim (Bool-cases (before e x)) [
    | inl t ↦ rw t (h, a)
    | inr t ↦ rw t (a.0, All-heappush P xs e h a.1)
  ]

  Precedes-trans : (a b c : Entry J) → Precedes a b → Precedes b c → Precedes a c
  Precedes-trans a b c h k = omega arith

  before→Precedes : (a b : Entry J) → before a b ≡ true → Precedes a b
  before→Precedes a b h = ground arith

  not-before→Precedes : (a b : Entry J) → before a b ≡ false → Precedes b a
  not-before→Precedes a b h = ground arith

  All-Precedes :
      (a b : Entry J) (q : List (Entry J)) → Precedes a b → All (Precedes b) q → All (Precedes a) q
  All-Precedes a b [] h k = tt
  All-Precedes a b (x ∷ xs) h k = (Precedes-trans a b x h k.0, All-Precedes a b xs h k.1)

  heappush-IsSorted : (q : List (Entry J)) (e : Entry J) → IsSorted q → IsSorted (heappush q e)
  unfolding heappush
  heappush-IsSorted [] e s = (tt, tt)
  heappush-IsSorted (x ∷ xs) e s = elim (Bool-cases (before e x)) [
    | inl t ↦ rw t ((before→Precedes e x t, All-Precedes e x xs (before→Precedes e x t) s.0), s)
    | inr t ↦
        rw t (
          All-heappush (Precedes x) xs e (not-before→Precedes e x t) s.0,
          heappush-IsSorted xs e s.1,
        )
  ]

  seq_weaken :
      (n m : ℕ) (q : List (Entry J)) → n ≤ m → All (λ e. e.seq ≤ n) q → All (λ e. e.seq ≤ m) q
  seq_weaken n m q h = All-map_weaken (λ e. e.seq ≤ n) (λ e. e.seq ≤ m) (λ e k. omega arith) q

  pushed-IsValid :
      {p : Pool J} (e : Entry J)
      → IsValid p
      → e.seq ≡ suc p.seq
      → (e.period < 900 → IsValid (record p { seq = p.seq + 1; short = heappush p.short e }))
        × (900 ≤ e.period → IsValid (record p { seq = p.seq + 1; long = heappush p.long e }))
  pushed-IsValid {p} e v h = (
    λ k. record {
      short_sorted = heappush-IsSorted p.short e v.short_sorted;
      long_sorted = v.long_sorted;
      short_kind = All-heappush (λ x. x.period < 900) p.short e k v.short_kind;
      long_kind = v.long_kind;
      short_seq =
          All-heappush (λ x. x.seq ≤ p.seq + 1) p.short e (omega arith)
            (seq_weaken p.seq (p.seq + 1) p.short (omega arith) v.short_seq);
      long_seq = seq_weaken p.seq (p.seq + 1) p.long (omega arith) v.long_seq;
      some_long = v.some_long;
    },
    λ k. record {
      short_sorted = v.short_sorted;
      long_sorted = heappush-IsSorted p.long e v.long_sorted;
      short_kind = v.short_kind;
      long_kind = All-heappush (λ x. 900 ≤ x.period) p.long e k v.long_kind;
      short_seq = seq_weaken p.seq (p.seq + 1) p.short (omega arith) v.short_seq;
      long_seq =
          All-heappush (λ x. x.seq ≤ p.seq + 1) p.long e (omega arith)
            (seq_weaken p.seq (p.seq + 1) p.long (omega arith) v.long_seq);
      some_long = v.some_long;
    },
  )

  -- A property of the pool that a call returns, if it returns.
  abbrev pub Afterwards : (Pool J → Type 0) → Result (Pool J) → Type 0
  Afterwards P (ok p) = P p
  Afterwards P (raise e) = Unit

  -- `submit` keeps the queues valid: both in order, each with its own kind of job, and no sequence
  -- number above the last one given out.
  pub submit-IsValid :
      {p : Pool J} (period_seconds : Option ℕ) (job : J) (now : ℕ)
      → IsValid p
      → Afterwards IsValid (submit p period_seconds job now)
  unfolding submit
  submit-IsValid {p} period_seconds job now v =
      if_intro (Afterwards IsValid) p.is_shutdown (λ down. tt)
        λ up.
          if_intro (Afterwards IsValid) (leb 900 (period_of period_seconds))
            (λ l. pushed.1 (leb→le _ _ l)) (λ l. pushed.0 (leb-false→lt _ _ l))
    where
      new : Entry J
      new = record { period = period_of period_seconds; seq = p.seq + 1; job = job; enqueued = now }

      pushed :
          (new.period < 900 → IsValid (record p { seq = p.seq + 1; short = heappush p.short new }))
          × (900 ≤ new.period → IsValid (record p { seq = p.seq + 1; long = heappush p.long new }))
      pushed = pushed-IsValid new v (omega arith)

  -- What `_take_next` may do. An entry is the head of its queue, it is all that goes, and it
  -- precedes all that stay queued, long ones included; a long one is given only where no short one
  -- waits, under the cap or at shutdown, and is counted. The sentinel means shutdown with nothing
  -- queued. A wait means that the pool is open and no short job is queued, and that no long one is,
  -- or the cap is reached.
  abbrev pub TakesWell : Pool J → Taken J × Pool J → Type 0
  TakesWell p (entry e, p') =
      IsValid p'
      × All (Precedes e) p'.short
      × All (Precedes e) p'.long
      × (((900 ≤ e.period)
            × (p.short ≡ [])
            × ((p.long_inflight < p.max_long_inflight) ⊎ (p.is_shutdown ≡ true))
            × (p.long ≡ e ∷ p'.long)
            × (p' ≡ record p { long = p'.long; long_inflight = p.long_inflight + 1 }))
          ⊎ ((e.period < 900) × (p.short ≡ e ∷ p'.short) × (p' ≡ record p { short = p'.short })))
  TakesWell p (sentinel, p') = (p' ≡ p) × (p.is_shutdown ≡ true) × (p.short ≡ []) × (p.long ≡ [])
  TakesWell p (wait, p') =
      (p' ≡ p)
      × (p.is_shutdown ≡ false)
      × (p.short ≡ [])
      × ((p.long ≡ []) ⊎ (p.max_long_inflight ≤ p.long_inflight))

  abbrev with_queues : Pool J → List (Entry J) → List (Entry J) → Pool J
  with_queues p s l = record p { short = s; long = l }

  take_next-cases :
      (p : Pool J) (s l : List (Entry J))
      → IsValid (with_queues p s l)
      → TakesWell (with_queues p s l) (take_next (with_queues p s l))
  unfolding take_next
  take_next-cases p (e ∷ s) l v = (
    record {
      short_sorted = v.short_sorted.1;
      long_sorted = v.long_sorted;
      short_kind = v.short_kind.1;
      long_kind = v.long_kind;
      short_seq = v.short_seq.1;
      long_seq = v.long_seq;
      some_long = v.some_long;
    },
    v.short_sorted.0,
    All-map_weaken (λ x. 900 ≤ x.period) (Precedes e) (λ x h. inl (omega (arith, v.short_kind.0))) l
        v.long_kind,
    inr (v.short_kind.0, refl, refl),
  )
  take_next-cases p [] [] v =
      if_intro (TakesWell (with_queues p [] [])) p.is_shutdown (λ down. (refl, down, refl, refl))
        (λ up. (refl, up, refl, inl refl))
  take_next-cases p [] (e ∷ l) v =
      if_intro (TakesWell (with_queues p [] (e ∷ l)))
        (ltb p.long_inflight p.max_long_inflight || p.is_shutdown)
        (λ go. (
          record {
            short_sorted = tt;
            long_sorted = v.long_sorted.1;
            short_kind = tt;
            long_kind = v.long_kind.1;
            short_seq = tt;
            long_seq = v.long_seq.1;
            some_long = v.some_long;
          },
          tt,
          v.long_sorted.0,
          inl (v.long_kind.0, refl, ground arith, refl, refl),
        ))
        (λ stop. (refl, ground arith, refl, ground arith))

  -- From valid queues `_take_next` leaves valid ones. It gives the head of a queue, which precedes
  -- all other entries, and takes nothing else from the pool; it gives a long one only where no short
  -- one is queued, and under the cap or after shutdown, and counts it.
  -- It gives the sentinel only after shutdown with nothing queued, and waits only where nothing is
  -- queued or only long ones are and the cap is reached.
  pub take_next-TakesWell : (p : Pool J) → IsValid p → TakesWell p (take_next p)
  take_next-TakesWell p v = take_next-cases p p.short p.long v

  length-heappush : (q : List (Entry J)) (e : Entry J) → length (heappush q e) ≡ length q + 1
  unfolding heappush
  length-heappush [] e = refl
  length-heappush (x ∷ xs) e = ground (arith, length-heappush xs e)

  -- An accepted job, or a refused one.
  abbrev pub Accounted : Pool J → Result (Pool J) → Type 0
  Accounted p (ok p') = (p.is_shutdown ≡ false) × (pending p' ≡ pending p + 1)
  Accounted p (raise e) = (p.is_shutdown ≡ true) × (e ≡ runtime_error)

  -- `submit` raises exactly after a shutdown; otherwise one more job is queued, whatever its period.
  pub submit-Accounted :
      (p : Pool J) (period_seconds : Option ℕ) (job : J) (now : ℕ)
      → Accounted p (submit p period_seconds job now)
  unfolding submit pending
  submit-Accounted p period_seconds job now =
      let e : Entry J = record {
        period = period_of period_seconds;
        seq = p.seq + 1;
        job = job;
        enqueued = now;
      } in
      ground (arith, length-heappush p.long e, length-heappush p.short e)
