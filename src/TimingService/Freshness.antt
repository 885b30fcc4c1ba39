-- ===== src/TimingService/Freshness.antt =====
-- The caches of wspr_recorder/timing_service.py: how old an answer can be.
use wspr_recorder.Common.{
  ℕ, ◌+◌, ◌-◌, ◌<◌, ◌≤◌, ◌⊎◌, All, All-map_weaken, Bool, not, ◌&&◌, Option, none, some, List, [],
  ◌∷◌, ◌≡◌, refl, sym, ap, ◌∙◌, arith, inl, inr, ltb, if_intro, option_intro,
}
use wspr_recorder.Common.Dict.{get_or}
use wspr_recorder.Common.Logs.{Log, Recent, Answered, Answered-Recent}
use wspr_recorder.TimingService.{ChronyStatus, TimingService, get_chrony_status}

-- A question to chrony: whether it is forced, its time, and what chronyc then says.
abbrev pub Question : Type 0
Question = Bool × (ℕ × Option ChronyStatus)

-- The answers so far with that of this question, where there is one.
abbrev pub logged : Question → Log ChronyStatus → Log ChronyStatus
logged (force, (now, none)) log = log
logged (force, (now, some ch)) log = (now, ch) ∷ log

-- The cache, if there is one, is the answer of the time that stands with it.
abbrev pub Remembers : Log ChronyStatus → TimingService → Type 0
Remembers log s =
    (ch : ChronyStatus) → s.last_chrony_status ≡ some ch → Answered s.last_chrony_query log ch

abbrev pub AllRecent : Log ChronyStatus → List Question → TimingService → Type 0
AllRecent log [] s = Unit
AllRecent log ((force, (now, answer)) ∷ qs) s =
    let r = get_chrony_status force now answer s in
    let log' = logged (force, (now, answer)) log in
    ((ch : ChronyStatus) → r.0 ≡ some ch → Recent 10000000 now log' ch) × AllRecent log' qs r.1

-- A result is recent, and the cache that it leaves is remembered.
Sound : Log ChronyStatus → ℕ → Option ChronyStatus × TimingService → Type 0
Sound log now r =
    ((ch : ChronyStatus) → r.0 ≡ some ch → Recent 10000000 now log ch) × Remembers log r.1

none-some : (ch : ChronyStatus) → none ≡ some ch → ⊥
none-some ch p = ground arith

some_injective : (a b : ChronyStatus) → some a ≡ some b → a ≡ b
some_injective a b p = ap (get_or a) p

nothing-Sound :
    (log : Log ChronyStatus) (now : ℕ) (s : TimingService)
    → Remembers log s
    → Sound log now (none, s)
unfolding Sound
nothing-Sound log now s m = ((λ ch p. absurd (none-some ch p)), m)

asked-Sound :
    (log : Log ChronyStatus) (now : ℕ) (ch : ChronyStatus) (s : TimingService)
    → Sound
        ((now, ch) ∷ log)
        now
        (some ch, record s { last_chrony_status = some ch; last_chrony_query = now })
unfolding Sound
asked-Sound log now ch s = (
  (λ c p. inl (sym (some_injective ch c p), omega arith)),
  (λ c p. inl (sym (some_injective ch c p), refl)),
)

cached-Sound :
    (log : Log ChronyStatus) (now : ℕ) (ch : ChronyStatus) (s : TimingService)
    → Remembers log s
    → s.last_chrony_status ≡ some ch
    → now - s.last_chrony_query < 10000000
    → Sound log now (some ch, s)
unfolding Sound
cached-Sound log now ch s m e h =
    ((λ c p. Answered-Recent 10000000 now s.last_chrony_query log c h (m c (e ∙ p))), m)

Remembers-more :
    (log : Log ChronyStatus) (now : ℕ) (ch : ChronyStatus) (s : TimingService)
    → Remembers log s
    → Remembers ((now, ch) ∷ log) s
Remembers-more log now ch s m c p = inr (m c p)

get_chrony_status-Sound :
    (force : Bool) (now : ℕ) (answer : Option ChronyStatus) (log : Log ChronyStatus)
    (s : TimingService)
    → Remembers log s
    → Sound (logged (force, (now, answer)) log) now (get_chrony_status force now answer s)
unfolding get_chrony_status
get_chrony_status-Sound force now none log s m =
    let P = Sound log now in
    if_intro P s.enable_chrony
      (λ _.
        option_intro P s.last_chrony_status (λ _. nothing-Sound log now s m)
          (λ ch e.
            if_intro P (not force && ltb (now - s.last_chrony_query) 10000000)
              (λ t. cached-Sound log now ch s m e (ground arith)) (λ _. nothing-Sound log now s m)))
      (λ _. nothing-Sound log now s m)
get_chrony_status-Sound force now (some new) log s m =
    let P = Sound ((now, new) ∷ log) now in
    let m' = Remembers-more log now new s m in
    if_intro P s.enable_chrony
      (λ _.
        option_intro P s.last_chrony_status (λ _. asked-Sound log now new s)
          (λ ch e.
            if_intro P (not force && ltb (now - s.last_chrony_query) 10000000)
              (λ t. cached-Sound ((now, new) ∷ log) now ch s m' e (ground arith))
              (λ _. asked-Sound log now new s)))
      (λ _. nothing-Sound ((now, new) ∷ log) now s m')

get_chrony_status-AllRecent :
    (log : Log ChronyStatus) (qs : List Question) (s : TimingService)
    → Remembers log s
    → AllRecent log qs s
unfolding Sound
get_chrony_status-AllRecent log [] s m = tt
get_chrony_status-AllRecent log ((force, (now, answer)) ∷ qs) s m =
    let r = get_chrony_status-Sound force now answer log s m in
    (
      r.0,
      get_chrony_status-AllRecent (logged (force, (now, answer)) log) qs
          (get_chrony_status force now answer s).1 r.1,
    )

-- The answer is one of the last `window` microseconds up to `now`.
abbrev pub Fresh : (window now : ℕ) → Log ChronyStatus → ChronyStatus → Type 0
Fresh window now [] ch = ⊥
Fresh window now ((t, b) ∷ log) ch =
    ((ch ≡ b) × (t ≤ now) × (now < t + window)) ⊎ Fresh window now log ch

Recent-Fresh :
    (window now : ℕ) (log : Log ChronyStatus) (ch : ChronyStatus)
    → All (λ ((t, _) : ℕ × ChronyStatus). t ≤ now) log
    → Recent window now log ch
    → Fresh window now log ch
Recent-Fresh window now [] ch a r = r
Recent-Fresh window now ((t, b) ∷ log) ch a (inl (p, h)) = inl (p, a.0, omega (arith, a.0, h))
Recent-Fresh window now ((t, b) ∷ log) ch a (inr r) = inr (Recent-Fresh window now log ch a.1 r)

logged-before :
    (start : ℕ) (force : Bool) (now : ℕ) (answer : Option ChronyStatus) (log : Log ChronyStatus)
    → start ≤ now
    → All (λ ((t, _) : ℕ × ChronyStatus). t ≤ start) log
    → All (λ ((t, _) : ℕ × ChronyStatus). t ≤ now) (logged (force, (now, answer)) log)
logged-before start force now none log h a =
    All-map_weaken (λ ((t, _) : ℕ × ChronyStatus). t ≤ start)
      (λ ((t, _) : ℕ × ChronyStatus). t ≤ now) (λ (t, _) k. omega arith) log a
logged-before start force now (some ch) log h a = (
  omega arith,
  All-map_weaken (λ ((t, _) : ℕ × ChronyStatus). t ≤ start) (λ ((t, _) : ℕ × ChronyStatus). t ≤ now)
      (λ (t, _) k. omega arith) log a,
)

-- The clock never steps back over the questions, from `start` on.
abbrev pub ClockRuns : (start : ℕ) → List Question → Type 0
ClockRuns start [] = Unit
ClockRuns start ((force, (now, answer)) ∷ qs) = (start ≤ now) × ClockRuns now qs

abbrev pub AllFresh : Log ChronyStatus → List Question → TimingService → Type 0
AllFresh log [] s = Unit
AllFresh log ((force, (now, answer)) ∷ qs) s =
    let r = get_chrony_status force now answer s in
    let log' = logged (force, (now, answer)) log in
    ((ch : ChronyStatus) → r.0 ≡ some ch → Fresh 10000000 now log' ch) × AllFresh log' qs r.1

-- In any run of questions to chrony over which the clock does not step back, from the answers so far
-- on, each status that is returned is an answer of chronyc of less than ten seconds before, and of no
-- later time.
pub get_chrony_status-AllFresh :
    (log : Log ChronyStatus) (start : ℕ) (qs : List Question) (s : TimingService)
    → Remembers log s
    → All (λ ((t, _) : ℕ × ChronyStatus). t ≤ start) log
    → ClockRuns start qs
    → AllFresh log qs s
get_chrony_status-AllFresh log start qs s m a c =
    aged log start qs s a c (get_chrony_status-AllRecent log qs s m)
  where
    aged :
        (log : Log ChronyStatus) (start : ℕ) (qs : List Question) (s : TimingService)
        → All (λ ((t, _) : ℕ × ChronyStatus). t ≤ start) log
        → ClockRuns start qs
        → AllRecent log qs s
        → AllFresh log qs s
    aged log start [] s a c r = tt
    aged log start ((force, (now, answer)) ∷ qs) s a c r =
        let b = logged-before start force now answer log c.0 a in
        (
          (λ ch p. Recent-Fresh 10000000 now (logged (force, (now, answer)) log) ch b (r.0 ch p)),
          aged (logged (force, (now, answer)) log) now qs (get_chrony_status force now answer s).1 b
              c.1 r.1,
        )
