-- ===== src/CycleBatcher.antt =====
-- wspr_recorder/spot_sink.py: `_CycleBatch` and the producers' side of `CycleBatcher`. Times are in
-- milliseconds of the monotonic clock, which the calls read and here take as `now`. `S` is a
-- decoded spot and `N` a noise measurement. Each function is what runs under the lock in one call.
pub mod Writer
pub mod Expected
pub mod Inputs
pub mod Keyed
pub mod Accounts
pub mod Balance
pub mod Turns
pub mod Sleep
pub mod Delivery
pub mod Wakes
pub mod WakeEvents
pub mod WakeOnce
mod Tests
pub mod Conservation
use Prim.Native.String.{String}
use wspr_recorder.Common.{
  ℕ, ◌+◌, ◌%◌, Bool, false, not, ◌&&◌, ◌||◌, Option, none, some, List, [], ◌∷◌, ◌++◌, ltb, ◌==◌,
  if◌then◌else◌,
}
use wspr_recorder.Common.Dict.{
  Dict, lookup, upsert, adjust, get_or, contains, set_add, set_discard, set_union, string_eq,
  pair_eq,
}
use wspr_recorder.Common.Int.{ℤ, pos_part}

-- The date and the hour and minute of a cycle, as the decoder prints them.
abbrev pub CycleKey : Type 0
CycleKey = String × String

-- A batch's key: its cycle and its receiver.
abbrev pub Key : Type 0
Key = CycleKey × String

pub record Batch (S N : Type 0) : Type 0 where
  pub cycle_key : CycleKey
  pub deadline : ℕ
  pub bands : Dict String (List S)
  pub noise : Dict String N
  pub radiod_id : String
  pub rx_source : String
  pub expected_bands : List String
  pub completed_bands : List String
  pub first_expect_at : ℕ

-- `callback` and `judge` say whether a wake callback and a hook for the cycle's dt are set; a
-- pending timer is the time it is due.
pub record Batcher (S N : Type 0) : Type 0 where
  pub deadline_ms : ℕ
  pub backstop_ms : ℕ
  pub ft_settle_ms : ℕ
  pub batches : Dict Key (Batch S N)
  pub expected_rx_sources : List String
  pub cycle_committed_rx : Dict CycleKey (List String)
  pub cycle_first_commit_at : Dict CycleKey ℕ
  pub cycle_wake_fired : List CycleKey
  pub bands_by_source : Dict String (Dict String (List ℕ))
  pub unproducible : Dict String (List String)
  pub is_stopped : Bool
  pub callback : Bool
  pub judge : Bool
  pub pending_timers : List ℕ

-- `_resolve_ft_settle_sec`, after the setting is stripped: `parse` is `float` of a text.
unfoldable pub resolve_ft_settle : (String → Option ℤ) → Option String → ℕ
resolve_ft_settle parse none = 0
resolve_ft_settle parse (some raw) = elim (parse raw) [ none ↦ 0 | some v ↦ pos_part v ]

-- The backstop: what the caller gives, or the environment's setting, or three minutes.
unfoldable pub resolve_backstop : (String → Option ℕ) → Option ℕ → Option String → ℕ
resolve_backstop parse (some ms) raw = ms
resolve_backstop parse none none = 180_000
resolve_backstop parse none (some raw) = get_or 180_000 (parse raw)

-- Whether some period ends at the second `t`.
abbrev pub is_due : ℕ → List ℕ → Bool
is_due t [] = false
is_due t (p ∷ ps) = (ltb 0 p && t % p == 0) || is_due t ps

-- The loop of `_expected_bands_for_cycle`.
unfoldable pub due_bands : ℕ → List String → Dict String (List ℕ) → List String → List String
due_bands t skipped [] expected = expected
due_bands t skipped ((band, periods) ∷ bands) expected =
    due_bands t skipped bands
      (if not (contains skipped band) && is_due t periods then set_add band expected else expected)

module _ {S N : Type 0} where
  -- `_CycleBatch.__init__`
  abbrev pub new_batch : CycleKey → ℕ → Batch S N
  new_batch cycle_key deadline = record {
    cycle_key = cycle_key;
    deadline = deadline;
    bands = [];
    noise = [];
    radiod_id = "";
    rx_source = "";
    expected_bands = [];
    completed_bands = [];
    first_expect_at = 0;
  }

  -- `_CycleBatch.add`
  unfoldable pub batch_add : String → List S → Batch S N → Batch S N
  unfolding upsert
  batch_add band spots b = record b { bands = upsert band [] (λ old. old ++ spots) b.bands }

  -- `_CycleBatch.add_noise`
  unfoldable pub batch_add_noise : String → N → Batch S N → Batch S N
  unfolding upsert
  batch_add_noise band noise b = record b { noise = upsert band noise (λ _. noise) b.noise }

  abbrev pub expect_in : String → Batch S N → Batch S N
  expect_in band b = record b { expected_bands = set_add band b.expected_bands }

  abbrev pub complete_in : String → Batch S N → Batch S N
  complete_in band b = record b { completed_bands = set_add band b.completed_bands }

  -- `CycleBatcher.__init__`, with the settings resolved.
  unfoldable pub init_batcher : ℕ → ℕ → ℤ → Bool → Batcher S N
  init_batcher deadline_ms backstop_ms ft_settle judge = record {
    deadline_ms = deadline_ms;
    backstop_ms = backstop_ms;
    ft_settle_ms = pos_part ft_settle;
    batches = [];
    expected_rx_sources = [];
    cycle_committed_rx = [];
    cycle_first_commit_at = [];
    cycle_wake_fired = [];
    bands_by_source = [];
    unproducible = [];
    is_stopped = false;
    callback = false;
    judge = judge;
    pending_timers = [];
  }

  unfoldable pub set_wake_callback : Bool → Batcher S N → Batcher S N
  set_wake_callback given s = record s { callback = given }

  unfoldable pub set_bands_by_source :
      Dict String (Dict String (List ℕ)) → Batcher S N → Batcher S N
  set_bands_by_source bands s = record s { bands_by_source = bands }

  unfoldable pub set_band_producible : String → String → Bool → Batcher S N → Batcher S N
  unfolding upsert
  set_band_producible rx band producible s = record s {
    unproducible =
        upsert rx [] (if producible then set_discard band else set_add band) s.unproducible;
  }

  unfoldable pub unproducible_bands : String → Batcher S N → List String
  unfolding lookup
  unproducible_bands rx s = get_or [] (lookup rx s.unproducible)

  unfoldable pub set_expected_rx_sources : List String → Batcher S N → Batcher S N
  set_expected_rx_sources sources s = record s {
    expected_rx_sources = set_union [] sources;
    cycle_committed_rx = [];
    cycle_first_commit_at = [];
    cycle_wake_fired = [];
  }

  module _ (epoch : CycleKey → Option ℕ) where
    -- `epoch` is the second of a cycle's start, where its key is a date and a time.
    unfoldable pub expected_bands_for_cycle : CycleKey → String → Batcher S N → List String
    unfolding lookup due_bands
    expected_bands_for_cycle cycle_key rx s = elim (get_or [] (lookup rx s.bands_by_source)) [
      | [] ↦ []
      | band ∷ bands ↦ elim (epoch cycle_key) [
        | none ↦ []
        | some t ↦ due_bands t (get_or [] (lookup rx s.unproducible)) (band ∷ bands) []
      ]
    ]

    -- The batch that `expect_band` makes where there is none.
    abbrev pub expecting_batch : ℕ → CycleKey → String → String → Batcher S N → Batch S N
    expecting_batch now cycle_key radiod_id rx s =
        record (new_batch cycle_key (now + s.backstop_ms)) {
          radiod_id = radiod_id;
          rx_source = rx;
          first_expect_at = now;
          expected_bands = set_union [] (expected_bands_for_cycle cycle_key rx s);
        }

    unfoldable pub expect_band : ℕ → CycleKey → String → String → String → Batcher S N → Batcher S N
    unfolding upsert expected_bands_for_cycle
    expect_band now cycle_key band radiod_id rx s = record s {
      batches =
          upsert (cycle_key, rx) (expecting_batch now cycle_key radiod_id rx s) (expect_in band)
            s.batches;
    }

  -- A band that reports for an unknown batch changes nothing.
  unfoldable pub mark_done : CycleKey → String → String → Batcher S N → Batcher S N
  unfolding adjust
  mark_done cycle_key band rx s = record s {
    batches = adjust (cycle_key, rx) (complete_in band) s.batches;
  }

  -- The batch that `add` and `add_noise` make where there is none.
  abbrev pub legacy_batch : ℕ → CycleKey → String → String → Batcher S N → Batch S N
  legacy_batch now cycle_key radiod_id rx s = record (new_batch cycle_key (now + s.deadline_ms)) {
    radiod_id = radiod_id;
    rx_source = rx;
  }

  unfoldable pub add : ℕ → CycleKey → String → List S → String → String → Batcher S N → Batcher S N
  unfolding upsert batch_add
  add now cycle_key band [] radiod_id rx s = s
  add now cycle_key band (x ∷ xs) radiod_id rx s = record s {
    batches =
        upsert (cycle_key, rx) (legacy_batch now cycle_key radiod_id rx s) (batch_add band (x ∷ xs))
          s.batches;
  }

  unfoldable pub add_noise : ℕ → CycleKey → String → N → String → String → Batcher S N → Batcher S N
  unfolding upsert batch_add_noise
  add_noise now cycle_key band noise radiod_id rx s = record s {
    batches =
        upsert (cycle_key, rx) (legacy_batch now cycle_key radiod_id rx s)
          (batch_add_noise band noise) s.batches;
  }
