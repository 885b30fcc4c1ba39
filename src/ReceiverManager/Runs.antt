-- ===== src/ReceiverManager/Runs.antt =====
-- The operations of `ReceiverManager` in wspr_recorder/receiver_manager.py, in any order.
use wspr_recorder.Common.{ℕ, Bool, List, [], ◌∷◌, All}
use wspr_recorder.Common.Dict.{string_eq, pair_eq, nat_eq}
use wspr_recorder.ReceiverManager.{MultiStreams, Manager}
use wspr_recorder.ReceiverManager.Recovery.{
  World, connect, reprovision_stale, record_samples, start_streams, stop_streams, full_reset,
  shutdown,
}
use wspr_recorder.ReceiverManager.Kept.{
  MarksAll, disconnected, connect-IsTracked, record_samples-IsTracked, reprovision_stale-IsTracked,
  full_reset-IsTracked, start_streams-IsTracked, stop_streams-IsTracked, shutdown-IsTracked,
}
use wspr_recorder.ReceiverManager.Tracked.{IsTracked}

pub data Operation : Type 0 where
  connected : World → Operation
  sampled : (now ssrc count : ℕ) → Operation
  reprovisioned : World → Operation
  reset : World → Operation
  started : Operation
  stopped : Operation
  shut : Operation

abbrev pub Covers : (ℕ → Bool) → Operation → Type 0
Covers stuck (connected w) = MarksAll stuck w
Covers stuck (sampled now ssrc count) = Unit
Covers stuck (reprovisioned w) = MarksAll stuck w
Covers stuck (reset w) = MarksAll stuck w
Covers stuck started = Unit
Covers stuck stopped = Unit
Covers stuck shut = Unit

module _ {M : Type 0} (streams : MultiStreams M) where
  abbrev pub step : Operation → Manager M → Manager M
  step (connected w) m = (connect streams w m).1
  step (sampled now ssrc count) m = record_samples now ssrc count m
  step (reprovisioned w) m = (reprovision_stale streams w m).1
  step (reset w) m = (full_reset streams w m).1
  step started m = start_streams streams m
  step stopped m = stop_streams streams m
  step shut m = shutdown m

  abbrev pub run : List Operation → Manager M → Manager M
  run [] m = m
  run (o ∷ os) m = run os (step o m)

  module _ (stuck : ℕ → Bool) where
    step-IsTracked :
        (o : Operation) (m : Manager M)
        → Covers stuck o
        → IsTracked stuck m
        → IsTracked stuck (step o m)
    step-IsTracked (connected w) m k v =
        connect-IsTracked streams stuck w m k (disconnected streams stuck m v)
    step-IsTracked (sampled now ssrc count) m k v =
        record_samples-IsTracked streams stuck now ssrc count m v
    step-IsTracked (reprovisioned w) m k v = reprovision_stale-IsTracked streams stuck w m k v
    step-IsTracked (reset w) m k v = full_reset-IsTracked streams stuck w m k v
    step-IsTracked started m k v = start_streams-IsTracked streams stuck m v
    step-IsTracked stopped m k v = stop_streams-IsTracked streams stuck m v
    step-IsTracked shut m k v = shutdown-IsTracked streams stuck m v

    -- In any run of operations, whichever calls raise, each channel has one entry under its own SSRC,
    -- what is kept alive has a channel and a stream, and while the manager is connected what is
    -- registered with the listener has a channel or is marked by `stuck`, where that marks each SSRC
    -- whose unregistration raises in the run.
    pub run-IsTracked :
        (os : List Operation) (m : Manager M)
        → All (Covers stuck) os
        → IsTracked stuck m
        → IsTracked stuck (run os m)
    run-IsTracked [] m k v = v
    run-IsTracked (o ∷ os) m k v = run-IsTracked os (step o m) k.1 (step-IsTracked o m k.0 v)
