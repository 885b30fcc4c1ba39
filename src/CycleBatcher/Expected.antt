-- ===== src/CycleBatcher/Expected.antt =====
-- The bands that a batch of `CycleBatcher` of wspr_recorder/spot_sink.py waits for.
use Prim.Native.String.{String}
use mathlib.Core.List.{Memᴰ}
use mathlib.Core.List.Memᴰ
use wspr_recorder.Common.{List}
use wspr_recorder.Common.Dict.{Dict, string_eq, pair_eq}
