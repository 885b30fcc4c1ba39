-- ===== src/Common/Maps.antt =====
-- Dictionaries keyed by text as functions, and deques of bounded length.
use Prim.Native.String.{String}
use text.Mathlib.Text.{◌==◌ as str_eq}
use text.Mathlib.TextPositions.{eq_refl}
use mathlib.Core.Path.{◌≡◌, refl}
use mathlib.Core.Bool.{false}
use Prim.Native.Nat.{ℕ, ◌-◌}
use mathlib.Core.List.{List, [], ◌∷◌, ◌++◌}
use wspr_recorder.Common.Lists.{length, drop}
use wspr_recorder.Common.Tests.{if◌then◌else◌}

-- `d[k] = v`
abbrev pub update {ℓ} : {V : Type ℓ} → (String → V) → String → V → String → V
update d k v j = if str_eq j k then v else d j

pub update_self {ℓ} : {V : Type ℓ} (d : String → V) (k : String) (v : V) → update d k v k ≡ v
update_self d k v = rw eq_refl refl

pub update_ne {ℓ} :
    {V : Type ℓ} (d : String → V) (k j : String) (v : V) → str_eq j k ≡ false → update d k v j ≡ d j
update_ne d k j v h = rw h refl

-- `deque.append` on a deque of the given `maxlen`.
abbrev pub append_bounded {ℓ} : {A : Type ℓ} → ℕ → List A → A → List A
append_bounded maxlen xs x = let ys = xs ++ (x ∷ []) in drop (length ys - maxlen) ys
