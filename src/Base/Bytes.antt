-- ===== src/Base/Bytes.antt =====
-- Byte slices as lists of numbers below 256, and `encoding/binary`'s little-endian integers.
use Prim.Native.Nat.{ℕ, zero, suc, ◌+◌, ◌-◌, ◌*◌, ◌/◌, ◌%◌, ◌^◌, ◌<◌}
use mathlib.Core.Path.{◌≡◌, refl, ap}
use mathlib.Core.List.{List, [], ◌∷◌}
use native.Mathlib.Omega.{arith}
use native.Mathlib.Nat.{pow-suc}
use hedgehog_db_opus.Base.Lists.{length, take, drop}

-- `PutUint16`, `PutUint32` and `PutUint64` write 2, 4 and 8 bytes.
unfoldable pub le_bytes : ℕ → ℕ → List ℕ
le_bytes zero n = []
le_bytes (suc w) n = n % 256 ∷ le_bytes w (n / 256)

-- `Uint16`, `Uint32` and `Uint64`.
unfoldable pub le_value : List ℕ → ℕ
le_value [] = 0
le_value (b ∷ bs) = b + 256 * le_value bs

-- `s[from:to]`
abbrev pub slice : ℕ → ℕ → List ℕ → List ℕ
slice from to s = take (to - from) (drop from s)

pub length-le_bytes : (w n : ℕ) → length (le_bytes w n) ≡ w
unfolding le_bytes
length-le_bytes zero n = refl
length-le_bytes (suc w) n = ap suc (length-le_bytes w (n / 256))

-- An integer that fits is read back.
pub le_value-le_bytes : (w n : ℕ) → n < 256 ^ w → le_value (le_bytes w n) ≡ n
unfolding le_bytes le_value
le_value-le_bytes zero n h = omega arith
le_value-le_bytes (suc w) n h =
    let smaller : n / 256 < 256 ^ w = omega (arith, pow-suc 256 w) in
    omega (arith, le_value-le_bytes w (n / 256) smaller)
