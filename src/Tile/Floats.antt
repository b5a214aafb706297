-- ===== src/Tile/Floats.antt =====
-- float64, conversions, and the functions of package math that pkg/tile_request.go calls.
use tilegroxy.Base.{ℕ, ◌^◌, ◌≤◌, Bool, ◌≡◌}
use tilegroxy.Base.Int.{ℤ, pos, ltb_ℤ, leb_ℤ}

pub record Floats : Type 1 where
  pub F : Type 0
  pub of_int : ℤ → F
  -- decimal m k is m / 10^k
  pub decimal : ℤ → ℕ → F
  pub add : F → F → F
  pub sub : F → F → F
  pub mul : F → F → F
  pub div : F → F → F
  pub lt : F → F → Bool
  pub le : F → F → Bool
  pub eq : F → F → Bool
  pub min : F → F → F
  pub max : F → F → F
  pub abs : F → F
  pub exp2 : F → F
  pub log : F → F
  pub tan : F → F
  pub atan : F → F
  pub sinh : F → F
  pub cos : F → F
  pub ceil : F → F
  pub floor : F → F
  -- int(f)
  pub to_int : F → ℤ
  pub pi : F

-- Conversions are exact up to 2^53 and keep the order beyond, so a comparison with a power of two of
-- the range of tile coordinates, or with zero, is that of the integers; math.Exp2 is exact there.
pub record FloatLaws (f : Floats) : Type 0 where
  pub le_power :
      (a : ℤ) (z : ℕ) → z ≤ 21 → f.le (f.of_int (pos (2 ^ z))) (f.of_int a) ≡ leb_ℤ (pos (2 ^ z)) a
  pub lt_zero : (a : ℤ) → f.lt (f.of_int a) (f.of_int (pos 0)) ≡ ltb_ℤ a (pos 0)
  pub exp2_int : (z : ℕ) → z ≤ 21 → f.exp2 (f.of_int (pos z)) ≡ f.of_int (pos (2 ^ z))
