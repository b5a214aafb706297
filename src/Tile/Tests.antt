-- ===== src/Tile/Tests.antt =====
-- The properties of tiles at a model of the floating-point numbers in which the integers are exact.
use tilegroxy.Base.{◌^◌, refl, codes, if◌then◌else◌}
use tilegroxy.Base.Int.{ℤ, pos, negsuc, ltb_ℤ, leb_ℤ, eqb_ℤ}
use tilegroxy.Tile.Floats.{Floats, FloatLaws}
use tilegroxy.Tile.Bounds.{TileRequest}

abbrev power_of_two : ℤ → ℤ
power_of_two (pos z) = pos (2 ^ z)
power_of_two (negsuc z) = pos 0

abbrev pub integers : Floats
integers = record {
  F = ℤ;
  of_int = λ a. a;
  decimal = λ m k. m;
  add = λ a b. a;
  sub = λ a b. a;
  mul = λ a b. a;
  div = λ a b. a;
  lt = ltb_ℤ;
  le = leb_ℤ;
  eq = eqb_ℤ;
  min = λ a b. if leb_ℤ a b then a else b;
  max = λ a b. if leb_ℤ b a then a else b;
  abs = λ a. a;
  exp2 = power_of_two;
  log = λ a. a;
  tan = λ a. a;
  atan = λ a. a;
  sinh = λ a. a;
  cos = λ a. a;
  ceil = λ a. a;
  floor = λ a. a;
  to_int = λ a. a;
  pi = pos 3;
}

integers-FloatLaws : FloatLaws integers
integers-FloatLaws = record {
  le_power = λ a z h. refl;
  lt_zero = λ a. refl;
  exp2_int = λ z h. refl;
}

abbrev pub tile_1_0 : TileRequest
tile_1_0 = record { layer_name = codes "a"; z = pos 1; x = pos 1; y = pos 0 }
