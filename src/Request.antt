-- ===== src/Request.antt =====
-- pkg/request_context.go: what a request's context points to. Grants are what the pointers that
-- NewRequestContext sets point to; a Context is any context, also one that lacks some of them.
pub mod Values
pub mod Tests
use tilegroxy.Base.{ℕ, Bool, false, List, [], Option, some, Text}
use tilegroxy.Base.Int.{pos}
use tilegroxy.Tile.Floats.{Floats}
use tilegroxy.Tile.Bounds.{Box}

-- A nil pointer or an absent key is `none`.
pub record Context (F : Type 0) : Type 0 where
  pub limit_layers : Option Bool
  pub allowed_layers : Option (List Text)
  pub allowed_area : Option (Box F)
  pub limit_area_partial : Option Bool
  pub user_id : Option Text
  pub ref_depth : Option ℕ

pub record Grants (F : Type 0) : Type 0 where
  pub limit_layers : Bool
  pub allowed_layers : List Text
  pub allowed_area : Box F
  pub limit_area_partial : Bool
  pub user_id : Text
  pub ref_depth : ℕ

-- Bounds{}
unfoldable pub empty_box : (f : Floats) → Box f.F
empty_box f =
    let z = f.of_int (pos 0) in record { south = z; north = z; west = z; east = z; srid = 0 }

-- NewRequestContext
unfoldable pub new_request_context : (f : Floats) → Grants f.F
unfolding empty_box
new_request_context f = record {
  limit_layers = false;
  allowed_layers = [];
  allowed_area = empty_box f;
  limit_area_partial = false;
  user_id = [];
  ref_depth = 0;
}

unfoldable pub context_of : {F : Type 0} → Grants F → Context F
context_of g = record {
  limit_layers = some g.limit_layers;
  allowed_layers = some g.allowed_layers;
  allowed_area = some g.allowed_area;
  limit_area_partial = some g.limit_area_partial;
  user_id = some g.user_id;
  ref_depth = some g.ref_depth;
}
