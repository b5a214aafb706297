-- ===== src/Providers/Ref/Tests.antt =====
-- A layer that refers to itself.
use tilegroxy.Base.{ℕ, suc, none, some, ◌≡◌, arith, codes, Text, refl}
use tilegroxy.Base.Int.{ℤ}
use tilegroxy.Errors.{plain}
use tilegroxy.Request.{Context, new_request_context, context_of}
use tilegroxy.Tile.Tests.{integers, tile_1_0}
use tilegroxy.Providers.Ref.{Call, Render, render_refs}
use tilegroxy.Providers.Ref.Depth.{renders_left, render_refs_bounded}

-- The world counts the renders.
abbrev self : Call ℕ → Render ℤ ℕ
self call c t w = call (codes "a") t (suc w)

abbrev stopped : Text → Render ℤ ℕ
stopped message c t w = (none, some (plain message), w)

abbrev root : Context ℤ
root = context_of (new_request_context integers)

eleven : renders_left root.ref_depth ≡ 11
unfolding renders_left context_of new_request_context
eleven = refl

render_refs_bounded_example :
    render_refs integers self (stopped (codes "x")) 11 root tile_1_0 0
    ≡ render_refs integers self (stopped (codes "y")) 11 root tile_1_0 0
render_refs_bounded_example =
    render_refs_bounded integers self (stopped (codes "x")) (stopped (codes "y")) 11 root tile_1_0 0
      (rw eleven omega arith)
