-- ===== src/Providers/Ref.antt =====
-- internal/providers/ref.go. The rendering of a group, which a reference calls and which calls the
-- references of its layers, is a parameter: a function of the calls that it makes.
pub mod Depth
pub mod Tests
use tilegroxy.Base.{
  ℕ, zero, suc, Bool, false, Option, none, some, if◌then◌else◌, leb, Text, codes, ◌++◌,
}
use tilegroxy.Errors.{Error, plain}
use tilegroxy.Request.{Context, new_request_context, context_of}
use tilegroxy.Tile.Floats.{Floats}
use tilegroxy.Tile.Bounds.{TileRequest}
use tilegroxy.Layer.Provide.{Image}

abbrev pub max_ref_depth : ℕ
max_ref_depth = 10

-- What a render gives, with the world that it leaves.
abbrev pub Answer : Type 0 → Type 0
Answer W = Option Image × Option Error × W

pub too_deep : Text → Error
too_deep layer =
    plain
      (codes "ref: maximum reference depth (10) exceeded, likely a cycle involving layer " ++ layer)

pub is_too_deep : Option ℕ → Bool
is_too_deep none = false
is_too_deep (some d) = leb max_ref_depth d

-- The context of the child call, from the depth of this one, which holds a request; NewRequestContext
-- fails on a context without one.
pub child_context : (f : Floats) → Option ℕ → Context f.F
child_context f none = context_of (new_request_context f)
child_context f (some d) = context_of (record (new_request_context f) { ref_depth = suc d })

-- A render in a context, and a call of a reference to a layer.
abbrev pub Render : Type 0 → Type 0 → Type 0
Render F W = Context F → TileRequest → W → Answer W

abbrev pub Call : Type 0 → Type 0
Call W = Text → TileRequest → W → Answer W

module _ {W : Type 0} (f : Floats) where
  -- Ref.GenerateTile
  pub generate_ref : Render f.F W → Context f.F → Call W
  unfolding too_deep is_too_deep child_context
  generate_ref render c layer t w =
      if is_too_deep c.ref_depth
      then (none, some (too_deep layer), w)
      else render (child_context f c.ref_depth) (record t { layer_name = layer }) w

  -- The render of a group, with as many references followed one in another as the fuel allows, and
  -- another render in place of the next.
  pub render_refs : (Call W → Render f.F W) → Render f.F W → ℕ → Render f.F W
  unfolding generate_ref
  render_refs group bottom zero c t w = bottom c t w
  render_refs group bottom (suc n) c t w = group (generate_ref (render_refs group bottom n) c) c t w
