-- ===== src/Providers/Ref/Depth.antt =====
-- internal/providers/ref.go: references end.
use tilegroxy.Base.{
  ℕ, zero, suc, ◌-◌, ◌≤◌, false, Option, none, some, ◌≡◌, refl, ap, arith, Text, Bool-cases, inl,
  inr,
}
use std.Path.{fun_ext}
use tilegroxy.Request.{Context, new_request_context, context_of}
use tilegroxy.Tile.Floats.{Floats}
use tilegroxy.Tile.Bounds.{TileRequest}
use tilegroxy.Providers.Ref.{is_too_deep, child_context, Render, Call, generate_ref, render_refs}

-- One render, and one for each reference that may still be followed.
unfoldable pub renders_left : Option ℕ → ℕ
renders_left none = 12
renders_left (some d) = suc (10 - d)

left_after :
    (f : Floats) (o : Option ℕ)
    → is_too_deep o ≡ false
    → suc (renders_left (child_context f o).ref_depth) ≤ renders_left o
unfolding is_too_deep child_context context_of new_request_context renders_left
left_after f none h = omega arith
left_after f (some d) h = ground arith

has_one : (o : Option ℕ) → 1 ≤ renders_left o
unfolding renders_left
has_one none = omega arith
has_one (some d) = omega arith

same_call :
    {W : Type 0} (f : Floats) (p q : Render f.F W) (n : ℕ) (c : Context f.F) (l : Text)
    (u : TileRequest) (v : W)
    → renders_left c.ref_depth ≤ suc n
    → ((d : Context f.F) (u : TileRequest) (v : W)
        → renders_left d.ref_depth ≤ n
        → p d u v ≡ q d u v)
    → generate_ref f p c l u v ≡ generate_ref f q c l u v
unfolding generate_ref
same_call f p q n c l u v h same = elim (Bool-cases (is_too_deep c.ref_depth)) [
  | inl e ↦ rw (e, generate_ref) refl
  | inr e ↦
      (let k = left_after f c.ref_depth e in
        rw (e, generate_ref)
          (same (child_context f c.ref_depth) (record u { layer_name = l }) v (omega arith)))
]

module _ {W : Type 0} (f : Floats) (group : Call W → Render f.F W) (a b : Render f.F W) where
  -- Whatever the references of the group's layers are, cycles included, a render ends: from a context
  -- of depth 0 there are no more than eleven renders in a chain of references, and twelve from a
  -- context without a depth, so that what would come after them does not matter.
  pub render_refs_bounded :
      (n : ℕ) (c : Context f.F) (t : TileRequest) (w : W)
      → renders_left c.ref_depth ≤ n
      → render_refs f group a n c t w ≡ render_refs f group b n c t w
  unfolding render_refs
  render_refs_bounded zero c t w h = absurd (let k = has_one c.ref_depth in omega arith)
  render_refs_bounded (suc n) c t w h =
      ap (λ (call : Call W). group call c t w)
        (fun_ext (λ l. fun_ext (λ u. fun_ext (λ v.
          same_call f (render_refs f group a n) (render_refs f group b n) n c l u v h
            (λ d x y k. render_refs_bounded n d x y k)))))
