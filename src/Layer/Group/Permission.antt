-- ===== src/Layer/Group/Permission.antt =====
-- pkg/entities/layer/layergroup.go: what checkPermission admits.
use tilegroxy.Base.{
  Bool, true, false, not, ◌&&◌, List, Option, none, some, ◌≡◌, refl, ◌⊎◌, inl, inr, ◌↔◌, Text,
  contains, Bool-cases, arith,
}
use tilegroxy.Tile.Floats.{Floats}
use tilegroxy.Request.{Context}
use tilegroxy.Tile.Bounds.{
  TileRequest, Box, Result, ok, err, get_bounds, is_null_island, intersects, contains_box,
}
use tilegroxy.Layer.Group.{
  is_set, texts, denied_layer, denied_area, admits, check_area, check_permission,
}

module _ (f : Floats) where
  -- The tile's bounds are known, and meet the area or are inside it.
  pub Admitted : Bool → Box f.F → TileRequest → Type 0
  Admitted partial area t =
      (b : Box f.F) × (get_bounds f t ≡ ok b
        × ((partial ≡ true × intersects f area b ≡ true)
            ⊎ (partial ≡ false × contains_box f area b ≡ true)))

  -- No area is set, or the null area, or one that admits the tile.
  pub AreaAllowed : Context f.F → TileRequest → Type 0
  AreaAllowed c t =
      (area : Box f.F)
      → c.allowed_area ≡ some area
      → is_null_island f area ≡ false
      → Admitted (is_set c.limit_area_partial) area t

  unfoldable pub LayerAllowed : Context f.F → Text → Type 0
  LayerAllowed c id = c.limit_layers ≡ some true → contains (texts c.allowed_layers) id ≡ true

  AdmittedBy : Bool → Box f.F → Result (Box f.F) → Type 0
  AdmittedBy partial area r =
      (b : Box f.F) × (r ≡ ok b
        × ((partial ≡ true × intersects f area b ≡ true)
            ⊎ (partial ≡ false × contains_box f area b ≡ true)))

  admitted_by :
      (partial : Bool) (area : Box f.F) (r : Result (Box f.F))
      → admits f partial area r ≡ true
      → AdmittedBy partial area r
  unfolding admits AdmittedBy
  admitted_by partial area (err e) h = ground arith
  admitted_by true area (ok b) h = (b, (refl, inl (refl, h)))
  admitted_by false area (ok b) h = (b, (refl, inr (refl, h)))

  admitted_then :
      (partial : Bool) (area : Box f.F) (r : Result (Box f.F))
      → AdmittedBy partial area r
      → admits f partial area r ≡ true
  unfolding admits AdmittedBy
  admitted_then partial area r (b, (e, inl (p, h))) = rw (e, p, admits) h
  admitted_then partial area r (b, (e, inr (p, h))) = rw (e, p, admits) h

  refused :
      (a : Box f.F) (partial : Bool) (t : TileRequest)
      → is_null_island f a ≡ false
      → admits f partial a (get_bounds f t) ≡ false
      → check_area f (some a) partial t ≡ some denied_area
  unfolding check_area
  refused a partial t n k = rw (n, k) refl

  area_allowed :
      (a : Option (Box f.F)) (partial : Bool) (t : TileRequest)
      → check_area f a partial t ≡ none
      → (area : Box f.F) → a ≡ some area
      → is_null_island f area ≡ false
      → Admitted partial area t
  unfolding Admitted AdmittedBy
  area_allowed a partial t h area e n = elim (Bool-cases (admits f partial area (get_bounds f t))) [
    | inl k ↦ admitted_by partial area _ k
    | inr k ↦
        let c : check_area f a partial t ≡ some denied_area = rw e (refused area partial t n k) in
        ground arith
  ]

  allowed_area :
      (a : Option (Box f.F)) (partial : Bool) (t : TileRequest)
      → ((area : Box f.F) → a ≡ some area → is_null_island f area ≡ false → Admitted partial area t)
      → check_area f a partial t ≡ none
  unfolding check_area Admitted AdmittedBy
  allowed_area none partial t h = refl
  allowed_area (some a) partial t h = elim (Bool-cases (is_null_island f a)) [
    | inl n ↦ rw n refl
    | inr n ↦ rw (n, admitted_then partial a _ (h a refl n)) refl
  ]

  layer_gate :
      (o : Option Bool) (ts : List Text) (id : Text)
      → (is_set o && not (contains ts id)) ≡ false
      → o ≡ some true
      → contains ts id ≡ true
  unfolding is_set
  layer_gate none ts id h e = ground arith
  layer_gate (some true) ts id h e = ground arith
  layer_gate (some false) ts id h e = ground arith

  gate_layer :
      (o : Option Bool) (ts : List Text) (id : Text)
      → (o ≡ some true → contains ts id ≡ true)
      → (is_set o && not (contains ts id)) ≡ false
  unfolding is_set
  gate_layer none ts id h = refl
  gate_layer (some true) ts id h = rw (h refl) refl
  gate_layer (some false) ts id h = refl

  permitted :
      (c : Context f.F) (id : Text) (t : TileRequest)
      → check_permission f c id t ≡ none
      → LayerAllowed c id × AreaAllowed c t
  unfolding check_permission LayerAllowed AreaAllowed
  permitted c id t h =
      elim (Bool-cases (is_set c.limit_layers && not (contains (texts c.allowed_layers) id))) [
        | inl e ↦ (let k : some denied_layer ≡ none = rw e at h in ground arith)
        | inr e ↦ (layer_gate _ _ id e, area_allowed _ _ t (rw e at h))
      ]

  -- A request is let through exactly when its layer is allowed, or layers are not limited, and no
  -- area but the null area is set, or else its tile has bounds that meet the area, where partial
  -- overlap is enough, or lie inside it, where it is not.
  pub check_permission_iff :
      (c : Context f.F) (id : Text) (t : TileRequest)
      → check_permission f c id t ≡ none ↔ (LayerAllowed c id × AreaAllowed c t)
  unfolding check_permission is_set LayerAllowed AreaAllowed
  check_permission_iff c id t =
      (permitted c id t, λ (l, a). rw (gate_layer _ _ id l) (allowed_area _ _ t a))
