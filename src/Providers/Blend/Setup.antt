-- ===== src/Providers/Blend/Setup.antt =====
-- internal/providers/blend.go: Initialize. The construction of a provider is a parameter.
use tilegroxy.Base.{
  ℕ, not, ◌&&◌, ◌||◌, List, [], ◌∷◌, ◌++◌, Option, none, some, if◌then◌else◌, ltb, length, Text,
  codes, text_eq, contains,
}
use tilegroxy.Base.Int.{pos}
use tilegroxy.Errors.{Error, plain, join}
use tilegroxy.Tile.Floats.{Floats}
use tilegroxy.Tile.Bounds.{Result, ok, err}
use tilegroxy.Providers.Placeholders.{replace_all}
use tilegroxy.Providers.Blend.{Child}
use tilegroxy.Providers.Blend.Images.{BlendConfig}

abbrev pub max_providers : ℕ
max_providers = 100

abbrev pub all_blend_modes : List Text
all_blend_modes =
    codes "add"
    ∷ (codes "color burn"
        ∷ (codes "color dodge"
            ∷ (codes "darken"
                ∷ (codes "difference"
                    ∷ (codes "divide"
                        ∷ (codes "exclusion"
                            ∷ (codes "lighten"
                                ∷ (codes "linear burn"
                                    ∷ (codes "linear light"
                                        ∷ (codes "multiply"
                                            ∷ (codes "normal"
                                                ∷ (codes "opacity"
                                                    ∷ (codes "overlay"
                                                        ∷ (codes "screen"
                                                            ∷ (codes "soft light"
                                                            ∷ (codes "subtract" ∷ []))))))))))))))))

-- BlendLayerConfig: a pattern, and the values of each layer, in an order of their iteration.
pub record BlendLayerConfig : Type 0 where
  pub pattern : Text
  pub values : List (List (Text × Text))

unfoldable pub layer_name_for : Text → List (Text × Text) → Text
layer_name_for name [] = name
layer_name_for name ((k, v) ∷ kvs) =
    layer_name_for (replace_all (b'{' ∷ (k ++ (b'}' ∷ []))) v name) kvs

module _ {W P R : Type 0} (f : Floats) where
  -- ConstructProvider on the raw configuration of a provider, and on that of a reference to a layer.
  module _ (construct : R → Result (Child W P)) (construct_ref : Text → Result (Child W P)) where
    -- The first error ends the loop over the layers.
    pub construct_refs : Text → List (List (Text × Text)) → Result (List (Child W P))
    unfolding layer_name_for
    construct_refs pattern [] = ok []
    construct_refs pattern (lay ∷ values) = elim (construct_ref (layer_name_for pattern lay)) [
      | err e ↦ err e
      | ok p ↦ elim (construct_refs pattern values) [ err e ↦ err e | ok ps ↦ ok (p ∷ ps) ]
    ]

    pub join_with : Option Error → Error → Error
    join_with none e = e
    join_with (some d) e = elim (join (some d) (some e)) [ some x ↦ x | none ↦ e ]

    -- The errors of all providers are joined.
    pub construct_all : List R → Result (List (Child W P))
    unfolding join_with
    construct_all [] = ok []
    construct_all (r ∷ rs) = elim (construct r) [
      | err e ↦ elim (construct_all rs) [ err d ↦ err (join_with (some e) d) | ok ps ↦ err e ]
      | ok p ↦ elim (construct_all rs) [ err d ↦ err d | ok ps ↦ ok (p ∷ ps) ]
    ]

    pub check_count : Result (List (Child W P)) → Result (List (Child W P))
    check_count (err e) = err e
    check_count (ok ps) =
        if ltb (length ps) 2 || ltb max_providers (length ps)
        then err (plain (codes "provider.blend.providers.length"))
        else ok ps

    pub providers_of : List R → Option BlendLayerConfig → Result (List (Child W P))
    unfolding construct_refs construct_all
    providers_of rs none = construct_all rs
    providers_of rs (some l) = construct_refs l.pattern l.values

    -- Initialize
    pub initialize : BlendConfig f.F → List R → Option BlendLayerConfig → Result (List (Child W P))
    unfolding check_count providers_of
    initialize c rs l =
        if not (contains all_blend_modes c.mode)
        then err (plain (codes "provider.blend.mode"))
        else if not (text_eq c.mode (codes "opacity")) && not (f.eq c.opacity (f.of_int (pos 0)))
        then err (plain (codes "provider.blend.opacity"))
        else check_count (providers_of rs l)
