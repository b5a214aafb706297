-- ===== src/Layer/Refs/Tests.antt =====
-- A configuration of two layers, of which one refers to the other.
use tilegroxy.Base.{List, [], ◌∷◌, ◌≡◌, ◌↔◌, Text, codes}
use tilegroxy.Layer.Refs.{
  text, object, field, end, other, LayerConfig, black, Search, ok, refs_by_layer, check_cycles,
}
use tilegroxy.Layer.Refs.Cycles.{Reaches}
use tilegroxy.Layer.Refs.Acyclic.{check_cycles_iff}

abbrev base : LayerConfig
base = record { id = codes "a"; pattern = []; provider = other }

abbrev referring : LayerConfig
referring = record {
  id = codes "b";
  pattern = [];
  provider =
      object
        (field (codes "name") (text (codes "ref")) (field (codes "layer") (text (codes "a")) end));
}

abbrev two_layers : List LayerConfig
two_layers = base ∷ referring ∷ []

abbrev found : Search
found = record { color = (codes "b", black) ∷ []; path = [] }

check_cycles_iff_example :
    ((st : Search) × (check_cycles (refs_by_layer two_layers) ≡ ok st))
    ↔ ((k : Text) → ¬ Reaches (refs_by_layer two_layers) k k)
check_cycles_iff_example = check_cycles_iff (refs_by_layer two_layers)
