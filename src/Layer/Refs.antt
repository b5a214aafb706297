-- ===== src/Layer/Refs.antt =====
-- pkg/entities/layer/layergroup.go: validateNoDuplicateLayerIDs, findRefTargets and validateRefs.
-- A map is an association list in the order in which Go ranges over it, which is arbitrary: the
-- theorems hold for every order. The colour of a layer that the map lacks is white.
pub mod Unique
pub mod Cycles
pub mod Visit
pub mod Acyclic
pub mod Tests
use tilegroxy.Base.{
  ℕ, zero, suc, Bool, true, false, not, ◌&&◌, ◌||◌, List, [], ◌∷◌, ◌++◌, Option, none, some,
  if◌then◌else◌, length, Text, codes, text_eq, contains, lookup, insert,
}

-- config.LayerConfig, as far as the checks read it, over the raw provider config: any value that
-- is neither a string, a map nor a list is `other`.
mutual
  pub data Node : Type 0 where
    text : Text → Node
    object : Fields → Node
    array : Items → Node
    other : Node

  pub data Fields : Type 0 where
    end : Fields
    field : Text → Node → Fields → Fields

  pub data Items : Type 0 where
    nil : Items
    item : Node → Items → Items

pub record LayerConfig : Type 0 where
  pub id : Text
  pub pattern : Text
  pub provider : Node

-- seen is the list of the IDs before.
no_duplicates : List Text → List LayerConfig → Bool
no_duplicates seen [] = true
no_duplicates seen (l ∷ ls) = if contains seen l.id then false else no_duplicates (l.id ∷ seen) ls

-- Whether the check passes, for validateNoDuplicateLayerIDs.
unfoldable pub validate_no_duplicate_layer_ids : List LayerConfig → Bool
unfolding no_duplicates
validate_no_duplicate_layer_ids ls = no_duplicates [] ls

-- v["key"].(string)
pub string_field : Text → Fields → Option Text
string_field k end = none
string_field k (field j (text t) fs) = if text_eq j k then some t else string_field k fs
string_field k (field j (object o) fs) = if text_eq j k then none else string_field k fs
string_field k (field j (array a) fs) = if text_eq j k then none else string_field k fs
string_field k (field j other fs) = if text_eq j k then none else string_field k fs

own_target : Option Text → Option Text → List Text
own_target none layer = []
own_target (some name) none = []
own_target (some name) (some target) =
    if text_eq name (codes "ref") && not (text_eq target []) then target ∷ [] else []

unfoldable mutual
  unfolding own_target string_field

  pub find_ref_targets : Node → List Text
  find_ref_targets (text t) = []
  find_ref_targets (object fs) =
      own_target (string_field (codes "name") fs) (string_field (codes "layer") fs)
      ++ find_in_fields fs
  find_ref_targets (array xs) = find_in_items xs
  find_ref_targets other = []

  pub find_in_fields : Fields → List Text
  find_in_fields end = []
  find_in_fields (field k v fs) = find_ref_targets v ++ find_in_fields fs

  pub find_in_items : Items → List Text
  find_in_items nil = []
  find_in_items (item v xs) = find_ref_targets v ++ find_in_items xs

pub is_literal : LayerConfig → Bool
is_literal l = text_eq l.pattern [] || text_eq l.pattern l.id

-- refsByLayer: layer IDs, each with the layers that it refers to.
abbrev pub Graph : Type 0
Graph = List (Text × List Text)

pub known_ids : List LayerConfig → List Text
unfolding is_literal
known_ids [] = []
known_ids (l ∷ ls) = if is_literal l then l.id ∷ known_ids ls else known_ids ls

pub has_pattern_layer : List LayerConfig → Bool
unfolding is_literal
has_pattern_layer [] = false
has_pattern_layer (l ∷ ls) = not (is_literal l) || has_pattern_layer ls

add_refs : Text → List Text → Graph → Graph
add_refs id [] g = g
add_refs id (t ∷ ts) g = insert id (t ∷ ts) g

refs_from : List LayerConfig → Graph → Graph
unfolding add_refs
refs_from [] g = g
refs_from (l ∷ ls) g = refs_from ls (add_refs l.id (find_ref_targets l.provider) g)

pub refs_by_layer : List LayerConfig → Graph
unfolding refs_from
refs_by_layer ls = refs_from ls []

pub all_known : List Text → List Text → Bool
all_known known [] = true
all_known known (t ∷ ts) = contains known t && all_known known ts

pub targets_known : List Text → Graph → Bool
unfolding all_known
targets_known known [] = true
targets_known known ((id, ts) ∷ g) = all_known known ts && targets_known known g

pub data Color : Type 0 where
  white gray black : Color

pub record Search : Type 0 where
  pub color : List (Text × Color)
  pub path : List Text

pub data RefError : Type 0 where
  unknown_target : RefError
  ref_cycle : List Text → RefError
  out_of_fuel : RefError

pub data Result {ℓ} (A : Type ℓ) : Type ℓ where
  ok : A → Result A
  err : RefError → Result A

infixl 5 ◌>>=◌
abbrev pub ◌>>=◌ {ℓ κ} : {A : Type ℓ} {B : Type κ} → Result A → (A → Result B) → Result B
ok a >>= f = f a
err e >>= f = err e

-- The list without its last entry: path[:len(path)-1].
but_last : List Text → List Text
but_last [] = []
but_last (x ∷ []) = []
but_last (x ∷ y ∷ xs) = x ∷ but_last (y ∷ xs)

-- refsByLayer[id], which is empty for an ID that the map lacks, and whether the map has the ID.
pub targets : Graph → Text → List Text
targets g id = elim (lookup id g) [ none ↦ [] | some ts ↦ ts ]

pub has_refs : Graph → Text → Bool
has_refs g id = elim (lookup id g) [ none ↦ false | some ts ↦ true ]

pub color_of : Search → Text → Color
color_of st id = elim (lookup id st.color) [ none ↦ white | some c ↦ c ]

pub enter : Text → Search → Search
enter id st = record st { color = insert id gray st.color; path = st.path ++ id ∷ [] }

pub leave : Text → Search → Search
unfolding but_last
leave id st = record st { color = insert id black st.color; path = but_last st.path }

-- The loop over the targets, with `visit` for the calls.
pub visit_targets : Graph → (Text → Search → Result Search) → List Text → Search → Result Search
visit_targets g visit [] st = ok st
visit_targets g visit (t ∷ ts) st =
    (elim (has_refs g t) [ true ↦ visit t st | false ↦ ok st ]) >>= visit_targets g visit ts

-- visit, on fuel: each call that goes deeper paints a white layer gray.
pub visit : Graph → ℕ → Text → Search → Result Search
unfolding enter leave
visit g zero id st = err out_of_fuel
visit g (suc fuel) id st = elim (color_of st id) [
  | gray ↦ err (ref_cycle (st.path ++ id ∷ []))
  | black ↦ ok st
  | white ↦ visit_targets g (visit g fuel) (targets g id) (enter id st) >>= λ st'. ok (leave id st')
]

-- The loop that starts a search at each layer that is still white.
pub visit_all : Graph → ℕ → Graph → Search → Result Search
visit_all g fuel [] st = ok st
visit_all g fuel ((id, ts) ∷ rest) st =
    (elim (color_of st id) [ white ↦ visit g fuel id st | _ ↦ ok st ]) >>= visit_all g fuel rest

pub check_cycles : Graph → Result Search
check_cycles g = visit_all g (suc (length g)) g (record { color = []; path = [] })

unfoldable pub validate_refs : List LayerConfig → Result Search
unfolding known_ids has_pattern_layer
validate_refs ls =
    let g = refs_by_layer ls in
    if not (has_pattern_layer ls) && not (targets_known (known_ids ls) g)
    then err unknown_target
    else check_cycles g
