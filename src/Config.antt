-- ===== src/Config.antt =====
-- pkg/utility.go: ReplaceConfigValues, on the values of a configuration. The lookup of a name, in a
-- secret store for instance, is a parameter; an error of it is `none`.
pub mod Leaves
pub mod Settings
pub mod Tests
use tilegroxy.Base.{
  ◌+◌, ℕ, List, Option, none, some, ◌++◌, ◌∷◌, [], if◌then◌else◌, length, drop, Text, has_prefix,
}
use tilegroxy.Layer.Refs.{Node, Fields, Items, text, object, array, other, end, field, nil, item}

-- The string branch.
pub replace_string : Text → (Text → Option Text) → Text → Option Text
replace_string tag lookup s =
    if has_prefix s (tag ++ (b'.' ∷ [])) then lookup (drop (length tag + 1) s) else some s

pub text_of : Option Text → Option Node
text_of none = none
text_of (some s) = some (text s)

pub object_of : Option Fields → Option Node
object_of none = none
object_of (some fs) = some (object fs)

pub array_of : Option Items → Option Node
array_of none = none
array_of (some xs) = some (array xs)

pub field_of : Text → Option Node → Option Fields → Option Fields
field_of k none fs = none
field_of k (some v) none = none
field_of k (some v) (some fs) = some (field k v fs)

pub item_of : Option Node → Option Items → Option Items
item_of none xs = none
item_of (some v) none = none
item_of (some v) (some xs) = some (item v xs)

module _ (tag : Text) (lookup : Text → Option Text) where
  unfoldable mutual
    unfolding replace_string text_of object_of array_of field_of item_of

    pub replace_value : Node → Option Node
    replace_value (text s) = text_of (replace_string tag lookup s)
    replace_value (object fs) = object_of (replace_fields fs)
    replace_value (array xs) = array_of (replace_items xs)
    replace_value other = some other

    pub replace_fields : Fields → Option Fields
    replace_fields end = some end
    replace_fields (field k v fs) = field_of k (replace_value v) (replace_fields fs)

    pub replace_items : Items → Option Items
    replace_items nil = some nil
    replace_items (item v xs) = item_of (replace_value v) (replace_items xs)

-- ReplaceConfigValues on a map
unfoldable pub replace_config_values : Text → (Text → Option Text) → Fields → Option Fields
unfolding replace_fields
replace_config_values tag lookup fs = replace_fields tag lookup fs
