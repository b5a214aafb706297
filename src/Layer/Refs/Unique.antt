-- ===== src/Layer/Refs/Unique.antt =====
-- validateNoDuplicateLayerIDs.
use tilegroxy.Base.{
  true, false, List, [], ◌∷◌, ◌≡◌, ◌≢◌, refl, ◌↔◌, Text, text_eq_iff, contains, arith, All,
}
use tilegroxy.Layer.Refs.{LayerConfig, no_duplicates, validate_no_duplicate_layer_ids}

-- No two layers of the list have one ID.
abbrev pub HasUniqueIds : List LayerConfig → Type 0
HasUniqueIds [] = Unit
HasUniqueIds (l ∷ ls) = All (λ k. l.id ≢ k.id) ls × HasUniqueIds ls

-- No layer of the list has an ID seen before.
abbrev IsNew : List Text → List LayerConfig → Type 0
IsNew seen = All (λ l. contains seen l.id ≡ false)

IsNew-cons :
    (seen : List Text) (id : Text) (ls : List LayerConfig)
    → IsNew (id ∷ seen) ls ↔ (All (λ k. id ≢ k.id) ls × IsNew seen ls)
unfolding contains
IsNew-cons seen id [] = ground arith
IsNew-cons seen id (l ∷ ls) = ground (arith, IsNew-cons seen id ls, text_eq_iff id l.id)

no_duplicates_iff :
    (seen : List Text) (ls : List LayerConfig)
    → (no_duplicates seen ls ≡ true) ↔ (IsNew seen ls × HasUniqueIds ls)
unfolding no_duplicates
no_duplicates_iff seen [] = ground arith
no_duplicates_iff seen (l ∷ ls) =
    ground (arith, no_duplicates_iff (l.id ∷ seen) ls, IsNew-cons seen l.id ls)

IsNew-nil : (ls : List LayerConfig) → IsNew [] ls
unfolding contains
IsNew-nil [] = tt
IsNew-nil (l ∷ ls) = (refl, IsNew-nil ls)

-- validateNoDuplicateLayerIDs passes exactly the configurations in which no two layers share an ID.
validate_no_duplicate_layer_ids_iff :
    (ls : List LayerConfig) → (validate_no_duplicate_layer_ids ls ≡ true) ↔ HasUniqueIds ls
unfolding validate_no_duplicate_layer_ids
validate_no_duplicate_layer_ids_iff ls =
    let e = no_duplicates_iff [] ls in ((λ h. (e.0 h).1), (λ h. e.1 (IsNew-nil ls, h)))
