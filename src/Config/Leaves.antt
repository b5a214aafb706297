-- ===== src/Config/Leaves.antt =====
-- pkg/utility.go: ReplaceConfigValues against the strings of a configuration.
use mathlib.Core.Option
use tilegroxy.Base.{
  ◌+◌, Bool, true, false, List, Option, none, some, ◌++◌, ◌∷◌, [], ◌≡◌, ◌≢◌, refl, sym, ap, ◌∙◌,
  inl, inr, Text, append_assoc, length, drop, length-append, has_prefix, has_prefix-split,
  has_prefix-append, Bool-cases,
}
use tilegroxy.Layer.Refs.{Node, Fields, Items, text, object, array, other, end, field, nil, item}
use tilegroxy.Config.{
  replace_string, text_of, object_of, array_of, field_of, item_of, replace_value, replace_fields,
  replace_items, replace_config_values,
}

unfoldable mutual
  -- The strings of a configuration, in their order.
  pub strings : Node → List Text
  strings (text s) = s ∷ []
  strings (object fs) = strings_of_fields fs
  strings (array xs) = strings_of_items xs
  strings other = []

  pub strings_of_fields : Fields → List Text
  strings_of_fields end = []
  strings_of_fields (field k v fs) = strings v ++ strings_of_fields fs

  pub strings_of_items : Items → List Text
  strings_of_items nil = []
  strings_of_items (item v xs) = strings v ++ strings_of_items xs

-- Two lists one behind the other, if there are both.
pub both : Option (List Text) → Option (List Text) → Option (List Text)
both none o = none
both (some s) none = none
both (some s) (some t) = some (s ++ t)

-- Each string replaced, unless one of them cannot be.
pub replace_each : (Text → Option Text) → List Text → Option (List Text)
unfolding both
replace_each f [] = some []
replace_each f (s ∷ ss) = both (Option.map (λ t. t ∷ []) (f s)) (replace_each f ss)

both_assoc : (a b c : Option (List Text)) → both (both a b) c ≡ both a (both b c)
unfolding both
both_assoc none b c = refl
both_assoc (some a) none c = refl
both_assoc (some a) (some b) none = refl
both_assoc (some a) (some b) (some c) = ap some (append_assoc a b c)

replace_each-append :
    (s t : List Text) (f : Text → Option Text)
    → replace_each f (s ++ t) ≡ both (replace_each f s) (replace_each f t)
unfolding replace_each both
replace_each-append [] t f = both_nil (replace_each f t)
  where
    both_nil : (o : Option (List Text)) → o ≡ both (some []) o
    both_nil none = refl
    both_nil (some s) = refl
replace_each-append (x ∷ s) t f =
    ap (both (Option.map (λ u. u ∷ []) (f x))) (replace_each-append s t f)
    ∙ sym (both_assoc (Option.map (λ u. u ∷ []) (f x)) (replace_each f s) (replace_each f t))

text_of-strings :
    (o : Option Text) → Option.map strings (text_of o) ≡ both (Option.map (λ t. t ∷ []) o) (some [])
unfolding text_of both strings
text_of-strings none = refl
text_of-strings (some s) = refl

object_of-strings :
    (o : Option Fields) → Option.map strings (object_of o) ≡ Option.map strings_of_fields o
unfolding object_of strings
object_of-strings none = refl
object_of-strings (some fs) = refl

array_of-strings :
    (o : Option Items) → Option.map strings (array_of o) ≡ Option.map strings_of_items o
unfolding array_of strings
array_of-strings none = refl
array_of-strings (some xs) = refl

field_of-strings :
    (k : Text) (o : Option Node) (p : Option Fields)
    → Option.map strings_of_fields (field_of k o p)
      ≡ both (Option.map strings o) (Option.map strings_of_fields p)
unfolding field_of both strings_of_fields
field_of-strings k none p = refl
field_of-strings k (some v) none = refl
field_of-strings k (some v) (some fs) = refl

item_of-strings :
    (o : Option Node) (p : Option Items)
    → Option.map strings_of_items (item_of o p)
      ≡ both (Option.map strings o) (Option.map strings_of_items p)
unfolding item_of both strings_of_items
item_of-strings none p = refl
item_of-strings (some v) none = refl
item_of-strings (some v) (some xs) = refl

module _ (tag : Text) (lookup : Text → Option Text) where
  mutual
    unfolding strings strings_of_fields strings_of_items replace_value replace_fields replace_items
        replace_each

    replaced_value :
        (v : Node)
        → Option.map strings (replace_value tag lookup v)
          ≡ replace_each (replace_string tag lookup) (strings v)
    replaced_value (text s) = text_of-strings (replace_string tag lookup s)
    replaced_value (object fs) =
        object_of-strings (replace_fields tag lookup fs) ∙ replaced_fields fs
    replaced_value (array xs) = array_of-strings (replace_items tag lookup xs) ∙ replaced_items xs
    replaced_value other = refl

    replaced_fields :
        (fs : Fields)
        → Option.map strings_of_fields (replace_fields tag lookup fs)
          ≡ replace_each (replace_string tag lookup) (strings_of_fields fs)
    replaced_fields end = refl
    replaced_fields (field k v fs) =
        field_of-strings k (replace_value tag lookup v) (replace_fields tag lookup fs)
        ∙ (ap (λ o. both o (Option.map strings_of_fields (replace_fields tag lookup fs)))
              (replaced_value v)
            ∙ (ap (both (replace_each (replace_string tag lookup) (strings v))) (replaced_fields fs)
                ∙ sym (
                    replace_each-append (strings v) (strings_of_fields fs)
                      (replace_string tag lookup))))

    replaced_items :
        (xs : Items)
        → Option.map strings_of_items (replace_items tag lookup xs)
          ≡ replace_each (replace_string tag lookup) (strings_of_items xs)
    replaced_items nil = refl
    replaced_items (item v xs) =
        item_of-strings (replace_value tag lookup v) (replace_items tag lookup xs)
        ∙ (ap (λ o. both o (Option.map strings_of_items (replace_items tag lookup xs)))
              (replaced_value v)
            ∙ (ap (both (replace_each (replace_string tag lookup) (strings v))) (replaced_items xs)
                ∙ sym (
                    replace_each-append (strings v) (strings_of_items xs)
                      (replace_string tag lookup))))

  replaced_as :
      (f : Text → Option Text)
      → ((name : Text) → f (tag ++ (b'.' ∷ name)) ≡ lookup name)
      → ((s : Text) → ((name : Text) → s ≢ tag ++ (b'.' ∷ name)) → f s ≡ some s)
      → (s : Text) → replace_string tag lookup s ≡ f s
  unfolding replace_string
  replaced_as f tagged plain s = elim (Bool-cases (has_prefix s (tag ++ (b'.' ∷ [])))) [
    | inl e ↦
        (let q : s ≡ tag ++ (b'.' ∷ drop (length tag + 1) s) = tagged_split s e in
          rw (e, replace_string) (sym (tagged (drop (length tag + 1) s)) ∙ ap f (sym q)))
    | inr e ↦
        rw (e, replace_string)
          (sym (
            plain s (λ name q.
              let z : true ≡ false = sym (has_tag name) ∙ (ap has_it (sym q) ∙ e) in cc)))
  ]
    where
      dot : length (tag ++ (b'.' ∷ [])) ≡ length tag + 1
      dot = length-append tag (b'.' ∷ [])

      tagged_split :
          (s : Text)
          → has_prefix s (tag ++ (b'.' ∷ [])) ≡ true
          → s ≡ tag ++ (b'.' ∷ drop (length tag + 1) s)
      tagged_split s e =
          has_prefix-split s (tag ++ (b'.' ∷ [])) e
          ∙ (append_assoc tag (b'.' ∷ []) (drop (length (tag ++ (b'.' ∷ []))) s)
              ∙ ap (λ n. tag ++ (b'.' ∷ drop n s)) dot)

      has_it : Text → Bool
      has_it s = has_prefix s (tag ++ (b'.' ∷ []))

      has_tag : (name : Text) → has_it (tag ++ (b'.' ∷ name)) ≡ true
      has_tag name =
          ap has_it (sym (append_assoc tag (b'.' ∷ []) name))
          ∙ has_prefix-append (tag ++ (b'.' ∷ [])) name

  replace_each-same :
      (f g : Text → Option Text)
      → ((s : Text) → f s ≡ g s)
      → (ss : List Text) → replace_each f ss ≡ replace_each g ss
  unfolding replace_each
  replace_each-same f g h [] = refl
  replace_each-same f g h (s ∷ ss) =
      λ i. both (Option.map (λ t. t ∷ []) (h s i)) (replace_each-same f g h ss i)

  -- Let f take a string of the tag, a dot and a name to what the lookup has for the name, and every
  -- other string to itself. The strings of the configuration that results are then those that f gives
  -- for the strings of the original at any depth, in the same order; and there is no result exactly
  -- when f gives none for one of them.
  pub replace_config_values-strings :
      (f : Text → Option Text)
      → ((name : Text) → f (tag ++ (b'.' ∷ name)) ≡ lookup name)
      → ((s : Text) → ((name : Text) → s ≢ tag ++ (b'.' ∷ name)) → f s ≡ some s)
      → (fs : Fields)
      → Option.map strings_of_fields (replace_config_values tag lookup fs)
        ≡ replace_each f (strings_of_fields fs)
  unfolding replace_config_values
  replace_config_values-strings f tagged plain fs =
      replaced_fields fs
      ∙ replace_each-same (replace_string tag lookup) f (replaced_as f tagged plain)
          (strings_of_fields fs)
