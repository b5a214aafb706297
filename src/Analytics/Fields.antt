-- ===== src/Analytics/Fields.antt =====
-- pkg/entities/analytics/event_fields.go: the attributes of an event. Printing a value that is no text,
-- and http.CanonicalHeaderKey, are parameters. The times are in milliseconds; maps are association
-- lists, in the order in which they are gone through.
pub mod Sources
pub mod Tests
use tilegroxy.Base.{
  ℕ, ◌-◌, Bool, true, false, not, ◌&&◌, List, [], ◌∷◌, map, Option, none, some, if◌then◌else◌, drop,
  length, Text, codes, text_eq, contains, has_prefix, lookup, insert, lower,
}
use tilegroxy.Errors.{Error, plain}
use tilegroxy.Tile.Bounds.{Result, ok, err}
use tilegroxy.Layer.Pattern.{Matches}
use tilegroxy.Request.Values.{Value, string, RequestContext, time_of, matches_of}

abbrev pub all_fields : List Text
all_fields =
    codes "layername"
    ∷ (codes "layerparams"
        ∷ (codes "ip"
            ∷ (codes "useragent"
                ∷ (codes "referer"
                    ∷ (codes "host"
                        ∷ (codes "method"
                            ∷ (codes "path"
                                ∷ (codes "query"
                                    ∷ (codes "duration"
                                        ∷ (codes "bytes" ∷ (codes "contenttype" ∷ [])))))))))))

pub record FieldSource : Type 0 where
  pub layer_name : Text
  pub bytes : ℕ
  pub content_type : Text

-- The attributes are of type any: a text, a number, the parameters of the layer, or a value of the
-- request's context.
pub data Attribute (F : Type 0) : Type 0 where
  words : Text → Attribute F
  number : ℕ → Attribute F
  params : Matches → Attribute F
  value : Value F → Attribute F

pub record FieldResolver : Type 0 where
  pub fields : List Text
  pub extra_fields : List (Text × Text)

all_known : List Text → Option Text
all_known [] = none
all_known (f ∷ fs) =
    let rest = all_known fs in if contains all_fields (map lower f) then rest else some f

-- newFieldResolver
unfoldable pub new_field_resolver : List Text → List (Text × Text) → Result FieldResolver
unfolding all_known
new_field_resolver fs extra = elim (all_known fs) [
  | some f ↦ err (plain f)
  | none ↦ ok (record { fields = map (map lower) fs; extra_fields = extra })
]

unfoldable pub is_nil : {A : Type 0} → List A → Bool
is_nil [] = true
is_nil (x ∷ xs) = false

-- out[k] = v, if there is a value
unfoldable pub put_field :
    {F : Type 0}
    → Text
    → Option (Attribute F)
    → List (Text × Attribute F)
    → List (Text × Attribute F)
put_field k none out = out
put_field k (some v) out = insert k v out

-- time.Since(start).Milliseconds(), on a clock that does not go back
unfoldable pub duration : {F : Type 0} → ℕ → Option ℕ → Option (Attribute F)
duration now none = none
duration now (some start) = some (number (now - start))

unfoldable pub layer_params : {F : Type 0} → Option Matches → Option (Attribute F)
layer_params none = none
layer_params (some m) = some (params m)

-- The cases of the switch on the name of a field.
pub data Source : Type 0 where
  of_layer_name of_bytes of_content_type of_layer_params of_duration unknown : Source
  of_context : Text → Source

-- The switch, from the first case to the last.
abbrev pub cases : List (Text × Source)
cases =
    (codes "layername", of_layer_name)
    ∷ ((codes "bytes", of_bytes)
        ∷ ((codes "contenttype", of_content_type)
            ∷ ((codes "layerparams", of_layer_params)
                ∷ ((codes "duration", of_duration)
                    ∷ ((codes "useragent", of_context (codes "User-Agent"))
                        ∷ ((codes "referer", of_context (codes "Referer"))
                            ∷ ((codes "query", of_context (codes "query-string"))
                                ∷ ((codes "ip", of_context (codes "ip"))
                                    ∷ ((codes "host", of_context (codes "host"))
                                        ∷ ((codes "method", of_context (codes "method"))
                                            ∷ ((codes "path", of_context (codes "path"))
                                                ∷ [])))))))))))

unfoldable pub source_of : Text → Source
source_of name = elim (lookup name cases) [ some s ↦ s | none ↦ unknown ]

module _ {F : Type 0} (print : Value F → Text) (canonical : Text → Text) (now : ℕ)
    (ctx : RequestContext F) where
  context_value : Text → Option (Attribute F)
  context_value key = elim (lookup key ctx) [ none ↦ none | some v ↦ some (value v) ]

  printed : Value F → Text
  printed (string s) = s
  printed v = print v

  unfoldable pub context_string : Text → Option (Attribute F)
  unfolding printed
  context_string key = elim (lookup key ctx) [ none ↦ none | some v ↦ some (words (printed v)) ]

  unfoldable pub resolve_source : Source → FieldSource → Option (Attribute F)
  unfolding context_string duration layer_params
  resolve_source of_layer_name src = some (words src.layer_name)
  resolve_source of_bytes src = some (number src.bytes)
  resolve_source of_content_type src = some (words src.content_type)
  resolve_source of_layer_params src =
      layer_params (matches_of (lookup (codes "layerPatternMatches") ctx))
  resolve_source of_duration src = duration now (time_of (lookup (codes "startTime") ctx))
  resolve_source (of_context key) src = context_string key
  resolve_source unknown src = none

  unfoldable pub resolve_named_field : Text → FieldSource → Option (Attribute F)
  unfolding resolve_source source_of
  resolve_named_field name src = resolve_source (source_of name) src

  unfoldable pub resolve_extra_field : Text → Option (Attribute F)
  unfolding context_value
  resolve_extra_field spec =
      if has_prefix spec (codes "ctx.")
      then context_value (drop 4 spec)
      else if has_prefix spec (codes "hdr.")
      then context_value (canonical (drop 4 spec))
      else some (words spec)

  pub put_named : List Text → FieldSource → List (Text × Attribute F) → List (Text × Attribute F)
  unfolding put_field
  put_named [] src out = out
  put_named (f ∷ fs) src out = put_named fs src (put_field f (resolve_named_field f src) out)

  pub put_extra : List (Text × Text) → List (Text × Attribute F) → List (Text × Attribute F)
  unfolding put_field
  put_extra [] out = out
  put_extra ((k, spec) ∷ kvs) out = put_extra kvs (put_field k (resolve_extra_field spec) out)

  -- Resolve, on a resolver that may be nil; a map that is nil is `none`.
  unfoldable pub resolve : Option FieldResolver → FieldSource → Option (List (Text × Attribute F))
  unfolding put_named put_extra is_nil
  resolve none src = none
  resolve (some r) src =
      if is_nil r.fields && is_nil r.extra_fields
      then none
      else some (put_extra r.extra_fields (put_named r.fields src []))
