-- ===== src/Request/Values.antt =====
-- pkg/request_context.go: NewRequestContext as the map of string keys that it is, with the accessors that
-- read it. A context is the list of its entries, the latest first; a pointer stands for what it points
-- to at first.
use tilegroxy.Base.{
  ℕ, ◌≤◌, ◌<◌, ◌≡◌, ◌⊎◌, refl, ◌∙◌, Bool, false, List, [], ◌∷◌, Option, none, some, ◌==◌, Text,
  codes, text_eq, lookup, All, arith,
}
use tilegroxy.Base.Strconv.{split}
use tilegroxy.Tile.Floats.{Floats}
use tilegroxy.Tile.Bounds.{Box}
use tilegroxy.Layer.Pattern.{Matches}
use tilegroxy.Request.{Context, new_request_context, empty_box, context_of}

-- http.Request
pub record RawRequest : Type 0 where
  pub request_uri : Text
  pub path : Text
  pub query : List (Text × List Text)
  pub raw_query : Text
  pub proto : Text
  pub remote_addr : Text
  pub method : Text
  pub host : Text
  pub header : List (Text × List Text)

pub data Value (F : Type 0) : Type 0 where
  request : RawRequest → Value F
  time : ℕ → Value F
  flag : Bool → Value F
  layers : List Text → Value F
  area : Box F → Value F
  user : Text → Value F
  matches : Matches → Value F
  depth : ℕ → Value F
  query : List (Text × List Text) → Value F
  string : Text → Value F
  strings : List Text → Value F

abbrev pub RequestContext : Type 0 → Type 0
RequestContext F = List (Text × Value F)

-- strings.Split(s, ":")[0]
unfoldable pub before_colon : Text → Text
before_colon s = elim (split b':' s) [ [] ↦ [] | t ∷ ts ↦ t ]

module _ (f : Floats) where
  header_value : List Text → Value f.F
  header_value (v ∷ []) = string v
  header_value vs = strings vs

  -- The loop over the header.
  pub with_headers : List (Text × List Text) → RequestContext f.F → RequestContext f.F
  unfolding header_value
  with_headers [] ctx = ctx
  with_headers ((k, vs) ∷ h) ctx = with_headers h ((k, header_value vs) ∷ ctx)

  -- The context before the loop over the header.
  pub without_headers : ℕ → RawRequest → RequestContext f.F
  unfolding before_colon
  without_headers now req =
      (codes "host", string req.host)
      ∷ ((codes "method", string req.method)
          ∷ ((codes "ip", string (before_colon req.remote_addr))
              ∷ ((codes "proto", string req.proto)
                  ∷ ((codes "query-string", string req.raw_query)
                      ∷ ((codes "query", query req.query)
                          ∷ ((codes "path", string req.path)
                              ∷ ((codes "uri", string req.request_uri)
                                  ∷ ((codes "refDepth", depth 0)
                                      ∷ ((codes "layerPatternMatches", matches [])
                                          ∷ ((codes "user", user [])
                                              ∷ ((codes "allowedArea", area (empty_box f))
                                                  ∷ ((codes "limitAreaPartial", flag false)
                                                      ∷ ((codes "allowedLayers", layers [])
                                                          ∷ ((codes "limitLayers", flag false)
                                                            ∷ ((codes "startTime", time now)
                                                            ∷ ((codes "req", request req)
                                                            ∷ []))))))))))))))))

  pub new_context : ℕ → RawRequest → RequestContext f.F
  unfolding with_headers without_headers
  new_context now req = with_headers req.header (without_headers now req)

-- The accessors fail on a value of another type.
module _ {F : Type 0} where
  unfoldable pub flag_of : Option (Value F) → Option Bool
  flag_of o = elim o [ some (flag b) ↦ some b | _ ↦ none ]

  unfoldable pub layers_of : Option (Value F) → Option (List Text)
  layers_of o = elim o [ some (layers l) ↦ some l | _ ↦ none ]

  unfoldable pub area_of : Option (Value F) → Option (Box F)
  area_of o = elim o [ some (area b) ↦ some b | _ ↦ none ]

  unfoldable pub user_of : Option (Value F) → Option Text
  user_of o = elim o [ some (user u) ↦ some u | _ ↦ none ]

  unfoldable pub depth_of : Option (Value F) → Option ℕ
  depth_of o = elim o [ some (depth d) ↦ some d | _ ↦ none ]

  unfoldable pub time_of : Option (Value F) → Option ℕ
  time_of o = elim o [ some (time t) ↦ some t | _ ↦ none ]

  unfoldable pub matches_of : Option (Value F) → Option Matches
  matches_of o = elim o [ some (matches m) ↦ some m | _ ↦ none ]

  unfoldable pub context_from : RequestContext F → Context F
  unfolding flag_of layers_of area_of user_of depth_of
  context_from ctx = record {
    limit_layers = flag_of (lookup (codes "limitLayers") ctx);
    allowed_layers = layers_of (lookup (codes "allowedLayers") ctx);
    allowed_area = area_of (lookup (codes "allowedArea") ctx);
    limit_area_partial = flag_of (lookup (codes "limitAreaPartial") ctx);
    user_id = user_of (lookup (codes "user") ctx);
    ref_depth = depth_of (lookup (codes "refDepth") ctx);
  }

-- http.CanonicalHeaderKey gives names that begin with no lower-case letter.
abbrev pub IsCanonical : Text → Type 0
IsCanonical [] = ⊥
IsCanonical (c ∷ s) = (c < b'a') ⊎ (b'z' < c)

abbrev pub IsLowerCase : Text → Type 0
IsLowerCase [] = ⊥
IsLowerCase (c ∷ s) = (b'a' ≤ c) × (c ≤ b'z')

module _ (f : Floats) where
  pub lookup-with_headers :
      (key : Text) (h : List (Text × List Text)) (ctx : RequestContext f.F)
      → IsLowerCase key
      → All (λ e. IsCanonical e.0) h
      → lookup key (with_headers f h ctx) ≡ lookup key ctx
  unfolding with_headers lookup text_eq
  lookup-with_headers key [] ctx l a = refl
  lookup-with_headers key ((k, vs) ∷ h) ctx l a =
      lookup-with_headers key h _ l a.1 ∙ rw (differ k key a.0 l) refl
    where
      differ : (k key : Text) → IsCanonical k → IsLowerCase key → text_eq k key ≡ false
      differ [] key n l = elim n [ ]
      differ (c ∷ s) [] n l = elim l [ ]
      differ (c ∷ s) (d ∷ t) n l = let e : (c == d) ≡ false = ground arith in rw e refl

  pub value-headers :
      (now : ℕ) (req : RawRequest) (key : Text)
      → IsLowerCase key
      → All (λ e. IsCanonical e.0) req.header
      → lookup key (new_context f now req) ≡ lookup key (without_headers f now req)
  unfolding new_context
  value-headers now req key l a = lookup-with_headers key req.header (without_headers f now req) l a

  -- Whatever headers a client sends, a new context grants what NewRequestContext means to grant: http
  -- gives them canonical names, and no such name is one of the keys.
  pub new_context-grants :
      (now : ℕ) (req : RawRequest)
      → All (λ e. IsCanonical e.0) req.header
      → context_from (new_context f now req) ≡ context_of (new_request_context f)
  unfolding context_from new_request_context context_of without_headers lookup text_eq
  new_context-grants now req a = λ i. record {
    limit_layers = flag_of (value-headers now req (codes "limitLayers") (omega arith) a i);
    allowed_layers = layers_of (value-headers now req (codes "allowedLayers") (omega arith) a i);
    allowed_area = area_of (value-headers now req (codes "allowedArea") (omega arith) a i);
    limit_area_partial =
        flag_of (value-headers now req (codes "limitAreaPartial") (omega arith) a i);
    user_id = user_of (value-headers now req (codes "user") (omega arith) a i);
    ref_depth = depth_of (value-headers now req (codes "refDepth") (omega arith) a i);
  }
