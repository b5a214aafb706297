-- ===== src/Analytics/Fields/Sources.antt =====
-- The attributes of an event against their sources.
use tilegroxy.Base.{
  ℕ, ◌≡◌, ◌≢◌, inl, inr, refl, ap, subst, ◌∙◌, Bool, true, false, ◌&&◌, List, [], ◌∷◌, Option, none,
  some, if◌then◌else◌, Text, codes, text_eq, text_eq_iff, contains, lookup, lookup-insert, All,
  arith, Bool-cases, Option-cases, some-injective,
}
use tilegroxy.Tile.Floats.{Floats}
use tilegroxy.Request.Values.{
  Value, RequestContext, time_of, matches_of, with_headers, IsCanonical, IsLowerCase,
  lookup-with_headers,
}
use tilegroxy.Analytics.Fields.{
  FieldSource, Source, of_layer_name, of_bytes, of_content_type, of_layer_params, of_duration,
  of_context, unknown, cases, source_of, resolve_source, Attribute, FieldResolver, context_string,
  duration, layer_params, resolve_named_field, resolve_extra_field, put_field, put_named, put_extra,
  is_nil, resolve,
}

-- A source that no header has a say in.
abbrev IsSafe : Source → Type 0
IsSafe (of_context key) = IsLowerCase key
IsSafe of_layer_name = Unit
IsSafe of_bytes = Unit
IsSafe of_content_type = Unit
IsSafe of_layer_params = Unit
IsSafe of_duration = Unit
IsSafe unknown = Unit

lookup-All :
    {A : Type 0} (P : Text × A → Type 0) (m : List (Text × A)) (k : Text) (a : A)
    → All P m
    → lookup k m ≡ some a
    → P (k, a)
unfolding lookup
lookup-All P [] k a h e = absurd (let z : none ≡ some a = e in cc)
lookup-All P ((j, b) ∷ m) k a h e = elim (Bool-cases (text_eq j k)) [
  | inl t ↦
      (let same : (j, b) ≡ (k, a) =
          λ i. ((text_eq_iff j k).0 t i, some-injective _ _ (rw t at e) i) in
        subst P same h.0)
  | inr t ↦ lookup-All P m k a h.1 (rw t at e)
]

-- Every case but two has a safe source.
IsCase : Text × Source → Type 0
IsCase (name, s) = name ≢ codes "useragent" → name ≢ codes "referer" → IsSafe s

All-cases : All IsCase cases
unfolding IsCase
All-cases = (
  (λ u r. tt),
  (
    (λ u r. tt),
    (
      (λ u r. tt),
      (
        (λ u r. tt),
        (
          (λ u r. tt),
          (
            (λ u r. absurd (u refl)),
            (
              (λ u r. absurd (r refl)),
              (
                (λ u r. omega arith),
                (
                  (λ u r. omega arith),
                  ((λ u r. omega arith), ((λ u r. omega arith), ((λ u r. omega arith), tt))),
                ),
              ),
            ),
          ),
        ),
      ),
    ),
  ),
)

source_of-IsSafe :
    (name : Text) → name ≢ codes "useragent" → name ≢ codes "referer" → IsSafe (source_of name)
unfolding source_of IsCase
source_of-IsSafe name u r = elim (Option-cases (lookup name cases)) [
  | inl e ↦ rw (e, source_of) tt
  | inr (s, e) ↦ rw (e, source_of) (lookup-All IsCase cases name s All-cases e u r)
]

-- The attribute of a key in what Resolve gives, which may be nil.
unfoldable pub attribute :
    {F : Type 0} → Text → Option (List (Text × Attribute F)) → Option (Attribute F)
attribute k none = none
attribute k (some out) = lookup k out

module _ (f : Floats) (print : Value f.F → Text) (canonical : Text → Text) (now : ℕ)
    (h : List (Text × List Text)) (names : All (λ e. IsCanonical e.0) h)
    (ctx : RequestContext f.F) where
  same_string :
      (key : Text)
      → IsLowerCase key
      → context_string print canonical now (with_headers f h ctx) key
        ≡ context_string print canonical now ctx key
  unfolding context_string
  same_string key l = rw (lookup-with_headers f key h ctx l names, context_string) refl

  source-headers :
      (s : Source) (src : FieldSource)
      → IsSafe s
      → resolve_source print canonical now (with_headers f h ctx) s src
        ≡ resolve_source print canonical now ctx s src
  unfolding resolve_source
  source-headers of_layer_name src l = refl
  source-headers of_bytes src l = refl
  source-headers of_content_type src l = refl
  source-headers unknown src l = refl
  source-headers of_layer_params src l =
      ap (λ o. layer_params (matches_of o))
        (lookup-with_headers f (codes "layerPatternMatches") h ctx (omega arith) names)
  source-headers of_duration src l =
      ap (λ o. duration now (time_of o))
        (lookup-with_headers f (codes "startTime") h ctx (omega arith) names)
  source-headers (of_context key) src l = same_string key l

  named-headers :
      (name : Text) (src : FieldSource)
      → name ≢ codes "useragent"
      → name ≢ codes "referer"
      → resolve_named_field print canonical now (with_headers f h ctx) name src
        ≡ resolve_named_field print canonical now ctx name src
  unfolding resolve_named_field
  named-headers name src u r = source-headers (source_of name) src (source_of-IsSafe name u r)

not_equal : (j k : Text) → j ≢ k → text_eq j k ≡ false
not_equal j k n = elim (Bool-cases (text_eq j k)) [
  | inl e ↦ absurd (n ((text_eq_iff j k).0 e))
  | inr e ↦ e
]

module _ {F : Type 0} where
  -- The value of the attribute, or else what was there.
  first : Option (Attribute F) → Option (Attribute F) → Option (Attribute F)
  first none o = o
  first (some v) o = some v

  first-none : (v : Option (Attribute F)) → first v none ≡ v
  unfolding first
  first-none none = refl
  first-none (some v) = refl

  first_twice : (v o : Option (Attribute F)) → first v (first v o) ≡ first v o
  unfolding first
  first_twice none o = refl
  first_twice (some v) o = refl

  lookup-put_field :
      (k j : Text) (v : Option (Attribute F)) (m : List (Text × Attribute F))
      → lookup k (put_field j v m) ≡ (if text_eq j k then first v (lookup k m) else lookup k m)
  unfolding put_field first
  lookup-put_field k j none m = elim (Bool-cases (text_eq j k)) [
    | inl e ↦ rw e refl
    | inr e ↦ rw e refl
  ]
  lookup-put_field k j (some v) m = lookup-insert j k v m

module _ {F : Type 0} (print : Value F → Text) (canonical : Text → Text) (now : ℕ)
    (ctx : RequestContext F) where
  put_extra_other :
      (k : Text) (kvs : List (Text × Text)) (out : List (Text × Attribute F))
      → All (λ e. e.0 ≢ k) kvs
      → lookup k (put_extra print canonical now ctx kvs out) ≡ lookup k out
  unfolding put_extra
  put_extra_other k [] out n = refl
  put_extra_other k ((j, spec) ∷ kvs) out n =
      let v = resolve_extra_field print canonical now ctx spec in
      let e = lookup-put_field k j v out in
      put_extra_other k kvs (put_field j v out) n.1
      ∙ (e ∙ ap (λ b. if b then first v (lookup k out) else lookup k out) (not_equal j k n.0))

  put_named-lookup :
      (k : Text) (fs : List Text) (src : FieldSource) (out : List (Text × Attribute F))
      → lookup k (put_named print canonical now ctx fs src out) ≡ (
          if contains fs k
          then first (resolve_named_field print canonical now ctx k src) (lookup k out)
          else lookup k out)
  unfolding put_named contains
  put_named-lookup k [] src out = refl
  put_named-lookup k (j ∷ fs) src out =
      let v = resolve_named_field print canonical now ctx j src in
      put_named-lookup k fs src (put_field j v out) ∙ step (text_eq j k) refl
    where
      x : Option (Attribute F)
      x = lookup k out

      named : Text → Option (Attribute F)
      named n = resolve_named_field print canonical now ctx n src

      both :
          (c : Bool)
          → (if c then first (named k) (first (named k) x) else first (named k) x)
            ≡ first (named k) x
      both true = first_twice (named k) x
      both false = refl

      step :
          (b : Bool)
          → text_eq j k ≡ b
          → (if contains fs k
              then first (named k) (lookup k (put_field j (named j) out))
              else lookup k (put_field j (named j) out))
            ≡ (if (if b then true else contains fs k) then first (named k) x else x)
      step false e =
          ap (λ y. if contains fs k then first (named k) y else y)
            (lookup-put_field k j (named j) out ∙ ap (λ c. if c then first (named j) x else x) e)
      step true e =
          ap (λ y. if contains fs k then first (named k) y else y)
            (lookup-put_field k j (named j) out
              ∙ (ap (λ c. if c then first (named j) x else x) e
                  ∙ ap (λ n. first (named n) x) ((text_eq_iff j k).0 e)))
          ∙ both (contains fs k)

nil_fields :
    (fs : List Text) (k : Text) (b : Bool) → (is_nil fs && b) ≡ true → contains fs k ≡ false
unfolding is_nil contains
nil_fields [] k b e = refl
nil_fields (x ∷ fs) k b e = cc

module _ (f : Floats) (print : Value f.F → Text) (canonical : Text → Text) (now : ℕ) where
  -- What a client's headers can put into an event: an attribute that is neither the user agent nor the
  -- referer nor one of the configured extra attributes is there exactly when it is a configured field
  -- that resolves, and it is what resolves without the headers. Names of headers are canonical.
  pub resolve-headers :
      (h : List (Text × List Text)) (ctx : RequestContext f.F) (r : FieldResolver)
      (src : FieldSource) (k : Text)
      → All (λ e. IsCanonical e.0) h
      → k ≢ codes "useragent"
      → k ≢ codes "referer"
      → All (λ e. e.0 ≢ k) r.extra_fields
      → attribute k (resolve print canonical now (with_headers f h ctx) (some r) src)
        ≡ (if contains r.fields k then resolve_named_field print canonical now ctx k src else none)
  unfolding resolve attribute lookup first
  resolve-headers h ctx r src k names u v n =
      elim (Bool-cases (is_nil r.fields && is_nil r.extra_fields)) [
        | inl e ↦ rw (e, nil_fields r.fields k (is_nil r.extra_fields) e, attribute) refl
        | inr e ↦
            rw (e, attribute)
              (put_extra_other print canonical now (with_headers f h ctx) k r.extra_fields
                  (put_named print canonical now (with_headers f h ctx) r.fields src []) n
                ∙ (put_named-lookup print canonical now (with_headers f h ctx) k r.fields src []
                    ∙ ap (λ w. if contains r.fields k then w else none)
                        (first-none _ ∙ named-headers f print canonical now h names ctx k src u v)))
      ]
