-- ===== src/Cache/Names.antt =====
-- The names that caches store a tile under: TileRequest.String of pkg/tile_request.go, and its uses in
-- internal/caches: disk.go, s3.go, redis.go, memory.go and memcache.go.
use tilegroxy.Base.{
  ℕ, ◌<◌, [], ◌∷◌, ◌++◌, ◌≡◌, ◌⊎◌, refl, sym, ap, ◌∙◌, subst, arith, Text, codes, append_assoc,
}
use tilegroxy.Base.Strconv.{itoa, itoa-injective, itoa-IsFree, IsFree}
use tilegroxy.Tile.Bounds.{TileRequest}
use tilegroxy.Cache.Keys.{safe_layer_name, safe_memcache_key}

unfoldable pub string_with_separator : Text → TileRequest → Text
string_with_separator sep t =
    t.layer_name ++ (sep ++ (itoa t.z ++ (sep ++ (itoa t.x ++ (sep ++ itoa t.y)))))

-- TileRequest.String, the key of Memory
unfoldable pub string : TileRequest → Text
unfolding string_with_separator
string t = string_with_separator (codes "/") t

-- The key of Redis
pub redis_key : Text → TileRequest → Text
unfolding string
redis_key prefix t = prefix ++ string t

-- requestToFilename of Disk
unfoldable pub request_to_filename : TileRequest → Text
unfolding string_with_separator
request_to_filename t =
    string_with_separator (codes "_") (record t { layer_name = safe_layer_name t.layer_name })

-- calcKey of S3, from its configured path
pub calc_key : Text → TileRequest → Text
calc_key path t =
    path
    ++ (safe_layer_name t.layer_name
        ++ (codes "/" ++ (itoa t.z ++ (codes "/" ++ (itoa t.x ++ (codes "/" ++ itoa t.y))))))

-- memcacheKey of Memcache
pub memcache_key : (Text → Text) → Text → TileRequest → Text
unfolding string
memcache_key digest prefix t =
    safe_memcache_key digest prefix
      (string (record t { layer_name = safe_layer_name t.layer_name }))

not_free : (b v : Text) (sep : ℕ) → IsFree sep (b ++ (sep ∷ v)) → ⊥
not_free [] v sep h = h.0 refl
not_free (d ∷ b) v sep h = not_free b v sep h.1

-- The last parts of two equal texts, behind a separator that is not in them, are equal.
last_part :
    (a b u v : Text) (sep : ℕ)
    → IsFree sep u
    → IsFree sep v
    → a ++ (sep ∷ u) ≡ b ++ (sep ∷ v)
    → (a ≡ b) × (u ≡ v)
last_part [] [] u v sep hu hv e = (refl, cc)
last_part [] (d ∷ b) u v sep hu hv e =
    let k : u ≡ b ++ (sep ∷ v) = cc in absurd (not_free b v sep (subst (IsFree sep) k hu))
last_part (c ∷ a) [] u v sep hu hv e =
    let k : a ++ (sep ∷ u) ≡ v = cc in absurd (not_free a u sep (subst (IsFree sep) (sym k) hv))
last_part (c ∷ a) (d ∷ b) u v sep hu hv e =
    let k : a ++ (sep ∷ u) ≡ b ++ (sep ∷ v) = cc in
    let (p, q) = last_part a b u v sep hu hv k in (cc, q)

regroup :
    (a b c d : Text) (sep : ℕ)
    → a ++ ((sep ∷ []) ++ (b ++ ((sep ∷ []) ++ (c ++ ((sep ∷ []) ++ d)))))
      ≡ ((a ++ (sep ∷ b)) ++ (sep ∷ c)) ++ (sep ∷ d)
regroup a b c d sep = simp (append_assoc)

-- Neither a digit nor the sign of a number.
abbrev pub IsSeparator : ℕ → Type 0
IsSeparator sep = ((sep < b'-') ⊎ (b'9' < sep)) ⊎ (b'-' < sep × sep < b'0')

-- The name of a tile determines the layer's name and the coordinates, whatever the layer's name.
pub string_with_separator-injective :
    (sep : ℕ) (t u : TileRequest)
    → IsSeparator sep
    → string_with_separator (sep ∷ []) t ≡ string_with_separator (sep ∷ []) u
    → t ≡ u
unfolding string_with_separator
string_with_separator-injective sep t u h e =
    let g = regroup t.layer_name (itoa t.z) (itoa t.x) (itoa t.y) sep in
    let k = regroup u.layer_name (itoa u.z) (itoa u.x) (itoa u.y) sep in
    let (e1, y) =
      last_part _ _ (itoa t.y) (itoa u.y) sep (itoa-IsFree sep h t.y) (itoa-IsFree sep h u.y)
        (sym g ∙ (e ∙ k)) in
    let (e2, x) =
      last_part _ _ (itoa t.x) (itoa u.x) sep (itoa-IsFree sep h t.x) (itoa-IsFree sep h u.x) e1 in
    let (name, z) =
      last_part _ _ (itoa t.z) (itoa u.z) sep (itoa-IsFree sep h t.z) (itoa-IsFree sep h u.z) e2 in
    let ez = itoa-injective t.z u.z z in
    let ex = itoa-injective t.x u.x x in let ey = itoa-injective t.y u.y y in cc

-- Two tiles have one file only if their layers' names are sanitized to one name and their coordinates
-- are the same.
pub request_to_filename-injective :
    (t u : TileRequest)
    → request_to_filename t ≡ request_to_filename u
    → (safe_layer_name t.layer_name ≡ safe_layer_name u.layer_name)
      × ((t.z ≡ u.z) × ((t.x ≡ u.x) × (t.y ≡ u.y)))
unfolding request_to_filename
request_to_filename-injective t u h =
    let e =
      string_with_separator-injective b'_' (record t { layer_name = safe_layer_name t.layer_name })
        (record u { layer_name = safe_layer_name u.layer_name }) (omega arith) h in
    (
      ap (λ (r : TileRequest). r.layer_name) e,
      (
        ap (λ (r : TileRequest). r.z) e,
        (ap (λ (r : TileRequest). r.x) e, ap (λ (r : TileRequest). r.y) e),
      ),
    )
