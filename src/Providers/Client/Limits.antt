-- ===== src/Providers/Client/Limits.antt =====
-- pkg/utility.go: what GetTile accepts from a remote server.
use tilegroxy.Base.{
  ℕ, zero, suc, ◌≢◌, ◌^◌, ◌-◌, Bool, true, false, not, List, some, ◌≡◌, ◌↔◌, refl, sym, ap, ◌∙◌,
  inl, inr, arith, if◌then◌else◌, ◌⊎◌, Bool-cases, Option-cases, ltb, length, Text, contains, subst,
}
use tilegroxy.Base.Int.{ℤ, pos, negsuc, ltb_ℤ, leb_ℤ, eqb_ℤ}
use tilegroxy.Errors.{Error, remote_server}
use tilegroxy.Tile.Bounds.{Result, ok, err, Result-cases}
use tilegroxy.Layer.Provide.{Image}
use tilegroxy.Server.Response.{Header}
use tilegroxy.Providers.Client.{
  ClientConfig, RemoteResponse, request_header, contains_status, bad_length, rewritten, read_body,
  check_response, get_tile,
}

-- A result behind a test for an error.
ok_unless :
    {r : Result Image} {a : Image} (e : Error) (b : Bool)
    → (if b then err e else r) ≡ ok a
    → (b ≡ false) × (r ≡ ok a)
ok_unless e true h = absurd (err_ne_ok h)
  where
    err_ne_ok : {e : Error} {a : Image} → err e ≡ ok a → ⊥
    err_ne_ok k = cc
ok_unless e false h = (refl, h)

-- The server announces no length, where this is allowed, or one that is not above the maximum.
pub LengthAllowed : ClientConfig → ℤ → Type 0
LengthAllowed c n =
    ((n ≡ negsuc 0) × (c.unknown_length ≡ true)) ⊎ ((n ≢ negsuc 0) × (leb_ℤ n c.max_length ≡ true))

eqb_ℤ_iff : (n : ℤ) → (eqb_ℤ n (negsuc 0) ≡ true) ↔ (n ≡ negsuc 0)
eqb_ℤ_iff (pos n) = ((λ h. absurd (ground arith)), (λ h. cc))
eqb_ℤ_iff (negsuc zero) = ((λ h. refl), (λ h. refl))
eqb_ℤ_iff (negsuc (suc n)) = ((λ h. absurd (ground arith)), (λ h. absurd (ground arith)))

known_length : (c : ClientConfig) (n : ℤ) → eqb_ℤ n (negsuc 0) ≡ false → n ≢ negsuc 0
known_length c n e q = let z = (eqb_ℤ_iff n).1 q in cc

length_allowed : (c : ClientConfig) (n : ℤ) → bad_length c n ≡ false → LengthAllowed c n
unfolding bad_length LengthAllowed
length_allowed c n h = elim (Bool-cases (eqb_ℤ n (negsuc 0))) [
  | inl e ↦
      (let k : not c.unknown_length ≡ false = rw (e, bad_length) at h in
        inl ((eqb_ℤ_iff n).0 e, ground arith))
  | inr e ↦
      (let k : ltb_ℤ c.max_length n ≡ false = rw (e, bad_length) at h in
        inr (known_length c n e, ground arith))
]

allowed_length : (c : ClientConfig) (n : ℤ) → LengthAllowed c n → bad_length c n ≡ false
unfolding bad_length LengthAllowed
allowed_length c n (inl (e, u)) = rw ((eqb_ℤ_iff n).1 e, u, bad_length) refl
allowed_length c n (inr (e, l)) = elim (Bool-cases (eqb_ℤ n (negsuc 0))) [
  | inl k ↦ absurd (e ((eqb_ℤ_iff n).0 k))
  | inr k ↦ rw (k, bad_length) (ground arith)
]

-- The response has an allowed status and type, announces an allowed length, and has the image's bytes,
-- no more than allowed; the image has its type, or what stands for it.
pub IsAccepted : ClientConfig → RemoteResponse → Image → Type 0
IsAccepted c r img =
    (contains_status c.status_codes r.status_code ≡ true)
    × ((contains c.content_types r.content_type ≡ true)
        × (LengthAllowed c r.content_length
            × ((r.body ≡ some img.content)
                × ((ltb_ℤ c.max_length (pos (length img.content)) ≡ false)
                    × ((img.content_type ≡ rewritten c r.content_type)
                        × (img.force_skip_cache ≡ false))))))

ok-injective : (a b : Image) → ok a ≡ ok b → a ≡ b
ok-injective a b h = cc

abbrev body_image : ClientConfig → RemoteResponse → Text → Image
body_image c r body = record {
  content = body;
  content_type = rewritten c r.content_type;
  force_skip_cache = false;
}

accepted :
    (c : ClientConfig) (r : RemoteResponse) (img : Image)
    → check_response c r ≡ ok img
    → IsAccepted c r img
unfolding check_response read_body IsAccepted
accepted c r img h =
    let (a, h1) = ok_unless _ (not (contains_status c.status_codes r.status_code)) h in
    let (b, h2) = ok_unless _ (not (contains c.content_types r.content_type)) h1 in
    let (d, h3) = ok_unless _ (bad_length c r.content_length) h2 in
    elim (Option-cases r.body) [
      | inl n ↦
          absurd
            (let k : err (remote_server r.status_code) ≡ ok img = rw (n, read_body) at h3 in cc)
      | inr (body, n) ↦
          (let (l, h4) =
              ok_unless _ (ltb_ℤ c.max_length (pos (length body))) (rw (n, read_body) at h3) in
            let k : body_image c r body ≡ img = ok-injective _ _ h4 in
            let e = ap (λ (i : Image). i.content) k in
            (
              ground arith,
              (
                ground arith,
                (
                  length_allowed c r.content_length d,
                  (
                    n ∙ ap some e,
                    (
                      subst (λ (x : Text). ltb_ℤ c.max_length (pos (length x)) ≡ false) e l,
                      (
                        sym (ap (λ (i : Image). i.content_type) k),
                        sym (ap (λ (i : Image). i.force_skip_cache) k),
                      ),
                    ),
                  ),
                ),
              ),
            ))
    ]

accepts :
    (c : ClientConfig) (r : RemoteResponse) (img : Image)
    → IsAccepted c r img
    → check_response c r ≡ ok img
unfolding check_response read_body IsAccepted
accepts c r img (a, (b, (d, (e, (l, (t, s)))))) =
    let k : body_image c r img.content ≡ img = cc in
    rw (a, b, allowed_length c r.content_length d, e, check_response, read_body) (rw l (ap ok k))

-- The tile is an image exactly when there is a response whose status, type and length are allowed, with
-- its bytes and its type, rewritten if a new type is configured.
pub get_tile_iff :
    (exchange : Header → ℕ → Text → Result RemoteResponse) (c : ClientConfig) (url : Text)
    (auth_headers : List (Text × Text)) (img : Image)
    → (get_tile exchange c url auth_headers ≡ ok img) ↔ (
        (r : RemoteResponse) × ((exchange
              (request_header c auth_headers)
              (if ltb (2 ^ 31 - 1) c.timeout then 2 ^ 31 - 1 else c.timeout)
              url
            ≡ ok r)
          × IsAccepted c r img))
unfolding get_tile
get_tile_iff exchange c url auth_headers img =
    (forth, (λ (r, (e, k)). rw (e, get_tile) (accepts c r img k)))
  where
    forth :
        get_tile exchange c url auth_headers ≡ ok img
        → (r : RemoteResponse) × ((exchange
                (request_header c auth_headers)
                (if ltb (2 ^ 31 - 1) c.timeout then 2 ^ 31 - 1 else c.timeout)
                url
              ≡ ok r)
            × IsAccepted c r img)
    forth h =
        elim (Result-cases (
          exchange (request_header c auth_headers)
            (if ltb (2 ^ 31 - 1) c.timeout then 2 ^ 31 - 1 else c.timeout) url)) [
              | inl (e, n) ↦ absurd (let k : err e ≡ ok img = rw (n, get_tile) at h in cc)
              | inr (r, n) ↦ (r, (n, accepted c r img (rw (n, get_tile) at h)))
            ]
