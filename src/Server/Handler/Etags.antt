-- ===== src/Server/Handler/Etags.antt =====
-- internal/server/tile_handler.go: a tile that a client has already.
use tilegroxy.Base.{
  ℕ, ◌/◌, ◌%◌, ◌≤◌, true, List, [], ◌∷◌, ◌++◌, ◌≡◌, ◌≢◌, refl, ap, ◌∙◌, arith, if-ind, ltb, Text,
  codes, text_eq, text_eq_refl, has_prefix, All-append,
}
use tilegroxy.Base.Strconv.{split, split-IsFree, split-append, IsFree}
use tilegroxy.Layer.Provide.{Image}
use tilegroxy.Server.Response.{Header, get_header}
use tilegroxy.Server.Handler.{
  Request, hex_digit, hex_encode, etag_for, is_space, trim_left, trim_right, trim_space,
  trim_prefix, any_matches, request_etag_matches, write_tile,
}

trim_right-cons :
    (c : ℕ) (s : Text) (d : ℕ) (r : Text) → trim_right s ≡ d ∷ r → trim_right (c ∷ s) ≡ c ∷ (d ∷ r)
unfolding trim_right
trim_right-cons c s d r e = rw (e, trim_right) refl

-- A text that ends with a quote has nothing to be trimmed on the right.
trim_right-quote : (s : Text) → trim_right (s ++ (b'"' ∷ [])) ≡ s ++ (b'"' ∷ [])
unfolding trim_right is_space
trim_right-quote [] = refl
trim_right-quote (c ∷ []) = refl
trim_right-quote (c ∷ (d ∷ s)) =
    trim_right-cons c ((d ∷ s) ++ (b'"' ∷ [])) d _ (trim_right-quote (d ∷ s))

hex_digit-range : (d : ℕ) → b'0' ≤ hex_digit d
unfolding hex_digit
hex_digit-range d = if-ind (λ x. b'0' ≤ x) (ltb d 10) (λ e. omega arith) (λ e. omega arith)

hex_encode-IsFree : (bs : List ℕ) → IsFree b',' (hex_encode bs)
unfolding hex_encode
hex_encode-IsFree [] = tt
hex_encode-IsFree (b ∷ bs) = (
  (λ e. omega (arith, hex_digit-range (b / 16))),
  ((λ e. omega (arith, hex_digit-range (b % 16))), hex_encode-IsFree bs),
)

etag_for-IsFree : (sha256 : Text → List ℕ) (content : Text) → IsFree b',' (etag_for sha256 content)
unfolding etag_for
etag_for-IsFree sha256 content = (
  (λ e. omega arith),
  All-append (λ c. c ≢ b',') (hex_encode (sha256 content)) (b'"' ∷ [])
      (hex_encode-IsFree (sha256 content)) ((λ e. omega arith), tt),
)

trim_space-etag_for :
    (sha256 : Text → List ℕ) (content : Text)
    → trim_space (b' ' ∷ etag_for sha256 content) ≡ etag_for sha256 content
unfolding trim_space trim_left etag_for is_space
trim_space-etag_for sha256 content = trim_right-quote (b'"' ∷ hex_encode (sha256 content))

trim_prefix-etag_for :
    (sha256 : Text → List ℕ) (content : Text)
    → trim_prefix (codes "W/") (etag_for sha256 content) ≡ etag_for sha256 content
unfolding trim_prefix etag_for has_prefix
trim_prefix-etag_for sha256 content = refl

any_matches-etag_for :
    (sha256 : Text → List ℕ) (content a : Text)
    → any_matches (etag_for sha256 content) (a ∷ ((b' ' ∷ etag_for sha256 content) ∷ [])) ≡ true
unfolding any_matches
any_matches-etag_for sha256 content a =
    if-ind (λ x. x ≡ true)
      (text_eq (trim_prefix (codes "W/") (trim_space a)) (etag_for sha256 content)) (λ e. refl)
      (λ e.
        rw
          (
            trim_space-etag_for sha256 content,
            trim_prefix-etag_for sha256 content,
            text_eq_refl (etag_for sha256 content),
          )
          refl)

request_etag_matches-etag_for :
    (sha256 : Text → List ℕ) (content : Text) (c : ℕ) (a : Text)
    → IsFree b',' (c ∷ a)
    → request_etag_matches
        ((c ∷ a) ++ (b',' ∷ (b' ' ∷ etag_for sha256 content)))
        (etag_for sha256 content)
      ≡ true
unfolding request_etag_matches
request_etag_matches-etag_for sha256 content c a k =
    let etag = etag_for sha256 content in
    let free : IsFree b',' (b' ' ∷ etag) = ((λ e. omega arith), etag_for-IsFree sha256 content) in
    let parts : split b',' ((c ∷ a) ++ (b',' ∷ (b' ' ∷ etag))) ≡ (c ∷ a) ∷ ((b' ' ∷ etag) ∷ []) =
      split-append b',' (c ∷ a) (b' ' ∷ etag) k
      ∙ ap (λ x. (c ∷ a) ∷ x) (split-IsFree b',' (b' ' ∷ etag) free) in
    if-ind (λ x. x ≡ true) (text_eq ((c ∷ a) ++ (b',' ∷ (b' ' ∷ etag))) (codes "*")) (λ e. refl)
      (λ e. ap (any_matches etag) parts ∙ any_matches-etag_for sha256 content (c ∷ a))

-- A request whose If-None-Match is some text without a comma, and after a comma and a space the
-- image's entity tag, is answered by 304 without a body.
pub write_tile-etag_for :
    (sha256 : Text → List ℕ) (req : Request) (img : Image) (h : Header) (c : ℕ) (a : Text)
    → IsFree b',' (c ∷ a)
    → get_header (codes "If-None-Match") req.header
      ≡ (c ∷ a) ++ (codes ", " ++ etag_for sha256 img.content)
    → ((write_tile sha256 req img h).status ≡ 304) × ((write_tile sha256 req img h).body ≡ [])
unfolding write_tile
write_tile-etag_for sha256 req img h c a k e =
    let m : request_etag_matches (get_header (codes "If-None-Match") req.header)
          (etag_for sha256 img.content)
        ≡ true =
      ap (λ x. request_etag_matches x (etag_for sha256 img.content)) e
      ∙ request_etag_matches-etag_for sha256 img.content c a k in
    rw (m, write_tile) (refl, refl)
