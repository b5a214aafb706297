-- ===== src/Server/Response/Errors.antt =====
-- internal/server/error.go: the status and the headers of an error.
use tilegroxy.Base.{
  ℕ, Bool, true, false, subst, sym, [], ◌∷◌, ◌++◌, Option, none, some, ◌≡◌, ◌⊎◌, refl, ◌∙◌, inl,
  inr, ◌||◌, Text, codes, text_eq, lookup, lookup-insert, Option-cases, Bool-cases,
}
use tilegroxy.Errors.{
  Error, TypeOfError, bounds, auth, provider, bad_request, other, type_of, error_vars, is_canceled,
  says_canceled,
}
use tilegroxy.Server.Response.{
  Header, set_header, add_header, Response, ErrorMode, plain_text, image, image_header, none_mode,
  ErrorConfig, image_error, write_mode, write_error_message, write_error,
}

lookup-set_header :
    (k j v : Text) (h : Header) → text_eq k j ≡ false → lookup j (set_header k v h) ≡ lookup j h
unfolding set_header
lookup-set_header k j v h e = lookup-insert k j (v ∷ []) h ∙ rw e refl

lookup-add_header :
    (k j v : Text) (h : Header) → text_eq k j ≡ false → lookup j (add_header k v h) ≡ lookup j h
unfolding add_header
lookup-add_header k j v h e = elim (Option-cases (lookup k h)) [
  | inl n ↦ rw (n, add_header) (lookup-insert k j (v ∷ []) h ∙ rw e refl)
  | inr (vs, n) ↦ rw (n, add_header) (lookup-insert k j (vs ++ (v ∷ [])) h ∙ rw e refl)
]

-- The response has the status, and says that it is not to be stored.
IsUnstored : ℕ → Response → Type 0
IsUnstored n r =
    (r.status ≡ n) × (lookup (codes "Cache-Control") r.header ≡ some (codes "no-store" ∷ []))

no_store :
    (h : Header)
    → lookup (codes "Cache-Control") (set_header (codes "Cache-Control") (codes "no-store") h)
      ≡ some (codes "no-store" ∷ [])
unfolding set_header text_eq
no_store h = lookup-insert (codes "Cache-Control") (codes "Cache-Control") (codes "no-store" ∷ []) h

image_error-IsUnstored :
    (o : Option Text) (n : ℕ) (h : Header)
    → lookup (codes "Cache-Control") h ≡ some (codes "no-store" ∷ [])
    → IsUnstored n (image_error o n h)
unfolding image_error IsUnstored text_eq
image_error-IsUnstored none n h e = (refl, e)
image_error-IsUnstored (some img) n h e = (refl, lookup-set_header _ _ _ h refl ∙ e)

write_mode-IsUnstored :
    (mode : ErrorMode) (img : Option Text) (m : Text) (n : ℕ) (h : Header)
    → lookup (codes "Cache-Control") h ≡ some (codes "no-store" ∷ [])
    → IsUnstored n (write_mode mode img m n h)
unfolding write_mode IsUnstored text_eq
write_mode-IsUnstored plain_text img m n h e = (refl, lookup-set_header _ _ _ h refl ∙ e)
write_mode-IsUnstored image img m n h e = image_error-IsUnstored img n h e
write_mode-IsUnstored image_header img m n h e =
    image_error-IsUnstored img n (add_header (codes "X-Error-Message") m h)
      (lookup-add_header _ _ m h refl ∙ e)
write_mode-IsUnstored none_mode img m n h e = (refl, e)

write_error_message-IsUnstored :
    (c : ErrorConfig) (t : TypeOfError) (m : Text) (h : Header)
    → IsUnstored (error_vars c.always_ok t).0 (write_error_message c t m h)
unfolding write_error_message
write_error_message-IsUnstored c t m h =
    write_mode-IsUnstored c.mode (c.static_image t) m _ _ (no_store h)

-- No typed error, and the context's cancellation or a text that says so.
pub IsCancellation : Error → Type 0
IsCancellation e = (type_of e ≡ none) × ((is_canceled e || says_canceled e) ≡ true)

-- The status that each error has to have.
pub data HasStatus (always_ok : Bool) (e : Error) : ℕ → Type 0 where
  client_closed : IsCancellation e → HasStatus always_ok e 499
  covered_up : ¬ IsCancellation e → always_ok ≡ true → HasStatus always_ok e 200
  not_authorized : always_ok ≡ false → type_of e ≡ some auth → HasStatus always_ok e 401
  out_of_bounds : always_ok ≡ false → type_of e ≡ some bounds → HasStatus always_ok e 400
  bad_argument : always_ok ≡ false → type_of e ≡ some bad_request → HasStatus always_ok e 400
  provider_failed : always_ok ≡ false → type_of e ≡ some provider → HasStatus always_ok e 500
  unexpected : always_ok ≡ false → type_of e ≡ some other → HasStatus always_ok e 500
  untyped : always_ok ≡ false → type_of e ≡ none → ¬ IsCancellation e → HasStatus always_ok e 500

typed_not-IsCancellation : (e : Error) (t : TypeOfError) → type_of e ≡ some t → ¬ IsCancellation e
unfolding IsCancellation
typed_not-IsCancellation e t n (m, k) = let z : none ≡ some t = sym m ∙ n in cc

typed-HasStatus :
    (always_ok : Bool) (e : Error) (t : TypeOfError)
    → type_of e ≡ some t
    → HasStatus always_ok e (error_vars always_ok t).0
unfolding error_vars
typed-HasStatus true e auth n = covered_up (typed_not-IsCancellation e auth n) refl
typed-HasStatus true e bounds n = covered_up (typed_not-IsCancellation e bounds n) refl
typed-HasStatus true e provider n = covered_up (typed_not-IsCancellation e provider n) refl
typed-HasStatus true e bad_request n = covered_up (typed_not-IsCancellation e bad_request n) refl
typed-HasStatus true e other n = covered_up (typed_not-IsCancellation e other n) refl
typed-HasStatus false e auth n = not_authorized refl n
typed-HasStatus false e bounds n = out_of_bounds refl n
typed-HasStatus false e provider n = provider_failed refl n
typed-HasStatus false e bad_request n = bad_argument refl n
typed-HasStatus false e other n = unexpected refl n

untyped-HasStatus :
    (always_ok : Bool) (e : Error)
    → type_of e ≡ none
    → ¬ IsCancellation e
    → HasStatus always_ok e (error_vars always_ok other).0
unfolding error_vars
untyped-HasStatus true e n k = covered_up k refl
untyped-HasStatus false e n k = untyped refl n k

-- The response to an error has the status that HasStatus lists: 499 for a cancelled request that is no
-- typed error, whatever AlwaysOK says; or else 200 under AlwaysOK, and without it 401 for
-- authentication, 400 for bounds and bad requests, and 500 for all others. It is marked as not to be
-- stored, unless the request was cancelled: then it has no body and no header is added.
pub write_error-status :
    (c : ErrorConfig) (e : Error) (h : Header)
    → HasStatus c.always_ok e (write_error c e h).status
      × ((lookup (codes "Cache-Control") (write_error c e h).header ≡ some (codes "no-store" ∷ []))
          ⊎ (IsCancellation e
              × (((write_error c e h).header ≡ h) × ((write_error c e h).body ≡ []))))
unfolding write_error IsUnstored IsCancellation
write_error-status c e h = elim (Option-cases (type_of e)) [
  | inr (t, n) ↦
      (let (a, b) = write_error_message-IsUnstored c t (c.external e) h in
        rw (n, write_error)
          (subst (HasStatus c.always_ok e) (sym a) (typed-HasStatus c.always_ok e t n), inl b))
  | inl n ↦ elim (Bool-cases (is_canceled e || says_canceled e)) [
    | inl k ↦ rw (n, k, write_error) (client_closed (n, k), inr ((refl, refl), (refl, refl)))
    | inr k ↦
        (let (a, b) = write_error_message-IsUnstored c other (c.external e) h in
          let open_request : ¬ IsCancellation e = λ q. (let z : true ≡ false = sym q.1 ∙ k in cc) in
          rw (n, k, write_error)
            (
              subst (HasStatus c.always_ok e) (sym a)
                  (untyped-HasStatus c.always_ok e n open_request),
              inl b,
            ))
  ]
]
