-- ===== src/Config/Settings/Validity.antt =====
-- Which configurations Validate accepts, and how the defaults of clients combine.
use tilegroxy.Base.{
  ℕ, ◌+◌, ◌^◌, ◌<◌, ◌≡◌, ◌≢◌, ◌↔◌, ◌⊎◌, inl, inr, refl, sym, ap, ◌∙◌, Bool, true, false, not, List,
  [], ◌∷◌, none, if◌then◌else◌, leb, ◌==◌, Text, codes, text_eq, text_eq_iff, contains, arith,
  Bool-cases,
}
use tilegroxy.Base.Int.{pos, eqb_ℤ}
use tilegroxy.Errors.{Error, plain}
use tilegroxy.Server.Shutdown.{join_all}
use tilegroxy.Server.Shutdown.Order.{join_all-none}
use tilegroxy.Providers.Client.{ClientConfig}
use tilegroxy.Config.Settings.{
  ServerConfig, Config, effective_shutdown_timeout, or_default, merge_defaults_from, error_modes,
  main_formats, access_formats, is_level, unless_error, validate,
}

-- The text is one of the list.
abbrev pub OneOf : Text → List Text → Type 0
OneOf s [] = ⊥
OneOf s (t ∷ ts) = (s ≡ t) ⊎ OneOf s ts

-- What Validate asks for. Without an own timeout the shutdown has the requests' timeout on top of the
-- delay, so the delay fits if requests have a timeout.
pub record IsSound (c : Config) : Type 0 where
  pub mode :
      OneOf c.error.mode
        (codes "text" ∷ (codes "none" ∷ (codes "image" ∷ (codes "image+header" ∷ []))))
  pub level : is_level c.main.level ≡ true
  pub main_format : OneOf c.main.format (codes "plain" ∷ (codes "json" ∷ []))
  pub access_format : OneOf c.access.format (codes "common" ∷ (codes "combined" ∷ []))
  pub drain_delay :
      ((c.server.shutdown_timeout ≡ 0) × (0 < c.server.timeout))
      ⊎ ((c.server.shutdown_timeout ≢ 0) × (c.server.drain_delay < c.server.shutdown_timeout))

contains_iff : (ts : List Text) (s : Text) → (contains ts s ≡ true) ↔ OneOf s ts
unfolding contains
contains_iff [] s = ((λ h. let k : false ≡ true = h in cc), (λ h. absurd h))
contains_iff (t ∷ ts) s = elim (Bool-cases (text_eq t s)) [
  | inl k ↦ rw k ((λ h. inl (sym ((text_eq_iff t s).0 k))), (λ h. refl))
  | inr k ↦ rw k (
    (λ h. inr ((contains_iff ts s).0 h)),
    (λ h. elim h [
      | inl e ↦ absurd (differ (sym k ∙ (text_eq_iff t s).1 (sym e)))
      | inr q ↦ (contains_iff ts s).1 q
    ]),
  )
]
  where
    differ : false ≢ true
    differ e = cc

unless_error-none :
    (b : Bool) (name : Text) (es : List Error)
    → (unless_error b name es ≡ []) ↔ ((b ≡ true) × (es ≡ []))
unfolding unless_error
unless_error-none true name es = ((λ h. (refl, h)), (λ h. h.1))
unless_error-none false name es = (
  (λ h. absurd (let k : plain name ∷ es ≡ [] = h in cc)),
  (λ h. absurd (let k : false ≡ true = h.0 in cc)),
)

join_all-nil : (es : List Error) → (join_all es ≡ none) ↔ (es ≡ [])
unfolding join_all
join_all-nil es = ((λ h. join_all-none es h), (λ h. ap join_all h))

not-leb_iff : (n d : ℕ) → (not (leb n d) ≡ true) ↔ (d < n)
not-leb_iff n d = ((λ h. ground arith), (λ h. ground arith))

delay_fits :
    (s : ServerConfig)
    → s.timeout + s.drain_delay < 2 ^ 64
    → (s.drain_delay < effective_shutdown_timeout s) ↔ (
        ((s.shutdown_timeout ≡ 0) × (0 < s.timeout))
        ⊎ ((s.shutdown_timeout ≢ 0) × (s.drain_delay < s.shutdown_timeout)))
unfolding effective_shutdown_timeout
delay_fits s h = elim (Bool-cases (s.shutdown_timeout == 0)) [
  | inl k ↦
      (let e : effective_shutdown_timeout s ≡ s.timeout + s.drain_delay =
          rw (k, effective_shutdown_timeout) (omega arith) in
        (
          (λ q. inl (ground arith, omega arith)),
          (λ q. elim q [
            | inl x ↦ (let y = x.1 in omega arith)
            | inr x ↦ absurd (x.0 (ground arith))
          ]),
        ))
  | inr k ↦
      (let e : effective_shutdown_timeout s ≡ s.shutdown_timeout =
          rw (k, effective_shutdown_timeout) refl in
        (
          (λ q. inr ((λ z. ground arith), omega arith)),
          (λ q. elim q [
            | inl x ↦ absurd (let y = x.0 in ground arith)
            | inr x ↦ (let y = x.1 in omega arith)
          ]),
        ))
]

abbrev checked : Config → List Error
checked c = unless_error (contains error_modes c.error.mode) (codes "error.mode") (
    unless_error (is_level c.main.level) (codes "logging.main.level") (
      unless_error (contains main_formats c.main.format) (codes "logging.main.format") (
        unless_error (contains access_formats c.access.format) (codes "logging.access.format") (
          unless_error (not (leb (effective_shutdown_timeout c.server) c.server.drain_delay))
            (codes "server.draindelay") []))))

checked_iff :
    (c : Config) → c.server.timeout + c.server.drain_delay < 2 ^ 64 → (checked c ≡ []) ↔ IsSound c
checked_iff c h = (sound, all_pass)
  where
    sound : checked c ≡ [] → IsSound c
    sound e =
        let p = (unless_error-none _ _ _).0 e in
        let q = (unless_error-none _ _ _).0 p.1 in
        let r = (unless_error-none _ _ _).0 q.1 in
        let u = (unless_error-none _ _ _).0 r.1 in
        let v = (unless_error-none _ _ _).0 u.1 in
        record {
          mode = (contains_iff _ _).0 p.0;
          level = q.0;
          main_format = (contains_iff _ _).0 r.0;
          access_format = (contains_iff _ _).0 u.0;
          drain_delay = (delay_fits c.server h).0 ((not-leb_iff _ _).0 v.0);
        }

    all_pass : IsSound c → checked c ≡ []
    all_pass s = (unless_error-none _ _ _).1 (
      (contains_iff _ _).1 s.mode,
      (unless_error-none _ _ _).1 (
        s.level,
        (unless_error-none _ _ _).1 (
          (contains_iff _ _).1 s.main_format,
          (unless_error-none _ _ _).1 (
            (contains_iff _ _).1 s.access_format,
            (unless_error-none _ _ _).1
                ((not-leb_iff _ _).1 ((delay_fits c.server h).1 s.drain_delay), refl),
          ),
        ),
      ),
    )

-- Unless the timeout of requests and the delay are too large for 64 bits, Validate accepts a
-- configuration exactly when the modes, formats and the level are known and the delay fits into the
-- shutdown: it is less than the shutdown's own timeout, or there is none and requests have a timeout.
pub validate_iff :
    (c : Config)
    → c.server.timeout + c.server.drain_delay < 2 ^ 64
    → (validate c ≡ none) ↔ IsSound c
unfolding validate
validate_iff c h =
    let j = join_all-nil (checked c) in
    let k = checked_iff c h in ((λ e. k.0 (j.0 e)), (λ s. j.1 (k.1 s)))

or_default_assoc :
    {A : Type 0} (a b c : List A) → or_default (or_default a b) c ≡ or_default a (or_default b c)
unfolding or_default
or_default_assoc [] b c = refl
or_default_assoc (x ∷ a) b c = refl

pick_assoc :
    {A : Type 0} (unset : A → Bool) (a b c : A)
    → (if unset (if unset a then b else a) then c else (if unset a then b else a))
      ≡ (if unset a then (if unset b then c else b) else a)
pick_assoc unset a b c = elim (Bool-cases (unset a)) [ inl k ↦ rw k refl | inr k ↦ rw (k, k) refl ]

-- Defaults taken from one configuration and then from another are those that the first has with its own
-- defaults from the other.
merge_defaults_from_assoc :
    (c o p : ClientConfig)
    → merge_defaults_from (merge_defaults_from c o) p
      ≡ merge_defaults_from c (merge_defaults_from o p)
unfolding merge_defaults_from
merge_defaults_from_assoc c o p = λ i. record {
  user_agent = or_default_assoc c.user_agent o.user_agent p.user_agent i;
  max_length = pick_assoc (λ n. eqb_ℤ n (pos 0)) c.max_length o.max_length p.max_length i;
  unknown_length = c.unknown_length;
  content_types = or_default_assoc c.content_types o.content_types p.content_types i;
  status_codes = or_default_assoc c.status_codes o.status_codes p.status_codes i;
  headers = or_default_assoc c.headers o.headers p.headers i;
  timeout = pick_assoc (λ n. n == 0) c.timeout o.timeout p.timeout i;
  rewrite_content_types =
      or_default_assoc c.rewrite_content_types o.rewrite_content_types p.rewrite_content_types i;
}
