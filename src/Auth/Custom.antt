-- ===== src/Auth/Custom.antt =====
-- internal/authentications/custom.go: authentication by a script, with the cache of its answers. The
-- script, the cache and the parsing of cookies are parameters; requests with the same token exclude
-- each other by a lock, so that a run is a list of requests, the latest first.
pub mod Sessions
pub mod Tests
use tilegroxy.Base.{
  ℕ, zero, suc, Bool, true, false, not, List, [], ◌∷◌, Option, none, some, if◌then◌else◌, ltb, Text,
  codes, text_eq, lookup,
}
use tilegroxy.Base.Strconv.{split}
use tilegroxy.Base.Int.{ℤ, pos, negsuc}
use tilegroxy.Request.{Grants}

-- What is read of http.Request: the header, the cookies that parse, the query, the path, and the value
-- of the path's variable y.
pub record Request : Type 0 where
  pub header : List (Text × List Text)
  pub cookie : Text → Option Text
  pub query : List (Text × List Text)
  pub path : Text
  pub path_y : Text

pub record ValidationResult : Type 0 where
  pub pass : Bool
  pub expiration : ℕ
  pub uid : Text
  pub layers : List Text

pub is_good : ℕ → ValidationResult → Bool
is_good now v = if not v.pass then false else not (ltb v.expiration now)

-- The sources of a token, each tried if the ones before it give none.
pub from_header : Request → Text → Option Text
from_header req h = elim (lookup h req.header) [ some (t ∷ ts) ↦ some t | _ ↦ none ]

-- url.Values.Get
pub first_value : List Text → Text
first_value [] = []
first_value (v ∷ vs) = v

pub from_query : Request → Text → Option Text
unfolding first_value
from_query req q = elim (lookup q req.query) [ some vs ↦ some (first_value vs) | none ↦ none ]

pub last_of : List Text → Text
last_of [] = []
last_of (s ∷ []) = s
last_of (s ∷ (t ∷ ts)) = last_of (t ∷ ts)

pub from_path : Request → Option Text
unfolding last_of
from_path req =
    let last_val = last_of (split b'/' req.path) in
    if text_eq req.path_y last_val then none else some last_val

pub or_else : Option Text → Option Text → Option Text
or_else (some t) o = some t
or_else none o = o

-- A source that is configured, with its name.
pub when_set : Option Text → (Text → Option Text) → Option Text
when_set none source = none
when_set (some name) source = source name

pub extract_token : List (Text × Text) → Request → Option Text
unfolding when_set or_else from_header from_query from_path
extract_token token req = or_else (when_set (lookup (codes "header") token) (from_header req)) (
    or_else (when_set (lookup (codes "cookie") token) req.cookie) (
      or_else (when_set (lookup (codes "query") token) (from_query req))
        (when_set (lookup (codes "path") token) (λ name. from_path req))))

-- The size of the cache, or none.
pub cache_size_of : ℤ → Option ℕ
cache_size_of (pos zero) = some 100
cache_size_of (pos (suc n)) = some (suc n)
cache_size_of (negsuc n) = none

-- The cache of the library otter.
pub record AnswerCache (C : Type 0) : Type 0 where
  pub get : Text → C → Option ValidationResult
  pub put : Text → ValidationResult → C → C

module _ {F : Type 0} where
  -- What a good result grants.
  pub grant : ValidationResult → Grants F → Grants F
  grant v g = elim v.layers [
    | [] ↦ record g { user_id = v.uid }
    | l ∷ ls ↦ record g { user_id = v.uid; limit_layers = true; allowed_layers = v.layers }
  ]

  pub conclude : ℕ → ValidationResult → Grants F → Bool × Grants F
  unfolding is_good grant
  conclude now v g = if is_good now v then (true, grant v g) else (false, g)

module _ {W C : Type 0} (script : Text → W → ValidationResult × W) (lib : AnswerCache C) where
  -- A miss asks the script, and stores its answer.
  pub after_get : Text → Option ValidationResult → C → W → ValidationResult × Option C × W
  after_get tok (some v) c w = (v, some c, w)
  after_get tok none c w = let (v, w') = script tok w in (v, some (lib.put tok v c), w')

  -- The result for a token; without a cache every request asks the script.
  pub result_for : Text → Option C → W → ValidationResult × Option C × W
  unfolding after_get
  result_for tok none w = let (v, w') = script tok w in (v, none, w')
  result_for tok (some c) w = after_get tok (lib.get tok c) c w

  module _ {F : Type 0} (token : List (Text × Text)) where
    pub check_token : ℕ → Option Text → Option C × W → Grants F → (Bool × Grants F) × Option C × W
    unfolding result_for conclude
    check_token now none (cache, w) g = ((false, g), cache, w)
    check_token now (some tok) (cache, w) g =
        let (v, cache', w') = result_for tok cache w in (conclude now v g, cache', w')

    -- CheckAuthentication, on the cache and the world of the script
    pub check_custom : ℕ → Request → Option C × W → Grants F → (Bool × Grants F) × Option C × W
    unfolding check_token extract_token
    check_custom now req s g = check_token now (extract_token token req) s g

    -- The state after requests at their times, each with grants of its own.
    pub run_custom : List (ℕ × Request × Grants F) → Option C × W → Option C × W
    unfolding check_custom
    run_custom [] s = s
    run_custom ((now, req, g) ∷ rs) s =
        let (out, cache, w) = check_custom now req (run_custom rs s) g in (cache, w)

-- Close
pub close_custom : {W E : Type 0} → Option (W → Option E × W) → W → Option E × W
close_custom none w = (none, w)
close_custom (some f) w = f w
