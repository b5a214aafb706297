-- ===== src/Auth/Custom/Tests.antt =====
-- Concrete requests, and the witnesses: a script that counts its calls, and a cache that forgets nothing.
use tilegroxy.Base.{
  ℕ, suc, ◌≡◌, ◌⊎◌, inl, inr, refl, Bool, true, false, List, [], ◌∷◌, Option, none, some,
  if◌then◌else◌, Text, codes, text_eq, lookup, insert, lookup-insert, text_eq_iff, sym, ◌∙◌,
  some-injective,
}
use tilegroxy.Base.Strconv.{split, onto_first}
use tilegroxy.Request.{Grants}
use tilegroxy.Auth.Custom.{
  Request, ValidationResult, is_good, extract_token, conclude, AnswerCache, after_get, result_for,
  check_token, check_custom, run_custom, from_path, last_of, from_header, or_else, when_set,
}
use tilegroxy.Auth.Custom.Sessions.{
  CacheLaws, IsGranted, check_custom-IsGranted, check_custom_uncached,
}

abbrev one_user : Text → ℕ → ValidationResult × ℕ
one_user t n = (
  record {
    pass = text_eq t (codes "k");
    expiration = 100;
    uid = codes "u";
    layers = codes "a" ∷ [];
  },
  suc n,
)

abbrev Entries : Type 0
Entries = List (Text × ValidationResult)

abbrev unbounded : AnswerCache Entries
unbounded = record { get = lookup; put = insert }

put_cases :
    (b : Bool) (t t' : Text) (v v' : ValidationResult) (o : Option ValidationResult)
    → text_eq t' t ≡ b
    → (if b then some v else o) ≡ some v'
    → ((t ≡ t') × (v ≡ v')) ⊎ (o ≡ some v')
put_cases true t t' v v' o e h = inl (sym ((text_eq_iff t' t).0 e), some-injective _ _ h)
put_cases false t t' v v' o e h = inr h

unbounded-CacheLaws : CacheLaws unbounded []
unfolding lookup
unbounded-CacheLaws = record {
  get_empty = λ t. refl;
  get_put = λ t t' v v' c e.
      put_cases (text_eq t' t) t t' v v' (lookup t c) refl (sym (lookup-insert t' t v c) ∙ e);
}

abbrev nobody : Grants ℕ
nobody = record {
  limit_layers = false;
  allowed_layers = [];
  allowed_area = record { south = 0; north = 0; west = 0; east = 0; srid = 0 };
  limit_area_partial = false;
  user_id = [];
  ref_depth = 0;
}

abbrev by_path : List (Text × Text)
by_path = (codes "header", codes "X-Token") ∷ ((codes "path", []) ∷ [])

abbrev with_path : Text → Request
with_path path = record {
  header = [];
  cookie = λ name. none;
  query = [];
  path = path;
  path_y = codes "3";
}

abbrev with_key : Request
with_key = with_path (codes "/tiles/a/1/2/3/k")

-- A path that ends with the tile's coordinate has no token.
no_token : extract_token by_path (with_path (codes "/tiles/a/1/2/3")) ≡ none
unfolding extract_token or_else when_set from_header from_path last_of split onto_first text_eq
    lookup
no_token = refl

-- The latest first: the key, a wrong key.
abbrev visits : List (ℕ × Request × Grants ℕ)
visits = (7, with_key, nobody) ∷ ((6, with_path (codes "/t/x"), nobody) ∷ [])

abbrev visited : Option Entries × ℕ
visited = run_custom one_user unbounded by_path visits (some [], 0)

key_accepted : (check_custom one_user unbounded by_path 100 with_key visited nobody).0.0 ≡ true
unfolding check_custom run_custom check_token result_for after_get conclude is_good extract_token
    or_else when_set from_header from_path last_of split onto_first text_eq lookup insert
key_accepted = refl

check_custom-IsGranted_example :
    IsGranted one_user unbounded by_path 100 with_key nobody
      (check_custom one_user unbounded by_path 100 with_key visited nobody).0.1
check_custom-IsGranted_example =
    check_custom-IsGranted one_user unbounded [] unbounded-CacheLaws by_path visits (some []) 0
      (inr refl) 100 with_key nobody key_accepted

check_custom_uncached_example :
    (check_custom one_user unbounded by_path 101 with_key visited nobody).0
    ≡ (check_custom one_user unbounded by_path 101 with_key (none, 5) nobody).0
check_custom_uncached_example =
    check_custom_uncached one_user unbounded [] unbounded-CacheLaws by_path (λ t w w'. refl) visits
      0 5 101 with_key nobody
