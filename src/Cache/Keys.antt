-- ===== src/Cache/Keys.antt =====
-- internal/caches/utility.go: safeLayerName and safeMemcacheKey. A name is the list of its runes, as
-- the regular expressions read it; a key is the list of its bytes.
use tilegroxy.Base.{
  ℕ, ◌-◌, ◌≤◌, Bool, true, ◌||◌, ◌&&◌, [], ◌∷◌, ◌++◌, map, ◌≡◌, ◌≢◌, refl, if◌then◌else◌, if-ind,
  ltb, leb, ◌==◌, length, take, length-take-le, length-append, Text, codes, text_eq, text_eq_iff,
  arith, All,
}

abbrev dot : ℕ
dot = b'.'

abbrev underscore : ℕ
underscore = b'_'

-- The complement of unsafeChar.
unfoldable pub is_safe_char : ℕ → Bool
is_safe_char c =
    (leb b'A' c && leb c b'Z')
    || (leb b'a' c && leb c b'z')
    || (leb b'0' c && leb c b'9')
    || c == b'-'
    || c == dot

unfoldable pub replace_unsafe : Text → Text
unfolding is_safe_char
replace_unsafe = map (λ c. if is_safe_char c then c else underscore)

-- The dots that the regular expression has read so far: none, one, or a run.
pub data Dots : Type 0 where
  no_dot one_dot run : Dots

unfoldable pub more_dots : Dots → Dots
more_dots no_dot = one_dot
more_dots one_dot = run
more_dots run = run

-- What stands for them in the result.
unfoldable pub flush_dots : Dots → Text → Text
flush_dots no_dot s = s
flush_dots one_dot s = dot ∷ s
flush_dots run s = underscore ∷ s

-- dotRun.ReplaceAllString(s, "_"), from a state
unfoldable pub collapse_dots : Dots → Text → Text
unfolding more_dots flush_dots
collapse_dots d [] = flush_dots d []
collapse_dots d (c ∷ s) =
    let in_run = collapse_dots (more_dots d) s in
    let out = collapse_dots no_dot s in if c == dot then in_run else flush_dots d (c ∷ out)

unfoldable pub safe_layer_name : Text → Text
unfolding replace_unsafe collapse_dots
safe_layer_name name =
    let replaced = collapse_dots no_dot (replace_unsafe name) in
    if text_eq replaced (codes ".") then codes "_" else replaced

-- A character of the names that result.
abbrev pub IsSafe : ℕ → Type 0
IsSafe c = (is_safe_char c || c == underscore) ≡ true

-- No two dots stand side by side.
abbrev pub NoRun : Text → Type 0
NoRun [] = Unit
NoRun (c ∷ []) = Unit
NoRun (c ∷ d ∷ s) = (c ≡ dot → d ≢ dot) × NoRun (d ∷ s)

replace_unsafe-IsSafe : (s : Text) → All IsSafe (replace_unsafe s)
unfolding replace_unsafe is_safe_char
replace_unsafe-IsSafe [] = tt
replace_unsafe-IsSafe (c ∷ s) = (ground arith, replace_unsafe-IsSafe s)

flush_dots-IsSafe : (d : Dots) (s : Text) → All IsSafe s → All IsSafe (flush_dots d s)
unfolding flush_dots is_safe_char
flush_dots-IsSafe no_dot s h = h
flush_dots-IsSafe one_dot s h = (refl, h)
flush_dots-IsSafe run s h = (refl, h)

collapse_dots-IsSafe : (d : Dots) (s : Text) → All IsSafe s → All IsSafe (collapse_dots d s)
unfolding collapse_dots
collapse_dots-IsSafe d [] h = flush_dots-IsSafe d [] tt
collapse_dots-IsSafe d (c ∷ s) h =
    if-ind (All IsSafe) (c == dot) (λ _. collapse_dots-IsSafe (more_dots d) s h.1)
      (λ _. flush_dots-IsSafe d _ (h.0, collapse_dots-IsSafe no_dot s h.1))

-- A character other than a dot, before anything without a run.
NoRun-cons : (c : ℕ) (s : Text) → c ≢ dot → NoRun s → NoRun (c ∷ s)
NoRun-cons c [] n h = tt
NoRun-cons c (d ∷ s) n h = ((λ e. absurd (n e)), h)

flush_dots-NoRun : (d : Dots) (c : ℕ) (s : Text) → c ≢ dot → NoRun s → NoRun (flush_dots d (c ∷ s))
unfolding flush_dots
flush_dots-NoRun no_dot c s n h = NoRun-cons c s n h
flush_dots-NoRun one_dot c s n h = ((λ _. n), NoRun-cons c s n h)
flush_dots-NoRun run c s n h = NoRun-cons underscore (c ∷ s) (omega arith) (NoRun-cons c s n h)

collapse_dots-NoRun : (d : Dots) (s : Text) → NoRun (collapse_dots d s)
unfolding collapse_dots flush_dots
collapse_dots-NoRun no_dot [] = tt
collapse_dots-NoRun one_dot [] = tt
collapse_dots-NoRun run [] = tt
collapse_dots-NoRun d (c ∷ s) =
    if-ind NoRun (c == dot) (λ _. collapse_dots-NoRun (more_dots d) s)
      (λ n. flush_dots-NoRun d c _ (ground arith) (collapse_dots-NoRun no_dot s))

-- A sanitized name has letters, digits, dashes, dots and underscores only, no two dots side by
-- side, and is not a single dot: as a component of a path it names neither directory.
pub safe_layer_name-IsSafe :
    (name : Text)
    → All IsSafe (safe_layer_name name)
      × NoRun (safe_layer_name name)
      × safe_layer_name name ≢ codes "."
unfolding safe_layer_name
safe_layer_name-IsSafe name =
    if-ind (λ r. All IsSafe r × NoRun r × r ≢ codes ".")
      (text_eq (collapse_dots no_dot (replace_unsafe name)) (codes "."))
      (λ _. ((refl, tt), tt, (λ h. cc)))
      (λ n. (
        collapse_dots-IsSafe no_dot _ (replace_unsafe-IsSafe name),
        collapse_dots-NoRun no_dot (replace_unsafe name),
        ground (arith, text_eq_iff (collapse_dots no_dot (replace_unsafe name)) (codes ".")),
      ))

abbrev pub memcache_max_key_length : ℕ
memcache_max_key_length = 250

abbrev hash_suffix_length : ℕ
hash_suffix_length = 16

-- `digest` is the hexadecimal form of a SHA-256 sum. A maximum that would be negative is 0.
unfoldable pub safe_memcache_key : (Text → Text) → Text → Text → Text
safe_memcache_key digest prefix body =
    let key = prefix ++ body in
    if leb (length key) memcache_max_key_length
    then key
    else (let suffix = codes "_" ++ take hash_suffix_length (digest key) in
        let limit = memcache_max_key_length - length suffix in
        let truncated = take (if ltb limit (length prefix) then limit else length prefix) prefix in
        let room = limit - length truncated in
        truncated ++ (take (if ltb (length body) room then length body else room) body ++ suffix))

pieces :
    (n : ℕ) (a b c : Text)
    → length c ≤ n
    → length a ≤ n - length c
    → length b ≤ n - length c - length a
    → length (a ++ (b ++ c)) ≤ n
pieces n a b c h i j = rw (length-append, length-append) omega arith

min_le : (a b : ℕ) → (if ltb a b then a else b) ≤ a
min_le a b = ground arith

min_le_right : (a b : ℕ) → (if ltb a b then a else b) ≤ b
min_le_right a b = ground arith

fits : (key : Text) → leb (length key) 250 ≡ true → length key ≤ 250
fits key e = ground arith

-- A memcache key has at most 250 bytes, whatever the prefix and the body.
safe_memcache_key-length :
    (digest : Text → Text) (prefix body : Text)
    → length (safe_memcache_key digest prefix body) ≤ memcache_max_key_length
unfolding safe_memcache_key
safe_memcache_key-length digest prefix body =
    if-ind (λ (r : Text). length r ≤ 250) (leb (length (prefix ++ body)) 250)
      (fits (prefix ++ body))
      (λ e.
        let suffix = codes "_" ++ take 16 (digest (prefix ++ body)) in
        let a =
          take
            (if ltb (250 - length suffix) (length prefix)
              then 250 - length suffix
              else length prefix)
            prefix in
        let room = 250 - length suffix - length a in
        pieces 250 a (take (if ltb (length body) room then length body else room) body) suffix
          (omega (arith, length-take-le 16 (digest (prefix ++ body))))
          (omega (arith, length-take-le _ prefix, min_le (250 - length suffix) (length prefix)))
          (omega (arith, length-take-le _ body, min_le_right (length body) room)))
