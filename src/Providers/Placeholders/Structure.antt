-- ===== src/Providers/Placeholders/Structure.antt =====
-- internal/providers/utility.go: what the values of a request can change of a URL.
use tilegroxy.Base.{
  ℕ, zero, suc, ◌<◌, Bool, true, false, not, ◌||◌, List, [], ◌∷◌, ◌++◌, Option, none, some,
  some-injective, ◌≡◌, ◌⊎◌, refl, sym, ap, ◌∙◌, inl, inr, arith, if-ind, if◌then◌else◌, ltb, ◌==◌,
  length, get_elem?, Text, Bool-cases, Option-cases,
}
use tilegroxy.Base.Int.{ℤ, pos, negsuc}
use tilegroxy.Base.Strconv.{atoi}
use tilegroxy.Providers.Placeholders.{
  digit_run, indexed, value_at, find_value, write_value, put_value, scan,
}

-- A byte that ends the path, a segment of it, or the query of a URL.
unfoldable pub is_delimiter : ℕ → Bool
is_delimiter c = c == b'/' || (c == b'?' || c == b'#')

unfoldable pub delimiters : Text → Text
unfolding is_delimiter
delimiters [] = []
delimiters (c ∷ s) = let rest = delimiters s in if is_delimiter c then c ∷ rest else rest

delimiters-append : (s t : Text) → delimiters (s ++ t) ≡ delimiters s ++ delimiters t
unfolding delimiters
delimiters-append [] t = refl
delimiters-append (c ∷ s) t = elim (Bool-cases (is_delimiter c)) [
  | inl e ↦ rw (e, delimiters-append s t) refl
  | inr e ↦ rw (e, delimiters-append s t) refl
]

-- Two lists have as many values, and the same values of the environment.
unfoldable pub SameEnv : ℕ → List Text → List Text → Type 0
SameEnv env_count xs ys =
    (length xs ≡ length ys) × ((n : ℕ) → n < env_count → get_elem? xs n ≡ get_elem? ys n)

-- Two lists of one length have both no value at an index, or both one.
both_at :
    (xs ys : List Text) (n : ℕ)
    → length xs ≡ length ys
    → ((get_elem? xs n ≡ none) × (get_elem? ys n ≡ none))
      ⊎ ((v : Text) × ((w : Text) × ((get_elem? xs n ≡ some v) × (get_elem? ys n ≡ some w))))
both_at [] [] n l = inl (refl, refl)
both_at [] (y ∷ ys) n l = absurd (omega arith)
both_at (x ∷ xs) [] n l = absurd (omega arith)
both_at (x ∷ xs) (y ∷ ys) zero l = inr (x, (y, (refl, refl)))
both_at (x ∷ xs) (y ∷ ys) (suc n) l = both_at xs ys n (omega arith)

module _ (path_escape query_escape : Text → Text)
    (path_law : (v : Text) → delimiters (path_escape v) ≡ [])
    (query_law : (v : Text) → delimiters (query_escape v) ≡ []) (env_count : ℕ)
    (query_start : Option ℕ) where
  -- Both have no value, or values of the same index that are equal or not the environment's.
  SameFound : Option (ℕ × Text) → Option (ℕ × Text) → Type 0
  SameFound none none = Unit
  SameFound none (some p) = ⊥
  SameFound (some p) none = ⊥
  SameFound (some (n, v)) (some (m, w)) = (n ≡ m) × (n < env_count → v ≡ w)

  value_at-SameFound :
      (xs ys : List Text) (a : ℤ) (b : Bool)
      → SameEnv env_count xs ys
      → SameFound (value_at xs (a, b)) (value_at ys (a, b))
  unfolding value_at indexed SameFound SameEnv
  value_at-SameFound xs ys (pos n) true (l, e) = elim (both_at xs ys n l) [
    | inl (a, b) ↦ rw (a, b) tt
    | inr (v, (w, (a, b))) ↦ rw (a, b) (refl, (λ k. some-injective _ _ (sym a ∙ (e n k ∙ b))))
  ]
  value_at-SameFound xs ys (pos n) false h = tt
  value_at-SameFound xs ys (negsuc n) b h = tt

  find_value-SameFound :
      (xs ys : List Text) (ds : Text)
      → SameEnv env_count xs ys
      → SameFound (find_value xs ds) (find_value ys ds)
  unfolding find_value
  find_value-SameFound xs ys ds h = value_at-SameFound xs ys (atoi ds).0 (atoi ds).1 h

  escaped :
      (i : ℕ) (v : Text)
      → delimiters (elim query_start as (λ _. Text) [
        | none ↦ path_escape v
        | some q ↦ if ltb q i then query_escape v else path_escape v
      ])
        ≡ []
  escaped i v = elim (Option-cases query_start) [
    | inl n ↦ rw n (path_law v)
    | inr (q, n) ↦
        rw n (if-ind (λ x. delimiters x ≡ []) (ltb q i) (λ e. query_law v) (λ e. path_law v))
  ]

  write_value-delimiters :
      (i : ℕ) (p q : ℕ × Text)
      → SameFound (some p) (some q)
      → delimiters (write_value path_escape query_escape env_count query_start i p)
        ≡ delimiters (write_value path_escape query_escape env_count query_start i q)
  unfolding write_value SameFound
  write_value-delimiters i (n, v) (m, w) (e, k) = elim (Bool-cases (ltb n env_count)) [
    | inl b ↦
        (let b2 : ltb m env_count ≡ true = cc in rw (b, b2) (ap delimiters (k (ground arith))))
    | inr b ↦
        (let b2 : ltb m env_count ≡ false = cc in rw (b, b2) (escaped i v ∙ sym (escaped i w)))
  ]

  put_value-delimiters :
      (i : ℕ) (p q : Option (ℕ × Text)) (a a2 b b2 : Text)
      → SameFound p q
      → delimiters a ≡ delimiters a2
      → delimiters b ≡ delimiters b2
      → delimiters (put_value path_escape query_escape env_count query_start i p a b)
        ≡ delimiters (put_value path_escape query_escape env_count query_start i q a2 b2)
  unfolding put_value SameFound
  put_value-delimiters i none none a a2 b b2 h x y = x
  put_value-delimiters i none (some q) a a2 b b2 h x y = absurd h
  put_value-delimiters i (some p) none a a2 b b2 h x y = absurd h
  put_value-delimiters i (some p) (some q) a a2 b b2 h x y =
      delimiters-append _ b
      ∙ (ap (λ s. s ++ delimiters b) (write_value-delimiters i p q h)
          ∙ (ap
                (λ s.
                  delimiters (write_value path_escape query_escape env_count query_start i q) ++ s)
                y
              ∙ sym (delimiters-append _ b2)))

  kept :
      (c : ℕ) (a b : Text) → delimiters a ≡ delimiters b → delimiters (c ∷ a) ≡ delimiters (c ∷ b)
  unfolding delimiters
  kept c a b h = rw h refl

  -- The values of a request add no slash, question mark or hash to a URL: its delimiters are those
  -- of the template and of the environment.
  pub scan-delimiters :
      (s : Text) (i n : ℕ) (xs ys : List Text)
      → SameEnv env_count xs ys
      → delimiters (scan path_escape query_escape env_count query_start xs i n s)
        ≡ delimiters (scan path_escape query_escape env_count query_start ys i n s)
  unfolding scan
  scan-delimiters [] i n xs ys h = refl
  scan-delimiters (c ∷ s) i (suc n) xs ys h = scan-delimiters s (suc i) n xs ys h
  scan-delimiters (c ∷ s) i zero xs ys h =
      let next = kept c _ _ (scan-delimiters s (suc i) zero xs ys h) in
      let jump = scan-delimiters s (suc i) (length (digit_run s)) xs ys h in
      elim (Bool-cases (not (c == b'$'))) [
        | inl e ↦ rw e next
        | inr e ↦ rw e (
            put_value-delimiters i (find_value xs (digit_run s)) (find_value ys (digit_run s)) _ _ _
              _ (find_value-SameFound xs ys (digit_run s) h) next jump)
      ]
