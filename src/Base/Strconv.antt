-- ===== src/Base/Strconv.antt =====
-- Functions of Go's standard library on decimal numbers and separated texts: strconv.Itoa,
-- strconv.Atoi for 64 bits, and strings.Split on a separator of one byte.
use tilegroxy.Base.{
  ℕ, zero, suc, ◌+◌, ◌-◌, ◌*◌, ◌/◌, ◌%◌, ◌^◌, ◌≤◌, ◌<◌, Bool, true, false, ◌&&◌, List, [], ◌∷◌,
  ◌++◌, Option, none, some, some-injective, ltb, leb, ◌==◌, if◌then◌else◌, if-ind, Text, arith, All,
  All-append, ◌≡◌, ◌≢◌, refl, ap, sym, ◌∙◌, ◌⊎◌, inl, inr, Bool-cases,
}
use tilegroxy.Base.Int.{ℤ, pos, negsuc}

unfoldable pub onto_first : ℕ → List Text → List Text
onto_first c [] = (c ∷ []) ∷ []
onto_first c (w ∷ ws) = (c ∷ w) ∷ ws

-- strings.Split(s, sep)
unfoldable pub split : ℕ → Text → List Text
unfolding onto_first
split sep [] = [] ∷ []
split sep (c ∷ s) = let rest = split sep s in if c == sep then [] ∷ rest else onto_first c rest

unfoldable pub digits : ℕ → Text → Option ℕ
digits n [] = some n
digits n (c ∷ s) =
    let rest = digits (10 * n + (c - b'0')) s in if leb b'0' c && leb c b'9' then rest else none

unfoldable pub unsigned : Text → Option ℕ
unfolding digits
unsigned [] = none
unsigned (c ∷ s) = digits 0 (c ∷ s)

-- The value and whether the error is nil. A syntax error gives 0, a value beyond 64 bits the nearest.
unfoldable pub positive : Option ℕ → ℤ × Bool
positive none = (pos 0, false)
positive (some n) = if ltb n (2 ^ 63) then (pos n, true) else (pos (2 ^ 63 - 1), false)

unfoldable pub negate : ℕ → ℤ
negate zero = pos 0
negate (suc n) = negsuc n

unfoldable pub negative : Option ℕ → ℤ × Bool
unfolding negate
negative none = (pos 0, false)
negative (some n) = if leb n (2 ^ 63) then (negate n, true) else (negsuc (2 ^ 63 - 1), false)

-- strconv.Atoi
unfoldable pub atoi : Text → ℤ × Bool
unfolding unsigned positive negative
atoi [] = (pos 0, false)
atoi (c ∷ s) =
    if c == b'+'
    then positive (unsigned s)
    else if c == b'-'
    then negative (unsigned s)
    else positive (unsigned (c ∷ s))

-- The digits of a number, with fuel above it.
unfoldable pub decimal : ℕ → ℕ → Text
decimal zero n = []
decimal (suc f) n =
    let front = decimal f (n / 10) in
    if ltb n 10 then (b'0' + n) ∷ [] else front ++ ((b'0' + n % 10) ∷ [])

unfoldable pub natural : ℕ → Text
natural n = decimal (suc n) n

-- strconv.Itoa
unfoldable pub itoa : ℤ → Text
itoa (pos n) = natural n
itoa (negsuc n) = b'-' ∷ natural (suc n)

abbrev pub IsDigits : Text → Type 0
IsDigits = All (λ c. b'0' ≤ c × c ≤ b'9')

abbrev pub IsFree : ℕ → Text → Type 0
IsFree sep = All (λ c. c ≢ sep)

pub split-IsFree : (sep : ℕ) (t : Text) → IsFree sep t → split sep t ≡ t ∷ []
unfolding split onto_first
split-IsFree sep [] h = refl
split-IsFree sep (c ∷ t) h =
    let e : (c == sep) ≡ false = ground (arith, h.0) in rw (e, split-IsFree sep t h.1) refl

pub split-append :
    (sep : ℕ) (t r : Text) → IsFree sep t → split sep (t ++ (sep ∷ r)) ≡ t ∷ split sep r
unfolding split onto_first
split-append sep [] r h = let e : (sep == sep) ≡ true = ground arith in rw e refl
split-append sep (c ∷ t) r h =
    let e : (c == sep) ≡ false = ground (arith, h.0) in rw (e, split-append sep t r h.1) refl

pub decimal-IsDigits : (f n : ℕ) → IsDigits (decimal f n)
unfolding decimal
decimal-IsDigits zero n = tt
decimal-IsDigits (suc f) n =
    if-ind IsDigits (ltb n 10) (λ e. (ground arith, tt))
      (λ e.
        All-append _ (decimal f (n / 10)) ((b'0' + n % 10) ∷ []) (decimal-IsDigits f (n / 10))
          ((omega arith, omega arith), tt))

pub natural-IsDigits : (n : ℕ) → IsDigits (natural n)
unfolding natural
natural-IsDigits n = decimal-IsDigits (suc n) n

pub IsDigits-IsFree :
    (sep : ℕ) → (sep < b'0') ⊎ (b'9' < sep) → (t : Text) → IsDigits t → IsFree sep t
IsDigits-IsFree sep s [] h = tt
IsDigits-IsFree sep s (c ∷ t) h = ((λ e. ground (arith, h.0)), IsDigits-IsFree sep s t h.1)

digits-cons : (n d : ℕ) (s : Text) → d < 10 → digits n ((b'0' + d) ∷ s) ≡ digits (10 * n + d) s
unfolding digits
digits-cons n d s h =
    let e : (leb b'0' (b'0' + d) && leb (b'0' + d) b'9') ≡ true = ground arith in
    let k : b'0' + d - b'0' ≡ d = omega arith in rw (e, k) refl

-- The value of digits, with one more at the end.
digits-last :
    (s : Text) (a m d : ℕ)
    → d < 10
    → digits a s ≡ some m
    → digits a (s ++ ((b'0' + d) ∷ [])) ≡ some (10 * m + d)
unfolding digits
digits-last [] a m d h e = digits-cons a d [] h ∙ ap (λ x. some (10 * x + d)) (some-injective _ _ e)
digits-last (c ∷ s) a m d h e = elim (Bool-cases (leb b'0' c && leb c b'9')) [
  | inl t ↦ rw t (digits-last s _ m d h (rw t at e))
  | inr t ↦ (let z : none ≡ some m = rw t at e in ground arith)
]

digits-decimal : (f n : ℕ) → n < f → digits 0 (decimal f n) ≡ some n
unfolding decimal digits
digits-decimal zero n h = absurd (omega arith)
digits-decimal (suc f) n h =
    if-ind (λ t. digits 0 t ≡ some n) (ltb n 10)
      (λ e. let k : 10 * 0 + n ≡ n = omega arith in digits-cons 0 n [] (ground arith) ∙ ap some k)
      (λ e.
        let k : 10 * (n / 10) + n % 10 ≡ n = omega arith in
        digits-last (decimal f (n / 10)) 0 (n / 10) (n % 10) (omega arith)
          (digits-decimal f (n / 10) (ground arith))
        ∙ ap some k)

pub digits-natural : (n : ℕ) → digits 0 (natural n) ≡ some n
unfolding natural
digits-natural n = digits-decimal (suc n) n (omega arith)

decimal_ne : (f n : ℕ) → decimal (suc f) n ≢ []
unfolding decimal
decimal_ne f n = if-ind (λ t. t ≢ []) (ltb n 10) (λ e h. cc) (λ e. snoc_ne _ (decimal f (n / 10)))
  where
    snoc_ne : (c : ℕ) (t : Text) → t ++ (c ∷ []) ≢ []
    snoc_ne c [] h = cc
    snoc_ne c (d ∷ t) h = cc

pub natural_ne : (n : ℕ) → natural n ≢ []
unfolding natural
natural_ne n = decimal_ne n n

-- A number that an int of 64 bits holds.
abbrev pub IsInt64 : ℤ → Type 0
IsInt64 (pos n) = n < 2 ^ 63
IsInt64 (negsuc n) = n < 2 ^ 63

atoi-IsDigits :
    (t : Text) (n : ℕ)
    → IsDigits t
    → t ≢ []
    → digits 0 t ≡ some n
    → n < 2 ^ 63
    → atoi t ≡ (pos n, true)
unfolding atoi unsigned positive
atoi-IsDigits [] n h e v i = absurd (e refl)
atoi-IsDigits (c ∷ s) n h e v i =
    let p : (c == b'+') ≡ false = ground (arith, h.0) in
    let m : (c == b'-') ≡ false = ground (arith, h.0) in
    let k : ltb n (2 ^ 63) ≡ true = ground arith in rw (p, m, v, k) refl

negative-IsDigits :
    (t : Text) (n : ℕ)
    → t ≢ []
    → digits 0 t ≡ some (suc n)
    → n < 2 ^ 63
    → negative (unsigned t) ≡ (negsuc n, true)
unfolding unsigned negative negate
negative-IsDigits [] n e v i = absurd (e refl)
negative-IsDigits (c ∷ s) n e v i =
    let k : leb (suc n) (2 ^ 63) ≡ true = ground arith in rw (v, k) refl

-- What Itoa writes, Atoi reads.
pub atoi-itoa : (a : ℤ) → IsInt64 a → atoi (itoa a) ≡ (a, true)
unfolding itoa atoi
atoi-itoa (pos n) h =
    atoi-IsDigits (natural n) n (natural-IsDigits n) (natural_ne n) (digits-natural n) h
atoi-itoa (negsuc n) h =
    negative-IsDigits (natural (suc n)) n (natural_ne (suc n)) (digits-natural (suc n)) h

not_minus : (t s : Text) → IsDigits t → t ≢ b'-' ∷ s
not_minus [] s h e = cc
not_minus (c ∷ t) s h e = let k : c ≡ b'-' = cc in omega (arith, h.0)

-- Different numbers are written differently.
pub itoa-injective : (a b : ℤ) → itoa a ≡ itoa b → a ≡ b
unfolding itoa
itoa-injective (pos n) (pos m) h =
    ap pos (some-injective _ _ (sym (digits-natural n) ∙ ap (digits 0) h ∙ digits-natural m))
itoa-injective (pos n) (negsuc m) h = absurd (not_minus (natural n) _ (natural-IsDigits n) h)
itoa-injective (negsuc n) (pos m) h = absurd (not_minus (natural m) _ (natural-IsDigits m) (sym h))
itoa-injective (negsuc n) (negsuc m) h =
    let k : natural (suc n) ≡ natural (suc m) = cc in
    let e : suc n ≡ suc m =
      some-injective _ _
        (sym (digits-natural (suc n)) ∙ ap (digits 0) k ∙ digits-natural (suc m)) in
    ap negsuc (omega arith)

-- A number has digits, with a minus before them if it is negative.
pub itoa-IsFree :
    (sep : ℕ)
    → ((sep < b'-') ⊎ (b'9' < sep)) ⊎ (b'-' < sep × sep < b'0')
    → (a : ℤ) → IsFree sep (itoa a)
unfolding itoa
itoa-IsFree sep h (pos n) = IsDigits-IsFree sep (ground arith) (natural n) (natural-IsDigits n)
itoa-IsFree sep h (negsuc n) = (
  (λ e. ground arith),
  IsDigits-IsFree sep (ground arith) (natural (suc n)) (natural-IsDigits (suc n)),
)
