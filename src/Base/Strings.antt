-- ===== src/Base/Strings.antt =====
-- Go strings as lists of bytes, with the functions of package strings that the program calls, and
-- maps with string keys as association lists.
use Prim.Native.Nat.{ℕ, zero, suc, ◌+◌, ◌-◌}
use Prim.Native.Char.{code}
use Prim.Native.String.{String}
use mathlib.Core.Path.{◌≡◌, refl}
use mathlib.Core.Logic.{◌↔◌, ◌≢◌}
use mathlib.Core.Bool.{Bool, true, false, ◌&&◌}
use mathlib.Core.List.{List, [], ◌∷◌, ◌++◌}
use mathlib.Core.Option.{Option, none, some}
use mathlib.Core.Option
use native.Mathlib.Omega.{arith}
use tilegroxy.Base.Tests.{leb, ◌==◌, if◌then◌else◌}
use tilegroxy.Base.Lists.{length, drop, take, All}

abbrev pub Text : Type 0
Text = List ℕ

-- The code points of a literal; these are its bytes when the text is ASCII.
abbrev pub codes : String → Text
codes String.[] = []
codes (String.◌∷◌ c s) = code c ∷ codes s

-- a == b on strings
unfoldable pub text_eq : Text → Text → Bool
text_eq [] [] = true
text_eq [] (d ∷ t) = false
text_eq (c ∷ s) [] = false
text_eq (c ∷ s) (d ∷ t) = c == d && text_eq s t

pub text_eq_iff : (s t : Text) → (text_eq s t ≡ true) ↔ (s ≡ t)
unfolding text_eq
text_eq_iff [] [] = ground arith
text_eq_iff [] (d ∷ t) = ground arith
text_eq_iff (c ∷ s) [] = ground arith
text_eq_iff (c ∷ s) (d ∷ t) = ground (arith, text_eq_iff s t)

pub text_ne : (s t : Text) → text_eq s t ≡ false → s ≢ t
text_ne s t h e = let k = (text_eq_iff s t).1 e in cc

pub text_eq_refl : (s : Text) → text_eq s s ≡ true
text_eq_refl s = (text_eq_iff s s).1 refl

-- strings.HasPrefix(s, pre)
unfoldable pub has_prefix : Text → Text → Bool
has_prefix s [] = true
has_prefix [] (d ∷ pre) = false
has_prefix (c ∷ s) (d ∷ pre) = c == d && has_prefix s pre

-- strings.Index(s, sub), with `none` for -1
unfoldable pub index : Text → Text → Option ℕ
unfolding has_prefix
index [] sub = if has_prefix [] sub then some 0 else none
index (c ∷ s) sub = if has_prefix (c ∷ s) sub then some 0 else Option.map suc (index s sub)

-- strings.ToLower and strings.ToUpper on ASCII letters
unfoldable pub lower : ℕ → ℕ
lower c = if leb b'A' c && leb c b'Z' then c + 32 else c

unfoldable pub upper : ℕ → ℕ
upper c = if leb b'a' c && leb c b'z' then c - 32 else c

-- slices.Contains on strings
unfoldable pub contains : List Text → Text → Bool
contains [] t = false
contains (s ∷ ss) t = if text_eq s t then true else contains ss t

-- map[string]V: a lookup, and a write that replaces the entry of the key.
module _ {ℓ} {V : Type ℓ} where
  unfoldable pub lookup : Text → List (Text × V) → Option V
  lookup k [] = none
  lookup k ((j, v) ∷ m) = if text_eq j k then some v else lookup k m

  unfoldable pub insert : Text → V → List (Text × V) → List (Text × V)
  insert k v [] = (k, v) ∷ []
  insert k v ((j, w) ∷ m) = if text_eq j k then (k, v) ∷ m else (j, w) ∷ insert k v m

  pub lookup-insert :
      (k j : Text) (v : V) (m : List (Text × V))
      → lookup j (insert k v m) ≡ (if text_eq k j then some v else lookup j m)
  unfolding lookup insert
  lookup-insert k j v [] = refl
  lookup-insert k j v ((i, w) ∷ m) =
      ground (arith, text_eq_iff k j, text_eq_iff i k, text_eq_iff i j, lookup-insert k j v m)

-- What a found position says: the text splits around the found part.
pub has_prefix-split : (s pre : Text) → has_prefix s pre ≡ true → s ≡ pre ++ drop (length pre) s
unfolding has_prefix
has_prefix-split s [] h = refl
has_prefix-split [] (d ∷ pre) h = cc
has_prefix-split (c ∷ s) (d ∷ pre) h = ground (arith, has_prefix-split s pre)

pub index-split :
    (s sub : Text) (n : ℕ)
    → index s sub ≡ some n
    → s ≡ take n s ++ (sub ++ drop (length sub) (drop n s))
unfolding index
index-split [] [] zero h = refl
index-split [] [] (suc n) h = cc
index-split [] (d ∷ sub) n h = ground arith
index-split (c ∷ s) sub zero h = ground (arith, has_prefix-split (c ∷ s) sub)
index-split (c ∷ s) sub (suc n) h = ground (arith, index-split s sub n)

pub has_prefix-append : (pre s : Text) → has_prefix (pre ++ s) pre ≡ true
unfolding has_prefix
has_prefix-append [] [] = refl
has_prefix-append [] (c ∷ s) = refl
has_prefix-append (c ∷ pre) s = ground (arith, has_prefix-append pre s)

-- A text behind bytes that differ from its first byte is found just there.
pub index-append :
    (v : Text) (d : ℕ) (sub s : Text)
    → All (λ c. c ≢ d) v
    → index (v ++ (d ∷ sub ++ s)) (d ∷ sub) ≡ some (length v)
unfolding index
index-append [] d sub s h = ground (arith, has_prefix-append (d ∷ sub) s)
index-append (c ∷ v) d sub s h = ground (arith, index-append v d sub s h.1, h.0)
