-- ===== src/Tile/Zoom/Listing.antt =====
-- ParseZoomString reads back what lists of zoom levels and ranges are written as.
use tilegroxy.Base.{
  inl, ℕ, suc, ◌-◌, ◌≤◌, ◌<◌, true, false, ◌||◌, List, [], ◌∷◌, ◌++◌, some, Text, arith, All,
  All-append, ◌≡◌, ◌≢◌, refl,
}
use tilegroxy.Base.Int.{ℤ, pos, ltb_ℤ}
use tilegroxy.Tile.Bounds.{max_zoom}
use tilegroxy.Base.Strconv.{
  split, atoi, natural, itoa, IsFree, split-IsFree, split-append, natural-IsDigits, IsDigits-IsFree,
  atoi-itoa,
}
use tilegroxy.Tile.Zoom.{
  levels, level_range, parse_single, parse_range, parse_entry, append_levels, parse_entries,
  parse_zoom_string,
}

-- An entry of the list, with levels from 0 to 21.
pub data Entry : Type 0 where
  single : ℕ → Entry
  through : ℕ → ℕ → Entry

abbrev pub IsEntry : Entry → Type 0
IsEntry (single a) = a ≤ 21
IsEntry (through a b) = a ≤ b × b ≤ 21

pub show_entry : Entry → Text
show_entry (single a) = natural a
show_entry (through a b) = natural a ++ (b'-' ∷ natural b)

pub show_entries : Entry → List Entry → Text
unfolding show_entry
show_entries e [] = show_entry e
show_entries e (d ∷ ds) = show_entry e ++ (b',' ∷ show_entries d ds)

pub entry_levels : Entry → List ℤ
entry_levels (single a) = pos a ∷ []
entry_levels (through a b) = levels a (suc b - a)

pub all_levels : List Entry → List ℤ
unfolding entry_levels
all_levels [] = []
all_levels (e ∷ es) = entry_levels e ++ all_levels es

-- The numerals of levels have neither separator.
natural-IsFree : (sep : ℕ) → sep < b'0' → (n : ℕ) → IsFree sep (natural n)
natural-IsFree sep h n = IsDigits-IsFree sep (inl h) (natural n) (natural-IsDigits n)

atoi-natural : (n : ℕ) → n ≤ 21 → atoi (natural n) ≡ (pos n, true)
unfolding itoa
atoi-natural n h = atoi-itoa (pos n) (omega arith)

parse_entry-show_entry :
    (e : Entry) → IsEntry e → parse_entry (split b'-' (show_entry e)) ≡ some (entry_levels e)
unfolding parse_entry parse_single parse_range level_range show_entry entry_levels
parse_entry-show_entry (single a) h =
    let k : (ltb_ℤ (pos a) (pos 0) || ltb_ℤ (pos max_zoom) (pos a)) ≡ false = ground arith in
    rw (split-IsFree b'-' (natural a) (natural-IsFree b'-' (omega arith) a), atoi-natural a h, k)
      refl
parse_entry-show_entry (through a b) (h, i) =
    let j : ltb_ℤ (pos b) (pos a) ≡ false = ground arith in
    let k : (ltb_ℤ (pos a) (pos 0) || ltb_ℤ (pos max_zoom) (pos b)) ≡ false = ground arith in
    let free = λ (n : ℕ). natural-IsFree b'-' (omega arith) n in
    rw
      (
        split-append b'-' (natural a) (natural b) (free a),
        split-IsFree b'-' (natural b) (free b),
        atoi-natural a (omega arith),
        atoi-natural b i,
        j,
        k,
      )
      refl

show_entry-IsFree : (e : Entry) → IsEntry e → IsFree b',' (show_entry e)
unfolding show_entry
show_entry-IsFree (single a) h = natural-IsFree b',' (omega arith) a
show_entry-IsFree (through a b) (h, i) =
    All-append (λ c. c ≢ b',') (natural a) (b'-' ∷ natural b) (natural-IsFree b',' (omega arith) a)
      ((λ x. omega arith), natural-IsFree b',' (omega arith) b)

-- What is written as entries with commas between them, each a level or a range of two levels with a
-- dash, is read as the levels of the entries, one after another.
pub parse_zoom_string-show_entries :
    (e : Entry) (es : List Entry)
    → All IsEntry (e ∷ es)
    → parse_zoom_string (show_entries e es) ≡ some (all_levels (e ∷ es))
unfolding parse_zoom_string parse_entries append_levels show_entries all_levels
parse_zoom_string-show_entries e [] h =
    rw (split-IsFree b',' (show_entry e) (show_entry-IsFree e h.0), parse_entry-show_entry e h.0)
      refl
parse_zoom_string-show_entries e (d ∷ ds) h =
    rw
      (
        split-append b',' (show_entry e) (show_entries d ds) (show_entry-IsFree e h.0),
        parse_entry-show_entry e h.0,
        parse_zoom_string-show_entries d ds h.1,
      )
      refl
