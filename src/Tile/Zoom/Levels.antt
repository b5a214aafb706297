-- ===== src/Tile/Zoom/Levels.antt =====
-- What ParseZoomString gives: levels in range, and those that the text lists.
use tilegroxy.Base.{
  ℕ, zero, suc, ◌+◌, ◌-◌, ◌≤◌, Bool, ◌||◌, ◌&&◌, List, [], ◌∷◌, Option, none, some, if-ind, Text,
  arith, All, All-append, ◌≡◌, refl, subst,
}
use tilegroxy.Base.Int.{ℤ, pos, negsuc, ltb_ℤ}
use tilegroxy.Tile.Bounds.{max_zoom}
use tilegroxy.Base.Strconv.{split, atoi}
use tilegroxy.Tile.Zoom.{
  levels, level_range, parse_single, parse_range, parse_entry, append_levels, parse_entries,
  parse_zoom_string,
}

-- A list of zoom levels from 0 to 21.
pub IsZoom : ℤ → Type 0
IsZoom z = (n : ℕ) × (z ≡ pos n × n ≤ 21)

levels-IsZoom : (a k : ℕ) → a + k ≤ 22 → All IsZoom (levels a k)
unfolding levels IsZoom
levels-IsZoom a zero h = tt
levels-IsZoom a (suc k) h = ((a, (refl, omega arith)), levels-IsZoom (suc a) k (omega arith))

-- The levels of a result that is no error.
AllZooms : Option (List ℤ) → Type 0
AllZooms none = Unit
AllZooms (some zs) = All IsZoom zs

parse_single-AllZooms : (z : ℤ) (o : Bool) → AllZooms (parse_single (z, o))
unfolding parse_single IsZoom AllZooms
parse_single-AllZooms (negsuc n) o =
    if-ind AllZooms (ltb_ℤ (negsuc n) (pos 0) || ltb_ℤ (pos max_zoom) (negsuc n)) (λ _. tt)
      (λ e. ground arith)
parse_single-AllZooms (pos n) o =
    if-ind AllZooms (ltb_ℤ (pos n) (pos 0) || ltb_ℤ (pos max_zoom) (pos n)) (λ _. tt)
      (λ e. if-ind AllZooms o (λ _. ((n, (refl, ground arith)), tt)) (λ _. tt))

parse_range-AllZooms : (a b : ℤ) (o p : Bool) → AllZooms (parse_range (a, o) (b, p))
unfolding parse_range level_range AllZooms
parse_range-AllZooms (pos a) (pos b) o p =
    if-ind AllZooms (o && p)
      (λ _.
        if-ind AllZooms (ltb_ℤ (pos b) (pos a)) (λ _. tt)
          (λ h.
            if-ind AllZooms (ltb_ℤ (pos a) (pos 0) || ltb_ℤ (pos max_zoom) (pos b)) (λ _. tt)
              (λ e. levels-IsZoom a (suc b - a) (ground arith))))
      (λ _. tt)
parse_range-AllZooms (negsuc a) b o p =
    if-ind AllZooms (o && p)
      (λ _.
        if-ind AllZooms (ltb_ℤ b (negsuc a)) (λ _. tt)
          (λ _.
            if-ind AllZooms (ltb_ℤ (negsuc a) (pos 0) || ltb_ℤ (pos max_zoom) b) (λ _. tt)
              (λ _. tt)))
      (λ _. tt)
parse_range-AllZooms (pos a) (negsuc b) o p =
    if-ind AllZooms (o && p)
      (λ _.
        if-ind AllZooms (ltb_ℤ (negsuc b) (pos a)) (λ _. tt)
          (λ _.
            if-ind AllZooms (ltb_ℤ (pos a) (pos 0) || ltb_ℤ (pos max_zoom) (negsuc b)) (λ _. tt)
              (λ _. tt)))
      (λ _. tt)

parse_entry-AllZooms : (ws : List Text) → AllZooms (parse_entry ws)
unfolding parse_entry AllZooms
parse_entry-AllZooms [] = tt
parse_entry-AllZooms (a ∷ []) = parse_single-AllZooms (atoi a).0 (atoi a).1
parse_entry-AllZooms (a ∷ b ∷ []) = parse_range-AllZooms (atoi a).0 (atoi b).0 (atoi a).1 (atoi b).1
parse_entry-AllZooms (a ∷ b ∷ c ∷ ws) = tt

append_levels-AllZooms :
    (a b : Option (List ℤ)) → AllZooms a → AllZooms b → AllZooms (append_levels a b)
unfolding append_levels AllZooms
append_levels-AllZooms none b h i = tt
append_levels-AllZooms (some zs) none h i = tt
append_levels-AllZooms (some zs) (some ws) h i = All-append IsZoom zs ws h i

parse_entries-AllZooms : (es : List Text) → AllZooms (parse_entries es)
unfolding parse_entries AllZooms
parse_entries-AllZooms [] = tt
parse_entries-AllZooms (e ∷ es) =
    append_levels-AllZooms (parse_entry (split b'-' e)) (parse_entries es)
      (parse_entry-AllZooms (split b'-' e)) (parse_entries-AllZooms es)

-- Every level that ParseZoomString gives is from 0 to 21.
parse_zoom_string-IsZoom :
    (str : Text) (zs : List ℤ) → parse_zoom_string str ≡ some zs → All IsZoom zs
unfolding parse_zoom_string AllZooms
parse_zoom_string-IsZoom str zs h = subst AllZooms h (parse_entries-AllZooms (split b',' str))
