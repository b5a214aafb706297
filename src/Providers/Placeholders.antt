-- ===== src/Providers/Placeholders.antt =====
-- internal/providers/utility.go: placeholders in the templates of URLs. The environment, the
-- request's context, the matches of the layer's pattern, the printing of floats and the two escapes
-- of net/url are parameters.
pub mod Structure
pub mod Values
pub mod Tests
use tilegroxy.Base.{
  ℕ, zero, suc, ◌+◌, ◌-◌, ◌^◌, Bool, true, false, not, ◌||◌, ◌&&◌, List, [], ◌∷◌, ◌++◌, Option,
  none, some, if◌then◌else◌, ltb, leb, ◌==◌, length, get_elem?, drop, Text, codes, has_prefix,
  index,
}
use tilegroxy.Base.Int.{ℤ, pos, negsuc}
use tilegroxy.Base.Strconv.{atoi, itoa}
use tilegroxy.Tile.Floats.{Floats}
use tilegroxy.Tile.Bounds.{TileRequest, Box, Result, ok, err, get_bounds_projection}

pub record Sources (F : Type 0) : Type 0 where
  pub getenv : Text → Text
  pub context_value : Text → Text
  pub layer_value : Text → Text
  pub print_float : F → Text
  pub path_escape : Text → Text
  pub query_escape : Text → Text

-- What [^{}]* and the closing brace read: the name, unless a brace opens first.
brace_name : Text → Option Text
brace_name [] = none
brace_name (c ∷ s) = elim (brace_name s) [
  | none ↦ if c == b'}' then some [] else none
  | some n ↦ if c == b'}' then some [] else if c == b'{' then none else some (c ∷ n)
]

-- The names in the matches of a regular expression: the start and the text up to a closing brace. A match
-- has no second opening brace, so none begins inside another.
pub find_names : Text → Text → List Text
unfolding brace_name
find_names start [] = []
find_names start (c ∷ s) =
    let rest = find_names start s in
    if has_prefix (c ∷ s) start
    then elim (brace_name (drop (length start) (c ∷ s))) [ none ↦ rest | some n ↦ n ∷ rest ]
    else rest

-- strings.Replace(s, old, new, 1)
pub replace_first : Text → Text → Text → Text
replace_first old new [] = []
replace_first old new (c ∷ s) =
    let rest = replace_first old new s in
    if has_prefix (c ∷ s) old then new ++ drop (length old) (c ∷ s) else c ∷ rest

-- strings.ReplaceAll(s, old, new), with bytes of a match left to be skipped
unfoldable pub replace_from : Text → Text → ℕ → Text → Text
replace_from old new n [] = []
replace_from old new (suc n) (c ∷ s) = replace_from old new n s
replace_from old new zero (c ∷ s) =
    let after_match = replace_from old new (length old - 1) s in
    let after_byte = replace_from old new zero s in
    if has_prefix (c ∷ s) old then new ++ after_match else c ∷ after_byte

unfoldable pub replace_all : Text → Text → Text → Text
unfolding replace_from
replace_all old new s = replace_from old new 0 s

-- A loop over the matches: the text and the values, and the next index.
pub number_matches : (Text → Text) → Text → List Text → ℕ → Text → Text × List Text × ℕ
unfolding replace_first
number_matches value start [] n s = (s, [], n)
number_matches value start (name ∷ names) n s =
    let param = b'$' ∷ itoa (pos n) in
    let (t, values, m) =
      number_matches value start names (suc n)
        (replace_first (start ++ (name ++ (b'}' ∷ []))) param s) in
    (t, value name ∷ values, m)

-- 2^z - y - 1 on int
pub inverted_y : ℤ → ℤ → ℤ
inverted_y (pos z) (pos y) = if ltb y (2 ^ z) then pos (2 ^ z - y - 1) else negsuc (y - 2 ^ z)
inverted_y (pos z) (negsuc y) = pos (2 ^ z + y)
inverted_y (negsuc z) (pos y) = negsuc y
inverted_y (negsuc z) (negsuc y) = pos y

pub replace_pairs : List (Text × Text) → Text → Text
unfolding replace_all
replace_pairs [] s = s
replace_pairs ((old, new) ∷ ps) s = replace_pairs ps (replace_all old new s)

module _ (f : Floats) (src : Sources f.F) where
  pub tile_values : TileRequest → ℤ → Box f.F → List (Text × Text)
  tile_values t y b =
      (codes "{Z}", itoa t.z)
      ∷ ((codes "{z}", itoa t.z)
          ∷ ((codes "{Y}", itoa y)
              ∷ ((codes "{y}", itoa y)
                  ∷ ((codes "{X}", itoa t.x)
                      ∷ ((codes "{x}", itoa t.x)
                          ∷ ((codes "{xmin}", src.print_float b.west)
                              ∷ ((codes "{xmax}", src.print_float b.east)
                                  ∷ ((codes "{ymin}", src.print_float b.south)
                                      ∷ ((codes "{ymax}", src.print_float b.north) ∷ [])))))))))

  pub number_placeholders : Text → ℕ → Text × List Text
  unfolding number_matches find_names
  number_placeholders str first =
      let env = codes "{env." in
      let ctx = codes "{ctx." in
      let lyr = codes "{layer." in
      let (s1, v1, n1) = number_matches src.getenv env (find_names env str) first str in
      let (s2, v2, n2) = number_matches src.context_value ctx (find_names ctx s1) n1 s1 in
      let (s3, v3, n3) = number_matches src.layer_value lyr (find_names lyr s2) n2 s2 in
      (s3, (v1 ++ v2) ++ v3)

  unfoldable pub replace_placeholders_in_string :
      TileRequest → Text → ℕ → Bool → ℕ → Result (Text × List Text)
  unfolding number_placeholders tile_values replace_pairs inverted_y
  replace_placeholders_in_string t str first invert_y srid = elim (get_bounds_projection f t srid) [
    | err e ↦ err e
    | ok b ↦
        (let y = if invert_y then inverted_y t.z t.y else t.y in
          let (s, values) = number_placeholders str first in
          ok (replace_pairs (tile_values t y b) s, values))
  ]

unfoldable pub digit_run : Text → Text
digit_run [] = []
digit_run (c ∷ s) = let rest = digit_run s in if leb b'0' c && leb c b'9' then c ∷ rest else []

unfoldable pub indexed : ℕ → Option Text → Option (ℕ × Text)
indexed n none = none
indexed n (some v) = some (n, v)

unfoldable pub value_at : List Text → ℤ × Bool → Option (ℕ × Text)
unfolding indexed
value_at values (pos n, true) = indexed n (get_elem? values n)
value_at values (a, b) = none

-- The value of the digits after a dollar, with its index.
unfoldable pub find_value : List Text → Text → Option (ℕ × Text)
unfolding value_at
find_value values ds = value_at values (atoi ds)

module _ (path_escape query_escape : Text → Text) (env_count : ℕ) (query_start : Option ℕ) where
  -- The switch on the source and the position in the template.
  pub write_value : ℕ → ℕ × Text → Text
  write_value i (n, v) = if ltb n env_count then v else elim query_start [
    | none ↦ path_escape v
    | some q ↦ if ltb q i then query_escape v else path_escape v
  ]

  unfoldable pub put_value : ℕ → Option (ℕ × Text) → Text → Text → Text
  unfolding write_value
  put_value i none next jump = next
  put_value i (some v) next jump = write_value i v ++ jump

  -- The loop at a position, with digits of a placeholder left to be skipped.
  unfoldable pub scan : List Text → ℕ → ℕ → Text → Text
  unfolding digit_run find_value put_value
  scan values i n [] = []
  scan values i (suc n) (c ∷ s) = scan values (suc i) n s
  scan values i zero (c ∷ s) =
      let ds = digit_run s in
      let next = scan values (suc i) zero s in
      let jump = scan values (suc i) (length ds) s in
      if not (c == b'$') then c ∷ next else put_value i (find_value values ds) (c ∷ next) jump

unfoldable pub replace_url_placeholders :
    (f : Floats) → Sources f.F → TileRequest → Text → Bool → ℕ → Result Text
unfolding find_names scan
replace_url_placeholders f src t raw invert_y srid =
    let env_count = length (find_names (codes "{env.") raw) in
    elim (replace_placeholders_in_string f src t raw 0 invert_y srid) [
      | err e ↦ err e
      | ok p ↦
          ok (scan src.path_escape src.query_escape env_count (index p.0 (codes "?")) p.1 0 0 p.0)
    ]
