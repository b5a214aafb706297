-- ===== src/Layer/MetricName.antt =====
-- pkg/entities/layer/layer.go: sanitizeMetricName. A name is the list of its runes, as the regular
-- expression reads it; what it becomes is ASCII, so that its bytes are its runes.
use tilegroxy.Base.{
  ◌≤◌, Bool, true, ◌≡◌, ◌||◌, ◌&&◌, [], ◌∷◌, ℕ, zero, suc, map, if◌then◌else◌, leb, ltb, ◌==◌,
  length, take, length-take-le, Text, arith, All, if-ind,
}

pub is_metric_char : ℕ → Bool
is_metric_char c =
    (leb b'A' c && leb c b'Z')
    || ((leb b'a' c && leb c b'z') || ((leb b'0' c && leb c b'9') || (c == b'_' || c == b'-')))

abbrev pub max_sanitized_metric_name_len : ℕ
max_sanitized_metric_name_len = 200

pub replace_metric_chars : Text → Text
unfolding is_metric_char
replace_metric_chars = map (λ c. if is_metric_char c then c else b'_')

pub sanitize_metric_name : Text → Text
unfolding replace_metric_chars
sanitize_metric_name id =
    let sanitized = replace_metric_chars id in
    if ltb max_sanitized_metric_name_len (length sanitized)
    then take max_sanitized_metric_name_len sanitized
    else sanitized

abbrev pub IsMetricName : Text → Type 0
IsMetricName = All (λ c. is_metric_char c ≡ true)

replace_metric_chars-IsMetricName : (s : Text) → IsMetricName (replace_metric_chars s)
unfolding replace_metric_chars is_metric_char
replace_metric_chars-IsMetricName [] = tt
replace_metric_chars-IsMetricName (c ∷ s) = (ground arith, replace_metric_chars-IsMetricName s)

take-IsMetricName : (n : ℕ) (s : Text) → IsMetricName s → IsMetricName (take n s)
take-IsMetricName zero s h = tt
take-IsMetricName (suc n) [] h = tt
take-IsMetricName (suc n) (c ∷ s) h = (h.0, take-IsMetricName n s h.1)

-- A sanitized name has letters, digits, underscores and dashes only, and at most 200 of them.
sanitize_metric_name-IsMetricName :
    (id : Text)
    → IsMetricName (sanitize_metric_name id)
      × length (sanitize_metric_name id) ≤ max_sanitized_metric_name_len
unfolding sanitize_metric_name
sanitize_metric_name-IsMetricName id =
    let s = replace_metric_chars id in
    let h = replace_metric_chars-IsMetricName id in
    if-ind (λ (r : Text). IsMetricName r × length r ≤ 200) (ltb 200 (length s))
      (λ _. (take-IsMetricName 200 s h, length-take-le 200 s)) (λ e. (h, ground arith))
