-- ===== src/Providers/Blend.antt =====
-- internal/providers/blend.go: Blend, which asks its providers concurrently and blends their images. A
-- goroutine's call of a provider is a step on a world W; what the goroutines send arrives in any
-- order. A receive from a channel that stays empty blocks for ever.
pub mod Images
pub mod Setup
pub mod Gather
pub mod Auth
pub mod Places
pub mod Tiles
pub mod Tests
use tilegroxy.Base.{
  ℕ, zero, suc, ◌+◌, Bool, true, false, not, ◌&&◌, ◌||◌, List, [], ◌∷◌, ◌++◌, Option, none, some,
  if◌then◌else◌, ltb, ◌==◌, length, set, Text, codes, text_eq, contains, lookup, insert,
}
use tilegroxy.Base.Int.{pos}
use tilegroxy.Base.Strconv.{natural}
use tilegroxy.Errors.{Error, plain, join}
use tilegroxy.Tile.Floats.{Floats}
use tilegroxy.Tile.Bounds.{TileRequest, Result, ok, err}
use tilegroxy.Layer.Provide.{Image, ProviderContext}
use tilegroxy.Providers.Placeholders.{replace_all}

-- What a call of a provider comes to.
pub data Call (A : Type 0) : Type 0 where
  returned : A → Option Error → Call A
  panicked : Text → Call A

-- A provider that may panic.
pub record Child (W P : Type 0) : Type 0 where
  pub pre_auth : ProviderContext P → W → Call (ProviderContext P) × W
  pub generate_tile : ProviderContext P → TileRequest → W → Call (Option Image) × W

-- What Blend keeps in `Other`: a provider context for each of its providers, by its index.
abbrev pub Contexts : Type 0 → Type 0
Contexts P = List (Text × ProviderContext P)

-- What a function that receives from channels comes to.
pub data Outcome (A : Type 0) : Type 0 where
  done : A → Outcome A
  blocked : Outcome A
  crashed : Outcome A

-- errors.Join on errors that may be nil
pub join_errors : List (Option Error) → Option Error
join_errors [] = none
join_errors (e ∷ es) = join e (join_errors es)

module _ {P : Type 0} where
  -- The provider context that the goroutine with an index passes on, ProviderContext{} by default.
  pub context_for : P → Contexts P → ℕ → ProviderContext P
  context_for nil m i = elim (lookup (natural i) m) [
    | some pc ↦ pc
    | none ↦ record { auth_bypass = false; auth_expiration = 0; other = nil }
  ]

module _ {W P : Type 0} where
  pub ask : P → Contexts P → ℕ → Child W P → W → Call (ProviderContext P) × W
  unfolding context_for
  ask nil m i p w = p.pre_auth (context_for nil m i) w

  pub generate_child : P → Contexts P → TileRequest → ℕ → Child W P → W → Call (Option Image) × W
  unfolding context_for
  generate_child nil m t i p w = p.generate_tile (context_for nil m i) t w

-- What the goroutine of PreAuth sends to acResults, with its index, and to errs.
module _ {A : Type 0} where
  pub results_from : ℕ → List (Call A) → List (ℕ × A)
  results_from i [] = []
  results_from i (returned a e ∷ cs) = (i, a) ∷ results_from (suc i) cs
  results_from i (panicked m ∷ cs) = results_from (suc i) cs

pub auth_error : {A : Type 0} → Call A → Option Error
auth_error (returned a e) = e
auth_error (panicked m) = some (plain m)

pub auth_errors : {A : Type 0} → List (Call A) → List (Option Error)
unfolding auth_error
auth_errors [] = []
auth_errors (c ∷ cs) = auth_error c ∷ auth_errors cs

-- The variables of the loop that receives.
pub record Gathered (P : Type 0) : Type 0 where
  pub other : Contexts P
  pub errors : List (Option Error)
  pub all_bypass : Bool
  pub next_exp : ℕ

abbrev pub hour : ℕ
hour = 3600

module _ {P : Type 0} where
  pub take_result : ℕ × ProviderContext P → Gathered P → Gathered P
  take_result (i, pc) g = record g {
    other = insert (natural i) pc g.other;
    all_bypass = if not pc.auth_bypass then false else g.all_bypass;
    next_exp = if ltb pc.auth_expiration g.next_exp then pc.auth_expiration else g.next_exp;
  }

  -- for i := range t.providers, with the values that are still to be received.
  pub gather :
      ℕ → List (Option Error) → List (ℕ × ProviderContext P) → Gathered P → Outcome (Gathered P)
  unfolding take_result
  gather zero es rs g = done g
  gather (suc n) [] rs g = blocked
  gather (suc n) (e ∷ es) [] g = blocked
  gather (suc n) (e ∷ es) (r ∷ rs) g =
      gather n es rs (take_result r (record g { errors = g.errors ++ (e ∷ []) }))

  pub finish_auth : Outcome (Gathered P) → Outcome (ProviderContext (Contexts P) × Option Error)
  unfolding join_errors
  finish_auth (done g) = done (
    record { auth_bypass = g.all_bypass; auth_expiration = g.next_exp; other = g.other },
    join_errors g.errors,
  )
  finish_auth blocked = blocked
  finish_auth crashed = crashed

  -- PreAuth after wg.Wait, for the number of providers and what has been sent, in its order.
  pub pre_auth :
      (now n : ℕ)
      → List (Option Error)
      → List (ℕ × ProviderContext P)
      → Outcome (ProviderContext (Contexts P) × Option Error)
  unfolding gather finish_auth
  pre_auth now n es rs = finish_auth (
      gather n es rs (record { other = []; errors = []; all_bypass = true; next_exp = now + hour }))

-- Close, on the functions that close the providers, each a step on the world.
pub close_all : {W : Type 0} → List (W → Option Error × W) → W → List (Option Error) × W
close_all [] w = ([], w)
close_all (c ∷ cs) w = let (e, w') = c w in let (es, w'') = close_all cs w' in (e ∷ es, w'')

pub close : {W : Type 0} → List (W → Option Error × W) → W → Option Error × W
unfolding close_all join_errors
close cs w = let (es, w') = close_all cs w in (join_errors es, w')
