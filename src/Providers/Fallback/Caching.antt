-- ===== src/Providers/Fallback/Caching.antt =====
-- Which answers of a Fallback may be cached, and when it panics.
use tilegroxy.Base.{
  true, false, not, Option, none, some, ◌≡◌, ◌≢◌, refl, sym, ◌∙◌, if-ind, text_eq, text_eq_iff,
  arith,
}
use tilegroxy.Errors.{Error}
use tilegroxy.Tile.Floats.{Floats}
use tilegroxy.Tile.Bounds.{TileRequest}
use tilegroxy.Layer.Provide.{Image, ProviderContext}
use tilegroxy.Providers.Fallback.{
  Fallback, Outcome, returned, panicked, mark, is_primary, from_secondary, after_primary,
  generate_tile, cache_mode_always, cache_mode_unless_fallback,
}

-- The outcome holds no image that may be cached.
pub NotCached : {W : Type 0} → Outcome W → Type 0
NotCached (returned none e w) = Unit
NotCached (returned (some img) e w) = img.force_skip_cache ≡ true
NotCached panicked = Unit

mark-NotCached :
    {W : Type 0} (img : Option Image) (e : Option Error) (w : W) → NotCached (mark true img e w)
unfolding mark NotCached
mark-NotCached none e w = tt
mark-NotCached (some img) e w = refl

always≢unless_fallback : cache_mode_always ≢ cache_mode_unless_fallback
always≢unless_fallback h = ground arith

module _ {W P : Type 0} (f : Floats) (fb : Fallback W P f.F) (pc : ProviderContext P)
    (t : TileRequest) (w : W) where
  -- The primary provider is asked and has no error.
  unfoldable pub PrimaryAnswers : Type 0
  PrimaryAnswers = is_primary f fb t ≡ true × (fb.primary.generate_tile pc t w).1 ≡ none

  after_primary-NotCached :
      (img : Option Image) (e : Option Error) (w' : W)
      → fb.cache ≢ cache_mode_always
      → e ≢ none
      → NotCached (after_primary f fb pc t img e w')
  unfolding after_primary from_secondary
  after_primary-NotCached img none w' m n = absurd (n refl)
  after_primary-NotCached img (some e) w' m n =
      let h : not (text_eq fb.cache cache_mode_always) ≡ true =
        ground (arith, text_eq_iff fb.cache cache_mode_always) in
      let g = fb.secondary.generate_tile pc t w' in rw h (mark-NotCached g.0 g.1 g.2)

  -- Under unless-fallback no tile of the secondary provider is cached, whether the zoom, the bounds
  -- or an error led to it.
  pub generate_tile-NotCached :
      fb.cache ≡ cache_mode_unless_fallback
      → ¬ PrimaryAnswers
      → NotCached (generate_tile f fb pc t w)
  unfolding generate_tile from_secondary PrimaryAnswers
  generate_tile-NotCached m n =
      if-ind NotCached (is_primary f fb t)
        (λ p.
          after_primary-NotCached (fb.primary.generate_tile pc t w).0 _ _
            (λ a. always≢unless_fallback (sym a ∙ m)) (λ e. n (p, e)))
        (λ p.
          let h : text_eq fb.cache cache_mode_unless_fallback ≡ true =
            ground (arith, text_eq_iff fb.cache cache_mode_unless_fallback) in
          let g = fb.secondary.generate_tile pc t w in rw h (mark-NotCached g.0 g.1 g.2))

  -- The secondary provider is asked after an error of the primary, or without it, in a mode in which
  -- its tile is not to be cached, and it gives no tile.
  pub data LacksTile : Type 0 where
    after_error :
        is_primary f fb t ≡ true
        → (fb.primary.generate_tile pc t w).1 ≢ none
        → fb.cache ≢ cache_mode_always
        → (fb.secondary.generate_tile pc t (fb.primary.generate_tile pc t w).2).0 ≡ none
        → LacksTile
    outside :
        is_primary f fb t ≡ false
        → fb.cache ≡ cache_mode_unless_fallback
        → (fb.secondary.generate_tile pc t w).0 ≡ none
        → LacksTile
