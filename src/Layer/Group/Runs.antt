-- ===== src/Layer/Group/Runs.antt =====
-- pkg/entities/layer/layergroup.go: runs of a layer group. A run is a list of actions, the latest
-- first: a render with the context of its request and its times, or the end of one of the background
-- writes, which need not be the oldest.
use tilegroxy.Base.{
  zero, suc, ◌+◌, ◌++◌, none, some, inl, inr, get_elem?, take, drop, length-append, Option-cases, ℕ,
  ◌≤◌, ◌≡◌, List, [], ◌∷◌, arith, length,
}
use tilegroxy.Tile.Floats.{Floats}
use tilegroxy.Request.{Context}
use tilegroxy.Tile.Bounds.{TileRequest}
use tilegroxy.Layer.Group.{
  Cache, LayerGroup, max_concurrent_cache_writes, render_tile, render_group_no_cache,
}
use tilegroxy.Layer.Group.Rendering.{render_tile-pending, render_group_no_cache-pending}

pub data Action (F : Type 0) : Type 0 where
  rendered rendered_no_cache : Context F → (start later : ℕ) → TileRequest → Action F
  written : ℕ → Action F

shorter :
    {A : Type 0} (n : ℕ) (xs : List A) → length (take n xs) + length (drop (suc n) xs) ≤ length xs
shorter zero [] = omega arith
shorter zero (x ∷ xs) = omega arith
shorter (suc n) [] = omega arith
shorter (suc n) (x ∷ xs) = let h = shorter n xs in omega arith

module _ {W P : Type 0} (f : Floats) (cache : Cache W) where
  -- The background write at a place runs and gives its token back.
  pub end_write : ℕ → LayerGroup W P → W → LayerGroup W P × W
  end_write n lg w = elim (get_elem? lg.pending n) [
    | none ↦ (lg, w)
    | some (t, img) ↦ (
      record lg { pending = take n lg.pending ++ drop (suc n) lg.pending },
      (cache.save t img w).1,
    )
  ]

  pub apply_action : Action f.F → LayerGroup W P × W → LayerGroup W P × W
  unfolding end_write
  apply_action (rendered c start later t) (lg, w) =
      let (img, e, lg', w') = render_tile f c start later cache lg t w in (lg', w')
  apply_action (rendered_no_cache c start later t) (lg, w) =
      let (img, e, lg', w') = render_group_no_cache f c start later lg t w in (lg', w')
  apply_action (written n) (lg, w) = end_write n lg w

  pub run_actions : List (Action f.F) → LayerGroup W P × W → LayerGroup W P × W
  unfolding apply_action
  run_actions [] s = s
  run_actions (a ∷ acts) s = apply_action a (run_actions acts s)

  end_write-pending :
      (n : ℕ) (lg : LayerGroup W P) (w : W)
      → length lg.pending ≤ 64
      → length (end_write n lg w).0.pending ≤ 64
  unfolding end_write
  end_write-pending n lg w h = elim (Option-cases (get_elem? lg.pending n)) [
    | inl e ↦ rw (e, end_write) h
    | inr (p, e) ↦
        let k = shorter n lg.pending in
        rw (e, end_write)
          (rw (length-append (take n lg.pending) (drop (suc n) lg.pending)) omega arith)
  ]

  apply_action-pending :
      (a : Action f.F) (s : LayerGroup W P × W)
      → length s.0.pending ≤ 64
      → length (apply_action a s).0.pending ≤ 64
  unfolding apply_action
  apply_action-pending (rendered c start later t) (lg, w) h =
      render_tile-pending f c start later cache lg t w h
  apply_action-pending (rendered_no_cache c start later t) (lg, w) h =
      rw (render_group_no_cache-pending f c start later lg t w) h
  apply_action-pending (written n) (lg, w) h = end_write-pending n lg w h

  -- From a group with no write of the cache under way, whatever is rendered for whatever contexts, and
  -- whenever and in whatever order the writes end, no more than 64 of them are under way at once.
  pub run_actions-pending :
      (lg : LayerGroup W P)
      → lg.pending ≡ []
      → (acts : List (Action f.F)) (w : W)
      → length (run_actions acts (lg, w)).0.pending ≤ max_concurrent_cache_writes
  unfolding run_actions
  run_actions-pending lg e [] w = rw e (omega arith)
  run_actions-pending lg e (a ∷ acts) w =
      apply_action-pending a (run_actions acts (lg, w)) (run_actions-pending lg e acts w)
