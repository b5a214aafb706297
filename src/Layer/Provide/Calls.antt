-- ===== src/Layer/Provide/Calls.antt =====
-- pkg/entities/layer/layer.go: how often RenderTileNoCache calls its provider.
use tilegroxy.Base.{
  ℕ, suc, ◌+◌, ◌≤◌, Option, none, some, ◌≡◌, refl, arith, subst, sym, if-ind, ltb, not, ◌&&◌,
}
use tilegroxy.Errors.{Error, is_provider_auth}
use tilegroxy.Tile.Bounds.{TileRequest}
use tilegroxy.Layer.Provide.{
  Image, ProviderContext, Provider, Layer, Rendered, get_provider_context, force_reauth, retried,
  retry, after_generate, generate, render_tile_no_cache,
}

-- A provider whose world numbers its calls.
pub record CountsCalls {W P : Type 0} (gens pres : W → ℕ) (p : Provider W P) : Type 0 where
  pub pre_gens : (pc : ProviderContext P) (w : W) → gens (p.pre_auth pc w).2 ≡ gens w
  pub pre_pres : (pc : ProviderContext P) (w : W) → pres (p.pre_auth pc w).2 ≡ suc (pres w)
  pub gen_gens :
      (pc : ProviderContext P) (t : TileRequest) (w : W)
      → gens (p.generate_tile pc t w).2 ≡ suc (gens w)
  pub gen_pres :
      (pc : ProviderContext P) (t : TileRequest) (w : W) → pres (p.generate_tile pc t w).2 ≡ pres w

-- With a budget of calls of GenerateTile: from l and w to the end of a render.
Billed : {W P : Type 0} → (W → ℕ) → (W → ℕ) → ℕ → Layer W P → W → Layer W P → W → Type 0
Billed gens pres k l w l' w' =
    gens w' ≤ k + gens w × pres w' + l.tile_auth ≡ pres w + l'.tile_auth × l'.provider ≡ l.provider

module _ {W P : Type 0} (gens pres : W → ℕ) where
  Bill : ℕ → Layer W P → W → Rendered W P → Type 0
  Bill k l w r = Billed gens pres k l w r.2 r.3

  Billed-trans :
      (j k : ℕ) (l l' l'' : Layer W P) (w w' w'' : W)
      → Billed gens pres j l w l' w'
      → Billed gens pres k l' w' l'' w''
      → Billed gens pres (k + j) l w l'' w''
  unfolding Billed
  Billed-trans j k l l' l'' w w' w'' (a, b, c) (d, e, f) = (omega arith, omega arith, cc)

  get_provider_context-Billed :
      (now : ℕ) (l : Layer W P) (w : W)
      → CountsCalls gens pres l.provider
      → let r = get_provider_context now l w in Billed gens pres 0 l w r.2 r.3
  unfolding get_provider_context Billed
  get_provider_context-Billed now l w c =
      let a = c.pre_gens l.provider_context w in
      let b = c.pre_pres l.provider_context w in
      if-ind
        (λ (r : ProviderContext P × Option Error × Layer W P × W). Billed gens pres 0 l w r.2 r.3)
        (not l.provider_context.auth_bypass && ltb l.provider_context.auth_expiration now)
        (λ _. (omega arith, omega arith, refl)) (λ _. (omega arith, omega arith, refl))

  force_reauth-Billed :
      (now : ℕ) (l : Layer W P) (w : W)
      → CountsCalls gens pres l.provider
      → let r = force_reauth now l w in Billed gens pres 0 l w r.2 r.3
  unfolding force_reauth Billed
  force_reauth-Billed now l w c =
      get_provider_context-Billed now
        (record l { provider_context = record l.provider_context { auth_expiration = 0 } }) w c

  retried-Bill :
      (img : Option Image) (e : Option Error) (l : Layer W P) (w w' : W)
      → gens w' ≡ suc (gens w)
      → pres w' ≡ pres w
      → Bill 1 l w (retried img e l w')
  unfolding retried Bill Billed
  retried-Bill img none l w w' a b = (omega arith, omega arith, refl)
  retried-Bill img (some e) l w w' a b = (omega arith, omega arith, refl)

  retry-Bill :
      (t : TileRequest) (pc : ProviderContext P) (e : Option Error) (l : Layer W P) (w : W)
      → CountsCalls gens pres l.provider
      → Bill 1 l w (retry t pc e l w)
  unfolding retry Bill Billed
  retry-Bill t pc (some e) l w c = (omega arith, refl, refl)
  retry-Bill t pc none l w c =
      let g = l.provider.generate_tile pc t w in
      retried-Bill g.0 g.1 l w g.2 (c.gen_gens pc t w) (c.gen_pres pc t w)

  after_generate-Bill :
      (now : ℕ) (t : TileRequest) (img : Option Image) (e : Option Error) (l : Layer W P) (w : W)
      → CountsCalls gens pres l.provider
      → Bill 1 l w (after_generate now t img e l w)
  unfolding after_generate Bill Billed
  after_generate-Bill now t img none l w c = (omega arith, refl, refl)
  after_generate-Bill now t img (some e) l w c =
      let (pc, e', l', w') = force_reauth now l w in
      let (a, b, p) = force_reauth-Billed now l w c in
      let r = retry t pc e' l' w' in
      if-ind (Bill 1 l w) (is_provider_auth e)
        (λ _.
          Billed-trans 0 1 l l' r.2 w w' r.3 (a, b, p)
            (retry-Bill t pc e' l' w' (subst (CountsCalls gens pres) (sym p) c)))
        (λ _. (omega arith, refl, refl))

  generate-Bill :
      (now : ℕ) (t : TileRequest) (pc : ProviderContext P) (e : Option Error) (l : Layer W P)
      (w : W)
      → CountsCalls gens pres l.provider
      → Bill 2 l w (generate now t pc e l w)
  unfolding generate Bill Billed
  generate-Bill now t pc (some e) l w c = (omega arith, refl, refl)
  generate-Bill now t pc none l w c =
      let g = l.provider.generate_tile pc t w in
      let (a, b, p) = after_generate-Bill now t g.0 g.1 l g.2 c in
      let x = c.gen_gens pc t w in let y = c.gen_pres pc t w in (omega arith, omega arith, p)

  -- For a provider whose world numbers its calls, a render calls GenerateTile at most twice, and
  -- adds as many to the counter of authentications as it makes calls of PreAuth.
  pub render_tile_no_cache-calls :
      (start later : ℕ) (l : Layer W P) (t : TileRequest) (w : W)
      → CountsCalls gens pres l.provider
      → let r = render_tile_no_cache start later l t w in
        gens r.3 ≤ 2 + gens w × pres r.3 + l.tile_auth ≡ pres w + r.2.tile_auth
  unfolding render_tile_no_cache Bill Billed
  render_tile_no_cache-calls start later l t w c =
      let l0 = record l { tile_all = suc l.tile_all } in
      let (pc, e, l', w') = get_provider_context start l0 w in
      let (a, b, p) = get_provider_context-Billed start l0 w c in
      let (d, f, q) = generate-Bill later t pc e l' w' (subst (CountsCalls gens pres) (sym p) c) in
      (omega arith, omega arith)
