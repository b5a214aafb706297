-- ===== src/Lib.antt =====
-- tilegroxy: the routing, rendering, caching, reloading and accounting of map tiles.
--
-- A request names a layer and a tile. The HTTP handler takes a hold on the current generation of the
-- server's entities, the layer group finds the layer by matching the name against its pattern, checks
-- what the request's context may see, and answers from the cache or from the layer's provider, which
-- may first authenticate. A background goroutine writes the tile to the cache, and an analytics event
-- goes to a batcher. A reload of the configuration makes a new generation and closes the old one once
-- no request holds it. The library has a module for each of these parts:
--
-- * Errors (pkg/errors.go, internal/server/error.go): the typed errors and the HTTP status of each.
-- * Config (pkg/utility.go): ReplaceConfigValues; Leaves compares it with the strings it replaces.
--   Config.Settings (pkg/config/config.go) has the configuration, its defaults and Validate.
-- * Request (pkg/request_context.go): what a request's context holds of the user's permissions;
--   Request.Values is NewRequestContext with all its keys, the headers of the client among them.
-- * Auth.Jwt (internal/authentications/jwt.go and jwks.go): JWT. Setup has its initialization, Keys the
--   choice of the key that verifies a token, and Confusion relates both; Scopes and Layers say which
--   layers a token grants, and Replay, Expiration and Refinement compare the cache of verified tokens
--   with verification without it. The libraries for tokens, key sets and geohashes are parameters.
--   Auth.StaticKey (internal/authentications/static_key.go) is the static key, and Auth.Custom
--   (custom.go beside it) the authentication by a script, with its cache; Sessions is about its runs.
-- * Tile (pkg/tile_request.go): Floats is float64 and package math, a parameter whose laws are those
--   that the theorems need; Bounds has TileRequest and Bounds (here Box) with their operations; Range
--   says which tiles exist, and Confine what a confined box is. Zoom (pkg/utility.go) is
--   ParseZoomString. Find is FindTiles; Filling and Listing prove what its loops write. The loops
--   that bring a longitude into range run on fuel; on a float64 too large they would not end.
-- * Layer.Pattern (pkg/entities/layer/layer.go): parsePattern and match, on texts as lists of bytes.
--   Parse, Fill and Find relate patterns, values and names. Layer.MetricName is sanitizeMetricName.
-- * Layer.Refs (pkg/entities/layer/layergroup.go): the checks of a configuration for duplicate IDs,
--   dangling references and cycles of references. Unique, Cycles, Visit and Acyclic prove them; visit
--   runs on fuel, of which one unit more than the graph has layers is enough for every graph.
-- * Layer.Provide (pkg/entities/layer/layer.go): a layer's provider context and its counters. Calls
--   and Counters say how often a render asks its provider and what it counts.
-- * Layer.Group (pkg/entities/layer/layergroup.go): FindLayer, checkPermission and RenderTile, with
--   the limit on background writes. Permission and Rendering prove what they promise, Runs what
--   holds after any run of renders and writes. A provider and a cache are functions that may change
--   a world, which is a parameter.
-- * Analytics.Batch (pkg/entities/analytics/batch.go): the batcher. Config has its defaults; Steps is
--   the relation of its steps, in any order that its goroutines may take; Conserve, Turns, Close and
--   Order are invariants of all reachable states. Analytics.Fields
--   (pkg/entities/analytics/event_fields.go) chooses the attributes of an event; Sources says where
--   they come from.
-- * Server.Generation (internal/server/generation.go, with the handler's reload and request paths):
--   the reference counts of generations. System is the relation of the steps of the requests,
--   reloads, timers and closers of a server; Invariant and Safety are about every reachable state.
-- * Server.Response (internal/server/error.go) and Server.Handler (internal/server/tile_handler.go):
--   ServeHTTP, request after request: authentication, the parsing of the path, rendering, the
--   response with its entity tag, the counters and the analytics event; and the recovery from panics
--   (internal/server/context_handler.go). Counts, Access, Requests and Etags are about any
--   authentication, Tokens about JWT. Server.Shutdown
--   (internal/server/shutdown.go) is the order of the phases of a shutdown. Server.Health
--   (internal/server/health.go) is the health endpoint with the results of the checks; Freshness
--   says what it answers after any run of them.
-- * Cache (internal/caches): Multi is the cache of several tiers, Keys the sanitizing of names, and
--   Names the keys that disk, memory, memcache, Redis and S3 store a tile under.
-- * Providers.Fallback (internal/providers/fallback.go): the provider that falls back on another.
--   Providers.Placeholders (internal/providers/utility.go): the templates of URLs; Structure and
--   Values say what the values of a request can change of a URL. Providers.Client (pkg/utility.go) is
--   GetTile. Providers.Ref (internal/providers/ref.go) forwards a render to another layer; its chains
--   run on fuel, of which Depth says how much is enough. Providers.Proxy (proxy.go and
--   url_template.go of internal/providers) has two providers on top of Placeholders and Client.
--   Providers.Blend (internal/providers/blend.go) asks several providers at once: their results
--   arrive in any order, which is an argument; Images has GenerateTile, Setup has Initialize, and
--   Gather, Auth, Places and Tiles prove that the order does not matter.
-- * Base has what these share: texts, lists, integers, decimal numbers and Boolean tests; Shuffle
--   is about lists in another order, such as that of arrival. Each
--   part's Tests module has concrete runs.
--
-- parsePattern runs on fuel too, as much as the pattern has bytes: every call cuts off at least one.
--
-- Not modelled: messages for people, logs, traces and metrics beyond the counters named; the
-- decoding of configuration files; the other providers, caches, authentications, secrets and
-- datastores, which are calls of third-party services. White space of header values, and the case of
-- letters, are those of ASCII. An image is a value: that two tiles may share one object is not
-- modelled. Panics are modelled where the source of Fallback raises one, where the providers of Blend
-- or a health check panic, and where a render does, from which the HTTP handler recovers.
pub mod Base
pub mod Errors
pub mod Request
pub mod Auth
pub mod Config
pub mod Tile
pub mod Layer
pub mod Analytics
pub mod Cache
pub mod Providers
pub mod Server
