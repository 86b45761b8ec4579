-- ===== src/App.antt =====
-- core/src/app.rs and core/src/metrics.rs. A handler is a code pointer `H`, and `call` runs it.
use rust_tcp_server.Base.{ℕ, ◌+◌, ◌%◌, ◌^◌, Option, none, some, Bytes, codes}
use rust_tcp_server.Assets.{AssetCache, empty_cache, Listing, load_dir}
use rust_tcp_server.Http.Method.{Method, get, head, unsupported}
use rust_tcp_server.Http.Request.{Request}
use rust_tcp_server.Http.Response.{Response, text_response}
use rust_tcp_server.Http.Status.{not_found, method_not_allowed}
use rust_tcp_server.Router.{Router, new_router, insert_route, lookup_route}

-- Counters of 64 bits; `fetch_add` wraps around.
pub record Metrics : Type 0 where
  pub connections : ℕ
  pub requests : ℕ
  pub errors : ℕ

unfoldable pub new_metrics : Metrics
new_metrics = record { connections = 0; requests = 0; errors = 0 }

unfoldable pub inc_connections : Metrics → Metrics
inc_connections m = record m { connections = (m.connections + 1) % 2 ^ 64 }

unfoldable pub inc_requests : Metrics → Metrics
inc_requests m = record m { requests = (m.requests + 1) % 2 ^ 64 }

unfoldable pub inc_errors : Metrics → Metrics
inc_errors m = record m { errors = (m.errors + 1) % 2 ^ 64 }

pub record App (H : Type 0) : Type 0 where
  pub router : Router H
  pub assets : AssetCache
  pub metrics : Metrics

abbrev pub routed :
    {H : Type 0} → (H → Request → App H → Response) → App H → Request → Option H → Response
routed call app req (some handler) = call handler req app
routed call app req none = text_response not_found (codes "404 Not Found")

abbrev pub handle_method :
    {H : Type 0} → (H → Request → App H → Response) → App H → Request → Method → Response
handle_method call app req get = routed call app req (lookup_route app.router get req.path)
handle_method call app req head = routed call app req (lookup_route app.router get req.path)
handle_method call app req unsupported =
    text_response method_not_allowed (codes "405 Method Not Allowed")

-- Unknown methods are refused, HEAD shares the routes of GET, and a path with no route is not found.
unfoldable pub handle : {H : Type 0} → (H → Request → App H → Response) → App H → Request → Response
handle call app req = handle_method call app req req.method

pub record AppBuilder (H : Type 0) : Type 0 where
  pub router : Router H
  pub assets_dir : Option Listing

unfoldable pub builder : {H : Type 0} → AppBuilder H
builder = record { router = new_router; assets_dir = none }

unfoldable pub route : {H : Type 0} → AppBuilder H → Method → Bytes → H → AppBuilder H
route b method path handler = record b { router = insert_route b.router method path handler }

unfoldable pub set_assets_dir : {H : Type 0} → AppBuilder H → Listing → AppBuilder H
set_assets_dir b dir = record b { assets_dir = some dir }

abbrev pub load_assets : Option Listing → Option AssetCache
load_assets none = some empty_cache
load_assets (some dir) = load_dir dir

abbrev pub with_assets : {H : Type 0} → AppBuilder H → Option AssetCache → Option (App H)
with_assets b none = none
with_assets b (some assets) =
    some (record { router = b.router; assets = assets; metrics = new_metrics })

-- `none` is the I/O error of the load.
unfoldable pub build : {H : Type 0} → AppBuilder H → Option (App H)
build b = with_assets b (load_assets b.assets_dir)
