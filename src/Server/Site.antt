-- ===== src/Server/Site.antt =====
-- server/src/main.rs: the routes of the server and their handlers.
pub mod Routes
use rust_tcp_server.Base.{[], ◌∷◌, Option, none, some, Bytes, codes}
use rust_tcp_server.App.{App, builder, route, set_assets_dir, build}
use rust_tcp_server.Assets.{Asset, Listing, get_asset}
use rust_tcp_server.Http.Method.{get}
use rust_tcp_server.Http.Request.{Request}
use rust_tcp_server.Http.Response.{Response, ok_response, text_response}
use rust_tcp_server.Http.Status.{internal_error}

-- The two functions that are registered.
pub data Handler : Type 0 where
  serve_index serve_style : Handler

abbrev asset_response : Option Asset → Response
asset_response (some asset) = ok_response asset.content_type asset.bytes
asset_response none = text_response internal_error (codes "asset not found in cache")

unfoldable pub serve_asset : {H : Type 0} → App H → Bytes → Response
serve_asset app name = asset_response (get_asset app.assets name)

abbrev pub call_handler : Handler → Request → App Handler → Response
call_handler serve_index req app = serve_asset app (codes "index.html")
call_handler serve_style req app = serve_asset app (codes "static/style.css")

-- The directory of the assets is what the file system has under its path.
unfoldable pub build_app : Listing → Option (App Handler)
build_app dir = build (
    route (route (set_assets_dir builder dir) get (codes "/") serve_index) get
      (codes "/static/style.css") serve_style)
