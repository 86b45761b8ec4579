-- ===== src/Server/Site/Routes.antt =====
-- What the server answers to each request.
use rust_tcp_server.Base.{
  ◌≡◌, refl, ap, ◌∙◌, Bool, true, false, List, Option, none, some, if◌then◌else◌, arith, Bytes,
  codes,
}
use rust_tcp_server.App.{
  App, AppBuilder, builder, route, set_assets_dir, build, with_assets, load_assets, handle,
  handle_method, routed,
}
use rust_tcp_server.Assets.{AssetCache, Listing}
use rust_tcp_server.Http.Method.{Method, get, head, unsupported, same_method}
use rust_tcp_server.Http.Request.{Request}
use rust_tcp_server.Http.Response.{Response, text_response}
use rust_tcp_server.Http.Status.{not_found, method_not_allowed}
use rust_tcp_server.Router.Lookup.{lookup_route-insert_route}
use rust_tcp_server.Router.Segments.{segments, same_segments}
use rust_tcp_server.Router.{Router, new_router, insert_route, lookup_route}
use rust_tcp_server.Server.Site.{
  Handler, serve_index, serve_style, serve_asset, call_handler, build_app,
}

-- The answer by the segments of the path.
abbrev page : App Handler → List Bytes → Response
page app path =
    if same_segments (segments (codes "/static/style.css")) path
    then serve_asset app (codes "static/style.css")
    else if same_segments (segments (codes "/")) path
    then serve_asset app (codes "index.html")
    else text_response not_found (codes "404 Not Found")

abbrev pub answer_of : Method → App Handler → Bytes → Response
answer_of get app path = page app (segments path)
answer_of head app path = page app (segments path)
answer_of unsupported app path = text_response method_not_allowed (codes "405 Method Not Allowed")

abbrev site_router : Router Handler
site_router =
    insert_route (insert_route new_router get (codes "/") serve_index) get
      (codes "/static/style.css") serve_style

lookup_nothing : (path : Bytes) → lookup_route {H = Handler} new_router get path ≡ none
unfolding lookup_route new_router
lookup_nothing path = refl

lookup_site :
    (path : Bytes)
    → lookup_route site_router get path ≡ (
        if same_segments (segments (codes "/static/style.css")) (segments path)
        then some serve_style
        else if same_segments (segments (codes "/")) (segments path)
        then some serve_index
        else none)
unfolding same_method
lookup_site path =
    let first : Router Handler = insert_route new_router get (codes "/") serve_index in
    lookup_route-insert_route first get get (codes "/static/style.css") path serve_style
    ∙ ap
        (λ o.
          if same_segments (segments (codes "/static/style.css")) (segments path)
          then some serve_style
          else o)
        (lookup_route-insert_route new_router get get (codes "/") path serve_index
          ∙ ap
              (λ o.
                if same_segments (segments (codes "/")) (segments path)
                then some serve_index
                else o)
              (lookup_nothing path))

router_of :
    (b : AppBuilder Handler) (o : Option AssetCache) (app : App Handler)
    → with_assets b o ≡ some app
    → app.router ≡ b.router
router_of b none app h = cc
router_of b (some assets) app h = ground arith

router-build_app :
    (dir : Listing) (app : App Handler) → build_app dir ≡ some app → app.router ≡ site_router
unfolding build_app build route set_assets_dir builder
router-build_app dir app h =
    router_of (record { router = site_router; assets_dir = some dir }) (load_assets (some dir)) app
      h

routed-page :
    (app : App Handler) (req : Request)
    → app.router ≡ site_router
    → routed call_handler app req (lookup_route app.router get req.path)
      ≡ page app (segments req.path)
routed-page app req e =
    ap (λ r. routed call_handler app req (lookup_route r get req.path)) e
    ∙ ap (routed call_handler app req) (lookup_site req.path)
    ∙ by_path (same_segments (segments (codes "/static/style.css")) (segments req.path))
        (same_segments (segments (codes "/")) (segments req.path))
  where
    by_path :
        (a b : Bool)
        → routed call_handler app req
            (if a then some serve_style else if b then some serve_index else none)
          ≡ (if a
              then serve_asset app (codes "static/style.css")
              else if b
              then serve_asset app (codes "index.html")
              else text_response not_found (codes "404 Not Found"))
    by_path true b = refl
    by_path false true = refl
    by_path false false = refl

-- The app that the server builds answers GET and HEAD of the root, and of the style sheet, from the
-- asset cache, by the segments of the path; other paths with 404, and other methods with 405.
pub handle-answer_of :
    (dir : Listing) (app : App Handler) (req : Request)
    → build_app dir ≡ some app
    → handle call_handler app req ≡ answer_of req.method app req.path
unfolding handle
handle-answer_of dir app req h = go req.method
  where
    go : (m : Method) → handle_method call_handler app req m ≡ answer_of m app req.path
    go get = routed-page app req (router-build_app dir app h)
    go head = routed-page app req (router-build_app dir app h)
    go unsupported = refl
