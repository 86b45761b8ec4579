-- ===== src/Tests/Site.antt =====
-- The theorems on the routes and on the command line at concrete inputs.
use rust_tcp_server.Base.{if◌then◌else◌, ◌≡◌, refl, arith, true, [], ◌∷◌, none, some, codes}
use rust_tcp_server.App.{App, build, builder, route, set_assets_dir, handle, new_metrics}
use rust_tcp_server.Assets.Loading.{found_in, readable, files_in, last_file, load_dir-last_file}
use rust_tcp_server.Assets.{
  dir, Listing, load_dir, load_into, load_entry, insert_asset, replace_backslash, content_type_for,
  end_of_dir, next_entry, file,
}
use rust_tcp_server.Http.Method.{get, http11}
use rust_tcp_server.Http.Request.{Request}
use rust_tcp_server.Http.Headers.{no_headers}
use rust_tcp_server.Router.{new_router, insert_route}
use rust_tcp_server.Server.CommandLine.RoundTrip.{args_of, parse_args-args_of}
use rust_tcp_server.Server.CommandLine.{Cli, default_cli, run_with, parse_args}
use rust_tcp_server.Server.Site.Routes.{answer_of, handle-answer_of}
use rust_tcp_server.Server.Site.{Handler, serve_index, serve_style, call_handler, build_app}

abbrev settings : Cli
settings = record {
  model = codes "poll";
  port = 9000;
  assets_dir = codes "www";
  verbose = true;
  workers = none;
  max_connections = some 4096;
}

parse_args-args_of_example : parse_args default_cli (args_of settings) ≡ run_with settings
parse_args-args_of_example = parse_args-args_of settings (omega arith) tt (omega arith)

abbrev www : Listing
www = next_entry (file (codes "index.html") (some (codes "<p>hi</p>"))) end_of_dir

abbrev page_request : Request
page_request = record {
  method = get;
  path = codes "//";
  version = http11;
  headers = no_headers;
  body = [];
}

abbrev site : App Handler
site = record {
  router =
      insert_route (insert_route new_router get (codes "/") serve_index) get
        (codes "/static/style.css") serve_style;
  assets = record {
    map =
        (
          codes "index.html",
          record {
            bytes = codes "<p>hi</p>";
            content_type = content_type_for (codes "index.html");
          },
        )
        ∷ [];
  };
  metrics = new_metrics;
}

www_builds : build_app www ≡ some site
unfolding build_app build builder route set_assets_dir load_dir load_into load_entry insert_asset
    replace_backslash
www_builds = refl

handle-answer_of_example :
    handle call_handler site page_request ≡ answer_of page_request.method site page_request.path
handle-answer_of_example = handle-answer_of www site page_request www_builds

abbrev tree : Listing
tree =
    next_entry
      (dir (codes "static")
        (next_entry (file (codes "style.css") (some (codes "p {}"))) end_of_dir))
      www

load_dir-last_file_example : found_in (load_dir tree) (codes "static/style.css") ≡ (
    if readable tree then some (last_file (codes "static/style.css") (files_in [] tree)) else none)
load_dir-last_file_example = load_dir-last_file tree (codes "static/style.css")
