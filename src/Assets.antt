-- ===== src/Assets.antt =====
-- core/src/asset.rs: the asset cache. A directory is what `read_dir` and `read` give for it: its
-- entries in order, with `none` for what cannot be read. `Arc<[u8]>` is the bytes that it shares.
pub mod Loading
use rust_tcp_server.Base.{
  ◌||◌, List, [], ◌∷◌, ◌++◌, map, Option, none, some, ◌==◌, if◌then◌else◌, Bytes, codes,
}
use rust_tcp_server.Text.Ascii.{same, to_ascii_lowercase}
use rust_tcp_server.Text.Utf8.{is_utf8}

pub record Asset : Type 0 where
  pub bytes : Bytes
  pub content_type : Bytes

pub record AssetCache : Type 0 where
  pub map : List (Bytes × Asset)

abbrev pub empty_cache : AssetCache
empty_cache = record { map = [] }

-- `HashMap::insert` and `HashMap::get`.
unfoldable pub insert_asset : Bytes → Asset → List (Bytes × Asset) → List (Bytes × Asset)
insert_asset key a [] = (key, a) ∷ []
insert_asset key a ((k, b) ∷ rest) =
    if same k key then (key, a) ∷ rest else (k, b) ∷ insert_asset key a rest

unfoldable pub find_asset : Bytes → List (Bytes × Asset) → Option Asset
find_asset key [] = none
find_asset key ((k, a) ∷ rest) = if same k key then some a else find_asset key rest

unfoldable pub get_asset : AssetCache → Bytes → Option Asset
get_asset c name = find_asset name c.map

mutual
  pub data Entry : Type 0 where
    file : Bytes → Option Bytes → Entry
    dir : Bytes → Listing → Entry

  pub data Listing : Type 0 where
    unreadable : Listing
    end_of_dir : Listing
    next_entry : Entry → Listing → Listing

-- What stands before and behind the last dot.
unfoldable pub last_dot : Bytes → Option (Bytes × Bytes)
last_dot [] = none
last_dot (c ∷ r) = elim (last_dot r) [
  | none ↦ if c == b'.' then some ([], r) else none
  | some (stem, ext) ↦ some (c ∷ stem, ext)
]

-- `Path::extension`: a name that begins with its only dot has none.
abbrev extension_of : Option (Bytes × Bytes) → Option Bytes
extension_of none = none
extension_of (some ([], ext)) = none
extension_of (some (c ∷ stem, ext)) = some ext

abbrev text_of : Option Bytes → Option Bytes
text_of none = none
text_of (some s) = if is_utf8 s then some (map to_ascii_lowercase s) else none

abbrev type_of : Option Bytes → Bytes
type_of none = codes "application/octet-stream"
type_of (some ext) =
    if same ext (codes "html") || same ext (codes "htm")
    then codes "text/html; charset=utf-8"
    else if same ext (codes "css")
    then codes "text/css; charset=utf-8"
    else if same ext (codes "js")
    then codes "text/javascript; charset=utf-8"
    else if same ext (codes "json")
    then codes "application/json"
    else if same ext (codes "txt")
    then codes "text/plain; charset=utf-8"
    else if same ext (codes "png")
    then codes "image/png"
    else if same ext (codes "jpg") || same ext (codes "jpeg")
    then codes "image/jpeg"
    else if same ext (codes "svg")
    then codes "image/svg+xml"
    else if same ext (codes "ico")
    then codes "image/x-icon"
    else codes "application/octet-stream"

unfoldable pub content_type_for : Bytes → Bytes
unfolding last_dot to_ascii_lowercase same is_utf8
content_type_for name = type_of (text_of (extension_of (last_dot name)))

-- `replace('\\', "/")`.
unfoldable pub replace_backslash : Bytes → Bytes
replace_backslash [] = []
replace_backslash (c ∷ r) = (if c == b'\\' then b'/' else c) ∷ replace_backslash r

abbrev pub read_file :
    Bytes → Bytes → Option Bytes → List (Bytes × Asset) → Option (List (Bytes × Asset))
read_file prefix name none m = none
read_file prefix name (some bytes) m = some (
    insert_asset (replace_backslash (prefix ++ name))
      (record { bytes = bytes; content_type = content_type_for name }) m)

abbrev pub and_then :
    Option (List (Bytes × Asset))
    → (List (Bytes × Asset) → Option (List (Bytes × Asset)))
    → Option (List (Bytes × Asset))
and_then none k = none
and_then (some m) k = k m

-- `load_into`, with the path from the root to the directory as `prefix`; `none` is an I/O error.
unfoldable mutual
  pub load_into : Bytes → Listing → List (Bytes × Asset) → Option (List (Bytes × Asset))
  load_into prefix unreadable m = none
  load_into prefix end_of_dir m = some m
  load_into prefix (next_entry e rest) m =
      and_then (load_entry prefix e m) (λ loaded. load_into prefix rest loaded)

  pub load_entry : Bytes → Entry → List (Bytes × Asset) → Option (List (Bytes × Asset))
  load_entry prefix (file name content) m = read_file prefix name content m
  load_entry prefix (dir name inside) m = load_into ((prefix ++ name) ++ b'/' ∷ []) inside m

abbrev pub as_cache : Option (List (Bytes × Asset)) → Option AssetCache
as_cache none = none
as_cache (some m) = some (record { map = m })

unfoldable pub load_dir : Listing → Option AssetCache
load_dir root = as_cache (load_into [] root [])
