-- ===== src/Assets/Loading.antt =====
-- What the cache holds after the walk over a directory.
use rust_tcp_server.Base.{
  ◌≡◌, refl, sym, ap, ◌∙◌, Bool, true, false, ◌&&◌, List, [], ◌∷◌, ◌++◌, Option, none, some,
  if◌then◌else◌, arith, Bytes,
}
use rust_tcp_server.Assets.{
  Asset, AssetCache, insert_asset, find_asset, get_asset, Entry, file, dir, Listing, unreadable,
  end_of_dir, next_entry, content_type_for, replace_backslash, read_file, and_then, load_into,
  load_entry, as_cache, load_dir,
}
use rust_tcp_server.Http.Headers.{or_else}
use rust_tcp_server.Text.Ascii.{same, same_iff}

abbrev is_some : Option Bytes → Bool
is_some none = false
is_some (some b) = true

abbrev cached : Bytes → Bytes → Option Bytes → List (Bytes × Asset)
cached prefix name none = []
cached prefix name (some bytes) =
    (
      replace_backslash (prefix ++ name),
      record { bytes = bytes; content_type = content_type_for name },
    )
    ∷ []

-- That every directory and every file of a listing can be read; and its files in the order of the
-- walk, each under its path from the root.
unfoldable mutual
  pub readable : Listing → Bool
  readable unreadable = false
  readable end_of_dir = true
  readable (next_entry e rest) = readable_entry e && readable rest

  pub readable_entry : Entry → Bool
  readable_entry (file name content) = is_some content
  readable_entry (dir name inside) = readable inside

unfoldable mutual
  pub files_in : Bytes → Listing → List (Bytes × Asset)
  files_in prefix unreadable = []
  files_in prefix end_of_dir = []
  files_in prefix (next_entry e rest) = files_of prefix e ++ files_in prefix rest

  pub files_of : Bytes → Entry → List (Bytes × Asset)
  files_of prefix (file name content) = cached prefix name content
  files_of prefix (dir name inside) = files_in ((prefix ++ name) ++ b'/' ∷ []) inside

abbrev insert_all : List (Bytes × Asset) → List (Bytes × Asset) → List (Bytes × Asset)
insert_all [] m = m
insert_all ((k, a) ∷ xs) m = insert_all xs (insert_asset k a m)

insert_all-append :
    (xs ys m : List (Bytes × Asset)) → insert_all (xs ++ ys) m ≡ insert_all ys (insert_all xs m)
insert_all-append [] ys m = refl
insert_all-append ((k, a) ∷ xs) ys m = insert_all-append xs ys (insert_asset k a m)

abbrev loaded : Bool → List (Bytes × Asset) → List (Bytes × Asset) → Option (List (Bytes × Asset))
loaded ok xs m = if ok then some (insert_all xs m) else none

and_then-loaded :
    (a b : Bool) (xs ys m : List (Bytes × Asset))
    (k : List (Bytes × Asset) → Option (List (Bytes × Asset)))
    → ((n : List (Bytes × Asset)) → k n ≡ loaded b ys n)
    → and_then (loaded a xs m) k ≡ loaded (a && b) (xs ++ ys) m
and_then-loaded false b xs ys m k h = refl
and_then-loaded true false xs ys m k h = h (insert_all xs m)
and_then-loaded true true xs ys m k h =
    h (insert_all xs m) ∙ ap some (sym (insert_all-append xs ys m))

read_file-loaded :
    (prefix name : Bytes) (content : Option Bytes) (m : List (Bytes × Asset))
    → read_file prefix name content m ≡ loaded (is_some content) (cached prefix name content) m
read_file-loaded prefix name none m = refl
read_file-loaded prefix name (some b) m = refl

mutual
  unfolding load_into load_entry readable readable_entry files_in files_of

  load_into-loaded :
      (prefix : Bytes) (l : Listing) (m : List (Bytes × Asset))
      → load_into prefix l m ≡ loaded (readable l) (files_in prefix l) m
  load_into-loaded prefix unreadable m = refl
  load_into-loaded prefix end_of_dir m = refl
  load_into-loaded prefix (next_entry e rest) m =
      ap (λ o. and_then o (λ n. load_into prefix rest n)) (load_entry-loaded prefix e m)
      ∙ and_then-loaded (readable_entry e) (readable rest) (files_of prefix e)
          (files_in prefix rest) m (λ n. load_into prefix rest n)
          (λ n. load_into-loaded prefix rest n)

  load_entry-loaded :
      (prefix : Bytes) (e : Entry) (m : List (Bytes × Asset))
      → load_entry prefix e m ≡ loaded (readable_entry e) (files_of prefix e) m
  load_entry-loaded prefix (file name content) m = read_file-loaded prefix name content m
  load_entry-loaded prefix (dir name inside) m =
      load_into-loaded ((prefix ++ name) ++ b'/' ∷ []) inside m

-- The last file under a name.
abbrev pub last_file : Bytes → List (Bytes × Asset) → Option Asset
last_file key [] = none
last_file key ((k, a) ∷ rest) = or_else (last_file key rest) (if same k key then some a else none)

find_asset-insert_asset :
    (key k : Bytes) (a : Asset) (m : List (Bytes × Asset))
    → find_asset key (insert_asset k a m) ≡ (if same k key then some a else find_asset key m)
unfolding find_asset insert_asset
find_asset-insert_asset key k a [] = refl
find_asset-insert_asset key k a ((j, b) ∷ m) =
    ground (arith, find_asset-insert_asset key k a m, same_iff j k, same_iff j key, same_iff k key)

or_else_assoc :
    (o : Option Asset) (hit : Bool) (a : Asset) (d : Option Asset)
    → or_else o (if hit then some a else d) ≡ or_else (or_else o (if hit then some a else none)) d
or_else_assoc none true a d = refl
or_else_assoc none false a d = refl
or_else_assoc (some b) hit a d = refl

find_asset-insert_all :
    (key : Bytes) (xs m : List (Bytes × Asset))
    → find_asset key (insert_all xs m) ≡ or_else (last_file key xs) (find_asset key m)
find_asset-insert_all key [] m = refl
find_asset-insert_all key ((k, a) ∷ xs) m =
    find_asset-insert_all key xs (insert_asset k a m)
    ∙ ap (or_else (last_file key xs)) (find_asset-insert_asset key k a m)
    ∙ or_else_assoc (last_file key xs) (same k key) a (find_asset key m)

abbrev pub found_in : Option AssetCache → Bytes → Option (Option Asset)
found_in none name = none
found_in (some c) name = some (get_asset c name)

or_else-none : (o : Option Asset) → or_else o none ≡ o
or_else-none none = refl
or_else-none (some a) = refl

-- If all of a directory can be read, the cache finds under each name the last file that the walk meets
-- at that path from the root, and nothing under another name; else the load is an error.
pub load_dir-last_file :
    (root : Listing) (name : Bytes)
    → found_in (load_dir root) name
      ≡ (if readable root then some (last_file name (files_in [] root)) else none)
unfolding load_dir get_asset find_asset
load_dir-last_file root name =
    ap (λ o. found_in (as_cache o) name) (load_into-loaded [] root []) ∙ by_case (readable root)
  where
    by_case :
        (ok : Bool)
        → found_in (as_cache (loaded ok (files_in [] root) [])) name
          ≡ (if ok then some (last_file name (files_in [] root)) else none)
    by_case false = refl
    by_case true = ap some (find_asset-insert_all name (files_in [] root) [] ∙ or_else-none _)
