-- ===== src/Http/Headers.antt =====
-- core/src/http/headers.rs: the header fields in order of insertion.
use rust_tcp_server.Base.{
  List, [], ◌∷◌, ◌++◌, Option, none, some, if◌then◌else◌, Bytes, suc, length, length-append, ◌≡◌,
  refl, arith,
}
use rust_tcp_server.Text.Ascii.{eq_ignore_ascii_case}

pub record Headers : Type 0 where
  pub inner : List (Bytes × Bytes)

abbrev pub no_headers : Headers
no_headers = record { inner = [] }

-- `iter().find(…).map(…)`.
unfoldable pub find_header : Bytes → List (Bytes × Bytes) → Option Bytes
find_header name [] = none
find_header name ((k, v) ∷ rest) =
    if eq_ignore_ascii_case k name then some v else find_header name rest

unfoldable pub get_header : Headers → Bytes → Option Bytes
unfolding find_header
get_header h name = find_header name h.inner

unfoldable pub insert_header : Headers → Bytes → Bytes → Headers
insert_header h name value = record { inner = h.inner ++ (name, value) ∷ [] }

abbrev pub or_else {ℓ} : {A : Type ℓ} → Option A → Option A → Option A
or_else none d = d
or_else (some a) d = some a

find_header-append :
    (name : Bytes) (xs ys : List (Bytes × Bytes))
    → find_header name (xs ++ ys) ≡ or_else (find_header name xs) (find_header name ys)
unfolding find_header
find_header-append name [] ys = refl
find_header-append name ((k, v) ∷ xs) ys = ground (arith, find_header-append name xs ys)

-- A new field is found under its name and every spelling of it, unless an older one is.
pub get_header-insert_header :
    (h : Headers) (k v name : Bytes)
    → get_header (insert_header h k v) name
      ≡ or_else (get_header h name) (if eq_ignore_ascii_case k name then some v else none)
unfolding get_header insert_header find_header
get_header-insert_header h k v name = find_header-append name h.inner ((k, v) ∷ [])

pub length-insert_header :
    (h : Headers) (k v : Bytes) → length (insert_header h k v).inner ≡ suc (length h.inner)
unfolding insert_header
length-insert_header h k v = omega (arith, length-append h.inner ((k, v) ∷ []))
