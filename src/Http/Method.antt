-- ===== src/Http/Method.antt =====
-- core/src/http/method.rs.
use rust_tcp_server.Base.{Bool, true, false, Option, none, some, if◌then◌else◌, Bytes, codes}
use rust_tcp_server.Text.Ascii.{same}

pub data Method : Type 0 where
  get head unsupported : Method

unfoldable pub parse_method : Bytes → Method
unfolding same
parse_method token =
    if same token (codes "GET")
    then get
    else if same token (codes "HEAD")
    then head
    else unsupported

-- `==` on methods (`derive(PartialEq)`).
unfoldable pub same_method : Method → Method → Bool
same_method get get = true
same_method head head = true
same_method unsupported unsupported = true
same_method _ _ = false

pub data Version : Type 0 where
  http10 http11 : Version

unfoldable pub parse_version : Bytes → Option Version
unfolding same
parse_version token =
    if same token (codes "HTTP/1.0")
    then some http10
    else if same token (codes "HTTP/1.1")
    then some http11
    else none
