-- ===== src/Http/Status.antt =====
-- core/src/http/response.rs, `StatusCode`, with the status of each parse error
-- (`ParseError::status` of core/src/http/request.rs).
use rust_tcp_server.Base.{ℕ, ◌==◌, if◌then◌else◌, Bytes, codes}

pub record StatusCode : Type 0 where
  pub code : ℕ

abbrev pub ok_status : StatusCode
ok_status = record { code = 200 }

abbrev pub bad_request : StatusCode
bad_request = record { code = 400 }

abbrev pub not_found : StatusCode
not_found = record { code = 404 }

abbrev pub method_not_allowed : StatusCode
method_not_allowed = record { code = 405 }

abbrev pub uri_too_long : StatusCode
uri_too_long = record { code = 414 }

abbrev pub payload_too_large : StatusCode
payload_too_large = record { code = 413 }

abbrev pub header_fields_too_large_status : StatusCode
header_fields_too_large_status = record { code = 431 }

abbrev pub internal_error : StatusCode
internal_error = record { code = 500 }

abbrev pub version_not_supported : StatusCode
version_not_supported = record { code = 505 }

unfoldable pub reason : StatusCode → Bytes
reason s =
    if s.code == 200
    then codes "OK"
    else if s.code == 400
    then codes "Bad Request"
    else if s.code == 404
    then codes "Not Found"
    else if s.code == 405
    then codes "Method Not Allowed"
    else if s.code == 413
    then codes "Payload Too Large"
    else if s.code == 414
    then codes "URI Too Long"
    else if s.code == 431
    then codes "Request Header Fields Too Large"
    else if s.code == 500
    then codes "Internal Server Error"
    else if s.code == 505
    then codes "HTTP Version Not Supported"
    else codes "Unknown"

pub data ParseError : Type 0 where
  malformed_request_line unsupported_version malformed_header : ParseError
  request_line_too_long headers_too_large too_many_headers body_too_large : ParseError

unfoldable pub error_status : ParseError → StatusCode
error_status malformed_request_line = bad_request
error_status malformed_header = bad_request
error_status request_line_too_long = uri_too_long
error_status headers_too_large = header_fields_too_large_status
error_status too_many_headers = header_fields_too_large_status
error_status body_too_large = payload_too_large
error_status unsupported_version = version_not_supported
