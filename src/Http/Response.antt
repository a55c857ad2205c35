-- ===== src/Http/Response.antt =====
-- htttp/http.h, htttp/http.cc: HttpResponse.

use c.Prelude.{ℕ, Bool, false, List, [], ◌∷◌, ◌++◌, ltb, if◌then◌else◌}
use c.Prelude.Text.{String, codes, decimal}
use c.Dict.{find, assign, erase}
use c.Http.Status.{http_status_to_string}
use c.Http.Order.{MapType, case_insensitive}
use c.Http.Request.{
  HttpRequest, value_or, crlf, version_text, marked, connection_line, dump_headers, dump_body,
}

pub record HttpResponse : Type 0 where
  pub status : ℕ
  pub version : ℕ
  pub is_close : Bool
  pub is_websocket : Bool
  pub body : String
  pub reason : String
  pub headers : MapType
  pub cookies : List String

-- HttpResponse::HttpResponse(version, close), and createResponse of a request.
unfoldable pub new_response : ℕ → Bool → HttpResponse
new_response version close = record {
  status = 200;
  version = version;
  is_close = close;
  is_websocket = false;
  body = [];
  reason = [];
  headers = [];
  cookies = [];
}

unfoldable pub create_response : HttpRequest → HttpResponse
create_response r = new_response r.version r.is_close

unfoldable pub get_header : String → String → HttpResponse → String
get_header key def r = value_or (find case_insensitive key r.headers) def

unfoldable pub set_header : String → String → HttpResponse → HttpResponse
set_header key val r = record r { headers = assign case_insensitive key val r.headers }

unfoldable pub del_header : String → HttpResponse → HttpResponse
del_header key r = record r { headers = erase case_insensitive key r.headers }

unfoldable pub set_redirect : String → HttpResponse → HttpResponse
set_redirect uri r = set_header (codes "Location") uri (record r { status = 302 })

-- setCookie; `time_text` is Time2Str with the format of the call, and an `expired` below 0 is as 0.
unfoldable pub set_cookie :
    (ℕ → String) → String → String → ℕ → String → String → Bool → HttpResponse → HttpResponse
set_cookie time_text key val expired path domain secure r = record r {
  cookies =
      r.cookies
      ++ (key
          ++ codes "="
          ++ val
          ++ (if ltb 0 expired then codes ";expires=" ++ time_text expired ++ codes " GMT" else [])
          ++ marked (codes ";domain=") domain
          ++ marked (codes ";path=") path
          ++ (if secure then codes ";secure" else []))
        ∷ [];
}

unfoldable pub dump_cookies : List String → String
dump_cookies [] = []
dump_cookies (i ∷ cookies) = codes "Set-Cookie: " ++ i ++ crlf ++ dump_cookies cookies

abbrev pub reason_or : String → String → String
reason_or [] text = text
reason_or (c ∷ reason) text = c ∷ reason

unfoldable pub dump : HttpResponse → String
dump r =
    version_text r.version
    ++ codes " "
    ++ decimal r.status
    ++ codes " "
    ++ reason_or r.reason (http_status_to_string r.status)
    ++ crlf
    ++ dump_headers r.is_websocket r.headers
    ++ dump_cookies r.cookies
    ++ (if r.is_websocket then [] else connection_line r.is_close)
    ++ dump_body r.body
