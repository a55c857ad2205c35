-- ===== src/Http/Request.antt =====
-- htttp/http.h, htttp/http.cc: HttpRequest. The maps are the pairs in the order of their keys.
pub mod Headers
pub mod Flags
pub mod Query
pub mod Dump
use Prim.Native.Nat.{bit_and, bit_or}
use c.Prelude.{
  ℕ, ◌/◌, ◌%◌, ◌^◌, Bool, true, false, ◌&&◌, not, List, [], ◌∷◌, ◌++◌, Option, none, some, ◌==◌,
  if◌then◌else◌, length,
}
use c.Prelude.Text.{String, codes, same, c_str, lower, has_part, decimal}
use c.Dict.{find, assign, erase}
use c.Http.Method.{HttpMethod, get, http_method_to_string}
use c.Http.Order.{MapType, case_insensitive, folded}
use c.Http.Params.{parse_param}

pub record HttpRequest : Type 0 where
  pub method : HttpMethod
  pub version : ℕ
  pub path : String
  pub query : String
  pub fragment : String
  pub is_close : Bool
  pub is_websocket : Bool
  -- m_parserParamFlag, 8 bits
  pub parser_param_flag : ℕ
  pub body : String
  pub headers : MapType
  pub params : MapType
  pub cookies : MapType

-- HttpRequest::HttpRequest(version, close)
unfoldable pub new_request : ℕ → Bool → HttpRequest
new_request version close = record {
  method = get;
  version = version;
  path = codes "/";
  query = [];
  fragment = [];
  is_close = close;
  is_websocket = false;
  parser_param_flag = 0;
  body = [];
  headers = [];
  params = [];
  cookies = [];
}

-- it == m.end() ? def : it->second
abbrev pub value_or : Option String → String → String
value_or none def = def
value_or (some v) def = v

unfoldable pub get_header : String → String → HttpRequest → String
get_header key def r = value_or (find case_insensitive key r.headers) def

unfoldable pub set_header : String → String → HttpRequest → HttpRequest
set_header key val r = record r { headers = assign case_insensitive key val r.headers }

unfoldable pub set_param : String → String → HttpRequest → HttpRequest
set_param key val r = record r { params = assign case_insensitive key val r.params }

unfoldable pub set_cookie : String → String → HttpRequest → HttpRequest
set_cookie key val r = record r { cookies = assign case_insensitive key val r.cookies }

unfoldable pub del_header : String → HttpRequest → HttpRequest
del_header key r = record r { headers = erase case_insensitive key r.headers }

unfoldable pub del_param : String → HttpRequest → HttpRequest
del_param key r = record r { params = erase case_insensitive key r.params }

unfoldable pub del_cookie : String → HttpRequest → HttpRequest
del_cookie key r = record r { cookies = erase case_insensitive key r.cookies }

-- none is false; a value is true, and what *val is set to.
unfoldable pub has_header : String → HttpRequest → Option String
has_header key r = find case_insensitive key r.headers

-- m_parserParamFlag & bit, and m_parserParamFlag |= bit.
abbrev pub is_flagged : ℕ → HttpRequest → Bool
is_flagged bit r = not (bit_and r.parser_param_flag bit == 0)

abbrev pub flag_set : ℕ → HttpRequest → HttpRequest
flag_set bit r = record r { parser_param_flag = bit_or r.parser_param_flag bit % 2 ^ 8 }

unfoldable pub init_query_param : HttpRequest → HttpRequest
init_query_param r =
    if is_flagged 0x1 r
    then r
    else flag_set 0x1 (record r { params = parse_param r.query b'&' r.params })

unfoldable pub is_form : HttpRequest → Bool
is_form r =
    has_part (folded (get_header (codes "content-type") [] r))
      (codes "application/x-www-form-urlencoded")

unfoldable pub init_body_param : HttpRequest → HttpRequest
init_body_param r =
    if is_flagged 0x2 r
    then r
    else if is_form r
    then flag_set 0x2 (record r { params = parse_param r.body b'&' r.params })
    else flag_set 0x2 r

unfoldable pub init_cookies : HttpRequest → HttpRequest
init_cookies r =
    if is_flagged 0x4 r
    then r
    else let cookie = get_header (codes "cookie") [] r in
      if same cookie []
      then flag_set 0x4 r
      else flag_set 0x4 (record r { cookies = parse_param cookie b';' r.cookies })

unfoldable pub init_param : HttpRequest → HttpRequest
init_param r = init_cookies (init_body_param (init_query_param r))

unfoldable pub get_param : String → String → HttpRequest → String × HttpRequest
get_param key def r =
    let r' = init_body_param (init_query_param r) in
    (value_or (find case_insensitive key r'.params) def, r')

unfoldable pub has_param : String → HttpRequest → Option String × HttpRequest
has_param key r =
    let r' = init_body_param (init_query_param r) in (find case_insensitive key r'.params, r')

unfoldable pub get_cookie : String → String → HttpRequest → String × HttpRequest
get_cookie key def r =
    let r' = init_cookies r in (value_or (find case_insensitive key r'.cookies) def, r')

unfoldable pub has_cookie : String → HttpRequest → Option String × HttpRequest
has_cookie key r = let r' = init_cookies r in (find case_insensitive key r'.cookies, r')

-- HttpRequest::init: whether the connection is to be closed.
unfoldable pub init : HttpRequest → HttpRequest
init r =
    let conn = get_header (codes "connection") [] r in
    if same conn []
    then r
    else if same (folded conn) (codes "keep-alive")
    then record r { is_close = false }
    else record r { is_close = true }

abbrev pub crlf : String
crlf = codes "\r\n"

-- "HTTP/", and the two halves of the version.
unfoldable pub version_text : ℕ → String
version_text version =
    codes "HTTP/" ++ decimal (version / 2 ^ 4) ++ codes "." ++ decimal (bit_and version 0x0f)

-- (text.empty() ? "" : mark) << text
abbrev pub marked : String → String → String
marked mark [] = []
marked mark (c ∷ text) = mark ++ c ∷ text

-- The line that m_close decides on, and the lines of the headers, where the others of that name are left
-- out.
unfoldable pub connection_line : Bool → String
connection_line close =
    codes "connection: " ++ (if close then codes "close" else codes "keep-alive") ++ crlf

unfoldable pub dump_headers : Bool → MapType → String
dump_headers websocket [] = []
dump_headers websocket ((k, v) ∷ m) =
    let rest = dump_headers websocket m in
    if not websocket && same (folded k) (codes "connection")
    then rest
    else k ++ codes ": " ++ v ++ crlf ++ rest

unfoldable pub dump_body : String → String
dump_body [] = crlf
dump_body (c ∷ body) =
    codes "content-length: " ++ decimal (length (c ∷ body)) ++ crlf ++ crlf ++ c ∷ body

unfoldable pub dump : HttpRequest → String
dump r =
    http_method_to_string r.method
    ++ codes " "
    ++ r.path
    ++ marked (codes "?") r.query
    ++ marked (codes "#") r.fragment
    ++ codes " "
    ++ version_text r.version
    ++ crlf
    ++ (if r.is_websocket then [] else connection_line r.is_close)
    ++ dump_headers r.is_websocket r.headers
    ++ dump_body r.body
