-- ===== src/Connection.antt =====
-- htttp/http_connection.h, htttp/http_connection.cc: the client's requests and its pool of connections.
-- What the system answers, for host names, sockets and the peer, are arguments.
pub mod Requests
pub mod Sent
pub mod Pool
mod Tests
use c.Prelude.{
  ℕ, zero, suc, ◌+◌, ◌-◌, ◌%◌, ◌^◌, Bool, true, false, not, ◌||◌, ◌&&◌, List, [], ◌∷◌, ◌++◌, Option,
  none, some, ltb, leb, ◌==◌, if◌then◌else◌, length,
}
use c.Prelude.Int.{ℤ, pos, negsuc}
use c.Prelude.Text.{String, codes, same}
use c.Http.Method.{HttpMethod, get, post}
use c.Http.Order.{folded}
use c.Http.Request.{HttpRequest, new_request, set_header}
use c.Http.Response.{HttpResponse}

-- HttpResult::Error
pub data Error : Type 0 where
  ok : Error
  invalid_url : Error
  invalid_host : Error
  connect_fail : Error
  send_close_by_peer : Error
  send_socket_error : Error
  timeout : Error
  create_socket_error : Error
  pool_get_connection : Error
  pool_invalid_connection : Error

-- HttpResult, without the text of the error.
pub record HttpResult : Type 0 where
  pub result : Error
  pub response : Option HttpResponse

abbrev pub failed : Error → HttpResult
failed e = record { result = e; response = none }

-- What the two DoRequest have in common: the headers that the caller gives, in the order of their keys,
-- with has_host so far.
unfoldable pub fill_headers : List (String × String) → Bool → HttpRequest → Bool × HttpRequest
fill_headers [] has_host req = (has_host, req)
fill_headers ((k, v) ∷ headers) has_host req =
    if same (folded k) (codes "connection")
    then fill_headers headers has_host
        (if same (folded v) (codes "keep-alive") then record req { is_close = false } else req)
    else fill_headers headers
        (if not has_host && same (folded k) (codes "host") then not (same v []) else has_host)
        (set_header k v req)

-- The Host header, if the caller gave none.
abbrev pub with_host : String → Bool × HttpRequest → HttpRequest
with_host host (true, req) = req
with_host host (false, req) = set_header (codes "Host") host req

-- What the code uses of a Uri.
pub record Uri : Type 0 where
  pub path : String
  pub query : String
  pub fragment : String
  pub host : String

-- HttpConnection::DoRequest(method, uri, ..): the request that it sends.
unfoldable pub uri_request : HttpMethod → Uri → List (String × String) → String → HttpRequest
uri_request method uri headers body =
    let req = record (new_request 0x11 true) {
      path = uri.path;
      query = uri.query;
      fragment = uri.fragment;
      method = method;
    } in
    record (with_host uri.host (fill_headers headers false req)) { body = body }

-- What the system answers to DoRequest(req, uri, ..), in turn.
pub record Answers : Type 0 where
  -- createAddress gives an address
  pub has_address : Bool
  -- CreateTCP gives a socket, and connect succeeds
  pub has_socket : Bool
  pub connects : Bool
  -- what sendRequest returns, and recvResponse
  pub sent : ℤ
  pub received : Option HttpResponse

-- The end of both DoRequest: the request is sent, and the response received.
unfoldable pub exchange : ℤ → Option HttpResponse → HttpResult
exchange (pos zero) received = failed send_close_by_peer
exchange (negsuc n) received = failed send_socket_error
exchange (pos (suc n)) none = failed timeout
exchange (pos (suc n)) (some rsp) = record { result = ok; response = some rsp }

unfoldable pub do_request : Answers → HttpResult
do_request a =
    if not a.has_address
    then failed invalid_host
    else if not a.has_socket
    then failed create_socket_error
    else if not a.connects
    then failed connect_fail
    else exchange a.sent a.received

-- The calls that take a url: `uri` is what Uri::Create makes of it.
unfoldable pub do_request_url : Option Uri → Answers → HttpResult
do_request_url none a = failed invalid_url
do_request_url (some uri) a = do_request a

-- DoGet and DoPost with a Uri: the request.
unfoldable pub do_get : Uri → List (String × String) → String → HttpRequest
do_get uri headers body = uri_request get uri headers body

unfoldable pub do_post : Uri → List (String × String) → String → HttpRequest
do_post uri headers body = uri_request post uri headers body
