-- ===== src/Connection/Pool.antt =====
-- htttp/http_connection.h, htttp/http_connection.cc: HttpConnectionPool.
pub mod Count
pub mod Loans
pub mod History
pub mod Age
use c.Prelude.{
  ℕ, ◌+◌, ◌-◌, ◌%◌, ◌^◌, Bool, true, false, not, ◌||◌, ◌&&◌, List, [], ◌∷◌, ◌++◌, Option, none,
  some, ltb, leb, ◌==◌, if◌then◌else◌, length,
}
use c.Prelude.Int.{ℤ}
use c.Prelude.Text.{String, codes, same}
use c.Http.Method.{HttpMethod}
use c.Http.Request.{HttpRequest, new_request, marked, set_header}
use c.Http.Response.{HttpResponse}
use c.Connection.{
  HttpResult, Error, pool_get_connection, pool_invalid_connection, failed, fill_headers, with_host,
  exchange, Uri,
}

-- An HttpConnection: its address, and what the pool looks at. m_createTime is 0, and is never set.
pub record HttpConnection : Type 0 where
  pub address : ℕ
  pub create_time : ℕ
  pub request : ℕ

pub record HttpConnectionPool : Type 0 where
  pub host : String
  pub vhost : String
  pub port : ℕ
  pub is_https : Bool
  pub max_size : ℕ
  pub max_alive_time : ℕ
  pub max_request : ℕ
  pub conns : List HttpConnection
  -- m_total, the pattern of an int32_t
  pub total : ℕ

-- HttpConnectionPool::HttpConnectionPool
unfoldable pub new_pool : String → String → ℕ → Bool → ℕ → ℕ → ℕ → HttpConnectionPool
new_pool host vhost port is_https max_size max_alive_time max_request = record {
  host = host;
  vhost = vhost;
  port = if port == 0 then (if is_https then 443 else 80) else port;
  is_https = is_https;
  max_size = max_size;
  max_alive_time = max_alive_time;
  max_request = max_request;
  conns = [];
  total = 0;
}

-- m_createTime + m_maxAliveTime, of 64 bits.
abbrev pub deadline : HttpConnection → HttpConnectionPool → ℕ
deadline conn pool = (conn.create_time + pool.max_alive_time) % 2 ^ 64

-- The two tests of getConnection's loop; `connected` tells which connections are connected.
unfoldable pub is_usable : (ℕ → Bool) → ℕ → HttpConnectionPool → HttpConnection → Bool
is_usable connected now pool conn = connected conn.address && not (ltb now (deadline conn pool))

-- The loop: the connections that it drops, the one that it takes, and those that stay.
unfoldable pub take_usable :
    (HttpConnection → Bool)
    → List HttpConnection
    → List HttpConnection × Option HttpConnection × List HttpConnection
take_usable usable [] = ([], none, [])
take_usable usable (conn ∷ conns) =
    let (invalid, ptr, rest) = take_usable usable conns in
    if usable conn then ([], some conn, conns) else (conn ∷ invalid, ptr, rest)

-- m_total -= n
abbrev pub less_by : ℕ → ℕ → ℕ
less_by total n = (total + 2 ^ 32 - n % 2 ^ 32) % 2 ^ 32

-- The rest of getConnection, behind the lock: `opened` is the address of the HttpConnection that it makes, if it
-- finds the host, makes a socket and connects it.
unfoldable pub finish_get :
    Option HttpConnection
    → Option ℕ
    → HttpConnectionPool
    → Option HttpConnection × HttpConnectionPool
finish_get (some conn) opened pool = (some conn, pool)
finish_get none none pool = (none, pool)
finish_get none (some address) pool = (
  some (record { address = address; create_time = 0; request = 0 }),
  record pool { total = (pool.total + 1) % 2 ^ 32 },
)

unfoldable pub get_connection :
    (ℕ → Bool) → ℕ → Option ℕ → HttpConnectionPool → Option HttpConnection × HttpConnectionPool
get_connection connected now opened pool =
    let (invalid, ptr, rest) = take_usable (is_usable connected now pool) pool.conns in
    finish_get ptr opened
      (record pool { conns = rest; total = less_by pool.total (length invalid) })

-- ReleasePtr: the connection with its request counted, and whether it is deleted.
abbrev pub counted : HttpConnection → HttpConnection
counted ptr = record ptr { request = (ptr.request + 1) % 2 ^ 64 }

unfoldable pub is_dropped : (ℕ → Bool) → ℕ → HttpConnection → HttpConnectionPool → Bool
is_dropped connected now ptr pool =
    not (connected ptr.address) || leb now (deadline ptr pool) || leb pool.max_request ptr.request

unfoldable pub release_ptr :
    (ℕ → Bool) → ℕ → HttpConnection → HttpConnectionPool → HttpConnectionPool
release_ptr connected now ptr pool =
    if is_dropped connected now (counted ptr) pool
    then record pool { total = less_by pool.total 1 }
    else record pool { conns = pool.conns ++ counted ptr ∷ [] }

-- The path, query and fragment of a Uri as one text.
unfoldable pub uri_text : Uri → String
uri_text uri = uri.path ++ marked (codes "?") uri.query ++ marked (codes "#") uri.fragment

-- doRequest(method, url, ..): the request that it sends.
unfoldable pub pool_request :
    HttpConnectionPool → HttpMethod → String → List (String × String) → String → HttpRequest
pool_request pool method url headers body =
    let req = record (new_request 0x11 true) { path = url; method = method; is_close = false } in
    record (with_host (if same pool.vhost [] then pool.host else pool.vhost)
      (fill_headers headers false req)) { body = body }

-- What the system answers to doRequest(req, ..): which connections are connected at the start and at the end,
-- the two times, the connection that is made, whether the connection has a socket, and the exchange.
pub record Answers : Type 0 where
  pub connected : ℕ → Bool
  pub now : ℕ
  pub opened : Option ℕ
  pub has_socket : Bool
  pub sent : ℤ
  pub received : Option HttpResponse
  pub connected_after : ℕ → Bool
  pub now_after : ℕ

-- doRequest(req, ..) with what getConnection returned. The connection is released at every return but the
-- first, as conn goes out of scope.
abbrev pub finish_request :
    Answers → Option HttpConnection → HttpConnectionPool → HttpResult × HttpConnectionPool
finish_request a none pool = (failed pool_get_connection, pool)
finish_request a (some ptr) pool = (
  if a.has_socket then exchange a.sent a.received else failed pool_invalid_connection,
  release_ptr a.connected_after a.now_after ptr pool,
)

unfoldable pub pool_do_request : Answers → HttpConnectionPool → HttpResult × HttpConnectionPool
pool_do_request a pool =
    let (conn, pool') = get_connection a.connected a.now a.opened pool in
    finish_request a conn pool'
