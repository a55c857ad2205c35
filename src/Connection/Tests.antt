-- ===== src/Connection/Tests.antt =====
-- A request with a Connection header, and a pool.
use c.Prelude.{
  ◌≡◌, refl, true, false, not, ◌||◌, ◌&&◌, List, [], ◌∷◌, ◌++◌, Option, none, some, if◌then◌else◌,
  length, leb, arith,
}
use c.Prelude.Int.{pos}
use c.Prelude.Text.{String, codes, same}
use c.Dict.{find}
use c.Http.Method.{get}
use c.Http.Order.{case_insensitive, folded}
use c.Connection.{Uri, uri_request}
use c.Connection.Pool.{
  HttpConnection, HttpConnectionPool, pool_request, take_usable, finish_get, get_connection,
  release_ptr, counted, less_by, Answers, pool_do_request,
}
use c.Connection.Requests.{last_value, any_host, any_keep_alive}
use c.Connection.Sent.{uri_request-pool_request}
use c.Connection.Pool.Count.{taken, count}
use c.Connection.Pool.Loans.{Loans, Counted, IsFresh, lend}
use c.Connection.Pool.History.{
  Reach, here, next, lends, no_loans, Reach-Counted, pool_do_request-Counted,
}
use c.Connection.Pool.Age.{Ageless, get_connection-Ageless}

abbrev uri : Uri
uri = record { path = codes "/"; query = []; fragment = []; host = codes "h" }

abbrev pool : HttpConnectionPool
pool = record {
  host = codes "h";
  vhost = [];
  port = 80;
  is_https = false;
  max_size = 1;
  max_alive_time = 5;
  max_request = 2;
  conns = [];
  total = 0;
}

abbrev headers : List (String × String)
headers = (codes "CONNECTION", codes "Keep-Alive") ∷ (codes "host", codes "i") ∷ []

abbrev last_host : String → Option String
last_host host =
    if not (any_host headers) && same (folded (codes "Host")) (folded (codes "Host"))
    then some host
    else last_value (codes "Host") headers

uri_request-pool_request_example :
    (find case_insensitive (codes "Host") (uri_request get uri headers []).headers
      ≡ last_host (codes "h"))
    × (find case_insensitive (codes "connection") (uri_request get uri headers []).headers ≡ none)
    × ((uri_request get uri headers []).is_close ≡ not (any_keep_alive headers))
    × (find case_insensitive (codes "Host") (pool_request pool get [] headers []).headers
        ≡ last_host (if same [] [] then codes "h" else []))
    × (find case_insensitive (codes "connection") (pool_request pool get [] headers []).headers
        ≡ none)
    × ((pool_request pool get [] headers []).is_close ≡ false)
uri_request-pool_request_example =
    uri_request-pool_request get uri pool headers [] [] (codes "Host")

seven-IsFresh : IsFresh (some 7) (no_loans pool)
unfolding count
seven-IsFresh = (refl, refl)

abbrev lent_seven : Loans
lent_seven = lend (λ a. true) 9 (some 7) (no_loans pool)

one_lent : Reach (no_loans pool) lent_seven
one_lent = next here (lends (λ a. true) 9 (some 7) seven-IsFresh)

Reach-Counted_example : Counted lent_seven
Reach-Counted_example = Reach-Counted pool lent_seven one_lent

abbrev answers : Answers
answers = record {
  connected = λ a. true;
  now = 9;
  opened = some 7;
  has_socket = true;
  sent = pos 1;
  received = none;
  connected_after = λ a. false;
  now_after = 10;
}

none-Counted : Counted (no_loans pool)
none-Counted = Reach-Counted pool (no_loans pool) here

pool_do_request-Counted_example :
    Counted (record { pool = (pool_do_request answers pool).1; lent = [] })
pool_do_request-Counted_example =
    pool_do_request-Counted answers (no_loans pool) seven-IsFresh none-Counted

abbrev old : HttpConnection
old = record { address = 3; create_time = 0; request = 0 }

abbrev one_conn : HttpConnectionPool
one_conn = record pool { conns = old ∷ []; total = 1 }

both-Ageless : Ageless (old ∷ old ∷ [])
both-Ageless = (refl, (refl, tt))

get_connection-Ageless_example :
    (get_connection (λ a. true) 9 none one_conn ≡ (
      let (invalid, first, rest) = take_usable (λ conn. true) (old ∷ []) in
      finish_get first none (record one_conn { conns = rest; total = less_by 1 (length invalid) })))
    × Ageless (
        taken (get_connection (λ a. true) 9 none one_conn).0
        ++ (get_connection (λ a. true) 9 none one_conn).1.conns)
    × (release_ptr (λ a. true) 9 old one_conn ≡ (
        if not true || leb 2 (counted old).request
        then record one_conn { total = less_by 1 1 }
        else record one_conn { conns = (old ∷ []) ++ counted old ∷ [] }))
    × Ageless (release_ptr (λ a. true) 9 old one_conn).conns
get_connection-Ageless_example =
    get_connection-Ageless (λ a. true) 9 none old one_conn both-Ageless (omega arith) (omega arith)
