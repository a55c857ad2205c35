-- ===== src/Http/Tests.antt =====
-- A request, its headers, its query and its text.
use c.Prelude.{
  ℕ, ◌≡◌, ◌≢◌, refl, ◌<◌, true, false, not, List, [], ◌∷◌, some, length, All, arith, if◌then◌else◌,
  suc,
}
use c.Prelude.Text.{
  String, codes, same, c_str, lower, to_lower, has_part, starts_with, decimal, decimal_loop, before,
}
use c.Util.{url_encode}
use c.Dict.{find}
use c.Dict.Laws.{IsSorted}
use c.Http.Method.{get, invalid_method, http_method_to_string, method_strings}
use c.Http.Order.{MapType, case_insensitive, case_insensitive_less, folded}
use c.Http.Params.{parse_loop, parse_param}
use c.Http.Params.Ends.{parse_param-ends}
use c.Http.Params.Rounds.{Lacks}
use c.Http.Params.Pairs.{print, insert_all, parse_param-print}
use c.Http.Request.{
  HttpRequest, value_or, get_header, set_header, del_header, is_form, get_param, init, dump,
  dump_headers, dump_body, connection_line, version_text,
}
use c.Http.Request.Headers.{get_header_lem}
use c.Http.Request.Dump.{dump-set_header}
use c.Http.Request.Query.{first_value, or_else, get_param-query}

get_valid : get ≢ invalid_method
get_valid e = absurd (cc e)

abbrev host : MapType
host = (codes "Host", codes "h") ∷ []

host-IsSorted : IsSorted case_insensitive host
unfolding IsSorted
host-IsSorted = (tt, tt)

abbrev with_host : HttpRequest
with_host = record {
  method = get;
  version = 0x11;
  path = codes "/";
  query =
      print b'&' (codes " a", url_encode (codes "x&y") true)
        ((codes "b", url_encode (codes "2") true) ∷ []);
  fragment = [];
  is_close = true;
  is_websocket = false;
  parser_param_flag = 0;
  body = [];
  headers = host;
  params = [];
  cookies = [];
}

get_header_lem_example :
    (get_header (codes "HOST") [] (set_header (codes "host") (codes "i") with_host) ≡ (
      if same (folded (codes "host")) (folded (codes "HOST"))
      then codes "i"
      else get_header (codes "HOST") [] with_host))
    × IsSorted case_insensitive (set_header (codes "host") (codes "i") with_host).headers
    × (get_header (codes "HOST") [] (del_header (codes "host") with_host) ≡ (
        if same (folded (codes "host")) (folded (codes "HOST"))
        then []
        else get_header (codes "HOST") [] with_host))
    × IsSorted case_insensitive (del_header (codes "host") with_host).headers
get_header_lem_example =
    get_header_lem (codes "host") (codes "HOST") (codes "i") [] with_host host-IsSorted

is_connection : same (folded (codes "Connection")) (codes "connection") ≡ true
unfolding same folded lower c_str to_lower
is_connection = refl

dump-set_header_example :
    (dump (set_header (codes "Connection") (codes "Keep-Alive") with_host) ≡ dump with_host)
    × ((init (set_header (codes "Connection") (codes "Keep-Alive") with_host)).is_close ≡ (
        if same (codes "Keep-Alive") []
        then true
        else not (same (folded (codes "Keep-Alive")) (codes "keep-alive"))))
dump-set_header_example =
    dump-set_header (codes "Connection") (codes "Keep-Alive") with_host refl is_connection

dump-with_host :
    dump (record with_host { query = [] })
    ≡ codes "GET / HTTP/1.1\r\nconnection: close\r\nHost: h\r\n\r\n"
unfolding dump dump_headers dump_body connection_line version_text decimal decimal_loop
    http_method_to_string method_strings same folded lower c_str to_lower
dump-with_host = refl

none-IsSorted : IsSorted {V = String} case_insensitive []
unfolding IsSorted
none-IsSorted = tt

parse_param-ends_example :
    (parse_loop (suc (length (codes "a&b=1"))) (codes "a&b=1") b'&' 0 []
      ≡ some (parse_param (codes "a&b=1") b'&' []))
    × IsSorted case_insensitive (parse_param (codes "a&b=1") b'&' [])
parse_param-ends_example = parse_param-ends (codes "a&b=1") b'&' [] none-IsSorted

abbrev equals : ℕ
equals = b'='

equals_ne_flag : equals ≢ b';'
equals_ne_flag e = absurd (omega (arith, e))

cookie_pair : Lacks b'=' (codes "k") × Lacks b';' (codes "v")
cookie_pair = (((λ e. absurd (omega (arith, e))), tt), ((λ e. absurd (omega (arith, e))), tt))

parse_param-print_example :
    parse_param (print b';' (codes "k", codes "v") ((codes "k", codes "v") ∷ [])) b';' []
    ≡ insert_all [] ((codes "k", codes "v") ∷ (codes "k", codes "v") ∷ [])
parse_param-print_example =
    parse_param-print b';' equals_ne_flag (codes "k", codes "v") ((codes "k", codes "v") ∷ []) []
      cookie_pair (cookie_pair, tt)

abbrev two_pairs : List (String × String)
two_pairs = (codes " a", codes "x&y") ∷ (codes "b", codes "2") ∷ []

two_clean : All (λ p. Lacks b'=' p.0 × All (λ x. x < 256) p.1) two_pairs
two_clean = (
  (
    ((λ e. absurd (omega (arith, e))), ((λ e. absurd (omega (arith, e))), tt)),
    (omega arith, (omega arith, (omega arith, tt))),
  ),
  ((((λ e. absurd (omega (arith, e))), tt), (omega arith, tt)), tt),
)

not_form : is_form with_host ≡ false
unfolding is_form get_header find case_insensitive_less before folded lower c_str to_lower has_part
    starts_with
not_form = refl

get_param-query_example :
    ((get_param (codes "A") [] with_host).0
      ≡ value_or
          (or_else (find case_insensitive (codes "A") []) (first_value (codes "A") two_pairs))
          [])
    × (get_param (codes "A") [] (get_param (codes "A") [] with_host).1
        ≡ get_param (codes "A") [] with_host)
get_param-query_example =
    get_param-query (codes "A") [] (codes " a", codes "x&y") ((codes "b", codes "2") ∷ []) with_host
      two_clean refl refl not_form (omega arith)
