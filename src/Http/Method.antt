-- ===== src/Http/Method.antt =====
-- htttp/http.h, htttp/http.cc: HttpMethod, and the methods' names. A text is what is before the first
-- NUL of the C string.
pub mod RoundTrip
use c.Prelude.{ℕ, zero, suc, Bool, true, false, ◌&&◌, List, [], ◌∷◌, ◌==◌, if◌then◌else◌, get_or}
use c.Prelude.Text.{String, codes, same, starts_with}

pub data HttpMethod : Type 0 where
  delete : HttpMethod
  get : HttpMethod
  head : HttpMethod
  post : HttpMethod
  put : HttpMethod
  connect : HttpMethod
  options : HttpMethod
  trace : HttpMethod
  copy : HttpMethod
  lock : HttpMethod
  mkcol : HttpMethod
  move : HttpMethod
  propfind : HttpMethod
  proppatch : HttpMethod
  search : HttpMethod
  unlock : HttpMethod
  bind : HttpMethod
  rebind : HttpMethod
  unbind : HttpMethod
  acl : HttpMethod
  report : HttpMethod
  mkactivity : HttpMethod
  checkout : HttpMethod
  merge : HttpMethod
  msearch : HttpMethod
  notify : HttpMethod
  subscribe : HttpMethod
  unsubscribe : HttpMethod
  patch : HttpMethod
  purge : HttpMethod
  mkcalendar : HttpMethod
  link : HttpMethod
  unlink : HttpMethod
  source : HttpMethod
  invalid_method : HttpMethod

-- The enumerators' numbers.
abbrev pub num : HttpMethod → ℕ
num delete = 0
num get = 1
num head = 2
num post = 3
num put = 4
num connect = 5
num options = 6
num trace = 7
num copy = 8
num lock = 9
num mkcol = 10
num move = 11
num propfind = 12
num proppatch = 13
num search = 14
num unlock = 15
num bind = 16
num rebind = 17
num unbind = 18
num acl = 19
num report = 20
num mkactivity = 21
num checkout = 22
num merge = 23
num msearch = 24
num notify = 25
num subscribe = 26
num unsubscribe = 27
num patch = 28
num purge = 29
num mkcalendar = 30
num link = 31
num unlink = 32
num source = 33
num invalid_method = 34

-- HTTP_METHOD_MAP(XX): the enumerators and their strings, in order.
abbrev pub http_method_map : List (HttpMethod × String)
http_method_map =
    (delete, codes "DELETE")
    ∷ (get, codes "GET")
    ∷ (head, codes "HEAD")
    ∷ (post, codes "POST")
    ∷ (put, codes "PUT")
    ∷ (connect, codes "CONNECT")
    ∷ (options, codes "OPTIONS")
    ∷ (trace, codes "TRACE")
    ∷ (copy, codes "COPY")
    ∷ (lock, codes "LOCK")
    ∷ (mkcol, codes "MKCOL")
    ∷ (move, codes "MOVE")
    ∷ (propfind, codes "PROPFIND")
    ∷ (proppatch, codes "PROPPATCH")
    ∷ (search, codes "SEARCH")
    ∷ (unlock, codes "UNLOCK")
    ∷ (bind, codes "BIND")
    ∷ (rebind, codes "REBIND")
    ∷ (unbind, codes "UNBIND")
    ∷ (acl, codes "ACL")
    ∷ (report, codes "REPORT")
    ∷ (mkactivity, codes "MKACTIVITY")
    ∷ (checkout, codes "CHECKOUT")
    ∷ (merge, codes "MERGE")
    ∷ (msearch, codes "M-SEARCH")
    ∷ (notify, codes "NOTIFY")
    ∷ (subscribe, codes "SUBSCRIBE")
    ∷ (unsubscribe, codes "UNSUBSCRIBE")
    ∷ (patch, codes "PATCH")
    ∷ (purge, codes "PURGE")
    ∷ (mkcalendar, codes "MKCALENDAR")
    ∷ (link, codes "LINK")
    ∷ (unlink, codes "UNLINK")
    ∷ (source, codes "SOURCE")
    ∷ []

-- The chain of tests with strcmp, over such pairs.
unfoldable pub find_equal : String → List (HttpMethod × String) → HttpMethod
find_equal m [] = invalid_method
find_equal m ((method, string) ∷ xs) = if same string m then method else find_equal m xs

unfoldable pub string_to_http_method : String → HttpMethod
string_to_http_method m = find_equal m http_method_map

-- starts_with string m is strncmp(string, m, strlen(string)) == 0.
unfoldable pub find_prefix : String → List (HttpMethod × String) → HttpMethod
find_prefix m [] = invalid_method
find_prefix m ((method, string) ∷ xs) = if starts_with string m then method else find_prefix m xs

unfoldable pub chars_to_http_method : String → HttpMethod
chars_to_http_method m = find_prefix m http_method_map

-- s_method_string
unfoldable pub method_strings : List (HttpMethod × String) → List String
method_strings [] = []
method_strings ((method, string) ∷ xs) = string ∷ method_strings xs

unfoldable pub http_method_to_string : HttpMethod → String
http_method_to_string m = get_or (method_strings http_method_map) (num m) (codes "<unknown>")
