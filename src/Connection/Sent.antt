-- ===== src/Connection/Sent.antt =====
-- The requests that the client sends.
use c.Prelude.{
  ◌≡◌, refl, ap, ◌∙◌, Bool, true, false, not, ◌&&◌, List, [], ◌∷◌, Option, none, some,
  if◌then◌else◌, Bool-cases, inl, inr,
}
use c.Prelude.Text.{String, codes, same, same_iff, c_str, lower, to_lower}
use c.Dict.{find}
use c.Dict.Laws.{find-assign}
use c.Http.Method.{HttpMethod}
use c.Http.Order.{case_insensitive, folded, equivalent-same}
use c.Http.Request.{HttpRequest, new_request, set_header}
use c.Http.Request.Query.{or_else}
use c.Connection.{fill_headers, with_host, uri_request, Uri}
use c.Connection.Pool.{HttpConnectionPool, pool_request}
use c.Connection.Requests.{
  is_named, last_value, any_host, any_keep_alive, or_else-none, fill_headers-find,
  fill_headers-close, fill_headers-host,
}

-- Nothing is a Connection header.
last_value-connection :
    (q : String) (headers : List (String × String))
    → is_named (codes "connection") q ≡ true
    → last_value q headers ≡ none
unfolding last_value
last_value-connection q [] e = refl
last_value-connection q ((k, v) ∷ headers) e =
    rw (last_value-connection q headers e) (elim (Bool-cases (is_named (codes "connection") k)) [
      | inl f ↦ rw f refl
      | inr f ↦ rw (f, other k f) refl
    ])
  where
    other :
        (k : String) → is_named (codes "connection") k ≡ false → same (folded k) (folded q) ≡ false
    other k f = elim (Bool-cases (same (folded k) (folded q))) [
      | inr g ↦ g
      | inl g ↦ absurd (cc (f, e, (same_iff (folded k) (folded q)).0 g))
    ]

-- What is sent, with the Host header that is filled in.
filled :
    (host q : String) (headers : List (String × String)) (close : Bool) (t : Bool × HttpRequest)
    → t.0 ≡ any_host headers
    → find case_insensitive q t.1.headers ≡ or_else (last_value q headers) none
    → t.1.is_close ≡ (close && not (any_keep_alive headers))
    → (find case_insensitive q (with_host host t).headers ≡ (
        if not (any_host headers) && same (folded (codes "Host")) (folded q)
        then some host
        else last_value q headers))
      × ((with_host host t).is_close ≡ (close && not (any_keep_alive headers)))
unfolding set_header
filled host q headers close (true, r) e f g = (rw (← e, f) (or_else-none (last_value q headers)), g)
filled host q headers close (false, r) e f g = (
  rw
      (
        ← e,
        find-assign case_insensitive q (codes "Host") host r.headers,
        equivalent-same (codes "Host") q,
        f,
        or_else-none (last_value q headers),
      )
      refl,
  g,
)

not_host : same (folded (codes "Host")) (folded (codes "connection")) ≡ false
unfolding same folded c_str lower to_lower
not_host = refl

named : is_named (codes "connection") (codes "connection") ≡ true
unfolding same folded c_str lower to_lower
named = refl

never_passed :
    (host : String) (b : Bool) (headers : List (String × String))
    → (if not b && same (folded (codes "Host")) (folded (codes "connection"))
        then some host
        else last_value (codes "connection") headers)
      ≡ none
never_passed host b headers =
    rw (not_host, last_value-connection (codes "connection") headers named) (both b)
  where
    both : (b : Bool) → (if not b && false then some host else none) ≡ none
    both true = refl
    both false = refl

made :
    (host q : String) (headers : List (String × String)) (req : HttpRequest)
    → req.headers ≡ []
    → let req' = with_host host (fill_headers headers false req) in
      (find case_insensitive q req'.headers ≡ (
        if not (any_host headers) && same (folded (codes "Host")) (folded q)
        then some host
        else last_value q headers))
      × (req'.is_close ≡ (req.is_close && not (any_keep_alive headers)))
unfolding find
made host q headers req e =
    filled host q headers req.is_close (fill_headers headers false req)
      (fill_headers-host headers false req)
      (fill_headers-find q headers false req
        ∙ ap (λ m. or_else (last_value q headers) (find case_insensitive q m)) e)
      (fill_headers-close headers false req)

-- The requests that DoRequest makes of a Uri and the pool's doRequest of a text, for any headers given: the
-- header q is the value of the last one given of that name, but for the case of letters, and Host, if
-- none was given with a value, is the Uri's host, or the pool's virtual host, or its host if that
-- is empty; no Connection header is passed on; and DoRequest has the connection closed unless a
-- Connection header given is keep-alive, in whatever case, while the pool never has it closed.
pub uri_request-pool_request :
    (method : HttpMethod) (uri : Uri) (pool : HttpConnectionPool) (headers : List (String × String))
    (body url q : String)
    → let req = uri_request method uri headers body in
      let req' = pool_request pool method url headers body in
      let last : String → Option String = λ host.
        if not (any_host headers) && same (folded (codes "Host")) (folded q)
        then some host
        else last_value q headers in
      (find case_insensitive q req.headers ≡ last uri.host)
      × (find case_insensitive (codes "connection") req.headers ≡ none)
      × (req.is_close ≡ not (any_keep_alive headers))
      × (find case_insensitive q req'.headers
          ≡ last (if same pool.vhost [] then pool.host else pool.vhost))
      × (find case_insensitive (codes "connection") req'.headers ≡ none)
      × (req'.is_close ≡ false)
unfolding uri_request pool_request new_request
uri_request-pool_request method uri pool headers body url q = (
  (made uri.host q headers r refl).0,
  (made uri.host (codes "connection") headers r refl).0
      ∙ never_passed uri.host (any_host headers) headers,
  (made uri.host q headers r refl).1,
  (made host q headers r' refl).0,
  (made host (codes "connection") headers r' refl).0 ∙ never_passed host (any_host headers) headers,
  (made host q headers r' refl).1,
)
  where
    host : String
    host = if same pool.vhost [] then pool.host else pool.vhost

    r : HttpRequest
    r = record (new_request 0x11 true) {
      path = uri.path;
      query = uri.query;
      fragment = uri.fragment;
      method = method;
    }

    r' : HttpRequest
    r' = record (new_request 0x11 true) { path = url; method = method; is_close = false }
