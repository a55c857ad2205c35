-- ===== src/Server/Tests.antt =====
-- A server of three requests, by a servlet that sends what it is sent.
use c.Prelude.{ℕ, ◌≡◌, Bool, true, false, List, ◌∷◌, ◌++◌, Option, some, length, arith}
use c.Prelude.Text.{codes, same}
use c.Http.Request.{HttpRequest}
use c.Http.Response.{HttpResponse}
use c.Servlet.{init}
use c.Session.Sample.{one_each, one_each-drained, line_parser, content_length, one_mega}
use c.Server.{handle_client}
use c.Server.Served.{IsServed, handle_client_lem}

-- It keeps the connection open.
abbrev echo : Option ℕ → HttpRequest → HttpResponse → List ℕ → HttpRequest × HttpResponse × List ℕ
echo slt req rsp s = (record req { is_close = false }, record rsp { body = req.body }, s)

abbrev three_requests : List ℕ
three_requests =
    codes "GET"
    ++ 10 ∷ codes "abc"
    ++ codes "GET"
    ++ 10 ∷ codes "def"
    ++ codes "GET"
    ++ 10 ∷ codes "gh"

handle_client_lem_example :
    (q : List (HttpRequest × HttpResponse) × Bool × List ℕ) × (handle_client line_parser one_each
        (λ s. s)
        content_length
        one_mega
        same
        echo
        (init 1)
        (codes "s")
        true
        21
        three_requests
      ≡ some q)
    × IsServed line_parser one_each (λ s. s) content_length one_mega true length three_requests q
handle_client_lem_example =
    handle_client_lem line_parser one_each (λ s. s) content_length one_mega same echo (init 1)
      (codes "s") true length one_each-drained (λ xs s. omega arith) (λ slt req rsp s. omega arith)
      three_requests 21 (omega arith)
