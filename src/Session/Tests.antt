-- ===== src/Session/Tests.antt =====
-- A session whose stream gives one byte a call.
use c.Prelude.{ℕ, ◌≡◌, refl, true, List, ◌∷◌, ◌++◌, some, length, arith}
use c.Prelude.Text.{codes}
use c.Session.{Answer, recv_request, same_start}
use c.Session.Received.{HasBody, recv_request_lem}
use c.Session.Sample.{one_each, one_each-drained, line_parser, content_length, one_mega}

version_start : same_start 8 (codes "HTTP/1.1\r\n") (codes "HTTP/1.1") ≡ true
unfolding same_start
version_start = refl

recv_request_lem_example :
    (a : Answer × List ℕ) × (recv_request line_parser one_each
        (λ s. s)
        content_length
        one_mega
        8
        (codes "GET" ++ 10 ∷ codes "abc")
      ≡ some a)
    × HasBody line_parser one_each
        (λ s. s)
        content_length
        one_mega
        length
        8
        (codes "GET" ++ 10 ∷ codes "abc")
        a
recv_request_lem_example =
    recv_request_lem line_parser one_each (λ s. s) content_length one_mega length one_each-drained
      (codes "GET" ++ 10 ∷ codes "abc") 8 (omega arith)
