-- ===== src/Server.antt =====
-- htttp/http_server.cc: HttpServer::handleClient, over a session and the servlets. What a servlet does is an
-- argument: it returns, and can change the request and the response, and read from the session.
pub mod Served
mod Tests
use c.Prelude.{
  ℕ, zero, suc, Bool, true, false, ◌||◌, not, List, [], ◌∷◌, Option, none, some, if◌then◌else◌,
}
use c.Prelude.Text.{String, codes}
use c.Http.Order.{MapType}
use c.Http.Request.{HttpRequest}
use c.Http.Response.{HttpResponse, new_response, set_header}
use c.Servlet.{ServletDispatch, handle}
use c.Session.{
  Answer, null_request, some_request, thrown, Room, RawParser, recv_request, send_response,
}
use c.Stream.{Stream}

-- The response that the servlet is given.
unfoldable pub prepare : String → Bool → HttpRequest → HttpResponse
prepare name is_keepalive req =
    set_header (codes "Server") name (new_response req.version (req.is_close || not is_keepalive))

module _ {ℓ κ} {H : Type ℓ} {S : Type κ} (R : RawParser H) (T : Stream S) (close : S → S)
    (content_length : MapType → ℕ) (room : Room) (fnmatch : String → String → Bool)
    (servlet : Option ℕ → HttpRequest → HttpResponse → S → HttpRequest × HttpResponse × S)
    (d : ServletDispatch) (name : String) (is_keepalive : Bool) where
  -- What is sent for a request; none is out of rounds, in the loop of writeFixSize.
  unfoldable pub respond : HttpRequest → S → Option (HttpRequest × HttpResponse × S)
  respond req s =
      let h = servlet (handle fnmatch req.path d) req (prepare name is_keepalive req) s in
      elim (send_response T h.1 h.2) [ none ↦ none | some (code, t) ↦ some (h.0, h.1, t) ]

  -- handleClient: the requests and the responses sent, in order, each as the servlet left it, and whether an
  -- exception leaves it, past the close at its end. None is out of rounds, in the loop here or in one below.
  unfoldable pub handle_client : ℕ → S → Option (List (HttpRequest × HttpResponse) × Bool × S)
  handle_client zero s = none
  handle_client (suc n) s = elim (recv_request R T close content_length room (suc n) s) [
    | none ↦ none
    | some (null_request, t) ↦ some ([], false, close t)
    | some (thrown, t) ↦ some ([], true, t)
    | some (some_request req, t) ↦ elim (respond req t) [
      | none ↦ none
      | some (req', rsp, u) ↦
          let rest = handle_client n u in
          if not is_keepalive || req'.is_close
          then some ((req', rsp) ∷ [], false, close u)
          else elim rest [ none ↦ none | some (xs, e, v) ↦ some ((req', rsp) ∷ xs, e, v) ]
    ]
  ]
