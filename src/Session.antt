-- ===== src/Session.antt =====
-- htttp/http_parser.h, http_parser.cc, http_session.h, http_session.cc: HttpRequestParser and HttpSession.
-- The parser that Ragel generates is an argument, as are the stream, close and std::stold.
pub mod Body
pub mod Received
pub mod Sample
mod Tests
use c.Prelude.{
  ℕ, zero, suc, ◌+◌, ◌-◌, ◌*◌, ◌^◌, ◌≤◌, Bool, true, false, ◌&&◌, ◌||◌, not, List, [], ◌∷◌, ◌++◌,
  Option, none, some, ltb, leb, ◌==◌, if◌then◌else◌, length, take, drop, replicate,
}
use c.Prelude.Int.{ℤ, pos, negsuc}
use c.Prelude.Text.{String, codes}
use c.Http.Method.{HttpMethod, invalid_method, chars_to_http_method}
use c.Http.Order.{MapType}
use c.Http.Request.{HttpRequest, new_request, set_header, init}
use c.Http.Response.{HttpResponse, dump}
use c.Stream.{Stream, got, no_bytes, read_fix_size, write_fix_size}

-- A callback that the generated parser makes. A text is what stands from `at` on, up to `length`; the method is
-- read, and the version compared, from what stands from `at` on.
pub data Callback : Type 0 where
  request_method : String → Callback
  request_uri : String → Callback
  fragment : String → Callback
  request_path : String → Callback
  query_string : String → Callback
  http_version : String → ℕ → Callback
  header_done : Callback
  http_field : String → String → Callback

-- http_parser: http_parser_execute gives the number of bytes it is through with, makes callbacks, and fails none
-- of its assertions.
pub record RawParser {ℓ} (H : Type ℓ) : Type ℓ where
  pub start : H
  pub execute : List ℕ → H → ℕ × List Callback × H
  pub executed : (xs : List ℕ) (h : H) → (execute xs h).0 ≤ length xs
  pub has_error : H → Bool
  pub is_finished : H → Bool

-- strncmp(a, b, n) == 0
unfoldable pub same_start : ℕ → String → String → Bool
same_start zero a b = true
same_start (suc n) [] [] = true
same_start (suc n) [] (y ∷ b) = y == 0
same_start (suc n) (x ∷ a) [] = x == 0
same_start (suc n) (x ∷ a) (y ∷ b) = x == y && (x == 0 || same_start n a b)

abbrev pub is_invalid : HttpMethod → Bool
is_invalid m = elim m [ invalid_method ↦ true | _ ↦ false ]

-- HttpRequestParser
pub record RequestParser {ℓ} (H : Type ℓ) : Type ℓ where
  pub parser : H
  pub request : HttpRequest
  pub error : ℕ

abbrev pub buffer_size : ℕ
buffer_size = 4 * 1024

module _ {ℓ} {H : Type ℓ} where
  unfoldable pub on_request_method : String → RequestParser H → RequestParser H
  on_request_method at p =
      let m = chars_to_http_method at in
      if is_invalid m
      then record p { error = 1000 }
      else record p { request = record p.request { method = m } }

  unfoldable pub on_request_version : String → ℕ → RequestParser H → RequestParser H
  on_request_version at n p =
      if same_start n at (codes "HTTP/1.1")
      then record p { request = record p.request { version = 0x11 } }
      else if same_start n at (codes "HTTP/1.0")
      then record p { request = record p.request { version = 0x10 } }
      else record p { error = 1001 }

  unfoldable pub on_request_http_field : String → String → RequestParser H → RequestParser H
  on_request_http_field field value p =
      if length field == 0 then p else record p { request = set_header field value p.request }

  unfoldable pub on_callback : Callback → RequestParser H → RequestParser H
  on_callback (request_method at) p = on_request_method at p
  on_callback (request_uri at) p = p
  on_callback (fragment at) p = record p { request = record p.request { fragment = at } }
  on_callback (request_path at) p = record p { request = record p.request { path = at } }
  on_callback (query_string at) p = record p { request = record p.request { query = at } }
  on_callback (http_version at n) p = on_request_version at n p
  on_callback header_done p = p
  on_callback (http_field field value) p = on_request_http_field field value p

  unfoldable pub on_callbacks : List Callback → RequestParser H → RequestParser H
  on_callbacks [] p = p
  on_callbacks (c ∷ cs) p = on_callbacks cs (on_callback c p)

module _ {ℓ} {H : Type ℓ} (R : RawParser H) where
  -- HttpRequestParser::HttpRequestParser()
  unfoldable pub new_parser : RequestParser H
  new_parser = record { parser = R.start; request = new_request 0x11 true; error = 0 }

  -- HttpRequestParser::execute: the bytes that are left in the buffer, moved to its front.
  unfoldable pub execute : List ℕ → RequestParser H → List ℕ × RequestParser H
  execute xs p =
      let r = R.execute xs p.parser in (drop r.0 xs, on_callbacks r.1 (record p { parser = r.2 }))

  abbrev pub has_error : RequestParser H → Bool
  has_error p = not (p.error == 0) || R.has_error p.parser

  -- http_parser_finish is -1 with an error, and 1 at the end.
  abbrev pub is_finished : RequestParser H → Bool
  is_finished p = R.has_error p.parser || R.is_finished p.parser

abbrev pub is_positive : ℤ → Bool
is_positive (pos zero) = false
is_positive (pos (suc n)) = true
is_positive (negsuc n) = false

-- An int64_t above 0, from the uint64_t that getContentLength returns; 0 for the others.
unfoldable pub body_length : ℕ → ℕ
body_length n = if ltb n (2 ^ 63) then n else 0

-- What comes of recvRequest: a null pointer, a request, or an exception.
pub data Answer : Type 0 where
  null_request : Answer
  some_request : HttpRequest → Answer
  thrown : Answer

-- Whether there is room for n bytes in a string that is resized, and in its copy; if not, the call throws a
-- length_error or bad_alloc.
pub record Room : Type 0 where
  pub resizes : ℕ → Bool
  pub copies : ℕ → Bool

module _ {ℓ κ} {H : Type ℓ} {S : Type κ} (R : RawParser H) (T : Stream S) (close : S → S)
    (content_length : MapType → ℕ) (room : Room) where
  -- The loop of recvRequest, with the bytes that are left of those read before. What it gives is none when
  -- the socket was closed, and else the bytes left behind the header; none is out of rounds.
  unfoldable pub recv_loop :
      ℕ → List ℕ → RequestParser H → S → Option (Option (List ℕ × RequestParser H) × S)
  recv_loop zero left p s = none
  recv_loop (suc n) left p s =
      let r = T.read (buffer_size - length left) s in
      elim r.0 [
        | no_bytes code ↦ some (none, close r.1)
        | got xs ↦
            let e = execute R (left ++ xs) p in
            let rest = recv_loop n e.0 e.1 r.1 in
            if has_error R e.1
            then some (none, close r.1)
            else if length e.0 == buffer_size
            then some (none, close r.1)
            else if is_finished R e.1
            then some (some e, r.1)
            else rest
      ]

  -- setBody(body), and init.
  unfoldable pub finish_body : String → RequestParser H → S → Answer × S
  finish_body body p s =
      if room.copies (length body)
      then (some_request (init (record p.request { body = body })), s)
      else (thrown, s)

  -- What is behind the loop: the body, and init.
  unfoldable pub recv_body : List ℕ → RequestParser H → S → Option (Answer × S)
  recv_body left p s =
      let n = body_length (content_length p.request.headers) in
      if n == 0
      then some (some_request (init p.request), s)
      else if not (room.resizes n)
      then some (thrown, s)
      else if leb n (length left)
      then some (finish_body (take n left) p s)
      else elim (read_fix_size T (n - length left) s) [
        | none ↦ none
        | some (rt, xs, t) ↦
            if is_positive rt
            then some (finish_body (left ++ xs) p t)
            else some (null_request, close t)
      ]

  -- HttpSession::recvRequest, with a number of rounds.
  unfoldable pub recv_request : ℕ → S → Option (Answer × S)
  recv_request n s = elim (recv_loop n [] (new_parser R) s) [
    | none ↦ none
    | some (none, t) ↦ some (null_request, t)
    | some (some (left, p), t) ↦ recv_body left p t
  ]

-- HttpSession::sendResponse
unfoldable pub send_response {ℓ} : {S : Type ℓ} → Stream S → HttpResponse → S → Option (ℤ × S)
send_response T rsp s = write_fix_size T (dump rsp) s
