-- ===== src/Server/Served.antt =====
-- handleClient ends, and keeps the connection open as long as it should.
use c.Prelude.{
  ℕ, zero, suc, ◌+◌, ◌%◌, ◌^◌, ◌≤◌, ◌<◌, ◌≡◌, inl, inr, ◌⊎◌, refl, ap, Bool, true, false, ◌||◌, not,
  List, [], ◌∷◌, Option, some, ltb, ltb→lt, length, drop, Bool-cases, arith,
}
use c.Prelude.Int.{ℤ, signed}
use c.Prelude.Text.{String}
use c.Http.Order.{MapType}
use c.Http.Request.{HttpRequest}
use c.Http.Response.{HttpResponse, dump}
use c.Servlet.{ServletDispatch, handle}
use c.Session.{
  Answer, null_request, some_request, thrown, Room, RawParser, recv_request, send_response,
}
use c.Session.Received.{HasBody, IsTooLong, recv_request_lem}
use c.Stream.{Stream, Put, got, took, no_room, write_loop, write_fix_size}
use c.Stream.WriteFix.{write_fix_size_lem}
use c.Server.{prepare, respond, handle_client}

module _ {κ} {S : Type κ} (T : Stream S) (ahead : S → ℕ)
    (kept : (xs : List ℕ) (s : S) → ahead (T.write xs s).1 ≤ ahead s) where
  -- The stream has not more bytes ahead behind a write.
  write_round-ahead :
      (n x : ℕ) (xs : List ℕ) (done : ℤ) (s : S) (r : Put × S)
      → T.write (x ∷ xs) s ≡ r
      → ((ys : List ℕ) (t u : S) (code : ℤ)
          → write_loop T n ys done t ≡ some (code, u)
          → ahead u ≤ ahead t)
      → (u : S) (code : ℤ) → write_loop T (suc n) (x ∷ xs) done s ≡ some (code, u)
      → ahead r.1 ≤ ahead s
      → ahead u ≤ ahead s
  unfolding write_loop
  write_round-ahead n x xs done s (no_room c, t) e ih u code h k =
      let q : some (c, t) ≡ some (code, u) = rw (write_loop, e, e) at h in
      let f : t ≡ u = cc in omega (arith, k, ap ahead f)
  write_round-ahead n x xs done s (took m, t) e ih u code h k =
      let q : write_loop T n (drop m (x ∷ xs)) done t ≡ some (code, u) =
        rw (write_loop, e, e) at h in
      omega (arith, k, ih (drop m (x ∷ xs)) t u code q)

  write_loop-ahead :
      (n : ℕ) (xs : List ℕ) (done : ℤ) (s u : S) (code : ℤ)
      → write_loop T n xs done s ≡ some (code, u)
      → ahead u ≤ ahead s
  unfolding write_loop
  write_loop-ahead n [] done s u code h = let e : s ≡ u = cc in rw e (omega arith)
  write_loop-ahead zero (x ∷ xs) done s u code h = absurd (cc)
  write_loop-ahead (suc n) (x ∷ xs) done s u code h =
      write_round-ahead n x xs done s (T.write (x ∷ xs) s) refl
        (λ ys t v c e. write_loop-ahead n ys done t v c e) u code h (kept (x ∷ xs) s)

  send_response_lem :
      (rsp : HttpResponse) (s : S)
      → (q : ℤ × S) × (send_response T rsp s ≡ some q) × (ahead q.1 ≤ ahead s)
  unfolding send_response write_fix_size
  send_response_lem rsp s = elim (Bool-cases (ltb (length (dump rsp)) (2 ^ 63))) [
    | inl h ↦
        let ((code, u), e, f) =
          write_fix_size_lem T (dump rsp) s (ltb→lt (length (dump rsp)) (2 ^ 63) h) in
        let g = rw h at e in
        (
          (code, u),
          e,
          write_loop-ahead (length (dump rsp)) (dump rsp) (signed 32 (length (dump rsp) % 2 ^ 32)) s
              u code g,
        )
    | inr h ↦ ((signed 32 (length (dump rsp) % 2 ^ 32), s), rw h refl, omega arith)
  ]

-- Behind each answer but the last the connection was to be kept open.
abbrev pub IsKept : Bool → List (HttpRequest × HttpResponse) → Type 0
IsKept is_keepalive [] = Unit
IsKept is_keepalive (x ∷ []) = Unit
IsKept is_keepalive (x ∷ y ∷ xs) =
    (is_keepalive ≡ true) × (x.0.is_close ≡ false) × IsKept is_keepalive (y ∷ xs)

cons-IsKept :
    (is_keepalive : Bool) (x : HttpRequest × HttpResponse) (xs : List (HttpRequest × HttpResponse))
    → (not is_keepalive || x.0.is_close) ≡ false
    → IsKept is_keepalive xs
    → IsKept is_keepalive (x ∷ xs)
cons-IsKept is_keepalive x [] h k = tt
cons-IsKept true x (y ∷ xs) h k = (refl, h, k)
cons-IsKept false x (y ∷ xs) h k = absurd (cc)

-- The answers, no more than there were bytes; and the closed session, or an exception, for a body for which
-- there is no room.
module _ {ℓ κ} {H : Type ℓ} {S : Type κ} (R : RawParser H) (T : Stream S) (close : S → S)
    (content_length : MapType → ℕ) (room : Room) (is_keepalive : Bool) (ahead : S → ℕ) where
  abbrev pub IsServed : S → List (HttpRequest × HttpResponse) × Bool × S → Type (ℓ ⊔ κ)
  IsServed s (xs, escapes, t) =
      IsKept is_keepalive xs
      × (length xs ≤ ahead s)
      × (((escapes ≡ false) × (u : S) × (t ≡ close u))
          ⊎ ((escapes ≡ true)
              × (u : S) × (m : ℕ) × (recv_request R T close content_length room m u
                  ≡ some (thrown, t))
              × IsTooLong R T close content_length room m u))

module _ {ℓ κ} {H : Type ℓ} {S : Type κ} (R : RawParser H) (T : Stream S) (close : S → S)
    (content_length : MapType → ℕ) (room : Room) (fnmatch : String → String → Bool)
    (servlet : Option ℕ → HttpRequest → HttpResponse → S → HttpRequest × HttpResponse × S)
    (d : ServletDispatch) (name : String) (is_keepalive : Bool) (ahead : S → ℕ)
    (drained : (n : ℕ) (s t : S) (xs : List ℕ)
      → T.read n s ≡ (got xs, t)
      → ahead t + length xs ≤ ahead s)
    (kept : (xs : List ℕ) (s : S) → ahead (T.write xs s).1 ≤ ahead s)
    (served : (slt : Option ℕ) (req : HttpRequest) (rsp : HttpResponse) (s : S)
      → ahead (servlet slt req rsp s).2 ≤ ahead s) where
  respond_lem :
      (req : HttpRequest) (s : S)
      → (q : HttpRequest × HttpResponse × S) × (respond R T close content_length room fnmatch
            servlet d name is_keepalive req s
          ≡ some q)
        × (ahead q.2 ≤ ahead s)
  unfolding respond
  respond_lem req s =
      let rsp = prepare name is_keepalive req in
      let h = servlet (handle fnmatch req.path d) req rsp s in
      let (q, e, f) = send_response_lem T ahead kept h.1 h.2 in
      (
        (h.0, h.1, q.1),
        rw (respond, e) refl,
        omega (arith, f, served (handle fnmatch req.path d) req rsp s),
      )

  abbrev Ends : ℕ → S → Type (ℓ ⊔ κ)
  Ends n s =
      (q : List (HttpRequest × HttpResponse) × Bool × S) × (handle_client R T close content_length
          room fnmatch servlet d name is_keepalive n s
        ≡ some q)
      × IsServed R T close content_length room is_keepalive ahead s q

  answered :
      (n : ℕ) (s : S) (a : Answer × S)
      → recv_request R T close content_length room (suc n) s ≡ some a
      → HasBody R T close content_length room ahead (suc n) s a
      → ahead s < suc n
      → ((t : S) → ahead t < n → Ends n t)
      → Ends (suc n) s
  unfolding handle_client
  answered n s (null_request, t) e w l ih =
      (([], false, close t), rw (handle_client, e) refl, (tt, omega arith, inl (refl, t, refl)))
  answered n s (thrown, t) e w l ih =
      (([], true, t), rw (handle_client, e) refl, (tt, omega arith, inr (refl, s, suc n, e, w)))
  answered n s (some_request req, t) e (_, _, less) l ih =
      let ((req', rsp, u), f, g) = respond_lem req t in
      elim (Bool-cases (not is_keepalive || req'.is_close)) [
        | inl c ↦ (
          ((req', rsp) ∷ [], false, close u),
          rw (handle_client, e, f, c) refl,
          (tt, omega arith, inl (refl, u, refl)),
        )
        | inr c ↦
            let ((xs, escapes, v), j, (k, m, z)) = ih u (omega arith) in
            (
              ((req', rsp) ∷ xs, escapes, v),
              rw (handle_client, e, f, c, j) refl,
              (cons-IsKept is_keepalive (req', rsp) xs c k, omega arith, z),
            )
      ]

  -- On a stream that gives at most `ahead s` more bytes, which neither writes nor servlets add to, and with
  -- servlets that return: handleClient ends, with at most one round more than that, whatever is received.
  -- Either the session is closed then, or an exception leaves handleClient, which happens only in a
  -- recvRequest that has read headers of a body for which there is no room. It has answered at most as many
  -- requests as there were bytes, one behind the other, and it went on behind an answer only where the
  -- server keeps connections and the request, as its servlet left it, does too.
  pub handle_client_lem : (s : S) (n : ℕ) → ahead s < n → Ends n s
  handle_client_lem s zero h = absurd (omega arith)
  handle_client_lem s (suc n) h =
      let (a, e, w) = recv_request_lem R T close content_length room ahead drained s (suc n) h in
      answered n s a e w h (λ t l. handle_client_lem t n l)
