-- ===== src/Session/Received.antt =====
-- recvRequest as a whole, on a stream that comes to an end.
use c.Prelude.{
  sym, ℕ, zero, suc, ◌+◌, ◌-◌, ◌≤◌, ◌<◌, ◌≡◌, ◌≢◌, inl, inr, refl, ◌∙◌, false, List, [], ◌∷◌, ◌++◌,
  Option, none, some, ◌==◌, length, Bool-cases, length-append, length-drop, arith,
}
use c.Prelude.Text.{codes}
use c.Http.Method.{chars_to_http_method}
use c.Http.Order.{MapType}
use c.Http.Request.{new_request, set_header}
use c.Stream.{Stream, Got, got, no_bytes, IsGot}
use c.Session.{
  Answer, null_request, some_request, thrown, Room, Callback, request_method, request_uri, fragment,
  request_path, query_string, http_version, header_done, http_field, RawParser, RequestParser,
  buffer_size, same_start, is_invalid, on_request_method, on_request_version, on_request_http_field,
  on_callback, on_callbacks, new_parser, execute, has_error, is_finished, body_length, recv_loop,
  recv_request,
}
use c.Stream.ReadFix.{Reads, nothing, more}
use c.Session.Body.{IsBody, IsRefused, recv_body_lem}

-- The parser never sets the body.
module _ {ℓ} {H : Type ℓ} where
  on_callback-body :
      (c : Callback) (p : RequestParser H) → (on_callback c p).request.body ≡ p.request.body
  unfolding on_callback on_request_method on_request_version on_request_http_field set_header
  on_callback-body (request_method at) p =
      elim (Bool-cases (is_invalid (chars_to_http_method at))) [
        | inl h ↦ rw h refl
        | inr h ↦ rw h refl
      ]
  on_callback-body (request_uri at) p = refl
  on_callback-body (fragment at) p = refl
  on_callback-body (request_path at) p = refl
  on_callback-body (query_string at) p = refl
  on_callback-body (http_version at n) p = elim (Bool-cases (same_start n at (codes "HTTP/1.1"))) [
    | inl h ↦ rw h refl
    | inr h ↦ elim (Bool-cases (same_start n at (codes "HTTP/1.0"))) [
      | inl k ↦ rw (h, k) refl
      | inr k ↦ rw (h, k) refl
    ]
  ]
  on_callback-body header_done p = refl
  on_callback-body (http_field field value) p = elim (Bool-cases (length field == 0)) [
    | inl h ↦ rw h refl
    | inr h ↦ rw h refl
  ]

  on_callbacks-body :
      (cs : List Callback) (p : RequestParser H) → (on_callbacks cs p).request.body ≡ p.request.body
  unfolding on_callbacks
  on_callbacks-body [] p = refl
  on_callbacks-body (c ∷ cs) p = on_callbacks-body cs (on_callback c p) ∙ on_callback-body c p

module _ {ℓ κ} {H : Type ℓ} {S : Type κ} (R : RawParser H) (T : Stream S) (close : S → S)
    (content_length : MapType → ℕ) (room : Room) where
  -- The headers that the loop reads from s, in n rounds.
  abbrev pub IsRead : ℕ → S → MapType → Type (ℓ ⊔ κ)
  IsRead n s headers =
      (left : List ℕ) × (p : RequestParser H) × (t : S) × (recv_loop R T close content_length room n
          [] (new_parser R) s
        ≡ some (some (left, p), t))
      × (p.request.headers ≡ headers)

  -- There is no room for the body that the headers read from s announce.
  abbrev pub IsTooLong : ℕ → S → Type (ℓ ⊔ κ)
  IsTooLong n s =
      (headers : MapType) × IsRead n s headers
      × IsRefused room (body_length (content_length headers))

  -- A request has the headers that were read and exactly the body that they announce, and then fewer bytes are ahead.
  abbrev pub HasBody : (S → ℕ) → ℕ → S → Answer × S → Type (ℓ ⊔ κ)
  HasBody ahead n s (null_request, t) = Unit
  HasBody ahead n s (some_request r, t) =
      (length r.body ≡ body_length (content_length r.headers))
      × IsRead n s r.headers
      × (ahead t < ahead s)
  HasBody ahead n s (thrown, t) = IsTooLong n s

module _ {ℓ κ} {H : Type ℓ} {S : Type κ} (R : RawParser H) (T : Stream S) (close : S → S)
    (content_length : MapType → ℕ) (room : Room) (ahead : S → ℕ)
    (drained : (n : ℕ) (s t : S) (xs : List ℕ)
      → T.read n s ≡ (got xs, t)
      → ahead t + length xs ≤ ahead s) where
  execute-body :
      (xs : List ℕ) (p : RequestParser H) → (execute R xs p).1.request.body ≡ p.request.body
  unfolding execute
  execute-body xs p =
      on_callbacks-body (R.execute xs p.parser).1 (record p { parser = (R.execute xs p.parser).2 })

  execute-length : (xs : List ℕ) (p : RequestParser H) → length (execute R xs p).0 ≤ length xs
  unfolding execute
  execute-length xs p = omega (arith, length-drop (R.execute xs p.parser).0 xs)

  -- What the loop ends with: no request, or a header, and fewer bytes than the buffer has.
  abbrev IsParsed : S → Option (List ℕ × RequestParser H) × S → Type 0
  IsParsed s (none, t) = Unit
  IsParsed s (some (left, p), t) =
      (length left < buffer_size) × (p.request.body ≡ []) × (ahead t < ahead s)

  later-IsParsed :
      (s t : S) (q : Option (List ℕ × RequestParser H) × S)
      → ahead t ≤ ahead s
      → IsParsed t q
      → IsParsed s q
  later-IsParsed s t (none, u) h w = tt
  later-IsParsed s t (some (left, p), u) h (f, b, l) = (f, b, omega arith)

  abbrev Ends : ℕ → List ℕ → RequestParser H → S → Type (ℓ ⊔ κ)
  Ends n left p s =
      (q : Option (List ℕ × RequestParser H) × S) × (recv_loop R T close content_length room n left
          p s
        ≡ some q)
      × IsParsed s q

  differs : {n m : ℕ} → (n == m) ≡ false → n ≢ m
  differs h e = ground arith

  -- A round, for what its read gives.
  recv_round :
      (n : ℕ) (left : List ℕ) (p : RequestParser H) (s : S) (r : Got × S)
      → T.read (buffer_size - length left) s ≡ r
      → IsGot (buffer_size - length left) r.0
      → ((left' : List ℕ) (p' : RequestParser H) (t : S)
          → ahead t < n
          → length left' < buffer_size
          → p'.request.body ≡ []
          → Ends n left' p' t)
      → ahead s < suc n
      → length left < buffer_size
      → p.request.body ≡ []
      → Ends (suc n) left p s
  unfolding recv_loop
  recv_round n left p s (no_bytes code, t) e g ih a b c =
      ((none, close t), rw (recv_loop, e, e) refl, tt)
  recv_round n left p s (got xs, t) e g ih a b c =
      let rest = execute-length (left ++ xs) p in
      let moved = drained (buffer_size - length left) s t xs e in
      let body : (execute R (left ++ xs) p).1.request.body ≡ [] = execute-body (left ++ xs) p ∙ c in
      elim (Bool-cases (has_error R (execute R (left ++ xs) p).1)) [
        | inl h ↦ ((none, close t), rw (recv_loop, e, e, h) refl, tt)
        | inr h ↦ elim (Bool-cases (length (execute R (left ++ xs) p).0 == buffer_size)) [
          | inl k ↦ ((none, close t), rw (recv_loop, e, e, h, k) refl, tt)
          | inr k ↦
              let fits : length (execute R (left ++ xs) p).0 < buffer_size =
                omega (arith, rest, length-append left xs, g, differs k) in
              elim (Bool-cases (is_finished R (execute R (left ++ xs) p).1)) [
                | inl j ↦ (
                  (some (execute R (left ++ xs) p), t),
                  rw (recv_loop, e, e, h, k, j) refl,
                  (fits, body, omega (arith, moved, g)),
                )
                | inr j ↦
                    let (q, f, w) =
                      ih (execute R (left ++ xs) p).0 (execute R (left ++ xs) p).1 t
                        (omega (arith, moved, g)) fits body in
                    (
                      q,
                      rw (recv_loop, e, e, h, k, j) f,
                      later-IsParsed s t q (omega (arith, moved)) w,
                    )
              ]
        ]
      ]

  recv_loop_lem :
      (n : ℕ) (left : List ℕ) (p : RequestParser H) (s : S)
      → ahead s < n
      → length left < buffer_size
      → p.request.body ≡ []
      → Ends n left p s
  recv_loop_lem zero left p s a b c = absurd (omega arith)
  recv_loop_lem (suc n) left p s a b c =
      recv_round n left p s (T.read (buffer_size - length left) s) refl
        (T.reads (buffer_size - length left) s (omega arith))
        (λ left' p' t a' b' c'. recv_loop_lem n left' p' t a' b' c') a b c

  Reads-ahead : {s t : S} {xs : List ℕ} → Reads T s xs t → ahead t ≤ ahead s
  Reads-ahead nothing = omega arith
  Reads-ahead (more {s = s} {t = t} {xs = xs} n e r) =
      omega (arith, drained n s t xs e, Reads-ahead r)

  length_kept :
      (n : ℕ) (left : List ℕ) (p : RequestParser H) (s t : S) (a : Answer × S)
      → recv_loop R T close content_length room n [] (new_parser R) s ≡ some (some (left, p), t)
      → ahead t < ahead s
      → IsBody T content_length room left p.request t a
      → HasBody R T close content_length room ahead n s a
  length_kept n left p s t (null_request, u) e l h = tt
  length_kept n left p s t (thrown, u) e l (f, xs, reads) =
      (p.request.headers, (left, p, t, e, refl), f)
  length_kept n left p s t (some_request r, u) e l (f, g, xs, reads, i) =
      (g, (left, p, t, e, sym f), omega (arith, l, Reads-ahead reads))

  parsed :
      (q : Option (List ℕ × RequestParser H) × S)
      → (n : ℕ) → (s : S) → recv_loop R T close content_length room n [] (new_parser R) s ≡ some q
      → IsParsed s q
      → (a : Answer × S) × (recv_request R T close content_length room n s ≡ some a)
        × HasBody R T close content_length room ahead n s a
  unfolding recv_request
  parsed (none, t) n s e w = ((null_request, t), rw (recv_request, e) refl, tt)
  parsed (some (left, p), t) n s e (f, b, l) =
      let (a, g, w) = recv_body_lem R T close content_length room left p t b in
      (a, rw (recv_request, e) g, length_kept n left p s t a e l w)

  fresh : (new_parser R).request.body ≡ []
  unfolding new_parser new_request
  fresh = refl

  -- On a stream that gives at most `ahead s` more bytes, however it splits them, and with any parser that is
  -- through with at most the bytes it is given: recvRequest ends, with at most one round of its loop more
  -- than that. It throws an exception, which it does only where there is no room for a body of the length
  -- that the headers announce, or for its copy; or it returns nullptr, or a request with the headers that
  -- the loop has read, whose body is as long as the content-length of those headers, read as an int64_t,
  -- or empty where that is 0 or below, and then the stream has fewer bytes ahead.
  pub recv_request_lem :
      (s : S) (n : ℕ)
      → ahead s < n
      → (a : Answer × S) × (recv_request R T close content_length room n s ≡ some a)
        × HasBody R T close content_length room ahead n s a
  recv_request_lem s n h =
      let (q, e, w) = recv_loop_lem n [] (new_parser R) s h (omega arith) fresh in parsed q n s e w
