-- ===== src/Session/Body.antt =====
-- The body of a received request: what is left behind the header, and what is read then.
use mathlib.Core.List.{append-nil}
use c.Prelude.{
  ◌⊎◌, true, ℕ, zero, suc, ◌-◌, ◌%◌, ◌^◌, ◌≤◌, ◌<◌, ◌≡◌, inl, inr, refl, sym, ap, ◌∙◌, false, List,
  [], ◌∷◌, ◌++◌, some, leb, ◌==◌, length, take, Bool-cases, length-append, length-take, ==_iff,
  leb→le, arith,
}
use c.Prelude.Int.{ℤ, pos, negsuc, signed}
use c.Prelude.Text.{codes, same}
use c.Http.Order.{MapType, folded}
use c.Http.Request.{HttpRequest, init, get_header}
use c.Stream.{Stream, IsError, read_fix_size}
use c.Stream.ReadFix.{Reads, nothing, IsReadFixed, read_fix_size_lem}
use c.Session.{
  RawParser, RequestParser, Answer, null_request, some_request, thrown, Room, is_positive,
  body_length, finish_body, recv_body,
}

-- init sets only is_close.
init-body : (r : HttpRequest) → ((init r).body ≡ r.body) × ((init r).headers ≡ r.headers)
unfolding init
init-body r = elim (Bool-cases (same (get_header (codes "connection") [] r) [])) [
  | inl h ↦ rw h (refl, refl)
  | inr h ↦
      elim (Bool-cases
        (same (folded (get_header (codes "connection") [] r)) (codes "keep-alive"))) [
          | inl k ↦ rw (h, k) (refl, refl)
          | inr k ↦ rw (h, k) (refl, refl)
        ]
]

error-is_positive : (code : ℤ) → IsError code → is_positive code ≡ false
error-is_positive (pos zero) h = refl
error-is_positive (pos (suc n)) h = absurd (omega (arith, h))
error-is_positive (negsuc n) h = refl

body_length-small : (n : ℕ) → body_length n < 2 ^ 63
unfolding body_length
body_length-small n = ground arith

-- There is no room for a body of n bytes, or for its copy.
abbrev pub IsRefused : Room → ℕ → Type 0
IsRefused room n = (room.resizes n ≡ false) ⊎ (room.copies n ≡ false)

module _ {κ} {S : Type κ} (T : Stream S) (content_length : MapType → ℕ) (room : Room) where
  -- A request with the bytes xs, read from the stream, behind those that were left.
  abbrev pub IsBody : List ℕ → HttpRequest → S → Answer × S → Type κ
  IsBody left old s (null_request, t) = Unit
  IsBody left old s (some_request r, t) =
      (r.headers ≡ old.headers)
      × (length r.body ≡ body_length (content_length r.headers))
      × (xs : List ℕ) × Reads T s xs t
      × (r.body ≡ take (length r.body) (left ++ xs))
  IsBody left old s (thrown, t) =
      IsRefused room (body_length (content_length old.headers)) × (xs : List ℕ) × Reads T s xs t

  init-IsBody :
      (left xs : List ℕ) (r old : HttpRequest) (s t : S)
      → r.headers ≡ old.headers
      → length r.body ≡ body_length (content_length old.headers)
      → Reads T s xs t
      → r.body ≡ take (length r.body) (left ++ xs)
      → IsBody left old s (some_request (init r), t)
  init-IsBody left xs r old s t g h k e =
      let f = init-body r in (f.1 ∙ g, rw (f.0, f.1, g) h, xs, k, rw f.0 e)

take_more : (n : ℕ) (xs ys : List ℕ) → n ≤ length xs → take n xs ≡ take n (xs ++ ys)
take_more zero xs ys h = refl
take_more (suc n) [] ys h = absurd (omega arith)
take_more (suc n) (x ∷ xs) ys h = ap (x ∷◌) (take_more n xs ys (omega arith))

take_whole : (xs : List ℕ) → xs ≡ take (length xs) xs
take_whole [] = refl
take_whole (x ∷ xs) = ap (x ∷◌) (take_whole xs)

module _ {ℓ κ} {H : Type ℓ} {S : Type κ} (R : RawParser H) (T : Stream S) (close : S → S)
    (content_length : MapType → ℕ) (room : Room) (left : List ℕ) (p : RequestParser H) where
  -- setBody of the bytes that were left and those that were read.
  finish_body-IsBody :
      (body xs : List ℕ) (s t : S)
      → length body ≡ body_length (content_length p.request.headers)
      → Reads T s xs t
      → body ≡ take (length body) (left ++ xs)
      → IsBody T content_length room left p.request s
          (finish_body R T close content_length room body p t)
  unfolding finish_body
  finish_body-IsBody body xs s t h k e = elim (Bool-cases (room.copies (length body))) [
    | inl c ↦ rw c (
        init-IsBody T content_length room left xs (record p.request { body = body }) p.request s t
          refl h k e)
    | inr c ↦ rw c (inr (ap room.copies (sym h) ∙ c), xs, k)
  ]

  module _ (s : S) (h : p.request.body ≡ []) where
    abbrev size : ℕ
    size = body_length (content_length p.request.headers)

    more_than : {n m : ℕ} → leb n m ≡ false → m < n
    more_than h = ground arith

    abbrev Ends : Type κ
    Ends =
        (a : Answer × S) × (recv_body R T close content_length room left p s ≡ some a)
        × IsBody T content_length room left p.request s a

    -- What readFixSize returned.
    read_fix_size-IsBody :
        (q : ℤ × List ℕ × S)
        → read_fix_size T (size - length left) s ≡ some q
        → IsReadFixed T (size - length left) (signed 32 ((size - length left) % 2 ^ 32)) s q
        → (size == 0) ≡ false
        → room.resizes size ≡ true
        → leb size (length left) ≡ false
        → Ends
    unfolding recv_body
    read_fix_size-IsBody (rt, xs, t) e f z room_left k = elim (Bool-cases (is_positive rt)) [
      | inr j ↦ ((null_request, close t), rw (z, room_left, k, e, j) refl, tt)
      | inl j ↦ elim f [
        | inr g ↦ absurd (cc (j, error-is_positive rt g.0))
        | inl (_, l, reads) ↦
            let whole : length (left ++ xs) ≡ size =
              omega (arith, length-append left xs, l, more_than k) in
            (
              finish_body R T close content_length room (left ++ xs) p t,
              rw (z, room_left, k, e, j) refl,
              finish_body-IsBody (left ++ xs) xs s t whole reads (take_whole (left ++ xs)),
            )
      ]
    ]

    pub recv_body_lem : Ends
    unfolding recv_body
    recv_body_lem = elim (Bool-cases (size == 0)) [
      | inl z ↦ (
        (some_request (init p.request), s),
        rw z refl,
        init-IsBody T content_length room left [] p.request p.request s s refl
            (ap length h ∙ sym ((==_iff size 0).0 z)) nothing (rw h refl),
      )
      | inr z ↦ elim (Bool-cases (room.resizes size)) [
        | inr full ↦ ((thrown, s), rw (z, full) refl, (inl full, [], nothing))
        | inl room_left ↦ elim (Bool-cases (leb size (length left))) [
          | inl k ↦
              let few : size ≤ length left = leb→le size (length left) k in
              let all : length (take size left) ≡ size =
                omega (arith, length-take size left, few) in
              (
                finish_body R T close content_length room (take size left) p s,
                rw (z, room_left, k) refl,
                finish_body-IsBody (take size left) [] s s all nothing
                    (rw (all, append-nil left) refl),
              )
          | inr k ↦
              let n = size - length left in
              let small : n < 2 ^ 63 =
                omega (arith, body_length-small (content_length p.request.headers)) in
              let (q, e, f) = read_fix_size_lem T n s small in
              read_fix_size-IsBody q e f z room_left k
        ]
      ]
    ]
