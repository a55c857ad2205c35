-- ===== src/Connection/Requests.antt =====
-- What the loop over the headers that are given leaves of them.
use c.Prelude.{
  ◌≡◌, refl, ◌∙◌, Bool, true, false, not, ◌||◌, ◌&&◌, List, [], ◌∷◌, Option, none, some,
  if◌then◌else◌, Bool-cases, inl, inr,
}
use c.Prelude.Text.{String, codes, same}
use c.Dict.{find, assign}
use c.Dict.Laws.{find-assign}
use c.Http.Order.{MapType, case_insensitive, folded, equivalent-same}
use c.Http.Request.{HttpRequest, set_header}
use c.Http.Request.Query.{or_else}
use c.Connection.{fill_headers}

abbrev pub is_named : String → String → Bool
is_named name k = same (folded k) name

-- The value of the last header that has the name of q, but for the case of letters, Connection headers
-- aside.
unfoldable pub last_value : String → List (String × String) → Option String
last_value q [] = none
last_value q ((k, v) ∷ headers) = or_else (last_value q headers) (
    if is_named (codes "connection") k
    then none
    else if same (folded k) (folded q)
    then some v
    else none)

-- Is there a Host header with a value, and a Connection header with the value keep-alive?
unfoldable pub any_host : List (String × String) → Bool
any_host [] = false
any_host ((k, v) ∷ headers) =
    (not (is_named (codes "connection") k) && is_named (codes "host") k && not (same v []))
    || any_host headers

unfoldable pub any_keep_alive : List (String × String) → Bool
any_keep_alive [] = false
any_keep_alive ((k, v) ∷ headers) =
    (is_named (codes "connection") k && is_named (codes "keep-alive") v) || any_keep_alive headers

or_false : (b : Bool) → b ≡ (b || false)
or_false true = refl
or_false false = refl

and_true : (b : Bool) → b ≡ (b && true)
and_true true = refl
and_true false = refl

and_false : (b : Bool) → false ≡ (b && false)
and_false true = refl
and_false false = refl

merged :
    (has host value any : Bool)
    → ((if not has && host then value else has) || any) ≡ (has || ((host && value) || any))
merged true host value any = refl
merged false true value any = refl
merged false false value any = refl

pub or_else-none : (o : Option String) → or_else o none ≡ o
or_else-none none = refl
or_else-none (some v) = refl

or_else_assoc : (o p q : Option String) → or_else (or_else o p) q ≡ or_else o (or_else p q)
or_else_assoc none p q = refl
or_else_assoc (some v) p q = refl

assigned :
    (q k v : String) (o : Option String) (m : MapType)
    → or_else o (find case_insensitive q (assign case_insensitive k v m))
      ≡ or_else
          (or_else o (if same (folded k) (folded q) then some v else none))
          (find case_insensitive q m)
assigned q k v o m =
    rw
      (
        find-assign case_insensitive q k v m,
        equivalent-same k q,
        or_else_assoc o (if same (folded k) (folded q) then some v else none)
            (find case_insensitive q m),
      )
      (elim (Bool-cases (same (folded k) (folded q))) [ inl e ↦ rw e refl | inr e ↦ rw e refl ])

pub fill_headers-find :
    (q : String) (headers : List (String × String)) (has : Bool) (req : HttpRequest)
    → find case_insensitive q (fill_headers headers has req).1.headers
      ≡ or_else (last_value q headers) (find case_insensitive q req.headers)
unfolding fill_headers last_value set_header
fill_headers-find q [] has req = refl
fill_headers-find q ((k, v) ∷ headers) has req =
    elim (Bool-cases (is_named (codes "connection") k)) [
      | inl e ↦
          rw (e, or_else-none (last_value q headers))
            (elim (Bool-cases (is_named (codes "keep-alive") v)) [
              | inl l ↦ rw l (fill_headers-find q headers has (record req { is_close = false }))
              | inr l ↦ rw l (fill_headers-find q headers has req)
            ])
      | inr e ↦ rw e (
          fill_headers-find q headers _ (set_header k v req)
          ∙ assigned q k v (last_value q headers) req.headers)
    ]

pub fill_headers-close :
    (headers : List (String × String)) (has : Bool) (req : HttpRequest)
    → (fill_headers headers has req).1.is_close ≡ (req.is_close && not (any_keep_alive headers))
unfolding fill_headers any_keep_alive set_header
fill_headers-close [] has req = and_true req.is_close
fill_headers-close ((k, v) ∷ headers) has req =
    elim (Bool-cases (is_named (codes "connection") k)) [
      | inl e ↦ rw e (elim (Bool-cases (is_named (codes "keep-alive") v)) [
        | inl l ↦ rw l (
            fill_headers-close headers has (record req { is_close = false })
            ∙ and_false req.is_close)
        | inr l ↦ rw l (fill_headers-close headers has req)
      ])
      | inr e ↦ rw e (fill_headers-close headers _ (set_header k v req))
    ]

pub fill_headers-host :
    (headers : List (String × String)) (has : Bool) (req : HttpRequest)
    → (fill_headers headers has req).0 ≡ (has || any_host headers)
unfolding fill_headers any_host
fill_headers-host [] has req = or_false has
fill_headers-host ((k, v) ∷ headers) has req = elim (Bool-cases (is_named (codes "connection") k)) [
  | inl e ↦ rw e (fill_headers-host headers has _)
  | inr e ↦ rw e (
      fill_headers-host headers _ (set_header k v req)
      ∙ merged has (is_named (codes "host") k) (not (same v [])) (any_host headers))
]
