-- ===== src/Http/Request/Dump.antt =====
-- The connection line of a request.
use c.Prelude.{◌≡◌, refl, true, false, not, [], ◌∷◌, Bool-cases, inl, inr, if◌then◌else◌}
use c.Prelude.Text.{String, codes, same, same_iff, c_str, lower, to_lower}
use c.Dict.{assign, equivalent}
use c.Dict.Laws.{find-assign}
use c.Http.Order.{MapType, case_insensitive, case_insensitive_less, folded, equivalent_iff}
use c.Http.Request.{HttpRequest, set_header, dump_headers, dump, init, get_header}

is_connection :
    (k key : String)
    → case_insensitive_less k key ≡ false
    → case_insensitive_less key k ≡ false
    → same (folded key) (codes "connection") ≡ true
    → same (folded k) (codes "connection") ≡ true
unfolding equivalent
is_connection k key l g e = rw ((equivalent_iff k key).0 (rw (l, g) refl)) e

-- A header of this name is not written.
dump_headers-assign :
    (key val : String) (m : MapType)
    → same (folded key) (codes "connection") ≡ true
    → dump_headers false (assign case_insensitive key val m) ≡ dump_headers false m
unfolding dump_headers assign
dump_headers-assign key val [] e = rw e refl
dump_headers-assign key val ((k, v) ∷ m) e = elim (Bool-cases (case_insensitive_less k key)) [
  | inl l ↦ rw (l, dump_headers-assign key val m e) refl
  | inr l ↦ rw l (elim (Bool-cases (case_insensitive_less key k)) [
    | inl g ↦ rw (g, e) refl
    | inr g ↦ rw (g, is_connection k key l g e) refl
  ])
]

is_name :
    (key : String)
    → same (folded key) (codes "connection") ≡ true
    → equivalent case_insensitive key (codes "connection") ≡ true
unfolding folded c_str lower to_lower
is_name key e =
    (equivalent_iff key (codes "connection")).1 ((same_iff (folded key) (codes "connection")).0 e)

-- For a request that is no websocket and a header of the name connection, in whatever case: setHeader of it
-- changes nothing that dump writes, as the connection line comes from m_close; and init then sets m_close
-- by its value, to false if that is keep-alive in whatever case, to true if it is another one, and leaves
-- it if the value is empty.
pub dump-set_header :
    (key val : String) (r : HttpRequest)
    → r.is_websocket ≡ false
    → same (folded key) (codes "connection") ≡ true
    → (dump (set_header key val r) ≡ dump r)
      × ((init (set_header key val r)).is_close
          ≡ (if same val [] then r.is_close else not (same (folded val) (codes "keep-alive"))))
unfolding dump set_header init get_header
dump-set_header key val r w e = (
  rw (w, dump_headers-assign key val r.headers e) refl,
  rw (find-assign case_insensitive (codes "connection") key val r.headers, is_name key e)
      (elim (Bool-cases (same val [])) [
        | inl n ↦ rw n refl
        | inr n ↦ rw n (elim (Bool-cases (same (folded val) (codes "keep-alive"))) [
          | inl k ↦ rw k refl
          | inr k ↦ rw k refl
        ])
      ]),
)
