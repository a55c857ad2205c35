-- ===== src/Http/Request/Headers.antt =====
-- What a request's and a response's headers are after each operation.
use c.Prelude.{◌≡◌, refl, Bool-cases, inl, inr, if◌then◌else◌, Option, none, some}
use c.Prelude.Text.{String, same}
use c.Dict.{find, equivalent}
use c.Dict.Laws.{find-assign, find-erase, IsSorted}
use c.Dict.Order.{assign-IsSorted, erase-IsSorted}
use c.Http.Order.{case_insensitive, folded, equivalent-same}
use c.Http.Request.{HttpRequest, value_or, get_header, set_header, del_header}

-- A default goes into a conditional.
value_or-if :
    (key q : String) (o p : Option String) (def : String)
    → value_or (if equivalent case_insensitive key q then o else p) def
      ≡ (if same (folded key) (folded q) then value_or o def else value_or p def)
value_or-if key q o p def =
    rw (equivalent-same key q)
      (elim (Bool-cases (same (folded key) (folded q))) [ inl e ↦ rw e refl | inr e ↦ rw e refl ])

-- For a request with its headers in order, after setHeader(key, val) the header q is val if q is the key
-- but for the case of letters, and what it was otherwise; after delHeader(key) it is the default, or what
-- it was. Both leave the headers in order.
pub get_header_lem :
    (key q val def : String) (r : HttpRequest)
    → IsSorted case_insensitive r.headers
    → (get_header q def (set_header key val r)
        ≡ (if same (folded key) (folded q) then val else get_header q def r))
      × IsSorted case_insensitive (set_header key val r).headers
      × (get_header q def (del_header key r)
          ≡ (if same (folded key) (folded q) then def else get_header q def r))
      × IsSorted case_insensitive (del_header key r).headers
unfolding get_header set_header del_header
get_header_lem key q val def r s = (
  rw (find-assign case_insensitive q key val r.headers)
      (value_or-if key q (some val) (find case_insensitive q r.headers) def),
  assign-IsSorted case_insensitive key val r.headers s,
  rw (find-erase case_insensitive q key r.headers s)
      (value_or-if key q none (find case_insensitive q r.headers) def),
  erase-IsSorted case_insensitive key r.headers s,
)
