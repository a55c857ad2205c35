-- ===== src/Http/Request/Query.antt =====
-- The parameters that a request's query gives.

use c.Prelude.{
  ℕ, ◌<◌, ◌≡◌, refl, ap, ◌∙◌, Bool, true, false, not, List, [], ◌∷◌, ◌++◌, map, Option, none, some,
  Bool-cases, Option-cases, inl, inr, if◌then◌else◌, holds_to, holds_to_each, arith, All,
}
use mathlib.Core.List.{flat_map}
use c.Prelude.Text.{String, same}
use c.Util.{trim, blanks, url_encode, url_decode, is_among, is_unreserved, escape, hex_digit}
use c.Util.Encode.{written, url_encode-flat_map}
use c.Util.Decode.{url_decode-url_encode}
use c.Dict.{find, insert, equivalent}
use c.Dict.Laws.{find-insert, find-equivalent}
use c.Http.Order.{MapType, case_insensitive, folded, equivalent-same}
use c.Http.Params.{parse_param}
use c.Http.Params.Rounds.{Lacks}
use c.Http.Params.Pairs.{print, insert_all, IsPair, parse_param-print}
use c.Http.Request.Flags.{init_again}
use c.Http.Request.{
  HttpRequest, value_or, is_flagged, flag_set, init_query_param, init_body_param, is_form,
  get_header, get_param,
}

-- The value of the first pair that has the key, but for blanks around it and the case of letters.
unfoldable pub first_value : String → List (String × String) → Option String
first_value key [] = none
first_value key ((k, v) ∷ qs) =
    if same (folded (trim k blanks)) (folded key) then some v else first_value key qs

abbrev pub or_else : Option String → Option String → Option String
or_else none p = p
or_else (some v) p = some v

-- A pair with its value encoded.
abbrev pub encoded : String × String → String × String
encoded q = (q.0, url_encode q.1 true)

-- No & is written.
Lacks-among : (c : ℕ) (s : String) → is_among s c ≡ false → Lacks c s
unfolding is_among
Lacks-among c [] e = tt
Lacks-among c (x ∷ s) e = (ground (arith, e), Lacks-among c s (ground (arith, e)))

never_written : holds_to (λ x. not (is_among (written true x) b'&')) 255 ≡ true
unfolding holds_to is_among written is_unreserved escape hex_digit
never_written = refl

Lacks-append : (c : ℕ) (s t : String) → Lacks c s → Lacks c t → Lacks c (s ++ t)
Lacks-append c [] t hs ht = ht
Lacks-append c (x ∷ s) t (d, hs) ht = (d, Lacks-append c s t hs ht)

not-true : {b : Bool} → not b ≡ true → b ≡ false
not-true {b = true} e = absurd (cc)
not-true {b = false} e = refl

url_encode-Lacks : (v : String) → All (λ x. x < 256) v → Lacks b'&' (url_encode v true)
unfolding flat_map
url_encode-Lacks v h = rw (url_encode-flat_map v true) (all v h)
  where
    all : (v : String) → All (λ x. x < 256) v → Lacks b'&' (flat_map (written true) v)
    all [] h = tt
    all (x ∷ v) (small, h) =
        Lacks-append b'&' (written true x) (flat_map (written true) v)
          (Lacks-among b'&' (written true x) (
            not-true (
              holds_to_each (λ y. not (is_among (written true y) b'&')) 255 never_written x
                (omega (arith, small)))))
          (all v h)

-- A pair that is inserted counts if the map has no value for its key.
inserted :
    (key k v : String) (m : MapType) (p : Option String)
    → or_else (find case_insensitive key (insert case_insensitive k v m)) p
      ≡ or_else (find case_insensitive key m) (if same (folded k) (folded key) then some v else p)
inserted key k v m p =
    rw (find-insert case_insensitive key k v m, ← equivalent-same k key)
      (elim (Bool-cases (equivalent case_insensitive k key)) [
        | inr e ↦ rw e refl
        | inl e ↦
            rw (e, ← find-equivalent case_insensitive k key m e)
              (elim (Option-cases (find case_insensitive k m)) [
                | inl n ↦ rw n refl
                | inr (w, n) ↦ rw n refl
              ])
      ])

find-insert_all :
    (key : String) (qs : List (String × String)) (m : MapType)
    → All (λ q. All (λ x. x < 256) q.1) qs
    → find case_insensitive key (insert_all m (map encoded qs))
      ≡ or_else (find case_insensitive key m) (first_value key qs)
unfolding insert_all first_value
find-insert_all key [] m h = elim (Option-cases (find case_insensitive key m)) [
  | inl e ↦ rw e refl
  | inr (v, e) ↦ rw e refl
]
find-insert_all key ((k, v) ∷ qs) m (hv, h) =
    find-insert_all key qs
      (insert case_insensitive (trim k blanks) (url_decode (url_encode v true) true) m) h
    ∙ rw (url_decode-url_encode v true hv) (inserted key (trim k blanks) v m (first_value key qs))

-- A body that is no form gives no parameter.
params_kept : (r : HttpRequest) → is_form r ≡ false → (init_body_param r).params ≡ r.params
unfolding init_body_param
params_kept r b = elim (Bool-cases (is_flagged 0x2 r)) [
  | inl e ↦ rw e refl
  | inr e ↦ rw (e, b) refl
]

query_params :
    (r : HttpRequest)
    → is_flagged 0x1 r ≡ false
    → is_form r ≡ false
    → (init_body_param (init_query_param r)).params ≡ parse_param r.query b'&' r.params
unfolding init_query_param is_form get_header
query_params r f b =
    rw f (params_kept (flag_set 0x1 (record r { params = parse_param r.query b'&' r.params })) b)

-- For a request whose query is the text of one or more pairs key=value, the values encoded by UrlEncode, that
-- was not read yet, and whose body is no form: getParam(key) gives what the map of the parameters had
-- for the key before, else the value of the first pair with this key, but for blanks around the
-- pair's and the case of letters, as it was before it was encoded, and else the default. A second call
-- gives the same, and leaves the request as the first one left it.
pub get_param-query :
    (key def : String) (q : String × String) (qs : List (String × String)) (r : HttpRequest)
    → All (λ p. Lacks b'=' p.0 × All (λ x. x < 256) p.1) (q ∷ qs)
    → r.query ≡ print b'&' (encoded q) (map encoded qs)
    → is_flagged 0x1 r ≡ false
    → is_form r ≡ false
    → r.parser_param_flag < 256
    → ((get_param key def r).0
        ≡ value_or (or_else (find case_insensitive key r.params) (first_value key (q ∷ qs))) def)
      × (get_param key def (get_param key def r).1 ≡ get_param key def r)
unfolding get_param
get_param-query key def q qs r (hq, h) e f b small =
    (ap (λ o. value_or o def) given, rw (init_again r small) refl)
  where
    pair :
        (q : String × String) → (Lacks b'=' q.0 × All (λ x. x < 256) q.1) → IsPair b'&' (encoded q)
    pair q (l, s) = (l, url_encode-Lacks q.1 s)

    pairs :
        (qs : List (String × String))
        → All (λ p. Lacks b'=' p.0 × All (λ x. x < 256) p.1) qs
        → All (IsPair b'&') (map encoded qs)
    pairs [] h = tt
    pairs (q ∷ qs) (hq, h) = (pair q hq, pairs qs h)

    bytes :
        (qs : List (String × String))
        → All (λ p. Lacks b'=' p.0 × All (λ x. x < 256) p.1) qs
        → All (λ q. All (λ x. x < 256) q.1) qs
    bytes [] h = tt
    bytes (q ∷ qs) (hq, h) = (hq.1, bytes qs h)

    given :
        find case_insensitive key (init_body_param (init_query_param r)).params
        ≡ or_else (find case_insensitive key r.params) (first_value key (q ∷ qs))
    given =
        rw
          (
            query_params r f b,
            e,
            parse_param-print b'&' (λ (n : b'=' ≡ b'&'). absurd (omega (arith, n))) (encoded q)
                (map encoded qs) r.params (pair q hq) (pairs qs h),
          )
          (find-insert_all key (q ∷ qs) r.params (hq.1, bytes qs h))
