-- ===== src/Http/Params.antt =====
-- htttp/http.cc: PARSE_PARAM, which reads the pairs of a query, of a form or of a Cookie header.
pub mod Ends
pub mod Rounds
pub mod Pairs
use c.Prelude.{
  ℕ, zero, suc, ◌+◌, ◌-◌, true, false, List, [], ◌∷◌, Option, none, some, ◌==◌, if◌then◌else◌,
  length, drop,
}
use c.Prelude.Text.{String}
use c.Util.{substr, trim, url_decode, blanks}
use c.Dict.{insert}
use c.Http.Order.{MapType, case_insensitive}

-- The position of a character, and str.find(c, position); none is npos.
unfoldable pub index_of : ℕ → String → Option ℕ
index_of c [] = none
index_of c (x ∷ s) =
    if x == c then some 0 else elim (index_of c s) [ none ↦ none | some i ↦ some (suc i) ]

unfoldable pub find_from : ℕ → String → ℕ → Option ℕ
find_from c str position = elim (index_of c (drop position str)) [
  | none ↦ none
  | some i ↦ some (position + i)
]

-- The key that is read between `last` and the = at `key`, and the value behind it, which ends before
-- `stop`, or with the text if that is none.
unfoldable pub param_key : String → ℕ → ℕ → String
param_key str last key = trim (substr str last (key - last)) blanks

unfoldable pub param_value : String → ℕ → Option ℕ → String
param_value str key none = url_decode (drop (key + 1) str) true
param_value str key (some stop) = url_decode (substr str (key + 1) (stop - key - 1)) true

abbrev pub insert_param : String → ℕ → ℕ → Option ℕ → MapType → MapType
insert_param str last key stop m =
    insert case_insensitive (param_key str last key) (param_value str key stop) m

-- The do loop, from `position` on; none is out of rounds.
unfoldable pub parse_loop : ℕ → String → ℕ → ℕ → MapType → Option MapType
parse_loop zero str flag position m = none
parse_loop (suc n) str flag position m = elim (find_from b'=' str position) [
  | none ↦ some m
  | some key ↦ elim (find_from flag str key) [
    | none ↦ some (insert_param str position key none m)
    | some stop ↦ parse_loop n str flag (stop + 1) (insert_param str position key (some stop) m)
  ]
]

-- Each round but the last goes past a character, so that length str + 1 rounds are enough.
unfoldable pub parse_param : String → ℕ → MapType → MapType
parse_param str flag m = elim (parse_loop (suc (length str)) str flag 0 m) [
  | none ↦ m
  | some m' ↦ m'
]
