-- ===== src/Http/Params/Pairs.antt =====
-- What PARSE_PARAM reads in a text of pairs.
use mathlib.Core.List.{append_assoc}
use c.Prelude.{
  ℕ, zero, suc, ◌≤◌, ◌≡◌, refl, ◌∙◌, ◌≢◌, true, List, [], ◌∷◌, ◌++◌, some, length, length-append,
  arith, All,
}
use c.Prelude.Text.{String}
use c.Util.{trim, blanks, url_decode}
use c.Dict.{insert}
use c.Http.Order.{MapType, case_insensitive}
use c.Http.Params.{parse_loop, parse_param}
use c.Http.Params.Rounds.{Lacks, round_more, round_last}

-- A text of pairs, the first one and the others, between which the flag stands.
unfoldable pub print : ℕ → String × String → List (String × String) → String
print flag (k, v) [] = k ++ b'=' ∷ v
print flag (k, v) (q ∷ qs) = k ++ b'=' ∷ (v ++ flag ∷ print flag q qs)

-- Each pair in turn, the keys trimmed and the values decoded.
unfoldable pub insert_all : MapType → List (String × String) → MapType
insert_all m [] = m
insert_all m ((k, v) ∷ qs) =
    insert_all (insert case_insensitive (trim k blanks) (url_decode v true) m) qs

-- No = in the key, and no flag in the value.
abbrev pub IsPair : ℕ → String × String → Type 0
IsPair flag q = Lacks b'=' q.0 × Lacks flag q.1

length-print :
    (flag : ℕ) (q : String × String) (qs : List (String × String))
    → length qs ≤ length (print flag q qs)
unfolding print
length-print flag (k, v) [] = omega arith
length-print flag (k, v) (q ∷ qs) = omega (
  arith,
  length-print flag q qs,
  length-append k (b'=' ∷ (v ++ flag ∷ print flag q qs)),
  length-append v (flag ∷ print flag q qs),
)

regroup :
    (flag : ℕ) (p k v w : String)
    → p ++ (k ++ b'=' ∷ (v ++ flag ∷ w)) ≡ (p ++ (k ++ b'=' ∷ (v ++ flag ∷ []))) ++ w
regroup flag p k v w = simp append_assoc

module _ (flag : ℕ) (not_equals : b'=' ≢ flag) where
  parse_loop-print :
      (n : ℕ) (str p : String) (q : String × String) (qs : List (String × String)) (m : MapType)
      → str ≡ p ++ print flag q qs
      → IsPair flag q
      → All (IsPair flag) qs
      → length qs ≤ n
      → parse_loop (suc n) str flag (length p) m ≡ some (insert_all m (q ∷ qs))
  unfolding print insert_all
  parse_loop-print n str p (k, v) [] m e (lk, lv) h le =
      round_last flag not_equals str p k v [] n m e lk lv
  parse_loop-print zero str p (k, v) (q ∷ qs) m e (lk, lv) h le = absurd (omega arith)
  parse_loop-print (suc n) str p (k, v) (q ∷ qs) m e (lk, lv) (hq, h) le =
      round_more flag not_equals str p k v (print flag q qs) (suc n) m e lk lv
      ∙ parse_loop-print n str (p ++ (k ++ b'=' ∷ (v ++ flag ∷ []))) q qs
          (insert case_insensitive (trim k blanks) (url_decode v true) m)
          (e ∙ regroup flag p k v (print flag q qs)) hq h (omega arith)

  -- PARSE_PARAM, for a flag other than =, reads a text of one or more pairs, key=value with the flag
  -- between two of them, no = in a key and no flag in a value: it inserts each pair in turn, its key trimmed
  -- and its value decoded, so that of the pairs with one key the first counts, and a key that the map has
  -- keeps its value.
  pub parse_param-print :
      (q : String × String) (qs : List (String × String)) (m : MapType)
      → IsPair flag q
      → All (IsPair flag) qs
      → parse_param (print flag q qs) flag m ≡ insert_all m (q ∷ qs)
  unfolding parse_param
  parse_param-print q qs m hq h =
      rw
        (
          parse_param,
          parse_loop-print (length (print flag q qs)) (print flag q qs) [] q qs m refl hq h
              (length-print flag q qs),
        )
        refl
