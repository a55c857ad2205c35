-- ===== src/Http/Params/Ends.antt =====
-- The loop of PARSE_PARAM ends, and keeps the map in order.
use c.Prelude.{
  ℕ, zero, suc, ◌+◌, ◌-◌, ◌<◌, ◌≤◌, ◌≡◌, refl, [], ◌∷◌, none, some, length, drop, length-drop,
  arith, Option-cases, inl, inr,
}
use c.Prelude.Text.{String}
use c.Dict.Laws.{IsSorted}
use c.Dict.Order.{insert-IsSorted}
use c.Http.Order.{MapType, case_insensitive}
use c.Http.Params.{
  index_of, find_from, insert_param, param_key, param_value, parse_loop, parse_param,
}

index_of-lt : (c : ℕ) (s : String) (i : ℕ) → index_of c s ≡ some i → i < length s
unfolding index_of
index_of-lt c [] i e = absurd (cc)
index_of-lt c (x ∷ s) i e = ground (arith, index_of-lt c s (i - 1))

find_from-bounds :
    (c : ℕ) (s : String) (p i : ℕ) → find_from c s p ≡ some i → (p ≤ i) × (i < length s)
unfolding find_from
find_from-bounds c s p i e = elim (Option-cases (index_of c (drop p s))) [
  | inl h ↦ absurd (cc (rw (find_from, h) at e))
  | inr (j, h) ↦
      let le = index_of-lt c (drop p s) j h in
      let at : p + j ≡ i = cc (rw (find_from, h) at e) in
      (omega arith, omega (arith, length-drop p s))
]

-- Enough rounds are those by which the text goes on behind the position.
pub parse_loop-ends :
    (n : ℕ) (str : String) (flag position : ℕ) (m : MapType)
    → length str - position < n
    → IsSorted case_insensitive m
    → (m' : MapType) × (parse_loop n str flag position m ≡ some m') × IsSorted case_insensitive m'
unfolding parse_loop
parse_loop-ends zero str flag p m h s = absurd (omega arith)
parse_loop-ends (suc n) str flag p m h s = elim (Option-cases (find_from b'=' str p)) [
  | inl e ↦ (m, rw (parse_loop, e) refl, s)
  | inr (key, e) ↦ elim (Option-cases (find_from flag str key)) [
    | inl f ↦ (
      insert_param str p key none m,
      rw (parse_loop, e, f) refl,
      insert-IsSorted case_insensitive (param_key str p key) (param_value str key none) m s,
    )
    | inr (stop, f) ↦
        let (low, k) = find_from-bounds b'=' str p key e in
        let (up, l) = find_from-bounds flag str key stop f in
        let (m', r, t) =
          parse_loop-ends n str flag (stop + 1) (insert_param str p key (some stop) m) (omega arith)
            (insert-IsSorted case_insensitive (param_key str p key)
              (param_value str key (some stop)) m s) in
        (m', rw (parse_loop, e, f) r, t)
  ]
]

-- PARSE_PARAM ends on every text and for every flag: of length str + 1 rounds of its loop one is the last,
-- the map that this leaves is what PARSE_PARAM gives, and it is in the order of its keys if it was so
-- before.
pub parse_param-ends :
    (str : String) (flag : ℕ) (m : MapType)
    → IsSorted case_insensitive m
    → (parse_loop (suc (length str)) str flag 0 m ≡ some (parse_param str flag m))
      × IsSorted case_insensitive (parse_param str flag m)
unfolding parse_param
parse_param-ends str flag m s =
    given (parse_loop-ends (suc (length str)) str flag 0 m (omega arith) s)
  where
    given :
        (m' : MapType) × (parse_loop (suc (length str)) str flag 0 m ≡ some m')
          × IsSorted case_insensitive m'
        → (parse_loop (suc (length str)) str flag 0 m ≡ some (parse_param str flag m))
          × IsSorted case_insensitive (parse_param str flag m)
    given (m', e, t) = (rw (parse_param, e) refl, rw (parse_param, e) t)
