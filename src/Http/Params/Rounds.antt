-- ===== src/Http/Params/Rounds.antt =====
-- One round of PARSE_PARAM, at a pair.
use mathlib.Core.List.{append_assoc}
use c.Prelude.{
  ℕ, suc, ◌+◌, ◌-◌, ◌≡◌, refl, sym, ◌∙◌, ◌≢◌, true, [], ◌∷◌, ◌++◌, none, some, length,
  length-append, drop, drop-append, take-append, arith, All,
}
use c.Prelude.Text.{String}
use c.Util.{trim, blanks, url_decode, substr}
use c.Dict.{insert}
use c.Http.Order.{MapType, case_insensitive}
use c.Http.Params.{index_of, find_from, insert_param, param_key, param_value, parse_loop}

abbrev pub Lacks : ℕ → String → Type 0
Lacks c = All (λ x. x ≢ c)

index_of_lem : (c : ℕ) (s t : String) → Lacks c s → index_of c (s ++ c ∷ t) ≡ some (length s)
unfolding index_of
index_of_lem c [] t h = ground arith
index_of_lem c (x ∷ s) t (d, h) = ground (arith, index_of_lem c s t h)

index_of-none : (c : ℕ) (s : String) → Lacks c s → index_of c s ≡ none
unfolding index_of
index_of-none c [] h = refl
index_of-none c (x ∷ s) (d, h) = ground (arith, index_of-none c s h)

-- The parts of a text, of which the one before has n characters.
drop_lem : (str p t : String) (n : ℕ) → str ≡ p ++ t → n ≡ length p → drop n str ≡ t
drop_lem str p t n e h = rw (e, h) (drop-append p t)

substr_lem :
    (str p s t : String) (n k : ℕ)
    → str ≡ p ++ (s ++ t)
    → n ≡ length p
    → k ≡ length s
    → substr str n k ≡ s
substr_lem str p s t n k e h i = rw (drop_lem str p (s ++ t) n e h, i) (take-append s t)

find_from_lem :
    (c : ℕ) (str p s t : String) (n : ℕ)
    → str ≡ p ++ (s ++ c ∷ t)
    → n ≡ length p
    → Lacks c s
    → find_from c str n ≡ some (n + length s)
unfolding find_from
find_from_lem c str p s t n e h l =
    rw (find_from, drop_lem str p (s ++ c ∷ t) n e h, index_of_lem c s t l) refl

find_from-none :
    (c : ℕ) (str p s : String) (n : ℕ)
    → str ≡ p ++ s
    → n ≡ length p
    → Lacks c s
    → find_from c str n ≡ none
unfolding find_from
find_from-none c str p s n e h l = rw (find_from, drop_lem str p s n e h, index_of-none c s l) refl

loop_more :
    (n : ℕ) (str : String) (flag position key stop : ℕ) (m : MapType)
    → find_from b'=' str position ≡ some key
    → find_from flag str key ≡ some stop
    → parse_loop (suc n) str flag position m
      ≡ parse_loop n str flag (stop + 1) (insert_param str position key (some stop) m)
unfolding parse_loop
loop_more n str flag position key stop m e f = rw (parse_loop, e, f) refl

loop_last :
    (n : ℕ) (str : String) (flag position key : ℕ) (m : MapType)
    → find_from b'=' str position ≡ some key
    → find_from flag str key ≡ none
    → parse_loop (suc n) str flag position m ≡ some (insert_param str position key none m)
unfolding parse_loop
loop_last n str flag position key m e f = rw (parse_loop, e, f) refl

-- A pair that ends in a flag, and the last one.
module _ (flag : ℕ) (not_equals : b'=' ≢ flag) (str p k v t : String) where
  abbrev key : ℕ
  key = length p + length k

  pub round_more :
      (n : ℕ) (m : MapType)
      → str ≡ p ++ (k ++ b'=' ∷ (v ++ flag ∷ t))
      → Lacks b'=' k
      → Lacks flag v
      → parse_loop (suc n) str flag (length p) m
        ≡ parse_loop n str flag
            (length (p ++ (k ++ b'=' ∷ (v ++ flag ∷ []))))
            (insert case_insensitive (trim k blanks) (url_decode v true) m)
  unfolding param_key param_value
  round_more n m e lk lv =
      loop_more n str flag (length p) key (key + length (b'=' ∷ v)) m
        (find_from_lem b'=' str p k (v ++ flag ∷ t) (length p) e refl lk)
        (find_from_lem flag str (p ++ k) (b'=' ∷ v) t key at_key (sym (length-append p k))
          (not_equals, lv))
      ∙ rw
          (
            substr_lem str p k (b'=' ∷ (v ++ flag ∷ t)) (length p) (key - length p) e refl
                (omega arith),
            substr_lem str ((p ++ k) ++ b'=' ∷ []) v (flag ∷ t) (key + 1)
                (key + length (b'=' ∷ v) - key - 1) at_value
                (omega (arith, length-append (p ++ k) (b'=' ∷ []), length-append p k))
                (omega arith),
            behind,
          )
          refl
    where
      at_key : str ≡ (p ++ k) ++ (b'=' ∷ (v ++ flag ∷ t))
      at_key = e ∙ sym (append_assoc p k (b'=' ∷ (v ++ flag ∷ t)))

      at_value : str ≡ ((p ++ k) ++ b'=' ∷ []) ++ (v ++ flag ∷ t)
      at_value = at_key ∙ sym (append_assoc (p ++ k) (b'=' ∷ []) (v ++ flag ∷ t))

      behind : key + length (b'=' ∷ v) + 1 ≡ length (p ++ (k ++ b'=' ∷ (v ++ flag ∷ [])))
      behind = omega (
        arith,
        length-append p (k ++ b'=' ∷ (v ++ flag ∷ [])),
        length-append k (b'=' ∷ (v ++ flag ∷ [])),
        length-append v (flag ∷ []),
      )

  pub round_last :
      (n : ℕ) (m : MapType)
      → str ≡ p ++ (k ++ b'=' ∷ v)
      → Lacks b'=' k
      → Lacks flag v
      → parse_loop (suc n) str flag (length p) m
        ≡ some (insert case_insensitive (trim k blanks) (url_decode v true) m)
  unfolding param_key param_value
  round_last n m e lk lv =
      loop_last n str flag (length p) key m (find_from_lem b'=' str p k v (length p) e refl lk) (
        find_from-none flag str (p ++ k) (b'=' ∷ v) key at_key (sym (length-append p k))
          (not_equals, lv))
      ∙ rw
          (
            substr_lem str p k (b'=' ∷ v) (length p) (key - length p) e refl (omega arith),
            drop_lem str ((p ++ k) ++ b'=' ∷ []) v (key + 1)
                (at_key ∙ sym (append_assoc (p ++ k) (b'=' ∷ []) v))
                (omega (arith, length-append (p ++ k) (b'=' ∷ []), length-append p k)),
          )
          refl
    where
      at_key : str ≡ (p ++ k) ++ (b'=' ∷ v)
      at_key = e ∙ sym (append_assoc p k (b'=' ∷ v))
