-- ===== src/Http/Order.antt =====
-- htttp/http.cc: CaseInsensitiveLess, the order of the keys in MapType.
use c.Prelude.{◌≡◌, refl, ◌⊎◌, inl, inr, Bool, true, false, List, [], ◌∷◌, arith, ◌&&◌, not, ◌↔◌}
use c.Prelude.Text.{String, before, c_str, lower, same, same_iff}
use c.Dict.{Compare, equivalent}

-- MapType, in the order of its keys.
abbrev pub MapType : Type 0
MapType = List (String × String)

before_irrefl : (a : String) → before a a ≡ false
unfolding before
before_irrefl [] = refl
before_irrefl (x ∷ a) = ground (arith, before_irrefl a)

before_trans : (a b d : String) → before a b ≡ true → before b d ≡ true → before a d ≡ true
unfolding before
before_trans [] [] d e f = f
before_trans [] (y ∷ b) [] e f = f
before_trans [] (y ∷ b) (z ∷ d) e f = refl
before_trans (x ∷ a) [] d e f = absurd (cc)
before_trans (x ∷ a) (y ∷ b) [] e f = f
before_trans (x ∷ a) (y ∷ b) (z ∷ d) e f = ground (arith, before_trans a b d)

before-weak : (a b d : String) → before a d ≡ true → (before a b ≡ true) ⊎ (before b d ≡ true)
unfolding before
before-weak [] [] d e = inr e
before-weak [] (y ∷ b) d e = inl refl
before-weak (x ∷ a) b [] e = absurd (cc)
before-weak (x ∷ a) [] (z ∷ d) e = inr refl
before-weak (x ∷ a) (y ∷ b) (z ∷ d) e = ground (arith, before-weak a b d)

before-total : (a b : String) → before a b ≡ false → before b a ≡ false → a ≡ b
unfolding before
before-total [] [] e f = refl
before-total [] (y ∷ b) e f = absurd (cc)
before-total (x ∷ a) [] e f = absurd (cc)
before-total (x ∷ a) (y ∷ b) e f =
    let h : x ≡ y = ground arith in
    let t : a ≡ b = before-total a b (ground arith) (ground arith) in cc

-- What strcasecmp looks at.
unfoldable pub folded : String → String
folded s = lower (c_str s)

-- strcasecmp(lhs.c_str(), rhs.c_str()) < 0
unfoldable pub case_insensitive_less : String → String → Bool
case_insensitive_less lhs rhs = before (folded lhs) (folded rhs)

pub less_irrefl : (a : String) → case_insensitive_less a a ≡ false
unfolding case_insensitive_less
less_irrefl a = before_irrefl (folded a)

pub less_trans :
    (a b d : String)
    → case_insensitive_less a b ≡ true
    → case_insensitive_less b d ≡ true
    → case_insensitive_less a d ≡ true
unfolding case_insensitive_less
less_trans a b d = before_trans (folded a) (folded b) (folded d)

pub less-weak :
    (a b d : String)
    → case_insensitive_less a d ≡ true
    → (case_insensitive_less a b ≡ true) ⊎ (case_insensitive_less b d ≡ true)
unfolding case_insensitive_less
less-weak a b d = before-weak (folded a) (folded b) (folded d)

abbrev pub case_insensitive : Compare String
case_insensitive = record {
  less = case_insensitive_less;
  irrefl = less_irrefl;
  trans = less_trans;
  weak = less-weak;
}

pub equivalent_iff :
    (a b : String) → (equivalent case_insensitive a b ≡ true) ↔ (folded a ≡ folded b)
unfolding equivalent case_insensitive_less
equivalent_iff a b = (
  (λ e.
      let (l, r) = neither (before (folded a) (folded b)) (before (folded b) (folded a)) e in
      before-total (folded a) (folded b) l r),
  (λ e. rw (e, before_irrefl (folded b)) refl),
)
  where
    neither : (p q : Bool) → (not p && not q) ≡ true → (p ≡ false) × (q ≡ false)
    neither false false e = (refl, refl)
    neither true q e = absurd (cc)
    neither false true e = absurd (cc)

-- To the map two keys are one if they differ only in case, up to a NUL.
pub equivalent-same : (a b : String) → equivalent case_insensitive a b ≡ same (folded a) (folded b)
equivalent-same a b =
    agree (equivalent case_insensitive a b) (same (folded a) (folded b))
      (λ e. (same_iff (folded a) (folded b)).1 ((equivalent_iff a b).0 e))
      (λ e. (equivalent_iff a b).1 ((same_iff (folded a) (folded b)).0 e))
  where
    agree : (p q : Bool) → (p ≡ true → q ≡ true) → (q ≡ true → p ≡ true) → p ≡ q
    agree true q f g = cc (f refl)
    agree false true f g = g refl
    agree false false f g = refl
