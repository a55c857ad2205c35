-- ===== src/Timer/Expire.antt =====
-- listExpiredCb as a whole: whose callbacks it returns, and what it leaves in the set.
use c.Prelude.{
  ℕ, ◌≡◌, refl, sym, ◌∙◌, ◌≢◌, Bool, true, false, not, ◌||◌, ◌&&◌, inl, inr, List, [], ◌∷◌, ◌++◌,
  ◌↔◌, ◌⊎◌, ◌+◌, ◌-◌, ◌^◌, ltb, ltb→lt, leb, if◌then◌else◌, arith, Bool-cases, ◌<◌, ◌≤◌, Option,
  All, map,
}
use mathlib.Core.List.{append-nil}
use native.Mathlib.Nat.{mod-eq_of_lt}
use c.SortedSet.Order.{elem, Sorted, elem-append, All-of_elem, elem-All}
use c.SortedSet.Bounds.{
  keep, keep-split, keep-none, All-imp, Sorted-drop, Distinct, Sorted-Distinct, Distinct-append,
}
use c.Timer.{
  Timer, TimerManager, Callback, less, split_expired, fire_all, detect_clock_rollover,
  list_expired_cb, begin_later, is_empty, u64,
}
use c.Timer.Order.{less-IsStrictOrder, less-next}
use c.Timer.Preserve.{Valid}
use c.Timer.Split.{IsSplit, split_expired-IsSplit}
use c.Timer.Fire.{
  fired, IsPending, fire_all-IsPending, IsPending-IsValid, fire_all-object, fire_all-elem,
  fire_all-cbs,
}

-- The timers that are to fire: all after a rollover of the clock, else those whose time has come.
abbrev pub is_due : ℕ → Bool → TimerManager → ℕ → Bool
is_due now rollover m p = rollover || leb (m.object p).next now

abbrev pub due : ℕ → Bool → TimerManager → List ℕ
due now rollover m = keep (is_due now rollover m) m.timers

-- The result r of firing the due timers of m.
pub record Expired (now : ℕ) (rollover : Bool) (m : TimerManager)
    (r : TimerManager × List (Option Callback)) : Type 0 where
  pub valid : Valid r.0
  pub cbs : r.1 ≡ map (λ p. (m.object p).cb) (due now rollover m)
  pub stays :
      (q : ℕ)
      → elem q r.0.timers
        ≡ (elem q m.timers && (not (is_due now rollover m q) || (m.object q).recurring))
  pub changed :
      (q : ℕ)
      → r.0.object q ≡ (if elem q (due now rollover m) then fired now (m.object q) else m.object q)

module _ (now : ℕ) (m : TimerManager) (v : Valid m) (xs ys : List ℕ)
    (whole : xs ++ ys ≡ m.timers) where
  both : Distinct xs × All (λ x. elem x ys ≡ false) xs
  both =
      Distinct-append xs ys
        (rw whole (Sorted-Distinct (less m.object) (less-IsStrictOrder m.object) m.timers v.sorted))

  in_set : (q : ℕ) → elem q m.timers ≡ (elem q xs || elem q ys)
  in_set q = rw (← whole) (elem-append q xs ys)

  taken-IsPending : IsPending xs m.object ys
  taken-IsPending = record {
    sorted = Sorted-drop (less m.object) xs ys (rw whole v.sorted);
    live = λ q e. sym (in_set q) ∙ v.live q e;
    no_null = ground (arith, in_set 0, v.no_null);
    no_null_pending = ground (arith, in_set 0, v.no_null);
    bounded = λ q e. v.bounded q (ground (arith, in_set q, e));
    distinct = both.0;
    apart = λ q e. elem-All (λ x. elem x ys ≡ false) q xs both.1 e;
  }

  fired-Expired :
      (rollover : Bool) (m' : TimerManager)
      → m'.object ≡ m.object
      → m'.timers ≡ ys
      → All (λ p. is_due now rollover m p ≡ true) xs
      → All (λ p. is_due now rollover m p ≡ false) ys
      → Expired now rollover m (fire_all now xs m')
  fired-Expired rollover m' eo et dx dy = record {
    valid = IsPending-IsValid _ _ (fire_all-IsPending now xs m' (rw (eo, et) taken-IsPending));
    cbs = fire_all-cbs now xs m' both.0 ∙ rw (eo, these) refl;
    stays = λ q.
        fire_all-elem now q xs m' both.0
        ∙ rw (eo, et, in_set q)
            (elim (Bool-cases (elem q xs)) [
              | inl e ↦
                  rw
                    (
                      e,
                      elem-All (λ p. is_due now rollover m p ≡ true) q xs dx e,
                      elem-All (λ x. elem x ys ≡ false) q xs both.1 e,
                    )
                    (ground arith)
              | inr e ↦ rw e (elim (Bool-cases (elem q ys)) [
                | inl k ↦ rw (k, elem-All (λ p. is_due now rollover m p ≡ false) q ys dy k) refl
                | inr k ↦ rw k refl
              ])
            ]);
    changed = λ q. fire_all-object now q xs m' both.0 ∙ rw (eo, these) refl;
  }
    where
      these : due now rollover m ≡ xs
      these = rw (← whole) (keep-split (is_due now rollover m) xs ys dx dy)

is_empty-nil : (ts : List ℕ) → is_empty ts ≡ true → ts ≡ []
unfolding is_empty
is_empty-nil [] e = refl
is_empty-nil (p ∷ ps) e = cc

-- Nothing is due: nothing changes.
none-Expired :
    (now : ℕ) (rollover : Bool) (m m' : TimerManager)
    → Valid m
    → m'.object ≡ m.object
    → m'.timers ≡ m.timers
    → All (λ p. is_due now rollover m p ≡ false) m.timers
    → Expired now rollover m (m', [])
none-Expired now rollover m m' v eo et h = record {
  valid = rw (eo, et) v;
  cbs = rw nothing refl;
  stays = λ q. rw et (elim (Bool-cases (elem q m.timers)) [
    | inl e ↦ rw (e, elem-All (λ p. is_due now rollover m p ≡ false) q m.timers h e) refl
    | inr e ↦ rw e refl
  ]);
  changed = λ q. rw (eo, nothing) refl;
}
  where
    nothing : due now rollover m ≡ []
    nothing = keep-none (is_due now rollover m) m.timers h

-- If the first timer is later, all are.
pub begin_later-All :
    (now : ℕ) (o : ℕ → Timer) (ts : List ℕ)
    → Sorted (less o) ts
    → elem 0 ts ≡ false
    → begin_later now o ts ≡ true
    → All (λ p. now < (o p).next) ts
unfolding begin_later
begin_later-All now o [] s z e = tt
begin_later-All now o (p ∷ ps) (below, s) z e = (
  ground arith,
  All-imp (λ a. less o p a ≡ true) (λ a. now < (o a).next) ps
      (λ a ea b.
        ground (arith, less-next o p a (λ q. ground (arith, q)) b (λ q. ground (arith, q))))
      below,
)

pub later-not_due :
    (now : ℕ) (m : TimerManager) (ts : List ℕ)
    → All (λ p. now < (m.object p).next) ts
    → All (λ p. is_due now false m p ≡ false) ts
later-not_due now m ts =
    All-imp (λ p. now < (m.object p).next) (λ p. is_due now false m p ≡ false) ts
      (λ a e h. ground arith)

due-is_due :
    (now : ℕ) (m : TimerManager) (ts : List ℕ)
    → All (λ p. (m.object p).next ≤ now) ts
    → All (λ p. is_due now false m p ≡ true) ts
due-is_due now m ts =
    All-imp (λ p. (m.object p).next ≤ now) (λ p. is_due now false m p ≡ true) ts
      (λ a e h. ground arith)

-- The clock was put back: by more than an hour, or by less, from a time below an hour on, where the
-- subtraction of an hour wraps.
abbrev pub IsPutBack : ℕ → TimerManager → Type 0
IsPutBack now m =
    (now < m.previouse_time) × ((m.previouse_time < 3600000) ⊎ (now + 3600000 < m.previouse_time))

abbrev pub rolled : ℕ → TimerManager → Bool
rolled now m = (detect_clock_rollover now m).1

wrapped : (p : ℕ) → p < 3600000 → u64 (p + 2 ^ 64 - 3600000) ≡ p + 2 ^ 64 - 3600000
wrapped p h = mod-eq_of_lt (omega (arith, h))

back_by_hour : (p : ℕ) → 3600000 ≤ p → p < 2 ^ 64 → u64 (p + 2 ^ 64 - 3600000) ≡ p - 3600000
back_by_hour p h l = omega (arith, h, l)

rolled-IsPutBack :
    (now : ℕ) (m : TimerManager)
    → m.previouse_time < 2 ^ 64
    → (rolled now m ≡ true) ↔ IsPutBack now m
unfolding detect_clock_rollover
rolled-IsPutBack now m h = elim (Bool-cases (ltb m.previouse_time 3600000)) [
  | inl small ↦
      let l = ltb→lt m.previouse_time 3600000 small in
      rw (wrapped m.previouse_time l) ((λ e. ground (arith, l)), (λ b. ground (arith, l, b.0)))
  | inr large ↦
      let l : 3600000 ≤ m.previouse_time = ground (arith, large) in
      rw (back_by_hour m.previouse_time l h) ((λ e. ground (arith, l)), (λ b. ground (arith, l, b)))
]

module _ (now q : ℕ) (m : TimerManager) (v : Valid m) (qz : q ≢ 0)
    (fresh : elem q m.timers ≡ false) where
  m' : TimerManager
  m' = record m { previouse_time = now }

  fire_rolled : Expired now true m (
      fire_all now
        (split_expired now q true m').0
        (record m' { timers = (split_expired now q true m').1 }))
  unfolding split_expired m'
  fire_rolled =
      fired-Expired now m v m.timers [] (append-nil m.timers) true (record m' { timers = [] }) refl
        refl (All-of_elem _ m.timers (λ a e. refl)) tt

  fire_due : Expired now false m (
      fire_all now
        (split_expired now q false m').0
        (record m' { timers = (split_expired now q false m').1 }))
  unfolding m'
  fire_due =
      let s : IsSplit now m' (split_expired now q false m').0 (split_expired now q false m').1 =
        split_expired-IsSplit now q m' v qz fresh in
      fired-Expired now m v _ _ s.whole false _ refl refl (due-is_due now m _ s.due)
        (later-not_due now m _ s.later)

  pub list_expired_cb-Expired : Expired now (rolled now m) m (list_expired_cb now q m)
  unfolding list_expired_cb m'
  list_expired_cb-Expired = elim (Bool-cases (is_empty m.timers)) [
    | inl e ↦ rw e (none-Expired now _ m m v refl refl (rw (is_empty-nil m.timers e) tt))
    | inr e ↦ rw e (elim (Bool-cases (rolled now m)) [
      | inl r ↦ rw r fire_rolled
      | inr r ↦ rw r (elim (Bool-cases (begin_later now m.object m.timers)) [
        | inl b ↦ rw b (
            none-Expired now false m m' v refl refl (
              later-not_due now m m.timers
                (begin_later-All now m.object m.timers v.sorted v.no_null b)))
        | inr b ↦ rw b fire_due
      ])
    ])
  ]

  -- listExpiredCb, with now_timer at a fresh address q: it returns, in the order of the set, the
  -- callbacks of the timers whose time has come, or of all if the clock was put back; of these the
  -- recurring ones stay in the set with their next time at now + period, modulo 2 ^ 64, and the
  -- others leave it without a callback; no other timer changes; and the manager stays valid. The
  -- clock was put back when it stands more than 3600000 ms before the last look at it, or before
  -- that look at all, if that was at less than 3600000 ms.
  pub list_expired_cb_lem :
      m.previouse_time < 2 ^ 64
      → (rollover : Bool) × ((rollover ≡ true) ↔ IsPutBack now m)
        × Expired now rollover m (list_expired_cb now q m)
  list_expired_cb_lem h = (rolled now m, rolled-IsPutBack now m h, list_expired_cb-Expired)
