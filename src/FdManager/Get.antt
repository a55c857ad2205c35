-- ===== src/FdManager/Get.antt =====
-- get and del of the FdManager, alone and in two threads.
use c.Prelude.{
  ℕ, zero, suc, ◌-◌, ◌*◌, ◌/◌, ◌^◌, ◌≤◌, ◌<◌, ◌≡◌, refl, sym, ap, ◌∙◌, Bool, true, false, List, [],
  ◌∷◌, ◌++◌, Option, none, some, leb, ◌==◌, ==_iff, if◌then◌else◌, length, take, replicate, set,
  get_or, length-append, length-take, length-replicate, length-set, arith, Bool-cases, Option-cases,
  inl, inr,
}
use c.Prelude.Int.{pos, int_at_most-small}
use c.FdManager.{
  Kernel, new_ctx, FdManager, resize, found, missing, look_up, create, finish_get, get, del, done,
}

-- The address of the context of fd, or null.
abbrev pub entry : ℕ → FdManager → Option ℕ
entry fd m = get_or m.datas fd none

get_or-set :
    (ds : List (Option ℕ)) (i j : ℕ) (v : Option ℕ)
    → i < length ds
    → get_or (set ds i v) j none ≡ (if j == i then v else get_or ds j none)
get_or-set [] i j v h = absurd (omega arith)
get_or-set (d ∷ ds) zero zero v h = refl
get_or-set (d ∷ ds) zero (suc j) v h = rw (above j) refl
  where
    above : (a : ℕ) → (suc a == 0) ≡ false
    above a = ground arith
get_or-set (d ∷ ds) (suc i) zero v h = rw (below i) refl
  where
    below : (a : ℕ) → (0 == suc a) ≡ false
    below a = ground arith
get_or-set (d ∷ ds) (suc i) (suc j) v h =
    get_or-set ds i j v (omega arith) ∙ ap (λ t. if t then v else get_or ds j none) (sym (less j i))
  where
    less : (a b : ℕ) → (suc a == suc b) ≡ (a == b)
    less a b = ground arith

beyond : (ds : List (Option ℕ)) (j : ℕ) → length ds ≤ j → get_or ds j none ≡ none
beyond [] zero h = refl
beyond [] (suc j) h = refl
beyond (d ∷ ds) zero h = absurd (omega arith)
beyond (d ∷ ds) (suc j) h = beyond ds j (omega arith)

get_or-grow :
    (ds : List (Option ℕ)) (k j : ℕ) → get_or (ds ++ replicate k none) j none ≡ get_or ds j none
get_or-grow [] zero j = refl
get_or-grow [] (suc k) zero = refl
get_or-grow [] (suc k) (suc j) = get_or-grow [] k j ∙ beyond [] j (omega arith) ∙ refl
get_or-grow (d ∷ ds) k zero = refl
get_or-grow (d ∷ ds) k (suc j) = get_or-grow ds k j

take_all : (n : ℕ) (ds : List (Option ℕ)) → length ds ≤ n → take n ds ≡ ds
take_all zero [] h = refl
take_all (suc n) [] h = refl
take_all zero (d ∷ ds) h = absurd (omega arith)
take_all (suc n) (d ∷ ds) h = ap (◌∷◌ d) (take_all n ds (omega arith))

-- The vector as create finds it: long enough, and with the same entries.
abbrev room : ℕ → List (Option ℕ) → List (Option ℕ)
room fd ds = if leb (length ds) fd then resize (fd * 3 / 2) ds else ds

room-fits : (fd : ℕ) (ds : List (Option ℕ)) → 64 ≤ length ds → fd < length (room fd ds)
unfolding resize
room-fits fd ds h = elim (Bool-cases (leb (length ds) fd)) [
  | inr e ↦ rw e (ground (arith, e))
  | inl e ↦ rw e (
      let le : length ds ≤ fd = ground (arith, e) in
      omega (
        arith,
        h,
        le,
        length-append (take (fd * 3 / 2) ds)
            (replicate {A = Option ℕ} (fd * 3 / 2 - length ds) none),
        length-take (fd * 3 / 2) ds,
        length-replicate {A = Option ℕ} (fd * 3 / 2 - length ds) none,
      ))
]

room-entries :
    (fd j : ℕ) (ds : List (Option ℕ))
    → 64 ≤ length ds
    → get_or (room fd ds) j none ≡ get_or ds j none
unfolding resize
room-entries fd j ds h = elim (Bool-cases (leb (length ds) fd)) [
  | inr e ↦ rw e refl
  | inl e ↦
      let le : length ds ≤ fd = ground (arith, e) in
      rw (e, take_all (fd * 3 / 2) ds (omega (arith, h, le)))
        (get_or-grow ds (fd * 3 / 2 - length ds) j)
]

room-length : (fd : ℕ) (ds : List (Option ℕ)) → 64 ≤ length ds → 64 ≤ length (room fd ds)
room-length fd ds h = elim (Bool-cases (leb (length ds) fd)) [
  | inr e ↦ rw e h
  | inl e ↦ let le : length ds ≤ fd = ground (arith, e) in omega (arith, room-fits fd ds h, h, le)
]

room-IsInt :
    (fd : ℕ) (ds : List (Option ℕ))
    → length ds < 2 ^ 31
    → fd * 3 / 2 < 2 ^ 31
    → length (room fd ds) < 2 ^ 31
unfolding resize
room-IsInt fd ds few int = elim (Bool-cases (leb (length ds) fd)) [
  | inr e ↦ rw e few
  | inl e ↦ rw e (
      omega (
        arith,
        int,
        few,
        length-append (take (fd * 3 / 2) ds)
            (replicate {A = Option ℕ} (fd * 3 / 2 - length ds) none),
        length-take (fd * 3 / 2) ds,
        length-replicate {A = Option ℕ} (fd * 3 / 2 - length ds) none,
      ))
]

-- After create, in the state m'.
pub record IsCreated (k : Kernel) (p fd : ℕ) (m m' : FdManager) : Type 0 where
  pub long : 64 ≤ length m'.datas
  pub few : length m'.datas < 2 ^ 31
  pub entries : (j : ℕ) → entry j m' ≡ (if j == fd then some p else entry j m)
  pub objects : (q : ℕ) → m'.object q ≡ (if q == p then new_ctx k fd else m.object q)

create-IsCreated :
    (k : Kernel) (p fd : ℕ) (m : FdManager)
    → 64 ≤ length m.datas
    → length m.datas < 2 ^ 31
    → fd * 3 / 2 < 2 ^ 31
    → (m' : FdManager) × (create k p fd m ≡ done m') × IsCreated k p fd m m'
unfolding create
create-IsCreated k p fd m h few int = (
  record {
    datas = set (room fd m.datas) fd (some p);
    object = λ q. if q == p then new_ctx k fd else m.object q;
  },
  rw (int_at_most-small (length m.datas) fd few, fits (room fd m.datas) (room-fits fd m.datas h))
      refl,
  record {
    long = omega (arith, room-length fd m.datas h, length-set (room fd m.datas) fd (some p));
    few = omega (arith, room-IsInt fd m.datas few int, length-set (room fd m.datas) fd (some p));
    entries = λ j.
        get_or-set (room fd m.datas) fd j (some p) (room-fits fd m.datas h)
        ∙ ap (λ x. if j == fd then some p else x) (room-entries fd j m.datas h);
    objects = λ q. refl;
  },
)
  where
    fits : (ds : List (Option ℕ)) → fd < length ds → leb (length ds) fd ≡ false
    fits ds l = ground arith

-- What get(fd, auto_create) returns, and leaves behind.
module _ (k : Kernel) (p fd : ℕ) (m : FdManager) (few : length m.datas < 2 ^ 31) where
  look_up-entry :
      (auto_create : Bool) (o : Option ℕ)
      → entry fd m ≡ o
      → look_up fd auto_create m
        ≡ elim o [ some q ↦ found (some q) | none ↦ if auto_create then missing else found none ]
  unfolding look_up
  look_up-entry auto_create o e = elim (Bool-cases (leb (length m.datas) fd)) [
    | inl short ↦
        rw
          (
            int_at_most-small (length m.datas) fd few,
            short,
            ← e,
            beyond m.datas fd (ground (arith, short)),
          )
          refl
    | inr inside ↦ rw (int_at_most-small (length m.datas) fd few, inside, e) refl
  ]

del_null :
    (k : Kernel) (p fd : ℕ) (m : FdManager)
    → 64 ≤ length m.datas
    → length m.datas < 2 ^ 31
    → (m' : FdManager) × (del (pos fd) m ≡ done m')
      × (get k p (pos fd) false m' ≡ done (m', none))
      × (64 ≤ length m'.datas)
      × (length m'.datas < 2 ^ 31)
unfolding del get finish_get
del_null k p fd m l few = elim (Bool-cases (leb (length m.datas) fd)) [
  | inl short ↦ (
    m,
    rw (int_at_most-small (length m.datas) fd few, short) refl,
    rw (look_up-entry k p fd m few false none (beyond m.datas fd (ground (arith, short)))) refl,
    l,
    few,
  )
  | inr inside ↦
      let m' : FdManager = record m { datas = set m.datas fd none } in
      let l' : 64 ≤ length m'.datas = omega (arith, l, length-set m.datas fd none) in
      let few' : length m'.datas < 2 ^ 31 = omega (arith, few, length-set m.datas fd none) in
      let gone : entry fd m' ≡ none =
        get_or-set m.datas fd fd none (ground (arith, inside)) ∙ rw ((==_iff fd fd).1 refl) refl in
      (
        m',
        rw (int_at_most-small (length m.datas) fd few, inside) refl,
        rw (look_up-entry k p fd m' few' false none gone) refl,
        l',
        few',
      )
]

unfoldable pub or_new : Option ℕ → ℕ → ℕ
or_new none p = p
or_new (some q) p = q

-- With a vector of 64 entries or more, as the constructor makes it, and fewer than 2^31, and for an
-- fd with fd * 3 / 2 below 2^31, so that the vector keeps an int's length: get(fd, true) returns a
-- context, the one that is there or else a new one, and touches no other entry. Until del(fd), each
-- get(fd) then returns that same context and changes nothing; after it, get(fd, false) returns null.
pub get_lem :
    (k : Kernel) (p p' fd : ℕ) (auto_create : Bool) (m : FdManager)
    → 64 ≤ length m.datas
    → length m.datas < 2 ^ 31
    → fd * 3 / 2 < 2 ^ 31
    → (m1 m2 : FdManager) × (get k p (pos fd) true m ≡ done (m1, some (or_new (entry fd m) p)))
      × ((j : ℕ) → entry j m1 ≡ (if j == fd then some (or_new (entry fd m) p) else entry j m))
      × (get k p' (pos fd) auto_create m1 ≡ done (m1, some (or_new (entry fd m) p)))
      × (del (pos fd) m1 ≡ done m2)
      × (get k p' (pos fd) false m2 ≡ done (m2, none))
      × (64 ≤ length m2.datas)
      × (length m2.datas < 2 ^ 31)
unfolding get finish_get or_new
get_lem k p p' fd auto_create m long few int = elim (Option-cases (entry fd m)) [
  | inr (q, e) ↦
      let (m2, d, n, l, f) = deleted m long few in
      (
        m,
        m2,
        rw (look_up-entry k p fd m few true (some q) e, e) refl,
        (λ j. same j q e),
        rw (look_up-entry k p fd m few auto_create (some q) e, e) refl,
        d,
        n,
        l,
        f,
      )
  | inl e ↦
      let (m1, c, i) = create-IsCreated k p fd m long few int in
      let here : entry fd m1 ≡ some p = i.entries fd ∙ rw ((==_iff fd fd).1 refl) refl in
      let (m2, d, n, l, f) = deleted m1 i.long i.few in
      (
        m1,
        m2,
        rw (look_up-entry k p fd m few true none e, c, e) refl,
        (λ j. i.entries j ∙ rw e refl),
        rw (look_up-entry k p fd m1 i.few auto_create (some p) here, e) refl,
        d,
        n,
        l,
        f,
      )
]
  where
    same :
        (j q : ℕ)
        → entry fd m ≡ some q
        → entry j m ≡ (if j == fd then some (or_new (entry fd m) p) else entry j m)
    same j q e = elim (Bool-cases (j == fd)) [
      | inr ne ↦ rw ne refl
      | inl eq ↦ rw (eq, e, (==_iff j fd).0 eq) e
    ]

    deleted :
        (m1 : FdManager)
        → 64 ≤ length m1.datas
        → length m1.datas < 2 ^ 31
        → (m2 : FdManager) × (del (pos fd) m1 ≡ done m2)
          × (get k p' (pos fd) false m2 ≡ done (m2, none))
          × (64 ≤ length m2.datas)
          × (length m2.datas < 2 ^ 31)
    deleted m1 l = del_null k p' fd m1 l

-- With a vector of 64 entries or more and fewer than 2^31, for an fd with fd * 3 / 2 below 2^31: two threads that call get(fd, true) while there is no
-- context for fd, and both look before either of them creates, each make a context, and the
-- manager keeps only the second. The first thread holds a context that the manager does not know.
pub look_up-create :
    (k : Kernel) (p q fd : ℕ) (m : FdManager)
    → 64 ≤ length m.datas
    → length m.datas < 2 ^ 31
    → fd * 3 / 2 < 2 ^ 31
    → entry fd m ≡ none
    → (m1 m2 : FdManager) × (finish_get k p fd m (look_up fd true m) ≡ done (m1, some p))
      × (entry fd m1 ≡ some p)
      × (finish_get k q fd m1 (look_up fd true m) ≡ done (m2, some q))
      × (entry fd m2 ≡ some q)
unfolding finish_get
look_up-create k p q fd m long few int e =
    let (m1, c1, i1) = create-IsCreated k p fd m long few int in
    let (m2, c2, i2) = create-IsCreated k q fd m1 i1.long i1.few int in
    let missed = look_up-entry k p fd m few true none e in
    (
      m1,
      m2,
      rw (missed, c1) refl,
      i1.entries fd ∙ rw ((==_iff fd fd).1 refl) refl,
      rw (missed, c2) refl,
      i2.entries fd ∙ rw ((==_iff fd fd).1 refl) refl,
    )
