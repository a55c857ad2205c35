-- ===== src/Servlet/Dispatch.antt =====
-- What the operations of a ServletDispatch do to the servlet that answers a uri.
use c.Prelude.{
  ℕ, ◌≡◌, refl, ap, ◌∙◌, Bool, false, List, [], ◌∷◌, ◌++◌, Option, none, some, if◌then◌else◌,
  Bool-cases, inl, inr,
}
use c.Prelude.Text.{String, same, same_iff, same_refl, same_differ}
use c.Servlet.{
  ServletDispatch, find, erase, assign, add_servlet, add_glob_servlet, del_servlet,
  del_glob_servlet, get_servlet, first_match, or_else, get_matched_servlet,
}

-- Each uri stands at most once.
unfoldable pub Unique : List (String × ℕ) → Type 0
Unique [] = Unit {0}
Unique (p ∷ ps) = (find p.0 ps ≡ none) × Unique ps

find-assign :
    (uri q : String) (slt : ℕ) (ps : List (String × ℕ))
    → find q (assign uri slt ps) ≡ (if same uri q then some slt else find q ps)
unfolding find assign
find-assign uri q slt [] = refl
find-assign uri q slt (p ∷ ps) = elim (Bool-cases (same p.0 uri)) [
  | inl e ↦
      rw (e, (same_iff p.0 uri).0 e)
        (elim (Bool-cases (same uri q)) [ inl k ↦ rw k refl | inr k ↦ rw k refl ])
  | inr e ↦ rw e (elim (Bool-cases (same p.0 q)) [
    | inl k ↦ rw (k, same_differ p.0 uri q e k) refl
    | inr k ↦ rw k (find-assign uri q slt ps)
  ])
]

find-erase :
    (uri q : String) (ps : List (String × ℕ))
    → Unique ps
    → find q (erase uri ps) ≡ (if same uri q then none else find q ps)
unfolding find erase Unique
find-erase uri q [] u = elim (Bool-cases (same uri q)) [ inl k ↦ rw k refl | inr k ↦ rw k refl ]
find-erase uri q (p ∷ ps) (once, u) = elim (Bool-cases (same p.0 uri)) [
  | inl e ↦
      let at : p.0 ≡ uri = (same_iff p.0 uri).0 e in
      rw (e, at)
        (elim (Bool-cases (same uri q)) [
          | inl k ↦ rw (k, ← (same_iff uri q).0 k, ← at) once
          | inr k ↦ rw k refl
        ])
  | inr e ↦ rw e (elim (Bool-cases (same p.0 q)) [
    | inl k ↦ rw (k, same_differ p.0 uri q e k) refl
    | inr k ↦ rw k (find-erase uri q ps u)
  ])
]

Unique-assign :
    (uri : String) (slt : ℕ) (ps : List (String × ℕ)) → Unique ps → Unique (assign uri slt ps)
unfolding find assign Unique
Unique-assign uri slt [] u = (refl, tt)
Unique-assign uri slt (p ∷ ps) (once, u) = elim (Bool-cases (same p.0 uri)) [
  | inl e ↦ rw e (once, u)
  | inr e ↦
      rw e (find-assign uri p.0 slt ps ∙ rw (not_same p.0 uri e) once, Unique-assign uri slt ps u)
]
  where
    not_same : (a b : String) → same a b ≡ false → same b a ≡ false
    not_same a b e = same_differ a b a e (same_refl a)

Unique-erase : (uri : String) (ps : List (String × ℕ)) → Unique ps → Unique (erase uri ps)
unfolding find erase Unique
Unique-erase uri [] u = tt
Unique-erase uri (p ∷ ps) (once, u) = elim (Bool-cases (same p.0 uri)) [
  | inl e ↦ rw e u
  | inr e ↦ rw e (find-erase uri p.0 ps u ∙ gone p.0 e, Unique-erase uri ps u)
]
  where
    gone : (a : String) → same a uri ≡ false → (if same uri p.0 then none else find p.0 ps) ≡ none
    gone a e = elim (Bool-cases (same uri p.0)) [ inl k ↦ rw k refl | inr k ↦ rw k once ]

first_match-append :
    (fnmatch : String → String → Bool) (uri : String) (ps qs : List (String × ℕ))
    → first_match fnmatch uri (ps ++ qs)
      ≡ or_else (first_match fnmatch uri ps) (first_match fnmatch uri qs)
unfolding first_match
first_match-append fnmatch uri [] qs = refl
first_match-append fnmatch uri (p ∷ ps) qs = elim (Bool-cases (fnmatch p.0 uri)) [
  | inl e ↦ rw e refl
  | inr e ↦ rw e (first_match-append fnmatch uri ps qs)
]

-- While each uri stands once in m_datas, which addServlet and delServlet keep: the servlet that answers
-- a path is, after addServlet(uri), the new one if the path is that uri, whatever the globs, and else
-- the one before; after delServlet(uri), that of the first glob that matches, or the default, if the
-- path is that uri, and else the one before; after addGlobServlet(uri), it is the new one only if no
-- exact uri and no other glob matches.
pub get_matched_servlet_lem :
    (fnmatch : String → String → Bool) (path uri : String) (slt : ℕ) (d : ServletDispatch)
    → Unique d.datas
    → (get_matched_servlet fnmatch path (add_servlet uri slt d)
        ≡ (if same uri path then some slt else get_matched_servlet fnmatch path d))
      × Unique (add_servlet uri slt d).datas
      × (get_matched_servlet fnmatch path (del_servlet uri d) ≡ (
          if same uri path
          then or_else (first_match fnmatch path d.globs) d.default
          else get_matched_servlet fnmatch path d))
      × Unique (del_servlet uri d).datas
      × (get_matched_servlet fnmatch path (add_glob_servlet uri slt d)
          ≡ or_else (get_servlet path d) (
              or_else
                (first_match fnmatch path (del_glob_servlet uri d).globs)
                (or_else (if fnmatch uri path then some slt else none) d.default)))
unfolding get_matched_servlet add_servlet del_servlet add_glob_servlet del_glob_servlet get_servlet
    first_match
get_matched_servlet_lem fnmatch path uri slt d u =
    (added, Unique-assign uri slt d.datas u, deleted, Unique-erase uri d.datas u, globbed)
  where
    added :
        or_else
          (find path (assign uri slt d.datas))
          (or_else (first_match fnmatch path d.globs) d.default)
        ≡ (if same uri path
            then some slt
            else or_else (find path d.datas) (or_else (first_match fnmatch path d.globs) d.default))
    added =
        rw (find-assign uri path slt d.datas)
          (elim (Bool-cases (same uri path)) [ inl k ↦ rw k refl | inr k ↦ rw k refl ])

    deleted :
        or_else
          (find path (erase uri d.datas))
          (or_else (first_match fnmatch path d.globs) d.default)
        ≡ (if same uri path
            then or_else (first_match fnmatch path d.globs) d.default
            else or_else (find path d.datas) (or_else (first_match fnmatch path d.globs) d.default))
    deleted =
        rw (find-erase uri path d.datas u)
          (elim (Bool-cases (same uri path)) [ inl k ↦ rw k refl | inr k ↦ rw k refl ])

    or_assoc : (a b c : Option ℕ) → or_else (or_else a b) c ≡ or_else a (or_else b c)
    or_assoc (some x) b c = refl
    or_assoc none b c = refl

    globbed :
        or_else
          (find path d.datas)
          (or_else (first_match fnmatch path (erase uri d.globs ++ (uri, slt) ∷ [])) d.default)
        ≡ or_else (find path d.datas) (
            or_else
              (first_match fnmatch path (erase uri d.globs))
              (or_else (if fnmatch uri path then some slt else none) d.default))
    globbed = ap (or_else (find path d.datas)) (
        ap (λ o. or_else o d.default)
          (first_match-append fnmatch path (erase uri d.globs) ((uri, slt) ∷ []))
        ∙ or_assoc (first_match fnmatch path (erase uri d.globs)) _ d.default)
