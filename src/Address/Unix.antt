-- ===== src/Address/Unix.antt =====
-- UnixAddress: the path of a socket in the file system, or a name after a NUL.
use c.Prelude.{
  Bool-cases, inl, inr, ◌∙◌, ap, take-append, ℕ, suc, ◌+◌, ◌-◌, ◌%◌, ◌^◌, ◌<◌, true, false, ◌&&◌,
  List, [], ◌∷◌, ◌++◌, Option, none, some, ltb, ◌==◌, if◌then◌else◌, length, take, drop, get_or,
  replicate, ◌≡◌, refl, arith, ap, ◌∙◌,
}
use native.Mathlib.Nat.{mod-eq_of_lt}
use mathlib.Core.List.{append_assoc}
use mathlib.Core.Option.{map as map_option}
use c.Prelude.Text.{String, codes, c_str}

-- m_addr.sun_path, all of its bytes, and m_length.
pub record UnixAddress : Type 0 where
  pub sun_path : List ℕ
  pub length : ℕ

-- sizeof(sun_path) and its offset in sockaddr_un, on Linux.
abbrev pub path_size : ℕ
path_size = 108

abbrev pub path_offset : ℕ
path_offset = 2

-- m_length, a number of 32 bits: path.size() + 1, less 1 for a name after a NUL.
unfoldable pub name_length : String → ℕ
name_length [] = 1
name_length (c ∷ s) =
    let n = suc (suc (length s)) % 2 ^ 32 in if c == 0 then (n + 2 ^ 32 - 1) % 2 ^ 32 else n

-- UnixAddress::UnixAddress(path): none is the throw of a std::logic_error.
unfoldable pub unix_address : String → Option UnixAddress
unix_address path =
    let n = name_length path in
    if ltb path_size n
    then none
    else some (record {
      sun_path = take n (path ++ 0 ∷ []) ++ replicate (path_size - n) 0;
      length = n + path_offset;
    })

-- getPath
unfoldable pub get_path : UnixAddress → String
get_path a =
    if ltb path_offset a.length && get_or a.sun_path 0 0 == 0
    then codes "\\0" ++ take (a.length - path_offset - 1) (drop 1 a.sun_path)
    else c_str a.sun_path

-- The text of a path: a name after a NUL, and no path at all, are shown after \0.
unfoldable pub printed : String → String
printed [] = codes "\\0"
printed (c ∷ s) = if c == 0 then codes "\\0" ++ s else c_str (c ∷ s)

take_all {ℓ} : {A : Type ℓ} → (xs : List A) → take (length xs) xs ≡ xs
take_all [] = refl
take_all (x ∷ xs) = ap (x ∷◌) (take_all xs)

c_str-append : (xs ys : String) → c_str (xs ++ 0 ∷ ys) ≡ c_str xs
unfolding c_str
c_str-append [] ys = refl
c_str-append (x ∷ xs) ys = elim (Bool-cases (x == 0)) [
  | inl h ↦ rw h refl
  | inr h ↦ rw (h, c_str-append xs ys) refl
]

-- The bytes of a path, with the NUL that ends it unless it starts with one.
unfoldable pub needed : String → ℕ
needed [] = 1
needed (c ∷ s) = if c == 0 then suc (length s) else suc (suc (length s))

name_length-needed : (path : String) → suc (length path) < 2 ^ 32 → name_length path ≡ needed path
unfolding name_length needed
name_length-needed [] h = refl
name_length-needed (c ∷ s) h =
    let same : suc (suc (length s)) % 2 ^ 32 ≡ suc (suc (length s)) = mod-eq_of_lt h in
    let less : (suc (suc (length s)) + 2 ^ 32 - 1) % 2 ^ 32 ≡ suc (length s) = omega (arith, h) in
    rw (same, less) refl

longer : (n : ℕ) → ltb path_offset (suc n + path_offset) ≡ true
longer n = ground arith

-- The name after a NUL, without the bytes after it.
name_kept : (s pad : String) → take (length s) (take (length s) (s ++ 0 ∷ []) ++ pad) ≡ s
name_kept s pad = ap (λ p. take (length s) (p ++ pad)) (take-append s (0 ∷ [])) ∙ take-append s pad

-- The path of a file, with the NUL after it.
path_kept : (s : String) → take (suc (length s)) (s ++ 0 ∷ []) ≡ s ++ 0 ∷ []
path_kept [] = refl
path_kept (c ∷ s) = ap (c ∷◌) (path_kept s)

c_str-take : (s pad : String) → c_str (take (suc (length s)) (s ++ 0 ∷ []) ++ pad) ≡ c_str s
c_str-take s pad =
    ap (λ p. c_str (p ++ pad)) (path_kept s)
    ∙ ap c_str (append_assoc s (0 ∷ []) pad)
    ∙ c_str-append s pad

get_path-name :
    (c : ℕ)
    → (s pad : String) → c == 0 ≡ true
    → get_path (record {
      sun_path = c ∷ (take (length s) (s ++ 0 ∷ []) ++ pad);
      length = suc (length s) + path_offset;
    })
      ≡ codes "\\0" ++ s
unfolding get_path
get_path-name c s pad e =
    let rest : suc (length s) + path_offset - path_offset - 1 ≡ length s = omega arith in
    rw (longer (length s), e, rest, name_kept s pad) refl

get_path-file :
    (c : ℕ)
    → (s pad : String) → c == 0 ≡ false
    → get_path (record {
      sun_path = c ∷ (take (suc (length s)) (s ++ 0 ∷ []) ++ pad);
      length = suc (suc (length s)) + path_offset;
    })
      ≡ c_str (c ∷ s)
unfolding get_path c_str
get_path-file c s pad e = rw (longer (suc (length s)), e, c_str-take s pad) refl

-- For a path of fewer than 2^32 - 1 bytes: the constructor of a UnixAddress throws exactly when the path,
-- with the NUL that ends it unless it starts with one, is longer than sun_path. Otherwise getPath
-- returns the path up to its first NUL; for a path that starts with a NUL it returns \0 and the rest,
-- and for an empty path \0.
pub get_path-unix_address :
    (path : String)
    → suc (length path) < 2 ^ 32
    → map_option get_path (unix_address path)
      ≡ (if ltb path_size (needed path) then none else some (printed path))
unfolding unix_address needed printed get_path
get_path-unix_address [] l = rw (name_length-needed [] l) refl
get_path-unix_address (c ∷ s) l = elim (Bool-cases (c == 0)) [
  | inl e ↦ elim (Bool-cases (ltb path_size (suc (length s)))) [
    | inl h ↦ rw (name_length-needed (c ∷ s) l, e, h) refl
    | inr h ↦
        let q = get_path-name c s (replicate (path_size - suc (length s)) 0) e in
        rw (name_length-needed (c ∷ s) l, e, h) (ap some q)
  ]
  | inr e ↦ elim (Bool-cases (ltb path_size (suc (suc (length s))))) [
    | inl h ↦ rw (name_length-needed (c ∷ s) l, e, h) refl
    | inr h ↦
        let q = get_path-file c s (replicate (path_size - suc (suc (length s))) 0) e in
        rw (name_length-needed (c ∷ s) l, e, h) (ap some q)
  ]
]
