-- ===== src/Stream/Pieces/Scatter.antt =====
-- Bytes that are put into the pieces of a range of memory are a write over it.
use mathlib.Core.List.{append_assoc, append-nil}
use c.Prelude.{
  ℕ, zero, suc, ◌+◌, ◌-◌, ◌≤◌, ◌<◌, ◌≡◌, refl, sym, ap, ◌∙◌, List, [], ◌∷◌, ◌++◌, leb, length, take,
  drop, set, get_or, length-append, length-set, length-drop, arith, Bool-cases, inl, inr,
}
use c.ByteArray.{ok, put}
use c.ByteArray.Bytes.{
  concat, concat-append, length-put, put-append_left, put-append_over, take-all,
}
use c.ByteArray.Nodes.{Uniform}
use c.ByteArray.Buffers.{Iovec, iov_loop}
use c.Stream.Pieces.{scatter}

get_or-middle :
    (fs : List (List ℕ)) (n : List ℕ) (ns : List (List ℕ))
    → get_or (fs ++ n ∷ ns) (length fs) [] ≡ n
get_or-middle [] n ns = refl
get_or-middle (f ∷ fs) n ns = get_or-middle fs n ns

set-middle :
    (fs : List (List ℕ)) (n m : List ℕ) (ns : List (List ℕ))
    → set (fs ++ n ∷ ns) (length fs) m ≡ fs ++ m ∷ ns
set-middle [] n m ns = refl
set-middle (f ∷ fs) n m ns = ap (λ (l : List (List ℕ)). f ∷ l) (set-middle fs n m ns)

pub length-scatter :
    (v : List Iovec) (xs : List ℕ) (nodes : List (List ℕ))
    → length (scatter v xs nodes) ≡ length nodes
unfolding scatter
length-scatter [] xs nodes = refl
length-scatter (v ∷ vs) xs nodes =
    length-scatter vs (drop v.iov_len xs)
      (set nodes v.node (put (get_or nodes v.node []) v.iov_base (take v.iov_len xs)))
    ∙ length-set nodes v.node (put (get_or nodes v.node []) v.iov_base (take v.iov_len xs))

Uniform-set :
    (base k i : ℕ) (src : List ℕ) (nodes : List (List ℕ))
    → Uniform base nodes
    → Uniform base (set nodes k (put (get_or nodes k []) i src))
Uniform-set base k i src [] u = tt
Uniform-set base zero i src (n ∷ ns) (e, u) = (length-put n i src ∙ e, u)
Uniform-set base (suc k) i src (n ∷ ns) (e, u) = (e, Uniform-set base k i src ns u)

pub scatter-Uniform :
    (base : ℕ) (v : List Iovec) (xs : List ℕ) (nodes : List (List ℕ))
    → Uniform base nodes
    → Uniform base (scatter v xs nodes)
unfolding scatter
scatter-Uniform base [] xs nodes u = u
scatter-Uniform base (v ∷ vs) xs nodes u =
    scatter-Uniform base vs (drop v.iov_len xs) _
      (Uniform-set base v.node v.iov_base (take v.iov_len xs) nodes u)

-- A piece that begins in the node n, behind the nodes fs.
one_piece :
    (fs : List (List ℕ)) (n : List ℕ) (ns : List (List ℕ)) (npos k : ℕ) (xs : List ℕ)
    → set (fs ++ n ∷ ns) (length fs) (put (get_or (fs ++ n ∷ ns) (length fs) []) npos (take k xs))
      ≡ fs ++ put n npos (take k xs) ∷ ns
one_piece fs n ns npos k xs =
    rw (get_or-middle fs n ns) (set-middle fs n (put n npos (take k xs)) ns)

next_index : (fs : List (List ℕ)) (n : List ℕ) → length fs + 1 ≡ length (fs ++ n ∷ [])
next_index fs n = omega (arith, length-append fs (n ∷ []))

-- The pieces behind the node, and the node.
next_pieces :
    (fs : List (List ℕ)) (n : List ℕ) (ns : List (List ℕ)) (npos : ℕ) (xs : List ℕ)
    (vs : List Iovec)
    → npos ≤ length n
    → let n' = put n npos (take (length n - npos) xs) in
      let ys = drop (length n - npos) xs in
      concat (scatter vs ys ((fs ++ n' ∷ []) ++ ns))
        ≡ concat (fs ++ n' ∷ []) ++ put (concat ns) 0 ys
      → concat (
          scatter vs ys (
            set
              (fs ++ n ∷ ns)
              (length fs)
              (put (get_or (fs ++ n ∷ ns) (length fs) []) npos (take (length n - npos) xs))))
        ≡ concat fs ++ put (n ++ concat ns) npos xs
next_pieces fs n ns npos xs vs small g =
    let n' = put n npos (take (length n - npos) xs) in
    let ys = drop (length n - npos) xs in
    ap (λ l. concat (scatter vs ys l))
      (one_piece fs n ns npos (length n - npos) xs ∙ sym (append_assoc fs (n' ∷ []) ns))
    ∙ g
    ∙ ap (λ (l : List ℕ). l ++ put (concat ns) 0 ys)
        (concat-append fs (n' ∷ []) ∙ ap (λ (l : List ℕ). concat fs ++ l) (append-nil n'))
    ∙ append_assoc (concat fs) n' (put (concat ns) 0 ys)
    ∙ ap (λ (l : List ℕ). concat fs ++ l) (sym (put-append_over n (concat ns) npos xs small))

pub iov_loop-scatter :
    (ns fs : List (List ℕ)) (npos len : ℕ) (xs : List ℕ)
    → npos + len ≤ length (concat ns)
    → 0 < len
    → length xs ≤ len
    → ((n : List ℕ) (ms : List (List ℕ)) → ns ≡ n ∷ ms → npos ≤ length n)
    → (v : Iovec) × (vs : List Iovec) × (iov_loop ns (length fs) npos len ≡ ok (v ∷ vs))
      × (concat (scatter (v ∷ vs) xs (fs ++ ns)) ≡ concat fs ++ put (concat ns) npos xs)
unfolding iov_loop scatter
iov_loop-scatter [] fs npos len xs fits some_len few inside = absurd (omega arith)
iov_loop-scatter (n ∷ ns) fs npos len xs fits some_len few inside =
    elim (Bool-cases (leb len (length n - npos))) [
      | inl last ↦
          let small : npos ≤ length n = inside n ns refl in
          (
            record { node = length fs; iov_base = npos; iov_len = len },
            [],
            rw last refl,
            rw (one_piece fs n ns npos len xs, take-all len xs few)
                (concat-append fs (put n npos xs ∷ ns)
                  ∙ ap (λ (l : List ℕ). concat fs ++ l)
                      (sym (put-append_left n (concat ns) npos xs (ground (arith, last, small))))),
          )
      | inr more ↦
          let small : npos ≤ length n = inside n ns refl in
          let over : length n < npos + len = ground (arith, more, small) in
          let n' = put n npos (take (length n - npos) xs) in
          let (v, vs, r, g) =
            iov_loop-scatter ns (fs ++ n' ∷ []) 0 (len - (length n - npos))
              (drop (length n - npos) xs) (omega (arith, length-append n (concat ns), small, over))
              (omega (arith, small, over)) (omega (arith, length-drop (length n - npos) xs))
              (λ m ms q. omega arith) in
          (
            record { node = length fs; iov_base = npos; iov_len = length n - npos },
            v ∷ vs,
            rw
                (
                  more,
                  ap (λ (i : ℕ). iov_loop ns i 0 (len - (length n - npos))) (next_index fs n') ∙ r,
                )
                refl,
            next_pieces fs n ns npos xs (v ∷ vs) small g,
          )
    ]
