-- ===== src/Session/Sample.antt =====
-- A stream that gives one byte a call, and a parser of lines.
use c.Prelude.{
  ◌^◌, ltb, ℕ, suc, ◌+◌, ◌-◌, ◌≤◌, ◌<◌, ◌≡◌, ap, Bool, true, false, List, [], ◌∷◌, Option, none,
  some, ◌==◌, if◌then◌else◌, length, Bool-cases, inl, inr, arith,
}
use c.Prelude.Int.{pos}
use c.Prelude.Text.{String, codes}
use c.Dict.{find}
use c.Http.Order.{MapType, case_insensitive}
use c.Stream.{Got, got, no_bytes, took, IsGot, Stream}
use c.Session.{http_field, RawParser, Room}

abbrev pub read_one : ℕ → List ℕ → Got × List ℕ
read_one n [] = (no_bytes (pos 0), [])
read_one n (x ∷ s) = (got (x ∷ []), s)

pub read_one-IsGot : (n : ℕ) (s : List ℕ) → 0 < n → IsGot n (read_one n s).0
read_one-IsGot n [] h = tt
read_one-IsGot n (x ∷ s) h = (omega arith, omega arith)

abbrev pub one_each : Stream (List ℕ)
one_each = record {
  read = read_one;
  write = λ xs s. (took (length xs), s);
  reads = read_one-IsGot;
  writes = λ xs s h. (h, omega arith);
}

pub one_each-drained :
    (n : ℕ) (s t : List ℕ) (xs : List ℕ)
    → read_one n s ≡ (got xs, t)
    → length t + length xs ≤ length s
one_each-drained n [] t xs e = absurd (cc e)
one_each-drained n (x ∷ s) t xs e =
    let a : x ∷ [] ≡ xs = cc in let b : s ≡ t = cc in omega (arith, ap length a, ap length b)

-- A header is a line; a line gives one field.
abbrev pub line_end : List ℕ → ℕ × Bool
line_end [] = (0, false)
line_end (x ∷ xs) = let rest = line_end xs in if x == 10 then (1, true) else (suc rest.0, rest.1)

pub line_end-fits : (xs : List ℕ) → (line_end xs).0 ≤ length xs
line_end-fits [] = omega arith
line_end-fits (x ∷ xs) = elim (Bool-cases (x == 10)) [
  | inl h ↦ rw h (omega arith)
  | inr h ↦ rw h (omega (arith, line_end-fits xs))
]

abbrev pub line_parser : RawParser Bool
line_parser = record {
  start = false;
  execute = λ xs h.
      let r = line_end xs in
      (r.0, (if r.1 then http_field (codes "Content-Length") (codes "3") ∷ [] else []), r.1);
  executed = λ xs h. line_end-fits xs;
  has_error = λ h. false;
  is_finished = λ h. h;
}

-- One digit.
abbrev pub digit : Option String → ℕ
digit none = 0
digit (some []) = 0
digit (some (c ∷ s)) = c - 48

abbrev pub content_length : MapType → ℕ
content_length m = digit (find case_insensitive (codes "content-length") m)

-- Room for bodies of less than 2^20 bytes.
abbrev pub one_mega : Room
one_mega = record { resizes = λ n. ltb n (2 ^ 20); copies = λ n. ltb n (2 ^ 20) }
