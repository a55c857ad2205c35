-- ===== src/Http/Request/Flags.antt =====
-- Once the parameters are read, they are not read again.
use Prim.Native.Nat.{bit_and, bit_or}
use c.Prelude.{
  ℕ, ◌<◌, ◌%◌, ◌^◌, ◌≡◌, refl, Bool, true, false, not, ◌&&◌, ◌==◌, Bool-cases, inl, inr,
  if◌then◌else◌, holds_to, holds_to_each, arith,
}
use c.Http.Request.{HttpRequest, is_flagged, init_query_param, init_body_param, is_form}

-- What an init leaves of the flags, and, by a look at each value of them, that both stay set.
unfoldable pub set_bit : ℕ → ℕ → ℕ
set_bit bit f = if not (bit_and f bit == 0) then f else bit_or f bit % 2 ^ 8

unfoldable pub are_set : ℕ → Bool
are_set f = not (bit_and f 1 == 0) && not (bit_and f 2 == 0)

always_set : holds_to (λ f. are_set (set_bit 2 (set_bit 1 f))) 255 ≡ true
unfolding holds_to are_set set_bit
always_set = refl

query_flags :
    (r : HttpRequest) → (init_query_param r).parser_param_flag ≡ set_bit 1 r.parser_param_flag
unfolding init_query_param set_bit
query_flags r = elim (Bool-cases (is_flagged 0x1 r)) [ inl e ↦ rw e refl | inr e ↦ rw e refl ]

body_flags :
    (r : HttpRequest) → (init_body_param r).parser_param_flag ≡ set_bit 2 r.parser_param_flag
unfolding init_body_param set_bit
body_flags r = elim (Bool-cases (is_flagged 0x2 r)) [
  | inl e ↦ rw e refl
  | inr e ↦ rw e (elim (Bool-cases (is_form r)) [ inl f ↦ rw f refl | inr f ↦ rw f refl ])
]

both : (a b : Bool) → (a && b) ≡ true → (a ≡ true) × (b ≡ true)
both true b e = (refl, e)
both false b e = absurd (cc)

flags_set :
    (r : HttpRequest)
    → r.parser_param_flag < 256
    → (is_flagged 0x1 (init_body_param (init_query_param r)) ≡ true)
      × (is_flagged 0x2 (init_body_param (init_query_param r)) ≡ true)
unfolding are_set
flags_set r h =
    rw (body_flags (init_query_param r), query_flags r)
      (both _ _ (
        holds_to_each (λ f. are_set (set_bit 2 (set_bit 1 f))) 255 always_set r.parser_param_flag
          (omega arith)))

settled :
    (r : HttpRequest)
    → is_flagged 0x1 r ≡ true
    → is_flagged 0x2 r ≡ true
    → init_body_param (init_query_param r) ≡ r
unfolding init_body_param init_query_param
settled r e f = rw (e, f) refl

pub init_again :
    (r : HttpRequest)
    → r.parser_param_flag < 256
    → init_body_param (init_query_param (init_body_param (init_query_param r)))
      ≡ init_body_param (init_query_param r)
init_again r h = let (e, f) = flags_set r h in settled (init_body_param (init_query_param r)) e f
