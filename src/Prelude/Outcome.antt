-- ===== src/Prelude/Outcome.antt =====
-- The results of calls that can fail an assertion.
-- How a call ends: with a value, in a failed SYLAR_ASSERT, or in undefined behaviour, such as an index
-- out of range or a null pointer that is dereferenced.
pub data Outcome {ℓ} (A : Type ℓ) : Type ℓ where
  done : A → Outcome A
  assert_failed : Outcome A
  undefined : Outcome A

infixl 5 ◌>>=◌
abbrev pub ◌>>=◌ {ℓ κ} : {A : Type ℓ} {B : Type κ} → Outcome A → (A → Outcome B) → Outcome B
done a >>= f = f a
assert_failed >>= f = assert_failed
undefined >>= f = undefined
