-- ===== src/IoManager/Valid.antt =====
-- The invariant of an IOManager.
use c.Prelude.{
  ℕ, zero, suc, ◌-◌, ◌*◌, ◌/◌, ◌%◌, ◌^◌, ◌≡◌, refl, sym, ap, ◌∙◌, ◌≤◌, ◌<◌, Bool, true, false, List,
  [], ◌∷◌, ◌++◌, length, take, replicate, arith, All, length-append, length-replicate, Bool-cases,
  leb, leb→le, inl, inr, none, some,
}
use c.Prelude.Int.{int_at_most-small}
use c.IoManager.{
  IoManager, EventContext, FdContext, Task, cb, fiber, Event, reading, writing, has, reset_context,
  new_context, init, context_resize, ensure_context, too_short, get_context,
}
use c.IoManager.Contexts.{count, count-grow, All-grow, context_of, context_of-grow}

-- The context of an event that is registered by the scheduler s: it holds a callback or a fiber.
abbrev pub armed : ℕ → Task → EventContext
armed s (cb f) = record { scheduler = some s; fiber = none; cb = some f }
armed s (fiber f) = record { scheduler = some s; fiber = some f; cb = none }

abbrev pub ArmedAt : Bool → EventContext → Type 0
ArmedAt true x = (s : ℕ) × (t : Task) × (x ≡ armed s t)
ArmedAt false x = x ≡ reset_context

-- The context of an event is in use exactly when the event is registered.
abbrev pub Armed : FdContext → Type 0
Armed c = ArmedAt c.events.read c.read × ArmedAt c.events.write c.write

pub record Valid (m : IoManager) : Type 0 where
  pub armed : All Armed m.fd_contexts
  pub counted : m.pending_event_count ≡ count m.fd_contexts % 2 ^ 64
  pub enough : 32 ≤ length m.fd_contexts

-- The number of contexts is an int.
abbrev pub IsInt : IoManager → Type 0
IsInt m = length m.fd_contexts < 2 ^ 31

-- The vector is too short exactly when fd is beyond its end.
pub too_short-true :
    (fd : ℕ) (m : IoManager) → IsInt m → too_short fd m ≡ true → length m.fd_contexts ≤ fd
unfolding too_short
too_short-true fd m few e =
    leb→le (length m.fd_contexts) fd (sym (int_at_most-small (length m.fd_contexts) fd few) ∙ e)

pub too_short-false :
    (fd : ℕ) (m : IoManager) → IsInt m → too_short fd m ≡ false → fd < length m.fd_contexts
unfolding too_short
too_short-false fd m few e =
    let inside : leb (length m.fd_contexts) fd ≡ false =
      sym (int_at_most-small (length m.fd_contexts) fd few) ∙ e in
    ground (arith, inside)

pub ArmedAt-has : (e : Event) (c : FdContext) → Armed c → ArmedAt (has c.events e) (get_context c e)
ArmedAt-has reading c a = a.0
ArmedAt-has writing c a = a.1

take-over : (n : ℕ) (cs : List FdContext) → length cs ≤ n → take n cs ≡ cs
take-over n [] h = take-nil n
  where
    take-nil : (n : ℕ) → take {A = FdContext} n [] ≡ []
    take-nil zero = refl
    take-nil (suc n) = refl
take-over zero (c ∷ cs) h = absurd (omega arith)
take-over (suc n) (c ∷ cs) h = ap (◌∷◌ c) (take-over n cs (omega arith))

-- A larger vector.
pub context_resize-grows :
    (size : ℕ) (m : IoManager)
    → length m.fd_contexts ≤ size
    → context_resize size m ≡ record m {
      fd_contexts = m.fd_contexts ++ replicate (size - length m.fd_contexts) new_context;
    }
unfolding context_resize
context_resize-grows size m h =
    ap (λ cs. record m { fd_contexts = cs ++ replicate (size - length m.fd_contexts) new_context })
      (take-over size m.fd_contexts h)

-- What ensure_context(fd) promises.
pub record IsEnsured (fd : ℕ) (m m' : IoManager) : Type 0 where
  pub valid : Valid m'
  pub room : fd < length m'.fd_contexts
  pub few : IsInt m'
  pub kept : (q : ℕ) → context_of q m'.fd_contexts ≡ context_of q m.fd_contexts
  pub scheduled : m'.scheduled ≡ m.scheduled

pub ensure_context-IsEnsured :
    (fd : ℕ) (m : IoManager)
    → Valid m
    → IsInt m
    → fd * 3 / 2 < 2 ^ 31
    → IsEnsured fd m (ensure_context fd m)
unfolding ensure_context
ensure_context-IsEnsured fd m v few int = elim (Bool-cases (too_short fd m)) [
  | inr ok ↦ rw ok record {
    valid = v;
    room = too_short-false fd m few ok;
    few = few;
    kept = λ q. refl;
    scheduled = refl;
  }
  | inl short ↦
      let size = fd * 3 / 2 in
      let k = size - length m.fd_contexts in
      let bound : length m.fd_contexts ≤ fd = too_short-true fd m few short in
      rw (short, context_resize-grows size m (omega (arith, v.enough, bound)))
        record {
          valid = record {
            armed = All-grow Armed k m.fd_contexts (refl, refl) v.armed;
            counted = v.counted ∙ ap (λ (n : ℕ). n % 2 ^ 64) (sym (count-grow k m.fd_contexts));
            enough = omega (arith, v.enough, length-append m.fd_contexts (replicate k new_context));
          };
          room = omega (
            arith,
            v.enough,
            bound,
            length-append m.fd_contexts (replicate k new_context),
            length-replicate k new_context,
          );
          few = omega (
            arith,
            int,
            length-append m.fd_contexts (replicate k new_context),
            length-replicate k new_context,
            v.enough,
            bound,
          );
          kept = λ q. context_of-grow q k m.fd_contexts;
          scheduled = refl;
        }
]

pub init-Valid : Valid init
unfolding init count context_resize
init-Valid = record {
  armed = All-grow Armed 32 [] (refl, refl) tt;
  counted = ap (λ (n : ℕ). n % 2 ^ 64) (sym (count-grow 32 []));
  enough = omega arith;
}

pub init-IsInt : IsInt init
unfolding init context_resize
init-IsInt = omega arith
