-- ===== src/MemFs/Exec.antt =====
-- Calls on the state of the file system: they finish, fail with what they have written so far, or never
-- come back from a loop.
pub mod Keeps
use dotnet_pal_rs.Common.{
  Option, none, some, if◌then◌else◌, Bool, true, false, List, [], ◌∷◌, ◌≡◌, refl, ◌⊎◌, inl, inr,
}
use dotnet_pal_rs.Port.{Error, Result, ok, err}

pub data Outcome (A : Type 0) : Type 0 where
  endless : Outcome A
  failed : Error → Outcome A
  finished : A → Outcome A

pub Outcome-cases :
    {A : Type 0} (r : Outcome A)
    → (r ≡ endless) ⊎ ((e : Error) × (r ≡ failed e)) ⊎ ((a : A) × (r ≡ finished a))
Outcome-cases endless = inl refl
Outcome-cases (failed e) = inr (inl (e, refl))
Outcome-cases (finished a) = inr (inr (a, refl))

abbrev pub Exec : Type 0 → Type 0 → Type 0
Exec S A = S → Outcome A × S

abbrev pub resume : {S A B : Type 0} → Outcome A × S → (A → Exec S B) → Outcome B × S
resume (finished a, s) next = next a s
resume (failed e, s) next = (failed e, s)
resume (endless, s) next = (endless, s)

infixl 5 ◌>>=◌ ◌>>◌
-- `?` and what follows it.
unfoldable pub ◌>>=◌ : {S A B : Type 0} → Exec S A → (A → Exec S B) → Exec S B
◌>>=◌ call next s = resume (call s) next

unfoldable pub ◌>>◌ : {S A B : Type 0} → Exec S A → Exec S B → Exec S B
◌>>◌ call next s = resume (call s) (λ _. next)

abbrev pub outcome : {A : Type 0} → Result A → Outcome A
outcome (ok a) = finished a
outcome (err e) = failed e

module _ {S A : Type 0} where
  -- `Ok(a)`
  unfoldable pub give : A → Exec S A
  give a s = (finished a, s)

  -- `return Err(e)`
  unfoldable pub fail : Error → Exec S A
  fail e s = (failed e, s)

  unfoldable pub read : (S → A) → Exec S A
  read f s = (finished (f s), s)

  -- A call that only looks at the state.
  unfoldable pub view : (S → Outcome A) → Exec S A
  view f s = (f s, s)

  unfoldable pub lift : Result A → Exec S A
  lift r s = (outcome r, s)

  -- `option.ok_or(e)`
  unfoldable pub required : Option A → Error → Exec S A
  required (some a) e s = (finished a, s)
  required none e s = (failed e, s)

module _ {S : Type 0} where
  unfoldable pub modify : (S → S) → Exec S (Unit {0})
  modify f s = (finished tt, f s)

  -- `if refused { return Err(e); }`
  unfoldable pub refuse_if : Bool → Error → Exec S (Unit {0})
  refuse_if true e s = (failed e, s)
  refuse_if false e s = (finished tt, s)

  unfoldable pub when : Bool → Exec S (Unit {0}) → Exec S (Unit {0})
  when true call s = call s
  when false call s = (finished tt, s)

-- `?` on what is only looked at.
abbrev pub and_then : {A B : Type 0} → Outcome A → (A → Outcome B) → Outcome B
and_then (finished a) next_call = next_call a
and_then (failed e) next_call = failed e
and_then endless next_call = endless
