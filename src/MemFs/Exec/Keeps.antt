-- ===== src/MemFs/Exec/Keeps.antt =====
-- What a call keeps of the state, however it ends: one rule for each way to build a call.
use dotnet_pal_rs.Common.{Bool, true, false, Option, none, some, if◌then◌else◌}
use dotnet_pal_rs.Port.{Error, Result}
use dotnet_pal_rs.MemFs.Exec.{
  Exec, Outcome, finished, failed, endless, resume, ◌>>=◌, ◌>>◌, give, fail, read, view, lift,
  required, modify, refuse_if, when,
}

pub record Keeps {S A : Type 0} (P : S → Type 0) (call : Exec S A) : Type 0 where
  pub after : (s : S) → P s → P (call s).1

module _ {S A : Type 0} {P : S → Type 0} where
  pub Keeps-give : (a : A) → Keeps P (give {S = S} a)
  unfolding give
  Keeps-give a = record { after = λ s h. h }

  pub Keeps-fail : (e : Error) → Keeps P (fail {S = S} {A = A} e)
  unfolding fail
  Keeps-fail e = record { after = λ s h. h }

  pub Keeps-read : (f : S → A) → Keeps P (read f)
  unfolding read
  Keeps-read f = record { after = λ s h. h }

  pub Keeps-view : (f : S → Outcome A) → Keeps P (view f)
  unfolding view
  Keeps-view f = record { after = λ s h. h }

  pub Keeps-lift : (r : Result A) → Keeps P (lift {S = S} r)
  unfolding lift
  Keeps-lift r = record { after = λ s h. h }

  pub Keeps-required : (o : Option A) (e : Error) → Keeps P (required {S = S} o e)
  unfolding required
  Keeps-required none e = record { after = λ s h. h }
  Keeps-required (some a) e = record { after = λ s h. h }

  pub Keeps-if : (b : Bool) (m n : Exec S A) → Keeps P m → Keeps P n → Keeps P (if b then m else n)
  Keeps-if true m n km kn = km
  Keeps-if false m n km kn = kn

module _ {S A B : Type 0} {P : S → Type 0} where
  resume_keeps :
      (r : Outcome A × S) (next : A → Exec S B)
      → P r.1
      → ((a : A) → Keeps P (next a))
      → P (resume r next).1
  resume_keeps (finished a, s) next h k = (k a).after s h
  resume_keeps (failed e, s) next h k = h
  resume_keeps (endless, s) next h k = h

  pub Keeps-bind :
      (call : Exec S A) (next : A → Exec S B)
      → Keeps P call
      → ((a : A) → Keeps P (next a))
      → Keeps P (call >>= next)
  unfolding ◌>>=◌
  Keeps-bind call next k l = record { after = λ s h. resume_keeps (call s) next (k.after s h) l }

  pub Keeps-then :
      (call : Exec S A) (next : Exec S B) → Keeps P call → Keeps P next → Keeps P (call >> next)
  unfolding ◌>>◌
  Keeps-then call next k l = record {
    after = λ s h. resume_keeps (call s) (λ _. next) (k.after s h) (λ _. l);
  }

infixr 5 ◌giving◌ ◌also◌
-- The two rules, for a call that its proof names.
pub ◌giving◌ :
    {S A B : Type 0} {P : S → Type 0} {call : Exec S A} {following : A → Exec S B}
    → Keeps P call
    → ((a : A) → Keeps P (following a))
    → Keeps P (call >>= following)
k giving l = Keeps-bind _ _ k l

pub ◌also◌ :
    {S A B : Type 0} {P : S → Type 0} {call : Exec S A} {following : Exec S B}
    → Keeps P call
    → Keeps P following
    → Keeps P (call >> following)
k also l = Keeps-then _ _ k l

module _ {S : Type 0} {P : S → Type 0} where
  pub Keeps-modify : (f : S → S) → ((s : S) → P s → P (f s)) → Keeps P (modify f)
  unfolding modify
  Keeps-modify f k = record { after = k }

  pub Keeps-refuse_if : (b : Bool) (e : Error) → Keeps P (refuse_if {S = S} b e)
  unfolding refuse_if
  Keeps-refuse_if true e = record { after = λ s h. h }
  Keeps-refuse_if false e = record { after = λ s h. h }

  pub Keeps-when : (b : Bool) (call : Exec S (Unit {0})) → Keeps P call → Keeps P (when b call)
  unfolding when
  Keeps-when true call k = record { after = k.after }
  Keeps-when false call k = record { after = λ s h. h }

pub ruleset keeps = (
  Keeps-give, Keeps-fail, Keeps-read, Keeps-view, Keeps-lift, Keeps-required, Keeps-if, Keeps-bind,
  Keeps-then, Keeps-refuse_if, Keeps-when,
)
