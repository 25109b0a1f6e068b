-- ===== src/Boundary/Memory/Checks.antt =====
-- Requests for memory over any provider.
use dotnet_pal_rs.Common.{
  ℕ, ◌+◌, ◌%◌, ◌≤◌, ◌<◌, ◌≡◌, ◌∙◌, sym, ap, ◌==◌, if◌then◌else◌, true, some, ◌⊎◌, inl, inr, arith,
  Bool-cases, Option-cases,
}
use dotnet_pal_rs.Common.Words.{usize_max}
use dotnet_pal_rs.Port.{Error, Result, ok, error_status, Result-cases}
use dotnet_pal_rs.Port.Laws.{from_status-status}
use dotnet_pal_rs.Boundary.Geometry.{geometry, aligned_output}
use dotnet_pal_rs.Boundary.Memory.{
  Tally, increment, record_status, Memory, write, acceptable, take_answer, request, VirtualMemory,
  reserve,
}

module _ {W : Type 0} (page : ℕ) (call : W → ℕ → ℕ → Result ℕ × W) (m : Memory W)
    (size alignment flags out : ℕ) where
  -- A request that was granted: the provider was asked for the rounded size at the larger alignment, and
  -- its answer lies there and is behind `out`.
  pub record Granted (t : Memory W) : Type 0 where
    pub address : ℕ
    pub rounded : ℕ
    pub aligned : ℕ
    pub accepted : geometry size alignment page ≡ some (rounded, aligned)
    pub answered : call m.world rounded aligned ≡ (ok address, t.world)
    pub not_null : 0 < address
    pub divides : address % aligned ≡ 0
    pub in_space : address + rounded ≤ usize_max
    pub told : t.outputs ≡ write (write m.outputs out 0) out address
    pub no_flags : flags ≡ 0
    pub output : aligned_output 8 out ≡ true

  -- A request that was not: there is null behind `out`, if that can be written.
  pub record Refused (s : ℕ) (t : Memory W) : Type 0 where
    pub fails : 0 < s
    pub told : t.outputs ≡ (if aligned_output 8 out then write m.outputs out 0 else m.outputs)

  fails : (e : Error) → 0 < error_status e
  fails e = let (_, positive, _) = from_status-status e in positive

  refuse :
      {s : ℕ} {t : Memory W} (s' : ℕ) (t' : Memory W)
      → ◌≡◌ {A = ℕ × Memory W} (s', t') (s, t)
      → 0 < s'
      → t'.outputs ≡ (if aligned_output 8 out then write m.outputs out 0 else m.outputs)
      → Refused s t
  refuse s' t' e positive told = record {
    fails = rw (← ap (λ x. x.0) e) positive;
    told = ap (λ x. x.1.outputs) (sym e) ∙ told;
  }

  -- A provider's answer is passed on or turned down.
  answer_cases :
      (rounded aligned : ℕ) {s : ℕ} {t : Memory W}
      → geometry size alignment page ≡ some (rounded, aligned)
      → flags ≡ 0
      → aligned_output 8 out ≡ true
      → take_answer (write m.outputs out 0) out rounded aligned (call m.world rounded aligned)
        ≡ (s, t)
      → ((s ≡ 0) × Granted t) ⊎ Refused s t
  unfolding take_answer acceptable
  answer_cases rounded aligned {s} {t} g f o e = elim (Result-cases a.0) [
    | inr (cause, r) ↦
        let now : (error_status cause, kept) ≡ (s, t) = sym (rw (r, take_answer)) ∙ e in
        inr (refuse (error_status cause) kept now (fails cause) (rw o))
    | inl (address, r) ↦ elim (Bool-cases (acceptable address rounded aligned)) [
      | inl good ↦
          let now : ◌≡◌ {A = ℕ × Memory W} (0, given address) (s, t) =
            sym (rw (r, good, take_answer)) ∙ e in
          inl (
            ap (λ x. x.0) (sym now),
            record {
              address = address;
              rounded = rounded;
              aligned = aligned;
              accepted = g;
              answered = ap (λ x. (x, a.1)) r ∙ ap (λ x. (ok address, x.1.world)) now;
              not_null = ground (arith, good);
              divides = ground (arith, good);
              in_space = ground (arith, good);
              told = ap (λ x. x.1.outputs) (sym now);
              no_flags = f;
              output = o;
            },
          )
      | inr bad ↦ inr (refuse 3 kept (sym (rw (r, bad, take_answer)) ∙ e) (omega arith) (rw o))
    ]
  ]
    where
      a : Result ℕ × W
      a = call m.world rounded aligned

      kept : Memory W
      kept = record { world = a.1; outputs = write m.outputs out 0 }

      given : ℕ → Memory W
      given address = record { world = a.1; outputs = write (write m.outputs out 0) out address }

  abbrev cleared : Memory W
  cleared = record m { outputs = write m.outputs out 0 }

  pub request_cases :
      {s : ℕ} {t : Memory W}
      → request page call m size alignment flags out ≡ (s, t)
      → ((s ≡ 0) × Granted t) ⊎ Refused s t
  unfolding request
  request_cases {s} {t} e = elim (Bool-cases (aligned_output 8 out)) [
    | inr o ↦ inr (refuse 2 m (sym (rw (o, request)) ∙ e) (omega arith) (rw o))
    | inl o ↦ elim (Bool-cases (flags == 0)) [
      | inr f ↦ inr (refuse 1 cleared (sym (rw (o, f, request)) ∙ e) (omega arith) (rw o))
      | inl f ↦ elim (Option-cases (geometry size alignment page)) [
        | inl nothing ↦
            inr (refuse 2 cleared (sym (rw (o, f, nothing, request)) ∙ e) (omega arith) (rw o))
        | inr ((rounded, aligned), g) ↦
            answer_cases rounded aligned g (ground (arith, f)) o (rw (o, f, g, request) at e)
      ]
    ]
  ]

module _ {W : Type 0} (v : VirtualMemory W) (m : Memory W) (c : Tally)
    (size alignment flags out : ℕ) where
  -- Whatever the provider answers: a reserve that succeeds leaves behind `out` an address of whole pages
  -- at the alignment, inside the address space, which the provider gave for that very size, and is counted;
  -- one that fails leaves null there, if it can be written, and is counted as failed.
  pub reserve_checked :
      {s : ℕ} {t : Memory W} {c' : Tally}
      → reserve v m c size alignment flags out ≡ (s, t, c')
      → ((s ≡ 0)
          × (c' ≡ record c { done = increment c.done })
          × Granted v.page_size v.reserve m size alignment flags out t)
        ⊎ ((c' ≡ record c { failed = increment c.failed })
            × Refused v.page_size v.reserve m size alignment flags out s t)
  unfolding reserve record_status
  reserve_checked {s} {t} {c'} e =
      let r = request v.page_size v.reserve m size alignment flags out in
      let same : r ≡ (s, t) = ap (λ x. (x.0, x.1)) e in
      let counted : record_status s c ≡ c' =
        ap (λ x. record_status x.0 c) (sym same) ∙ ap (λ x. x.2) e in
      elim (request_cases v.page_size v.reserve m size alignment flags out same) [
        | inl (zero_, g) ↦ inl (zero_, sym counted ∙ rw zero_, g)
        | inr f ↦ inr (sym counted ∙ ground (arith, f.fails), f)
      ]
