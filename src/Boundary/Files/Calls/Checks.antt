-- ===== src/Boundary/Files/Calls/Checks.antt =====
-- What a caller may rely on behind a call on an open file, whatever the provider answers.
use dotnet_pal_rs.Common.{
  ℕ, ◌+◌, ◌≤◌, ◌<◌, ◌≡◌, ◌∙◌, sym, ltb, ◌==◌, not, ◌||◌, arith, Bool-cases, inl, inr,
}
use dotnet_pal_rs.Common.Words.{isize_max}
use dotnet_pal_rs.Port.{Result, ok, err, ok_status}
use dotnet_pal_rs.Port.Laws.{from_status-status}
use dotnet_pal_rs.Boundary.Geometry.{aligned_output}
use dotnet_pal_rs.Boundary.Memory.{os_error_status, invalid_argument_status, pointer_size}
use dotnet_pal_rs.Boundary.Text.{Provided}
use dotnet_pal_rs.Boundary.Files.{Front, Files, recorded, refuse, put, shared, valid_buffer}
use dotnet_pal_rs.Boundary.Files.Calls.{take_count, counted_bytes, write_at}

-- A status that is recorded as success was success.
recorded_ok :
    {W : Type 0} (status index : ℕ) (f : Front W)
    → (recorded status index f).0 ≡ ok_status
    → status ≡ ok_status
unfolding recorded
recorded_ok status index f e = ground (arith, e)

module _ {W : Type 0} where
  take_count_lem :
      (least most out : ℕ) (r : Result ℕ) (f : Front W)
      → (take_count least most out r f).0 ≡ ok_status
      → let done = (take_count least most out r f).1.outputs out in (least ≤ done) × (done ≤ most)
  unfolding take_count put
  take_count_lem least most out (err cause) f e =
      let (_, positive, _) = from_status-status cause in absurd (omega (arith, e, positive))
  take_count_lem least most out (ok done) f e =
      elim (Bool-cases (ltb done least || ltb most done)) [
        | inl outside ↦
            let now : os_error_status ≡ ok_status = sym (rw (outside, take_count)) ∙ e in
            absurd (omega (arith, now))
        | inr inside ↦ rw (inside, take_count, put) (ground (arith, inside))
      ]

  counted_bytes_lem :
      (index least most out : ℕ) (call : Provided W ℕ) (f : Front W)
      → (counted_bytes index least most out call f).0 ≡ ok_status
      → let done = (counted_bytes index least most out call f).1.outputs out in
        (least ≤ done) × (done ≤ most)
  unfolding counted_bytes recorded
  counted_bytes_lem index least most out call f e =
      let (r, s) = call f.provided in
      take_count_lem least most out r (record f { provided = s })
        (recorded_ok (take_count least most out r (record f { provided = s })).0 index
          (take_count least most out r (record f { provided = s })).1 e)

  -- Whatever the provider answers, a write that is told as success has told no more bytes than it was given,
  -- and some of them unless it was given none.
  pub write_at_checked :
      (p : Files W) (file offset address size out : ℕ) (f : Front W)
      → (write_at p file offset address size out f).0 ≡ ok_status
      → let done = (write_at p file offset address size out f).1.outputs out in
        (done ≤ size) × (0 < size → 0 < done)
  unfolding write_at refuse recorded shared put
  write_at_checked p file offset address size out f e =
      elim (Bool-cases (not (aligned_output pointer_size out))) [
        | inl bad ↦
            let now : invalid_argument_status ≡ ok_status = sym (rw (bad, write_at)) ∙ e in
            absurd (omega (arith, now))
        | inr aligned ↦
            elim (Bool-cases (
              file == 0
              || (not (valid_buffer address size)
                  || (ltb isize_max offset || ltb isize_max (offset + size))))) [
                    | inl bad ↦
                        let now : invalid_argument_status ≡ ok_status =
                          sym (rw (aligned, bad, write_at)) ∙ e in
                        absurd (omega (arith, now))
                    | inr good ↦ elim (Bool-cases (size == 0)) [
                      | inl nothing ↦
                          rw (aligned, good, nothing, write_at) (ground (arith, nothing))
                      | inr some_bytes ↦
                          let call = p.write_at file offset address size in
                          let runs =
                            counted_bytes_lem 3 1 size out call (put out 0 f)
                              (sym (rw (aligned, good, some_bytes, write_at)) ∙ e) in
                          rw (aligned, good, some_bytes, write_at) (runs.1, λ _. runs.0)
                    ]
                  ]
      ]
