-- ===== src/Boundary/Memory/Answers.antt =====
-- When the front end of linear storage passes on what a provider answers.
use dotnet_pal_rs.Common.{ℕ, ◌+◌, ◌%◌, ◌≤◌, ◌<◌, ◌≡◌, true, false, some, arith, ap, ◌==◌}
use dotnet_pal_rs.Common.Words.{usize_max}
use dotnet_pal_rs.Port.{Result, ok, status}
use dotnet_pal_rs.Boundary.Geometry.{round_size, geometry, aligned_output}
use dotnet_pal_rs.Boundary.Memory.{
  Tally, increment, record_status, Memory, write, acceptable, take_answer, request, LinearStorage,
  allocate, release,
}

module _ {W : Type 0} where
  request_answers :
      (page : ℕ) (call : W → ℕ → ℕ → Result ℕ × W) (m : Memory W)
      (size alignment out rounded aligned address : ℕ) (w : W)
      → aligned_output 8 out ≡ true
      → geometry size alignment page ≡ some (rounded, aligned)
      → call m.world rounded aligned ≡ (ok address, w)
      → acceptable address rounded aligned ≡ true
      → request page call m size alignment 0 out
        ≡ (0, record { world = w; outputs = write (write m.outputs out 0) out address })
  unfolding request take_answer
  request_answers page call m size alignment out rounded aligned address w o g r good =
      rw (o, g, r, good, request, take_answer)

  module _ (l : LinearStorage W) where
    -- A good answer of the provider is granted, told and counted.
    pub allocate_answers :
        (m : Memory W) (c : Tally) (size alignment out rounded aligned address : ℕ) (w : W)
        → aligned_output 8 out ≡ true
        → geometry size alignment l.granularity ≡ some (rounded, aligned)
        → l.allocate m.world rounded aligned ≡ (ok address, w)
        → 0 < address
        → address % aligned ≡ 0
        → address + rounded ≤ usize_max
        → allocate l m c size alignment 0 out ≡ (
          0,
          record { world = w; outputs = write (write m.outputs out 0) out address },
          record c { done = increment c.done },
        )
    unfolding allocate acceptable record_status
    allocate_answers m c size alignment out rounded aligned address w o g r positive divides
          inside =
        let answer =
          request_answers l.granularity l.allocate m size alignment out rounded aligned address w o
            g r (ground (arith, positive, divides, inside)) in
        ap (λ x. (x.0, x.1, record_status x.0 c)) answer

    -- So is the release of a size that can be rounded at an address that is not null.
    pub release_answers :
        (w : W) (c : Tally) (address size rounded : ℕ) (w' : W)
        → round_size size l.granularity ≡ some rounded
        → 0 < address
        → l.release w address rounded ≡ (ok tt, w')
        → release l w c address size ≡ (0, w', record c { done = increment c.done })
    unfolding release record_status status
    release_answers w c address size rounded w' rounds positive r =
        let there : (address == 0) ≡ false = ground (arith, positive) in
        rw (rounds, there, r, release)
