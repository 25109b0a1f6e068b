-- ===== src/MemFs/Tests.antt =====
-- Runs of the locks of a node and of an event queue, and the theorems on them.
use dotnet_pal_rs.Common.{
  ℕ, ◌&&◌, ◌≡◌, refl, [], ◌∷◌, arith, List, true, false, not, if◌then◌else◌, leb, ◌==◌,
}
use dotnet_pal_rs.Port.{ok}
use dotnet_pal_rs.MemFs.Bytes.{write, reserve, padded, overlay}
use dotnet_pal_rs.MemFs.Locks.{Lock, relock, cut, in_the_way, is_own, pieces, lock_shared, same}
use dotnet_pal_rs.MemFs.Locks.Bytes.{Hold, held, covers}
use dotnet_pal_rs.MemFs.Locks.Loop.{in_range}
use dotnet_pal_rs.MemFs.Locks.Exclusion.{relock_bytes, relock-IsExclusive, IsExclusive}
use dotnet_pal_rs.MemFs.Queue.{Queue, push, pop, next, empty}
use dotnet_pal_rs.MemFs.Queue.Encoding.{Entry, Fits, encode_all}
use dotnet_pal_rs.MemFs.Queue.Order.{Holds, push_refines, pop_refines, told, without}

abbrev taken : Lock
taken = record { owner = 1; whole = false; start = 0; end = 10; exclusive = true }

abbrev asked : Lock
asked = record { owner = 1; whole = false; start = 4; end = 6; exclusive = false }

-- The lock is cut in two around the request.
abbrev after : List Lock
after =
    record { owner = 1; whole = false; start = 0; end = 4; exclusive = true }
    ∷ (record { owner = 1; whole = false; start = 6; end = 10; exclusive = true } ∷ (asked ∷ []))

relock-after : relock true (taken ∷ []) lock_shared asked ≡ ok after
unfolding relock cut in_the_way is_own pieces
relock-after = refl

-- The byte below the request is still held exclusively.
abbrev below : Hold
below = record { owner = 1; whole = false; exclusive = true; byte = 3 }

relock_bytes_example : held after below ≡ (
    if in_range asked below
    then not (lock_shared == 3) && same asked.exclusive below.exclusive
    else held (taken ∷ []) below)
relock_bytes_example = relock_bytes true (taken ∷ []) lock_shared asked relock-after below

taken-IsExclusive : IsExclusive (taken ∷ [])
unfolding covers
taken-IsExclusive first second whole exclusive byte a b = ground arith

relock-IsExclusive_example : IsExclusive after
relock-IsExclusive_example =
    relock-IsExclusive true (taken ∷ []) lock_shared asked taken-IsExclusive relock-after

abbrev created : Entry
created = record { watch = 7; events = 2; cookie = 0; name = 97 ∷ (98 ∷ []) }

created-Fits : Fits created
created-Fits = record {
  watch = omega arith;
  events = omega arith;
  cookie = omega arith;
  name = omega arith;
}

empty-Holds : Holds empty []
empty-Holds = record {
  bytes = refl;
  count = refl;
  fit = tt;
  marked = refl;
  bounded = omega arith;
  room = λ _. omega arith;
}

push_refines_example : Holds (push (λ n. leb n 100) empty 7 2 0 (97 ∷ (98 ∷ []))) (created ∷ [])
push_refines_example = push_refines (λ n. leb n 100) empty [] created empty-Holds created-Fits refl

abbrev waiting : Queue
waiting = record { bytes = encode_all (created ∷ []); count = 1; lost = false }

waiting-Holds : Holds waiting (created ∷ [])
waiting-Holds = record {
  bytes = refl;
  count = refl;
  fit = (created-Fits, tt);
  marked = refl;
  bounded = omega arith;
  room = λ _. omega arith;
}

pop_refines_example :
    (pop waiting ≡ next (told created) (without waiting created []))
    × Holds (without waiting created []) []
pop_refines_example = pop_refines waiting created [] waiting-Holds

-- Two bytes behind the end of a file of three: a zero stands between.
abbrev file : List ℕ
file = 1 ∷ (2 ∷ (3 ∷ []))

abbrev longer : List ℕ
longer = 1 ∷ (2 ∷ (3 ∷ (0 ∷ (8 ∷ (9 ∷ [])))))

writes : write (λ n. leb n 64) file 4 (8 ∷ (9 ∷ [])) 10 ≡ ok (2, longer)
unfolding write reserve padded overlay
writes = refl
