-- ===== src/MemFs/Queue/Order.antt =====
-- A queue of events as the list of the entries that it holds.
use mathlib.Core.List.{append-nil}
use dotnet_pal_rs.Common.{
  ℕ, ◌+◌, ◌-◌, ◌%◌, ◌≤◌, ◌<◌, ◌^◌, ◌≡◌, ◌∙◌, sym, refl, ap, inl, inr, Bool, true, false, not, ◌||◌,
  bit_and, List, [], ◌∷◌, ◌++◌, length, arith, leb, ltb, ◌==◌, if◌then◌else◌, any, Bool-cases,
}
use dotnet_pal_rs.MemFs.Queue.{
  Event, Queue, next, overflow, queue_limit, enqueue, push, pop, pop_name, read_word, event_of,
  word_bytes,
}
use dotnet_pal_rs.MemFs.Queue.Encoding.{
  Entry, Fits, encode, encode_all, AllFit, encode_all-append, word_value, take-append, drop-append,
  length-append-le,
}

-- Whether an entry says that events were lost.
abbrev pub is_overflow : Entry → Bool
is_overflow e = not (bit_and e.events overflow == 0)

abbrev pub overflows : List Entry → ℕ
overflows [] = 0
overflows (e ∷ es) = (if is_overflow e then 1 else 0) + overflows es

abbrev pub lost_entry : Entry
lost_entry = record { watch = 0; events = overflow; cookie = 0; name = [] }

-- The queue holds the entries, oldest first, with one that says so while events are lost.
pub record Holds (q : Queue) (es : List Entry) : Type 0 where
  pub bytes : q.bytes ≡ encode_all es
  pub count : q.count ≡ length es
  pub fit : AllFit es
  pub marked : overflows es ≡ (if q.lost then 1 else 0)
  pub bounded : length es ≤ queue_limit + 1
  pub room : q.lost ≡ false → length es ≤ queue_limit

length-snoc : (es : List Entry) (e : Entry) → length (es ++ e ∷ []) ≡ length es + 1
length-snoc [] e = omega arith
length-snoc (x ∷ es) e = omega (arith, length-snoc es e)

overflows-snoc :
    (es : List Entry) (e : Entry)
    → overflows (es ++ e ∷ []) ≡ overflows es + (if is_overflow e then 1 else 0)
overflows-snoc [] e = omega arith
overflows-snoc (x ∷ es) e = omega (arith, overflows-snoc es e)

AllFit-snoc : (es : List Entry) (e : Entry) → AllFit es → Fits e → AllFit (es ++ e ∷ [])
AllFit-snoc [] e a f = (f, tt)
AllFit-snoc (x ∷ es) e a f = (a.0, AllFit-snoc es e a.1 f)

enqueue_bytes :
    (q : Queue) (e : Entry) (es : List Entry)
    → q.bytes ≡ encode_all es
    → (enqueue q e.watch e.events e.cookie e.name).bytes ≡ encode_all (es ++ e ∷ [])
unfolding enqueue
enqueue_bytes q e es h =
    rw (h, encode_all-append es (e ∷ [])) (ap (◌++◌ (encode_all es)) (sym (append-nil (encode e))))

enqueue-Holds :
    (q : Queue) (es : List Entry) (e : Entry)
    → Holds q es
    → Fits e
    → bit_and e.events overflow ≡ 0
    → length es < queue_limit
    → Holds (enqueue q e.watch e.events e.cookie e.name) (es ++ e ∷ [])
unfolding enqueue
enqueue-Holds q es e h f plain short = record {
  bytes = enqueue_bytes q e es h.bytes;
  count = omega (arith, h.count, length-snoc es e);
  fit = AllFit-snoc es e h.fit f;
  marked = ground (arith, h.marked, overflows-snoc es e, plain);
  bounded = omega (arith, length-snoc es e, short);
  room = λ _. omega (arith, length-snoc es e, short);
}

lost-Holds :
    (q : Queue) (es : List Entry)
    → Holds q es
    → q.lost ≡ false
    → Holds (enqueue (record q { lost = true }) 0 overflow 0 []) (es ++ lost_entry ∷ [])
unfolding enqueue
lost-Holds q es h kept = record {
  bytes = enqueue_bytes (record q { lost = true }) lost_entry es h.bytes;
  count = omega (arith, h.count, length-snoc es lost_entry);
  fit = AllFit-snoc es lost_entry h.fit (record {
    watch = omega arith;
    events = omega arith;
    cookie = omega arith;
    name = omega arith;
  });
  marked = ground (arith, h.marked, overflows-snoc es lost_entry, kept);
  bounded = omega (arith, length-snoc es lost_entry, h.room kept);
  room = λ t. cc;
}

-- A push keeps what waits, in order, and puts its entry at the end; where it does not fit, the end says
-- once that events were lost.
pub push_refines :
    (grants : ℕ → Bool) (q : Queue) (es : List Entry) (e : Entry)
    → Holds q es
    → Fits e
    → bit_and e.events overflow ≡ 0
    → Holds (push grants q e.watch e.events e.cookie e.name) (
        if leb queue_limit (length es) || not (grants (26 + length e.name))
        then (if q.lost then es else es ++ lost_entry ∷ [])
        else es ++ e ∷ [])
unfolding push
push_refines grants q es e h f plain =
    elim (Bool-cases (leb queue_limit (length es) || not (grants (26 + length e.name)))) [
      | inl full ↦
          let full' : (leb queue_limit q.count || not (grants (26 + length e.name))) ≡ true =
            ground (arith, h.count, full) in
          elim (Bool-cases q.lost) [
            | inl lost ↦ simp (full, full', lost, push) h
            | inr kept ↦ simp (full, full', kept, push) (lost-Holds q es h kept)
          ]
      | inr fits ↦
          let fits' : (leb queue_limit q.count || not (grants (26 + length e.name))) ≡ false =
            ground (arith, h.count, fits) in
          simp (fits, fits', push) (enqueue-Holds q es e h f plain (ground (arith, fits)))
    ]

-- The event that an entry becomes: itself, or an overflow where its name cannot be told.
abbrev pub told : Entry → Event
told e =
    if any (λ b. b == 0 || b == b'/') e.name
    then record { watch = 0; events = overflow; cookie = 0; name = [] }
    else record { watch = e.watch; events = e.events; cookie = e.cookie; name = e.name }

event_of-told : (e : Entry) → Fits e → event_of e.watch e.events e.cookie e.name ≡ told e
unfolding event_of
event_of-told e f = ground (arith, f.name)

-- What is left when the oldest entry is gone.
abbrev pub without : Queue → Entry → List Entry → Queue
without q e es = record {
  bytes = encode_all es;
  count = q.count - 1;
  lost = if bit_and e.events overflow == 0 then q.lost else false;
}

pop_name_lem :
    (q : Queue) (e : Entry) (es : List Entry)
    → Fits e
    → pop_name q e.watch e.events e.cookie (length e.name % 256 ∷ (e.name ++ encode_all es))
      ≡ next (told e) (without q e es)
unfolding pop_name
pop_name_lem q e es f =
    let size : length e.name % 256 ≡ length e.name = omega (arith, f.name) in
    let long : ltb (length (e.name ++ encode_all es)) (length e.name) ≡ false =
      ground (arith, length-append-le e.name (encode_all es)) in
    rw (
      size,
      long,
      take-append e.name (encode_all es),
      drop-append e.name (encode_all es),
      event_of-told e f,
    )

-- Three words are read back before the name is.
pop_words :
    (q : Queue) (w e c : ℕ) (rest : List ℕ)
    → (q.count == 0) ≡ false
    → q.bytes ≡ word_bytes w ++ (word_bytes e ++ (word_bytes c ++ rest))
    → w < 2 ^ 32
    → e < 2 ^ 32
    → c < 2 ^ 32
    → pop q ≡ pop_name q w e c rest
unfolding pop read_word
pop_words q w e c rest some_left spread w_fits e_fits c_fits = rw (
  some_left,
  ap read_word spread,
  word_value w w_fits,
  word_value e e_fits,
  word_value c c_fits,
  pop,
  read_word,
)

-- A pop gives the oldest entry and leaves the others in their order. It never runs out of bytes.
pub pop_refines :
    (q : Queue) (e : Entry) (es : List Entry)
    → Holds q (e ∷ es)
    → (pop q ≡ next (told e) (without q e es)) × Holds (without q e es) es
pop_refines q e es h = (answer, rest)
  where
    some_left : (q.count == 0) ≡ false
    some_left = ground (arith, h.count)

    spread :
        q.bytes
        ≡ word_bytes e.watch
          ++ (word_bytes e.events
              ++ (word_bytes e.cookie ++ (length e.name % 256 ∷ (e.name ++ encode_all es))))
    spread = h.bytes

    answer : pop q ≡ next (told e) (without q e es)
    answer =
        pop_words q e.watch e.events e.cookie (length e.name % 256 ∷ (e.name ++ encode_all es))
          some_left spread h.fit.0.watch h.fit.0.events h.fit.0.cookie
        ∙ pop_name_lem q e es h.fit.0

    rest : Holds (without q e es) es
    rest = record {
      bytes = refl;
      count = omega (arith, h.count);
      fit = h.fit.1;
      marked = ground (arith, h.marked);
      bounded = omega (arith, h.bounded);
      room = λ t. ground (arith, h.marked, h.room, h.bounded);
    }
