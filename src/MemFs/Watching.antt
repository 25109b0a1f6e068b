-- ===== src/MemFs/Watching.antt =====
-- `Watches` for `MemFs` in crates/dotnet-pal-memfs/src/lib.rs.
use dotnet_pal_rs.Common.{
  ℕ, ◌+◌, ◌-◌, min, bit_and, leb, ◌==◌, if◌then◌else◌, Bool, true, false, not, Option, none, some,
  List, [], ◌∷◌, ◌++◌,
}
use dotnet_pal_rs.Common.Words.{u32_max, usize_max, saturating_add}
use dotnet_pal_rs.Port.{
  invalid_argument, not_directory, not_found, no_space, out_of_memory, timeout,
}
use dotnet_pal_rs.MemFs.Exec.{
  Outcome, finished, failed, endless, Exec, ◌>>=◌, ◌>>◌, give, fail, view, read, modify, refuse_if,
  when, required,
}
use dotnet_pal_rs.MemFs.Maps.{insert, remove, nat_key}
use dotnet_pal_rs.MemFs.Queue.{Event, push, pop, empty, header, nothing, fault, next}
use dotnet_pal_rs.MemFs.State.{State, Host, Handle, Watch, Watcher, watcher_at, is_directory_at}
use dotnet_pal_rs.MemFs.Walk.{follow, keep, walk}
use dotnet_pal_rs.MemFs.Handles.{borrow, new_handle, has}
use dotnet_pal_rs.MemFs.Reports.{find, without_first, removed}

-- `REQUESTABLE`, `ONLY_DIRECTORY`, `NO_FOLLOW`, `FOREVER` and `WAIT_SLICE`
abbrev pub requestable : ℕ
requestable = 127

abbrev pub only_directory : ℕ
only_directory = 1024

abbrev pub no_follow : ℕ
no_follow = 2048

abbrev pub forever : ℕ
forever = usize_max

abbrev pub wait_slice : ℕ
wait_slice = 10000000

abbrev pub watched : Handle → Outcome ℕ
watched (Handle.watcher id) = finished id
watched _ = failed invalid_argument

-- `watcher_id`
unfoldable pub watcher_id : ℕ → Exec State ℕ
unfolding borrow
watcher_id handle = do h ← borrow handle; view (λ _. watched h)

-- `watcher`, and a change of it.
unfoldable pub put_watcher : ℕ → Watcher → State → State
put_watcher id w s = record s { watchers = insert id w s.watchers }

-- `Watches::open`
unfoldable pub open_watcher : Host → Exec State ℕ
unfolding new_handle put_watcher
open_watcher host = do
  refuse_if (not (host.heap.grants header)) out_of_memory
  id ← read (λ (s : State). s.next_watcher)
  modify (λ s. record s { next_watcher = id + 1 })
  modify (put_watcher id (record { queue = empty; watches = []; last = 0 }))
  new_handle host (Handle.watcher id)

-- `Watches::close`
unfoldable pub close_watcher : ℕ → Exec State (Unit {0})
unfolding watcher_id
close_watcher handle = do
  id ← watcher_id handle
  modify (λ (s : State). record s { watchers = remove id s.watchers })

-- The events of the first watch of a node, set.
abbrev pub set_events : ℕ → ℕ → List Watch → List Watch
set_events node wanted [] = []
set_events node wanted (watch ∷ watches) =
    if watch.node == node
    then record watch { events = wanted } ∷ watches
    else watch ∷ set_events node wanted watches

-- `Watches::add`, on the watcher and the node that were found.
unfoldable pub add_watch : Host → ℕ → Watcher → ℕ → ℕ → Exec State ℕ
unfolding put_watcher
add_watch host id w node wanted s = elim (find (λ (known : Watch). known.node == node) w.watches) [
  | some known ↦ (
    finished known.id,
    put_watcher id (record w { watches = set_events node wanted w.watches }) s,
  )
  | none ↦
      if w.last == u32_max
      then (failed no_space, s)
      else if not (host.heap.grants 1)
      then (failed out_of_memory, s)
      else (
        finished (w.last + 1),
        put_watcher id
            (record w {
              last = w.last + 1;
              watches = w.watches ++ record { id = w.last + 1; node = node; events = wanted } ∷ [];
            })
            s,
      )
]

-- `Watches::add`
unfoldable pub add : Host → ℕ → List ℕ → ℕ → Exec State ℕ
unfolding watcher_id add_watch
add host handle path events = do
  let wanted = bit_and events requestable
  refuse_if (wanted == 0) invalid_argument
  id ← watcher_id handle
  place ← view (walk path (if has events no_follow then keep else follow))
  node ← required place.node not_found
  when (has events only_directory)
      (do dir ← view (is_directory_at node); refuse_if (not dir) not_directory)
  w ← view (watcher_at id)
  add_watch host id w node wanted

abbrev pub with_id : ℕ → Watch → Bool
with_id watch known = known.id == watch

-- `Watches::remove`
unfoldable pub remove_watch : Host → ℕ → ℕ → Exec State (Unit {0})
unfolding watcher_id put_watcher
remove_watch host handle watch = do
  id ← watcher_id handle
  w ← view (watcher_at id)
  _ ← required (find (with_id watch) w.watches) invalid_argument
  modify (
      put_watcher id (record w {
        watches = without_first (with_id watch) w.watches;
        queue = push host.heap.grants w.queue watch removed 0 [];
      }))

-- One look of `Watches::read` at its queue. A `drain` beyond the end of the bytes panics.
unfoldable pub take_event : ℕ → Exec State (Option Event)
unfolding watcher_id put_watcher
take_event handle = do
  id ← watcher_id handle
  w ← view (watcher_at id)
  elim (pop w.queue) as (λ _. Exec State (Option Event)) [
    | fault ↦ view (λ _. endless)
    | nothing q ↦ modify (put_watcher id (record w { queue = q })) >> give none
    | next event q ↦ modify (put_watcher id (record w { queue = q })) >> give (some event)
  ]

-- A wait of a read: what the clock says before it, and what the calls of others do meanwhile.
pub record Pause : Type 0 where
  pub clock : ℕ
  pub others : State → State

-- The hooks that a port may have set: `set_wait` and `set_clock`.
pub record Hooks : Type 0 where
  pub wait : Bool
  pub clock : Bool

-- Whether a timed read that has no wait function gives up, at the clock's reading; and its deadline.
unfoldable pub time_is_up : Hooks → ℕ → Option ℕ → ℕ → Bool × Option ℕ
time_is_up hooks timeout_ns deadline now =
    if timeout_ns == forever
    then (false, deadline)
    else if not hooks.clock
    then (true, deadline)
    else (let end : ℕ = elim deadline [ none ↦ saturating_add now timeout_ns | some d ↦ d ] in
        (leb end now, some end))

-- The part of `Watches::read` behind a look that found no event: it gives up, or waits with so much time
-- left and this deadline.
pub data Wait : Type 0 where
  give_up : Wait
  again : ℕ → Option ℕ → Wait

unfoldable pub wait_for : Hooks → ℕ → ℕ → Option ℕ → ℕ → Wait
unfolding time_is_up
wait_for hooks timeout_ns left deadline now =
    if left == 0
    then give_up
    else if hooks.wait
    then again (if timeout_ns == forever then left else left - min left wait_slice) deadline
    else (let (up, deadline') = time_is_up hooks timeout_ns deadline now in
        if up then give_up else again left deadline')

-- The loop of `Watches::read`. A reader that waits beyond the last of the given pauses does not come back.
unfoldable pub read_loop : Hooks → ℕ → ℕ → ℕ → Option ℕ → List Pause → Exec State Event
unfolding take_event wait_for
read_loop hooks handle timeout_ns left deadline [] = take_event handle >>= λ found.
    elim found as (λ _. Exec State Event) [
      | some event ↦ give event
      | none ↦ if left == 0 then fail timeout else view (λ _. endless)
    ]
read_loop hooks handle timeout_ns left deadline (pause ∷ pauses) = take_event handle >>= λ found.
    elim found as (λ _. Exec State Event) [
      | some event ↦ give event
      | none ↦
          elim (wait_for hooks timeout_ns left deadline pause.clock) as (λ _. Exec State Event) [
            | give_up ↦ fail timeout
            | again left' deadline' ↦
                λ s. read_loop hooks handle timeout_ns left' deadline' pauses (pause.others s)
          ]
    ]

-- `Watches::read`
unfoldable pub read_event : Hooks → ℕ → ℕ → List Pause → Exec State Event
unfolding read_loop
read_event hooks handle timeout_ns pauses = read_loop hooks handle timeout_ns timeout_ns none pauses
