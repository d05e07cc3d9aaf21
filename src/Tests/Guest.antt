-- ===== src/Tests/Guest.antt =====
-- Two handlers of one guest.
use us_blkback.Base.{
  ℕ, zero, suc, ◌≤◌, length, ◌≡◌, ◌≢◌, refl, Option, none, some, List, [], ◌∷◌, false, inl, inr,
  arith, get_elem?,
}
use us_blkback.Grants.Nodes.{mapped}
use us_blkback.Ring.{
  Request, process_request, dispatch, handle_read_write, segment_loop, process_segment,
  copy_segment, destroy,
}
use us_blkback.Disk.Image.{error, open_image, read_sectors}
use us_blkback.Disk.Region.{memcpy}
use us_blkback.Grants.{add_grant, map_grant, free_grants, unmap_all}
use us_blkback.Frontend.{
  on_bind, write_all, unquote, bound, on_closing, release, Result, terminated, thrown, returned,
}
use us_blkback.Guest.{
  GuestEvent, bind, request, closing, dropped, BoundHandler, Guest, with_ring, current, visited,
  replace, step, visit, answer_request, close_ring, drop_list,
}
use us_blkback.Guest.Handlers.{Answered}
use us_blkback.Guest.Lookup.{ids}
use us_blkback.Guest.Run.{Goes, started, goes}
use us_blkback.Guest.Outcomes.{step-Answered, Goes-mapped, Goes-freed}
use us_blkback.Tests.Machine.{
  World, Memory, disk, gnttab, gnttab_ok, memory, memory_ok, abi, abi_ok, segment_at, world,
}
use us_blkback.Tests.Frontend.{store, files, opens, read_page, read_page-IsSound}

abbrev steps : GuestEvent → Guest World Memory → Result (Guest World Memory)
steps = step abi segment_at gnttab memory files opens

abbrev none_yet : Guest World Memory
none_yet = record { dom_id = 3; machine = world; handlers = [] }

abbrev after : GuestEvent → Guest World Memory → Guest World Memory
after e g = elim (steps e g) [ terminated ↦ g | thrown ↦ g | returned g' ↦ g' ]

abbrev handler_of : ℕ → Guest World Memory → BoundHandler World Memory
handler_of i g = elim (get_elem? g.handlers i) [
  | none ↦ record { owned = bound 3 disk world; holds = false; listed = false }
  | some h ↦ h
]

abbrev one : Guest World Memory
one = after (bind store) none_yet

abbrev two : Guest World Memory
two = after (bind store) one

-- The second handler reads, closes, and is dropped after the first was.
abbrev served : Guest World Memory
served = after (request 1 read_page) two

abbrev closed : Guest World Memory
closed = after (closing 1) served

abbrev both_closed : Guest World Memory
both_closed = after (closing 0) closed

abbrev one_dropped : Guest World Memory
one_dropped = after (dropped 0) both_closed

abbrev all_dropped : Guest World Memory
all_dropped = after (dropped 1) one_dropped

abbrev Went : List GuestEvent → Guest World Memory → Type 0
Went = Goes abi segment_at gnttab memory gnttab_ok memory_ok abi_ok files opens 3 world

goes_two : Went (bind store ∷ bind store ∷ []) two
unfolding step on_bind write_all unquote open_image
goes_two = goes (bind store) (goes (bind store) started tt refl) tt refl

found_two : get_elem? two.handlers 1 ≡ some (handler_of 1 two)
unfolding step on_bind write_all unquote open_image
found_two = refl

owned_two : (handler_of 1 two).owners ≡ 2
unfolding step on_bind write_all unquote open_image
owned_two = refl

some_owner : (handler_of 1 two).owners ≢ 0
some_owner none_left = omega (arith, owned_two)

step-Answered_example :
    (b : ℕ → Option ℕ) × (h' : BoundHandler World Memory) × (steps (request 1 read_page) two
      ≡ returned (visited two (h'.ring.grants.world, replace 1 h' two.handlers)))
    × (ids h'.ring.sent ≡ 42 ∷ [])
    × Answered abi segment_at gnttab memory gnttab_ok memory_ok abi_ok read_page
        (with_ring (handler_of 1 two) (current two.machine (handler_of 1 two).ring))
        b
        h'
step-Answered_example =
    step-Answered abi segment_at gnttab memory gnttab_ok memory_ok abi_ok files opens 3 world
      (bind store ∷ bind store ∷ []) two 1 read_page (handler_of 1 two) goes_two found_two
      some_owner read_page-IsSound

goes_served : Went (request 1 read_page ∷ bind store ∷ bind store ∷ []) served
unfolding step on_bind write_all unquote open_image visit answer_request process_request dispatch
    handle_read_write segment_loop process_segment add_grant map_grant copy_segment read_sectors
    memcpy
goes_served =
    goes (request 1 read_page) goes_two
      (handler_of 1 two, found_two, some_owner, inl read_page-IsSound) refl

-- A read of no segment is refused, and may come at any time.
abbrev no_segment : Request
no_segment = record read_page { nr_segments = 0 }

abbrev after_refusal : Guest World Memory
after_refusal = after (request 1 no_segment) two

goes_refused : Went (request 1 no_segment ∷ bind store ∷ bind store ∷ []) after_refusal
unfolding step on_bind write_all unquote open_image visit answer_request process_request dispatch
    handle_read_write
goes_refused =
    goes (request 1 no_segment) goes_two
      (handler_of 1 two, found_two, some_owner, inr (error, refl)) refl

found_served : get_elem? served.handlers 1 ≡ some (handler_of 1 served)
unfolding step on_bind write_all unquote open_image visit answer_request process_request dispatch
    handle_read_write segment_loop process_segment add_grant map_grant copy_segment read_sectors
    memcpy
found_served = refl

-- Grant 7 at the first address.
mapped_served : mapped (λ _. none) (handler_of 1 served).ring.grants.lru 1 ≡ some 7
unfolding step on_bind write_all unquote open_image visit answer_request process_request dispatch
    handle_read_write segment_loop process_segment add_grant map_grant copy_segment read_sectors
    memcpy
mapped_served = refl

Goes-mapped_example :
    (gnttab.resolve served.machine 1 ≡ some 7)
    × (length (handler_of 1 served).ring.grants.lru ≤ 1024)
Goes-mapped_example =
    Goes-mapped abi segment_at gnttab memory gnttab_ok memory_ok abi_ok files opens 3 world
      (request 1 read_page ∷ bind store ∷ bind store ∷ []) served 1 (handler_of 1 served) 1 7
      goes_served found_served mapped_served

abbrev events : List GuestEvent
events =
    dropped 1
    ∷ dropped 0
    ∷ closing 0
    ∷ closing 1
    ∷ request 1 read_page
    ∷ bind store
    ∷ bind store
    ∷ []

goes_dropped : Went events all_dropped
unfolding step on_bind write_all unquote open_image visit answer_request process_request dispatch
    handle_read_write segment_loop process_segment add_grant map_grant copy_segment read_sectors
    memcpy close_ring on_closing release drop_list destroy free_grants unmap_all
goes_dropped =
    goes (dropped 1)
      (goes (dropped 0)
        (goes (closing 0) (goes (closing 1) goes_served (handler_of 1 served, refl) refl)
          (handler_of 0 closed, refl) refl)
        (handler_of 0 both_closed, refl) refl)
      (handler_of 1 one_dropped, refl) refl

all_gone :
    (i : ℕ) (h : BoundHandler World Memory)
    → get_elem? all_dropped.handlers i ≡ some h
    → h.owners ≡ 0
unfolding step on_bind write_all unquote open_image visit answer_request process_request dispatch
    handle_read_write segment_loop process_segment add_grant map_grant copy_segment read_sectors
    memcpy close_ring on_closing release drop_list destroy free_grants unmap_all
all_gone zero h found = ground (arith, found)
all_gone (suc zero) h found = ground (arith, found)
all_gone (suc (suc i)) h found = absurd cc

Goes-freed_example : gnttab.resolve all_dropped.machine 1 ≡ none
Goes-freed_example =
    Goes-freed abi segment_at gnttab memory gnttab_ok memory_ok abi_ok files opens 3 world events
      all_dropped goes_dropped all_gone 1
