-- ===== src/Tests/Shared.antt =====
-- A guest that writes to its pages while a request is handled.
use us_blkback.Base.{
  ℕ, ◌≡◌, refl, none, some, [], ◌∷◌, ◌==◌, if◌then◌else◌, false, true, arith, inl, inr,
}
use us_blkback.Disk.Image.{Rsp}
use us_blkback.Grants.{emplace}
use us_blkback.Ring.{Ring, Segment, handle_read_write, valid_segment, page_loop}
use us_blkback.Ring.Effects.{IsSafe, AllSafe, RingInv}
use us_blkback.Ring.Runs.{Stays}
use us_blkback.Ring.Shared.{Turns, outcome, in_page, shared_loop, handle_shared}
use us_blkback.Ring.Shared.Quiet.{quiet}
use us_blkback.Ring.Shared.Confined.{handle_shared-Confined}
use us_blkback.Ring.Shared.Once.{IsGuest, Confined}
use us_blkback.Ring.Shared.Once.{Ends, LeavesAlone}
use us_blkback.Ring.Shared.Patient.{shared_loop-patient}
use us_blkback.Ring.Indirect.Page.{Holds}
use us_blkback.Ring.Indirect.Pages.{page_segments}
use us_blkback.Ring.Shared.Refetched.{swaps, shared_loop-swapped}
use us_blkback.Frontend.Bind.{bound-RingInv}
use us_blkback.Tests.Machine.{
  World, Memory, gnttab, gnttab_ok, memory, memory_ok, abi, segment_at, disk, disk_ok, world,
  nowhere,
}
use us_blkback.Tests.Frontend.{owned, before, read_page, read_page-IsSound}

-- Fills page 7 with ones before the second read.
abbrev filling : Turns World
filling t w = if t == 1 then gnttab.set_page w 7 (λ _. 1) else w

filling-IsGuest : IsGuest gnttab memory filling
filling-IsGuest t w a = ground arith

handle_shared-Confined_example :
    (rc : Rsp) × (r : Ring World Memory) × (handle_shared abi segment_at gnttab memory filling
        read_page owned.ring
      ≡ some (rc, r))
    × Stays gnttab memory before owned.ring r
    × Confined gnttab memory false 3 3 owned.ring r
    × (handle_shared abi segment_at gnttab memory quiet read_page owned.ring
        ≡ handle_read_write abi segment_at gnttab memory read_page owned.ring)
handle_shared-Confined_example =
    handle_shared-Confined abi segment_at gnttab memory gnttab_ok memory_ok before filling
      filling-IsGuest read_page owned.ring (bound-RingInv gnttab memory 3 disk world disk_ok)
      read_page-IsSound

-- Sectors 0 to 7 of page 7, and sector 7 alone.
abbrev shown : Segment
shown = record { gref = 7; first_sect = 0; last_sect = 7 }

abbrev hidden : Segment
hidden = record { gref = 7; first_sect = 7; last_sect = 7 }

abbrev hidden_bytes : ℕ → ℕ
hidden_bytes i = if i == 0 then 7 else if i == 4 then 7 else if i == 5 then 7 else 0

-- Page 5 is mapped at address 1 and lists the first segment.
abbrev listing : World
listing = record {
  next = 1;
  window = emplace nowhere 1 5;
  guest = λ k i. if i == 0 then 7 else if i == 5 then 7 else 0;
}

abbrev indirect_ring : Ring World Memory
indirect_ring = record {
  grants = record {
    dom_id = 3;
    lru = record { id = 0; page = record { addr = 1; gref = 5 } } ∷ [];
    index = emplace nowhere 5 0;
    next_node = 1;
    world = listing;
  };
  image = disk;
  sent = [];
}

indirect_ring_ok : RingInv gnttab memory nowhere indirect_ring
indirect_ring_ok = record {
  grants_ok = record {
    good = ((omega arith, (λ e. omega (arith, e)), refl), tt, tt);
    coherent = λ k. refl;
    exact = λ a. ground arith;
    bounded = omega arith;
  };
  image_ok = disk_ok;
}

shown-IsSafe : IsSafe abi shown
unfolding valid_segment
shown-IsSafe = record { valid = refl; byte = omega arith }

hidden_valid : valid_segment abi hidden ≡ true
unfolding valid_segment
hidden_valid = refl

shared_loop-swapped_example :
    IsGuest gnttab memory (swaps abi segment_at gnttab memory 0 5 hidden_bytes)
    × (shared_loop abi segment_at gnttab memory
          (swaps abi segment_at gnttab memory 0 5 hidden_bytes)
          (in_page abi segment_at gnttab memory 1)
          1
          0
          0
          false
          indirect_ring
        ≡ none)
shared_loop-swapped_example =
    shared_loop-swapped abi segment_at gnttab memory gnttab_ok memory_ok nowhere false 0 0 1 5 1 0
      shown hidden hidden_bytes indirect_ring indirect_ring_ok (inl (refl, refl)) (omega arith)
      (omega arith) refl refl shown-IsSafe (omega arith) (omega arith) (λ w e. omega (arith, e))

filling-LeavesAlone :
    (t : ℕ) → LeavesAlone abi segment_at gnttab memory gnttab_ok memory_ok nowhere (filling t) 5
filling-LeavesAlone t w i = ground arith

indirect_ring-Holds :
    Holds abi segment_at gnttab memory gnttab_ok memory_ok nowhere 1 5 1
      (gnttab.page listing 5)
      indirect_ring
indirect_ring-Holds = record {
  ring_ok = indirect_ring_ok;
  recent = inl (refl, refl);
  same_bytes = λ i. refl;
}

listed_safe : AllSafe abi (page_segments abi segment_at (gnttab.page listing 5) 1 0)
unfolding valid_segment
listed_safe = (record { valid = refl; byte = omega arith }, tt)

shared_loop-patient_example :
    Ends abi segment_at gnttab memory gnttab_ok memory_ok nowhere false 0 8 indirect_ring (
      outcome (
        shared_loop abi segment_at gnttab memory filling
          (in_page abi segment_at gnttab memory 1)
          1
          0
          0
          false
          indirect_ring))
    × (shared_loop abi segment_at gnttab memory quiet
          (in_page abi segment_at gnttab memory 1)
          1
          0
          0
          false
          indirect_ring
        ≡ page_loop abi segment_at gnttab memory 1 0 1 0 false indirect_ring)
shared_loop-patient_example =
    shared_loop-patient abi segment_at gnttab memory gnttab_ok memory_ok nowhere filling false 1 0 1
      5 1 0 (gnttab.page listing 5) indirect_ring filling-IsGuest filling-LeavesAlone
      indirect_ring-Holds (omega arith) (omega arith) listed_safe (inr (λ e. omega (arith, e)), tt)
      (omega arith)
