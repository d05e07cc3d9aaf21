-- ===== src/Tests/Ring.antt =====
-- The properties of the request handlers, at concrete inputs.
use us_blkback.Base.{
  ℕ, ◌≡◌, ◌≢◌, refl, ◌⊎◌, inl, inr, none, some, [], ◌∷◌, length, Bool, true, false, arith,
}
use us_blkback.Disk.Image.{Rsp}
use us_blkback.Ring.{
  Segment, Ring, read, write, indirects, Request, IndirectRequest, valid_segment, handle_read_write,
  handle_indirect, process_request,
}
use us_blkback.Ring.Effects.{IsSafe, RingInv}
use us_blkback.Ring.Runs.{Stays, Runs}
use us_blkback.Ring.Direct.{IsSound, handle_read_write-Runs}
use us_blkback.Ring.Indirect.Handler.{IsSoundIndirect, listed, handle_indirect-Runs}
use us_blkback.Ring.Answers.{Handled, process_request-Handled}
use us_blkback.Ring.Faults.{handle_read_write-beyond_page}
use us_blkback.Tests.Machine.{
  World, Memory, gnttab, gnttab_ok, memory, memory_ok, abi, abi_ok, segment_at, nowhere, ring,
  ring_ok,
}

-- Sectors 2 to 4 of page 7.
abbrev segment : Segment
segment = record { gref = 7; first_sect = 2; last_sect = 4 }

segment-IsSafe : IsSafe abi segment
unfolding valid_segment
segment-IsSafe = record { valid = refl; byte = omega arith }

abbrev indirect : IndirectRequest
indirect = record {
  indirect_op = write;
  nr_segments = 1;
  sector_number = 3;
  indirect_grefs = 5 ∷ 0 ∷ 0 ∷ 0 ∷ 0 ∷ 0 ∷ 0 ∷ 0 ∷ [];
}

abbrev request : Request
request = record {
  operation = read;
  nr_segments = 1;
  id = 42;
  sector_number = 3;
  seg = segment ∷ segment ∷ [];
  as_discard = record { sector_number = 3; nr_sectors = 1 };
  as_indirect = indirect;
}

request-IsSound : IsSound abi segment_at gnttab memory gnttab_ok memory_ok nowhere request
request-IsSound = record {
  some_segment = omega arith;
  few_segments = omega arith;
  in_array = omega arith;
  all_safe = (segment-IsSafe, tt);
  no_wrap = omega arith;
}

indirect-IsSoundIndirect : IsSoundIndirect abi segment_at gnttab memory indirect ring
unfolding valid_segment
indirect-IsSoundIndirect = record {
  operation = inr refl;
  some_segment = omega arith;
  few_segments = omega arith;
  array = refl;
  all_safe = (record { valid = refl; byte = omega arith }, tt);
  avoids = (a, (b, (b, (b, (b, (b, (b, (b, tt))))))));
  no_wrap = omega arith;
}
  where
    a : (◌≡◌ {A = Bool} true true ⊎ ◌≢◌ {A = ℕ} 7 5) × Unit {0}
    a = (inl refl, tt)

    b : (◌≡◌ {A = Bool} true true ⊎ ◌≢◌ {A = ℕ} 7 0) × Unit {0}
    b = (inl refl, tt)

handle_read_write-Runs_example :
    (rc : Rsp) × (r : Ring World Memory) × (handle_read_write abi segment_at gnttab memory request
        ring
      ≡ some (rc, r))
    × Stays gnttab memory nowhere ring r
    × Runs gnttab memory nowhere false (segment ∷ []) 3 ring rc r
handle_read_write-Runs_example =
    handle_read_write-Runs abi segment_at gnttab memory gnttab_ok memory_ok nowhere request ring
      ring_ok request-IsSound

handle_indirect-Runs_example :
    (length (listed abi segment_at gnttab memory indirect ring) ≡ 1)
    × (rc : Rsp) × (r : Ring World Memory) × (handle_indirect abi segment_at gnttab memory indirect
          ring
        ≡ some (rc, r))
    × Stays gnttab memory nowhere ring r
    × Runs gnttab memory nowhere true
        (listed abi segment_at gnttab memory indirect ring)
        3
        ring
        rc
        r
handle_indirect-Runs_example =
    handle_indirect-Runs abi segment_at gnttab memory gnttab_ok memory_ok nowhere abi_ok indirect
      ring ring_ok indirect-IsSoundIndirect

process_request-Handled_example :
    (rc : Rsp) × (r : Ring World Memory) × (process_request abi segment_at gnttab memory
        (record request { operation = indirects })
        ring
      ≡ some r)
    × RingInv gnttab memory nowhere r
    × Handled abi segment_at gnttab memory gnttab_ok memory_ok nowhere abi_ok
        (record request { operation = indirects })
        ring
        rc
        r
process_request-Handled_example =
    process_request-Handled abi segment_at gnttab memory gnttab_ok memory_ok nowhere abi_ok
      (record request { operation = indirects }) ring ring_ok indirect-IsSoundIndirect

-- Sectors 7 to 9 of a page that has 8.
abbrev beyond : Segment
beyond = record { gref = 7; first_sect = 7; last_sect = 9 }

beyond_refused : valid_segment abi beyond ≡ false
unfolding valid_segment
beyond_refused = refl

handle_read_write-beyond_page_example :
    handle_read_write abi segment_at gnttab memory (record request { seg = beyond ∷ [] }) ring
    ≡ none
handle_read_write-beyond_page_example =
    handle_read_write-beyond_page abi segment_at gnttab memory gnttab_ok memory_ok nowhere
      (record request { seg = beyond ∷ [] }) beyond [] ring ring_ok refl (omega arith) (omega arith)
      (omega arith) (omega arith) (omega arith) (λ w. omega arith)
