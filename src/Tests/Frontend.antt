-- ===== src/Tests/Frontend.antt =====
-- A frontend that appears, is bound, served and closed, and the frontends of a backend.
use us_blkback.Base.{
  ℕ, ◌+◌, ◌*◌, ◌≤◌, ◌<◌, ◌≡◌, ◌⊎◌, refl, Option, none, some, List, [], ◌∷◌, ◌++◌, length, Bool,
  true, ◌==◌, if◌then◌else◌, arith,
}
use us_blkback.Limits.{max_pgrants, max_pgrants_per_frontend}
use us_blkback.Disk.Image.{Rsp, open_image}
use us_blkback.Ring.{Ring, Request, Segment, read, valid_segment, process_request}
use us_blkback.Ring.Effects.{RingInv, IsSafe}
use us_blkback.Ring.Direct.{IsSound}
use us_blkback.Ring.Answers.{Handled, process_request-Handled}
use us_blkback.Frontend.{
  XenStore, Key, event_channel, ring_ref, params, quote, unquote, Owned, bound, returned,
  feature_max_indirect_segments, feature_discard, feature_persistent, feature_flush_cache,
  feature_barrier, sectors, sector_size_entry, info, write_all, on_bind, release,
}
use us_blkback.Frontend.Bind.{on_bind-RingInv, bound-RingInv}
use us_blkback.Frontend.Session.{idle, served}
use us_blkback.Frontend.Life.{frontend_life, frontend_life-Serves}
use us_blkback.Backend.{
  FrontendId, Backend, initial, on_new_frontend, started, appeared, on_new_frontend-Reaches,
}
use us_blkback.Tests.Machine.{
  World, Memory, gnttab, gnttab_ok, memory, memory_ok, abi, abi_ok, segment_at, disk, disk_ok,
  world,
}

abbrev path : List ℕ
path = 47 ∷ 97 ∷ []

abbrev ints : Key → Option ℕ
ints event_channel = some 4
ints ring_ref = some 8
ints _ = none

abbrev strings : Key → Option (List ℕ)
strings params = some (quote ∷ path ++ (quote ∷ []))
strings _ = none

abbrev pub store : XenStore
store = record { read_int = ints; read_string = strings; write_int = λ _ _. true; adds_ring = true }

abbrev pub files : List ℕ → Option Memory
files [] = none
files (c ∷ cs) = if c == 47 then some disk.file else none

abbrev pub opens : ℕ → ℕ → ℕ → Bool
opens _ _ _ = true

abbrev pub owned : Owned World Memory
owned = bound 3 disk world

unquoted : unquote (quote ∷ path ++ (quote ∷ [])) ≡ some path
unfolding unquote
unquoted = refl

on_bind-RingInv_example :
    (o : Owned World Memory) × (on_bind memory files opens store 3 world ≡ returned o)
    × RingInv gnttab memory (λ a. gnttab.resolve world a) o.ring
    × (o.ring.sent ≡ [])
    × (o.ring.grants.lru ≡ [])
    × (o.published
        ≡ (feature_max_indirect_segments, 256)
          ∷ (feature_discard, 0)
          ∷ (feature_persistent, 1)
          ∷ (feature_flush_cache, 1)
          ∷ (feature_barrier, 1)
          ∷ (sectors, 16)
          ∷ (sector_size_entry, 512)
          ∷ (info, 0)
          ∷ [])
    × (o.ring.image.sector_count * 512 ≡ 8192)
    × (o.owners ≡ 2)
on_bind-RingInv_example =
    on_bind-RingInv gnttab memory files opens store 3 world 4 8 (quote ∷ path ++ (quote ∷ [])) path
      disk.file refl refl refl unquoted refl (omega arith) refl (omega arith) (λ k n. refl) refl
      refl

bind_owned : on_bind memory files opens store 3 world ≡ returned owned
unfolding on_bind write_all unquote open_image
bind_owned = refl

-- Sectors 2 to 4 of page 7, read from sector 3 of the disk.
abbrev segment : Segment
segment = record { gref = 7; first_sect = 2; last_sect = 4 }

abbrev pub read_page : Request
read_page = record {
  operation = read;
  nr_segments = 1;
  id = 42;
  sector_number = 3;
  seg = segment ∷ [];
  as_discard = record { sector_number = 0; nr_sectors = 0 };
  as_indirect = record {
    indirect_op = read;
    nr_segments = 0;
    sector_number = 0;
    indirect_grefs = [];
  };
}

segment-IsSafe : IsSafe abi segment
unfolding valid_segment
segment-IsSafe = record { valid = refl; byte = omega arith }

abbrev pub before : ℕ → Option ℕ
before a = gnttab.resolve world a

pub read_page-IsSound : IsSound abi segment_at gnttab memory gnttab_ok memory_ok before read_page
read_page-IsSound = record {
  some_segment = omega arith;
  few_segments = omega arith;
  in_array = omega arith;
  all_safe = (segment-IsSafe, tt);
  no_wrap = omega arith;
}

handled :
    (rc : Rsp) × (r : Ring World Memory) × (process_request abi segment_at gnttab memory read_page
        owned.ring
      ≡ some r)
    × RingInv gnttab memory before r
    × Handled abi segment_at gnttab memory gnttab_ok memory_ok before abi_ok read_page owned.ring rc
        r
handled =
    process_request-Handled abi segment_at gnttab memory gnttab_ok memory_ok before abi_ok read_page
      owned.ring (bound-RingInv gnttab memory 3 disk world disk_ok) read_page-IsSound

abbrev after : Ring World Memory
after = handled.1

abbrev first : FrontendId
first = record { dom_id = 3; dev_id = 51712 }

abbrev crowded : Backend
crowded = record { frontend_count = 8; handlers = first ∷ [] }

frontend_life-Serves_example :
    ((frontend_life abi segment_at gnttab memory files opens first store world
        (read_page ∷ [])
        initial).1
      ≡ some (returned (record owned { ring = after; owners = 1 })))
    × (length after.sent ≡ 1)
    × ((a : ℕ)
        → gnttab.resolve
            (release abi segment_at gnttab memory
              (record owned { ring = after; owners = 1 })).ring.grants.world
            a
          ≡ gnttab.resolve world a)
    × (frontend_life abi segment_at gnttab memory files opens first store world
          (read_page ∷ [])
          crowded
        ≡ (crowded, none))
frontend_life-Serves_example =
    frontend_life-Serves abi segment_at gnttab memory gnttab_ok memory_ok abi_ok files opens first
      store world owned (read_page ∷ []) after initial crowded (omega arith) (omega arith)
      bind_owned (served read_page idle read_page-IsSound handled.2)

on_new_frontend-Reaches_example :
    (length (on_new_frontend first initial).handlers * max_pgrants_per_frontend ≤ max_pgrants)
    × (((1 < 8)
          × (length (on_new_frontend first (on_new_frontend first initial)).handlers
              ≡ length (on_new_frontend first initial).handlers + 1))
        ⊎ ((8 ≤ 1)
            × (on_new_frontend first (on_new_frontend first initial)
                ≡ on_new_frontend first initial)))
on_new_frontend-Reaches_example =
    on_new_frontend-Reaches 1 (on_new_frontend first initial) first (appeared first started)
