-- ===== src/Tests/Machine.antt =====
-- A hypervisor that grants every reference but 0, a file in memory, and the numbers of the Xen
-- headers on x86: they show that the assumptions can be met.
use us_blkback.Base.{ℕ, suc, ◌+◌, ◌*◌, refl, Option, none, [], leb, ◌==◌, if◌then◌else◌, arith}
use us_blkback.Disk.Image.{MappedFile, DiskImage}
use us_blkback.Disk.Bounds.{IsMappedFile, IsWf}
use us_blkback.Limits.{Abi, IsAbi}
use us_blkback.Grants.{Gnttab, Grants, emplace, erase}
use us_blkback.Grants.Inv.{IsGnttab, Inv}
use us_blkback.Ring.{Segment, Ring}
use us_blkback.Ring.Effects.{RingInv}

pub record World : Type 0 where
  pub next : ℕ
  pub window : ℕ → Option ℕ
  pub guest : ℕ → ℕ → ℕ

abbrev pub map_ref : World → ℕ → ℕ × World
map_ref w k =
    if k == 0
    then (0, w)
    else (suc w.next, record w { next = suc w.next; window = emplace w.window (suc w.next) k })

abbrev pub gnttab : Gnttab World
gnttab = record {
  map_grant_ref = λ w _ k. map_ref w k;
  unmap = λ w a. record w { window = erase w.window a };
  resolve = λ w a. if leb a w.next then w.window a else none;
  page = λ w k. w.guest k;
  set_page = λ w k f. record w { guest = λ j. if k == j then f else w.guest j };
}

pub gnttab_ok : IsGnttab gnttab
gnttab_ok = record {
  map_fails = λ w d k a h. ground arith;
  map_new = λ w d k h. ground arith;
  map_maps = λ w d k a h. ground arith;
  resolve-unmap = λ w a b k h. ground arith;
  resolve-set_page = λ w k a f. refl;
  page-map = λ w d k j i. ground arith;
  page-unmap = λ w a j i. refl;
  page-set_page = λ w k j i f. ground arith;
}

pub record Memory : Type 0 where
  pub length : ℕ
  pub byte : ℕ → ℕ

abbrev pub memory : MappedFile Memory
memory = record {
  get = λ f. f.byte;
  put = λ f b. record f { byte = b };
  flush = λ f. f;
  size = λ f. f.length;
}

pub memory_ok : IsMappedFile memory
memory_ok = record {
  get-put = λ f b i h. refl;
  size-put = λ f b. refl;
  get-flush = λ f i. refl;
  size-flush = λ f. refl;
}

abbrev pub abi : Abi
abi = record {
  page_size = 4096;
  sizeof_segment = 8;
  max_segments_per_request = 11;
  max_indirect_pages_per_request = 8;
}

pub abi_ok : IsAbi abi
abi_ok = record {
  asserts = record {
    segments_fit = omega arith;
    power_of_two = refl;
    indirect_pages_fit = omega arith;
    grants_fit = omega arith;
    eviction_fits = omega arith;
  };
  small_page = omega arith;
}

-- Little endian: four bytes of `gref`, then `first_sect` and `last_sect`.
abbrev pub segment_at : (ℕ → ℕ) → ℕ → Segment
segment_at bytes i = record {
  gref = bytes i + 256 * bytes (i + 1) + 65536 * bytes (i + 2) + 16777216 * bytes (i + 3);
  first_sect = bytes (i + 4);
  last_sect = bytes (i + 5);
}

abbrev pub nowhere : ℕ → Option ℕ
nowhere _ = none

-- A disk of 16 sectors, whose byte `i` is `i`.
abbrev pub disk : DiskImage Memory
disk = record { file = record { length = 8192; byte = λ i. i }; sector_count = 16 }

pub disk_ok : IsWf memory disk
disk_ok = record { whole = refl; some_sector = omega arith; few = omega arith }

-- Page 5 lists one segment, sector 0 of page 7; every other byte is 0.
abbrev pub world : World
world = record {
  next = 0;
  window = nowhere;
  guest = λ k i. if k == 5 then (if i == 0 then 7 else 0) else 0;
}

abbrev pub grants : Grants World
grants = record { dom_id = 3; lru = []; index = nowhere; next_node = 0; world = world }

pub grants_ok : Inv gnttab nowhere grants
grants_ok = record {
  good = tt;
  coherent = λ k. refl;
  exact = λ a. ground arith;
  bounded = omega arith;
}

abbrev pub ring : Ring World Memory
ring = record { grants = grants; image = disk; sent = [] }

pub ring_ok : RingInv gnttab memory nowhere ring
ring_ok = record { grants_ok = grants_ok; image_ok = disk_ok }
