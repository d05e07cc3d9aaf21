-- ===== src/Guest.antt =====
-- The handlers of one guest, `BlkFrontendHandler` and `BlkCmdRingBuffer` (BlkBackend.cpp), which
-- share the machine: each has a ring and an image of its own, and their calls interleave.
pub mod Layers
pub mod Calls
pub mod Handlers
pub mod Lookup
pub mod Run
pub mod Between
pub mod Outcomes
use us_blkback.Base.{
  ℕ, zero, suc, Option, List, [], ◌∷◌, ◌++◌, Bool, true, false, ◌==◌, if◌then◌else◌,
}
use us_blkback.Disk.Image.{MappedFile}
use us_blkback.Limits.{Abi}
use us_blkback.Grants.{Gnttab}
use us_blkback.Ring.{Ring, Segment, Request, process_request}
use us_blkback.Frontend.{
  Result, terminated, returned, ◌>>=◌, or_terminate, XenStore, Owned, on_bind, on_closing, release,
}

-- What happens to the handlers of a guest. A number says which handler, in the order of the binds;
-- `writes` is the guest's own write to one of its pages.
pub data GuestEvent : Type 0 where
  bind : XenStore → GuestEvent
  request : ℕ → Request → GuestEvent
  closing dropped : ℕ → GuestEvent
  writes : ℕ → (ℕ → ℕ) → GuestEvent

-- What a bind made, and whether mCmdRingBuffer of the handler and the list of libxenbe still hold
-- the ring.
pub record BoundHandler (W F : Type 0) : Type 0 where
  pub owned : Owned W F
  pub open owned use *
  pub holds : Bool
  pub listed : Bool

-- The machine, and what the binds made. Only `machine` is current: the one in a ring is from the
-- last call of that ring.
pub record Guest (W F : Type 0) : Type 0 where
  pub dom_id : ℕ
  pub machine : W
  pub handlers : List (BoundHandler W F)

abbrev pub replace {ℓ} : {A : Type ℓ} → ℕ → A → List A → List A
replace i x [] = []
replace zero x (y ∷ ys) = x ∷ ys
replace (suc i) x (y ∷ ys) = y ∷ replace i x ys

module _ {W F : Type 0} where
  abbrev pub with_ring : BoundHandler W F → Ring W F → BoundHandler W F
  with_ring h r = record h { owned = record (h.owned) { ring = r } }

  -- The ring on the machine as the last call of any handler left it.
  abbrev pub current : W → Ring W F → Ring W F
  current w r = record r { grants = record (r.grants) { world = w } }

  -- A call of one handler.
  unfoldable pub visit :
      (BoundHandler W F → Result (BoundHandler W F))
      → ℕ
      → W
      → List (BoundHandler W F)
      → Result (W × List (BoundHandler W F))
  visit f i w [] = terminated
  visit f zero w (h ∷ hs) =
      f (with_ring h (current w h.ring)) >>= λ h'. returned (h'.ring.grants.world, h' ∷ hs)
  visit f (suc i) w (h ∷ hs) = visit f i w hs >>= λ r. returned (r.0, h ∷ r.1)

  abbrev pub visited : Guest W F → W × List (BoundHandler W F) → Guest W F
  visited g r = record g { machine = r.0; handlers = r.1 }

module _ {W F : Type 0} (abi : Abi) (segment_at : (ℕ → ℕ) → ℕ → Segment) (gnt : Gnttab W)
    (file : MappedFile F) where
  -- `processRequest`; without an owner the ring is destroyed, and using it undefined behaviour.
  unfoldable pub answer_request : Request → BoundHandler W F → Result (BoundHandler W F)
  answer_request req h =
      if h.owners == 0
      then terminated
      else or_terminate (process_request abi segment_at gnt file req h.ring) >>= λ r.
          returned (with_ring h r)

  -- `onClosing`: mCmdRingBuffer is null afterwards, and resetting it again does nothing.
  unfoldable pub close_ring : BoundHandler W F → BoundHandler W F
  close_ring h =
      if h.holds
      then record h { owned = on_closing abi segment_at gnt file h.owned; holds = false }
      else h

  -- libxenbe clears its list of rings.
  unfoldable pub drop_list : BoundHandler W F → BoundHandler W F
  drop_list h =
      if h.listed
      then record h { owned = release abi segment_at gnt file h.owned; listed = false }
      else h

  module _ (open_file : List ℕ → Option F) (ring_opens : ℕ → ℕ → ℕ → Bool) where
    unfoldable pub step : GuestEvent → Guest W F → Result (Guest W F)
    step (bind store) g = on_bind file open_file ring_opens store g.dom_id g.machine >>= λ o.
        returned (record g {
          handlers = g.handlers ++ (record { owned = o; holds = true; listed = true } ∷ []);
        })
    step (request i req) g =
        visit (answer_request req) i g.machine g.handlers >>= λ r. returned (visited g r)
    step (closing i) g =
        visit (λ h. returned (close_ring h)) i g.machine g.handlers >>= λ r. returned (visited g r)
    step (dropped i) g =
        visit (λ h. returned (drop_list h)) i g.machine g.handlers >>= λ r. returned (visited g r)
    step (writes k f) g = returned (record g { machine = gnt.set_page g.machine k f })
