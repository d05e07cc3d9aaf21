-- ===== src/Guest/Outcomes.antt =====
-- What any sequence of calls of a guest's handlers comes to (BlkBackend.cpp).
use us_blkback.Base.{
  ℕ, ◌≡◌, ◌≢◌, ap, ◌∙◌, Option, none, some, List, ◌∷◌, ◌≤◌, length, Bool, get_elem?,
}
use us_blkback.Disk.Image.{MappedFile}
use us_blkback.Disk.Bounds.{IsMappedFile}
use us_blkback.Limits.{Abi, IsAbi}
use us_blkback.Grants.{Gnttab}
use us_blkback.Grants.Nodes.{mapped}
use us_blkback.Grants.Inv.{IsGnttab}
use us_blkback.Ring.{Segment, Request}
use us_blkback.Ring.Dispatch.{SoundFor}
use us_blkback.Frontend.{returned, ◌>>=◌}
use us_blkback.Guest.{
  GuestEvent, request, BoundHandler, Guest, with_ring, current, visited, replace, step,
}
use us_blkback.Guest.Handlers.{Answered}
use us_blkback.Guest.Lookup.{ids, asked, top-freed, top-own, Layers-found}
use us_blkback.Guest.Run.{Goes, request-Between}
use us_blkback.Guest.Between.{Goes-Between}

module _ {W F : Type 0} (abi : Abi) (segment_at : (ℕ → ℕ) → ℕ → Segment) (gnt : Gnttab W)
    (file : MappedFile F) (gnt_ok : IsGnttab gnt) (file_ok : IsMappedFile file) (abi_ok : IsAbi abi)
    (open_file : List ℕ → Option F) (ring_opens : ℕ → ℕ → ℕ → Bool) (dom_id : ℕ) (w0 : W) where
  -- In a history of binds, requests, closings, drops and writes of the guest to its pages, in any
  -- order, in which each call returned and each request went to a ring with an owner and was, when
  -- it came, sound or one that is refused before it touches anything: a further sound request to a
  -- ring with an owner is carried out, and changes the machine and this handler alone; the ring has
  -- then answered the requests that it was given, each once and in order.
  pub step-Answered :
      (es : List GuestEvent) (g : Guest W F) (i : ℕ) (req : Request) (h : BoundHandler W F)
      → Goes abi segment_at gnt file gnt_ok file_ok abi_ok open_file ring_opens dom_id w0 es g
      → get_elem? g.handlers i ≡ some h
      → h.owners ≢ 0
      → SoundFor abi segment_at gnt file gnt_ok file_ok
          (λ a. gnt.resolve w0 a)
          abi_ok
          req.operation
          req
          (current g.machine h.ring)
      → (b : ℕ → Option ℕ) × (h' : BoundHandler W F) × (step abi segment_at gnt file open_file
            ring_opens
            (request i req)
            g
          ≡ returned (visited g (h'.ring.grants.world, replace i h' g.handlers)))
        × (ids h'.ring.sent ≡ req.id ∷ asked i es)
        × Answered abi segment_at gnt file gnt_ok file_ok abi_ok req
            (with_ring h (current g.machine h.ring))
            b
            h'
  unfolding step
  step-Answered es g i req h before found owned sound =
      let (b, h', ran, ok, counted, answered) =
        request-Between abi segment_at gnt file gnt_ok file_ok abi_ok open_file ring_opens dom_id w0
          i req es g h
          (Goes-Between abi segment_at gnt file gnt_ok file_ok abi_ok open_file ring_opens dom_id w0
            es g before)
          found owned sound in
      (b, h', ap (λ r. r >>= λ x. returned (visited g x)) ran, counted, answered)

  -- In a history of binds, requests, closings, drops and writes of the guest to its pages, in any
  -- order, in which each call returned and each request went to a ring with an owner and was, when
  -- it came, sound or one that is refused before it touches anything: a grant that a handler has in
  -- its list stays mapped where the list says, as no other ring unmaps it or maps over it; and the
  -- list has at most 1024 grants.
  pub Goes-mapped :
      (es : List GuestEvent) (g : Guest W F) (i : ℕ) (h : BoundHandler W F) (a k : ℕ)
      → Goes abi segment_at gnt file gnt_ok file_ok abi_ok open_file ring_opens dom_id w0 es g
      → get_elem? g.handlers i ≡ some h
      → mapped (λ _. none) h.ring.grants.lru a ≡ some k
      → (gnt.resolve g.machine a ≡ some k) × (length h.ring.grants.lru ≤ 1024)
  Goes-mapped es g i h a k before found own =
      let v =
        Goes-Between abi segment_at gnt file gnt_ok file_ok abi_ok open_file ring_opens dom_id w0 es
          g before in
      (
        v.in_order.exact a
            ∙ top-own file dom_id (λ a. gnt.resolve w0 a) g.handlers i h a k v.in_order.layers found
                own,
        (Layers-found file dom_id (λ a. gnt.resolve w0 a) g.handlers i h v.in_order.layers
            found).1.bounded,
      )

  -- In a history of binds, requests, closings, drops and writes of the guest to its pages, in any
  -- order, in which each call returned and each request went to a ring with an owner and was, when
  -- it came, sound or one that is refused before it touches anything: when every ring has lost its
  -- owners, exactly what was mapped before the first bind is mapped.
  pub Goes-freed :
      (es : List GuestEvent) (g : Guest W F)
      → Goes abi segment_at gnt file gnt_ok file_ok abi_ok open_file ring_opens dom_id w0 es g
      → ((i : ℕ) (h : BoundHandler W F) → get_elem? g.handlers i ≡ some h → h.owners ≡ 0)
      → (a : ℕ) → gnt.resolve g.machine a ≡ gnt.resolve w0 a
  Goes-freed es g before gone a =
      let v =
        Goes-Between abi segment_at gnt file gnt_ok file_ok abi_ok open_file ring_opens dom_id w0 es
          g before in
      v.in_order.exact a
      ∙ top-freed file dom_id (λ a. gnt.resolve w0 a) g.handlers a v.in_order.layers gone
