-- ===== src/Guest/Run.antt =====
-- The handlers of a guest under any sequence of calls (BlkBackend.cpp).
use us_blkback.Base.{
  ℕ, ◌≡◌, ◌≢◌, refl, sym, ap, ◌∙◌, Option, some, List, [], ◌∷◌, ◌==◌, Bool, false, get_elem?, arith,
  Bool-cases, inl, inr, ◌⊎◌, ==→≡,
}
use us_blkback.Disk.Image.{MappedFile, Rsp}
use us_blkback.Disk.Bounds.{IsMappedFile}
use us_blkback.Limits.{Abi, IsAbi}
use us_blkback.Grants.{Gnttab}
use us_blkback.Grants.Inv.{IsGnttab}
use us_blkback.Ring.{Segment, Request}
use us_blkback.Ring.Refusals.{refusal}
use us_blkback.Ring.Dispatch.{SoundFor}
use us_blkback.Frontend.{Result, returned}
use us_blkback.Guest.{
  GuestEvent, bind, request, closing, dropped, writes, BoundHandler, Guest, with_ring, current,
  visit, visited, replace, answer_request, step,
}
use us_blkback.Guest.Calls.{Fits, InOrder, visit-InOrder}
use us_blkback.Guest.Handlers.{Answered, answer_request-Fits, answer_request-refused}
use us_blkback.Guest.Lookup.{
  ids, asked_by, asked, answered_at, answered_at-found, answered_at-replace,
}

module _ {W F : Type 0} (abi : Abi) (segment_at : (ℕ → ℕ) → ℕ → Segment) (gnt : Gnttab W)
    (file : MappedFile F) (gnt_ok : IsGnttab gnt) (file_ok : IsMappedFile file) (abi_ok : IsAbi abi)
    (open_file : List ℕ → Option F) (ring_opens : ℕ → ℕ → ℕ → Bool) (dom_id : ℕ) (w0 : W) where
  -- What libxenbe keeps to: it calls handlers that it has made, and a request comes only while the
  -- ring has an owner; and the guest's part: the request is sound on the machine as it is, or it is
  -- one that is refused at once.
  abbrev pub Allowed : GuestEvent → Guest W F → Type 0
  Allowed (bind store) g = Unit {0}
  Allowed (request i req) g =
      (h : BoundHandler W F) × (get_elem? g.handlers i ≡ some h)
      × (h.owners ≢ 0)
      × (SoundFor abi segment_at gnt file gnt_ok file_ok (λ a. gnt.resolve w0 a) abi_ok
            req.operation req (current g.machine h.ring)
          ⊎ ((rc : Rsp) × (refusal abi segment_at gnt file req.operation req
                  (current g.machine h.ring)
                ≡ some rc)))
  Allowed (closing i) g = (h : BoundHandler W F) × (get_elem? g.handlers i ≡ some h)
  Allowed (writes k f) g = Unit {0}
  Allowed (dropped i) g = (h : BoundHandler W F) × (get_elem? g.handlers i ≡ some h)

  -- The events so far, the last one first, and the guest after them.
  pub data Goes : List GuestEvent → Guest W F → Type 0 where
    started : Goes [] (record { dom_id = dom_id; machine = w0; handlers = [] })
    goes :
        {es : List GuestEvent} {g g' : Guest W F} (e : GuestEvent)
        → Goes es g
        → Allowed e g
        → step abi segment_at gnt file open_file ring_opens e g ≡ returned g'
        → Goes (e ∷ es) g'

  -- What holds of the guest between two events.
  pub record Between (es : List GuestEvent) (g : Guest W F) : Type 0 where
    pub in_order : InOrder gnt file dom_id (λ a. gnt.resolve w0 a) g.machine g.handlers
    pub same_domain : g.dom_id ≡ dom_id
    pub all_answered : (j : ℕ) → answered_at j g.handlers ≡ asked j es

  -- A call of handler `i` that answers what the event asks, and keeps the ring in order.
  pub visit-Between :
      (f : BoundHandler W F → Result (BoundHandler W F))
      (Q : (ℕ → Option ℕ) → BoundHandler W F → Type 0) (e : GuestEvent) (i : ℕ)
      (es : List GuestEvent) (g : Guest W F) (h : BoundHandler W F)
      → Between es g
      → get_elem? g.handlers i ≡ some h
      → ((b : ℕ → Option ℕ)
          → Fits gnt file dom_id b (with_ring h (current g.machine h.ring))
          → (h' : BoundHandler W F) × (f (with_ring h (current g.machine h.ring)) ≡ returned h')
            × Fits gnt file dom_id b h'
            × ((ids h'.ring.sent ≡ asked_by e i (ids h.ring.sent)) × Q b h'))
      → ((j : ℕ) (l : List ℕ) → (i == j) ≡ false → asked_by e j l ≡ l)
      → (b : ℕ → Option ℕ) × (h' : BoundHandler W F) × (visit f i g.machine g.handlers
          ≡ returned (h'.ring.grants.world, replace i h' g.handlers))
        × Between (e ∷ es) (visited g (h'.ring.grants.world, replace i h' g.handlers))
        × (ids h'.ring.sent ≡ asked_by e i (asked i es))
        × Q b h'
  visit-Between f Q e i es g h v found call others =
      let before : ids h.ring.sent ≡ asked i es =
        sym (answered_at-found i g.handlers h found) ∙ v.all_answered i in
      let (b, h', ran, ok, did) =
        visit-InOrder gnt file dom_id f
          (λ b h'. (ids h'.ring.sent ≡ asked_by e i (ids h.ring.sent)) × Q b h') i
          (λ a. gnt.resolve w0 a) g.machine g.handlers h v.in_order found call in
      let here : ids h'.ring.sent ≡ asked_by e i (asked i es) = did.0 ∙ ap (asked_by e i) before in
      (
        b,
        h',
        ran,
        record {
          in_order = ok;
          same_domain = v.same_domain;
          all_answered = λ j.
              let now = answered_at-replace i j g.handlers h h' found in
              elim (Bool-cases (i == j)) [
                | inl same ↦
                    let e' : i ≡ j = ==→≡ i j same in
                    now ∙ rw same here ∙ ap (λ k. asked_by e k (asked k es)) e'
                | inr other ↦ now ∙ rw other (v.all_answered j ∙ sym (others j (asked j es) other))
              ];
        },
        here,
        did.1,
      )

  Handled-ids :
      (b : ℕ → Option ℕ) (req : Request) (i : ℕ) (h h' : BoundHandler W F)
      → Answered abi segment_at gnt file gnt_ok file_ok abi_ok req h b h'
      → ids h'.ring.sent ≡ asked_by (request i req) i (ids h.ring.sent)
  Handled-ids b req i h h' (rc, handled) =
      let (done, e, _, _) = handled in ap (λ r. ids r.sent) e ∙ ground arith

  pub request-Between :
      (i : ℕ) (req : Request) (es : List GuestEvent) (g : Guest W F) (h : BoundHandler W F)
      → Between es g
      → get_elem? g.handlers i ≡ some h
      → h.owners ≢ 0
      → SoundFor abi segment_at gnt file gnt_ok file_ok
          (λ a. gnt.resolve w0 a)
          abi_ok
          req.operation
          req
          (current g.machine h.ring)
      → (b : ℕ → Option ℕ) × (h' : BoundHandler W F) × (visit
            (answer_request abi segment_at gnt file req)
            i
            g.machine
            g.handlers
          ≡ returned (h'.ring.grants.world, replace i h' g.handlers))
        × Between (request i req ∷ es) (visited g (h'.ring.grants.world, replace i h' g.handlers))
        × (ids h'.ring.sent ≡ req.id ∷ asked i es)
        × Answered abi segment_at gnt file gnt_ok file_ok abi_ok req
            (with_ring h (current g.machine h.ring))
            b
            h'
  request-Between i req es g h v found owned sound =
      let here = with_ring h (current g.machine h.ring) in
      let (b, h', ran, ok, counted, answered) =
        visit-Between (answer_request abi segment_at gnt file req)
          (Answered abi segment_at gnt file gnt_ok file_ok abi_ok req here) (request i req) i es g h
          v found
          (λ b fits.
            let (h', ran, ok, answered) =
              answer_request-Fits abi segment_at gnt file gnt_ok file_ok abi_ok dom_id
                (λ a. gnt.resolve w0 a) b req here fits owned sound in
            (h', ran, ok, (Handled-ids b req i here h' answered, answered)))
          (λ j l other. rw other refl) in
      (b, h', ran, ok, counted ∙ ground arith, answered)

  pub refused-Between :
      (i : ℕ) (req : Request) (es : List GuestEvent) (g : Guest W F) (h : BoundHandler W F)
      (rc : Rsp)
      → Between es g
      → get_elem? g.handlers i ≡ some h
      → h.owners ≢ 0
      → refusal abi segment_at gnt file req.operation req (current g.machine h.ring) ≡ some rc
      → (h' : BoundHandler W F) × (visit
            (answer_request abi segment_at gnt file req)
            i
            g.machine
            g.handlers
          ≡ returned (h'.ring.grants.world, replace i h' g.handlers))
        × Between (request i req ∷ es) (visited g (h'.ring.grants.world, replace i h' g.handlers))
  refused-Between i req es g h rc v found owned refused =
      let here = with_ring h (current g.machine h.ring) in
      let (_, h', ran, ok, _, _) =
        visit-Between (answer_request abi segment_at gnt file req) (λ b h'. Unit {0})
          (request i req) i es g h v found
          (λ b fits.
            let (h', ran, ok, counted) =
              answer_request-refused abi segment_at gnt file gnt_ok file_ok abi_ok dom_id b req here
                rc fits owned refused in
            (h', ran, ok, (counted ∙ ground arith, tt)))
          (λ j l other. rw other refl) in
      (h', ran, ok)
