-- ===== src/Frontend/Session.antt =====
-- The life of a frontend's ring, from `onBind` to the last owner (BlkBackend.cpp).
use us_blkback.Base.{
  ℕ, suc, ◌+◌, ◌≡◌, refl, sym, ap, ◌∙◌, subst, Option, some, List, [], ◌∷◌, ◌++◌, length,
  length-append, Bool, true, false, ◌&&◌, if◌then◌else◌, inl, inr, Option-cases, arith,
}
use us_blkback.Disk.Image.{MappedFile, DiskImage, open_image}
use us_blkback.Disk.Bounds.{IsMappedFile, IsWf, open_image-IsWf}
use us_blkback.Limits.{Abi, IsAbi}
use us_blkback.Grants.{Gnttab}
use us_blkback.Grants.Inv.{IsGnttab}
use us_blkback.Ring.{Segment, Request, Ring, process_request}
use us_blkback.Ring.Effects.{RingInv}
use us_blkback.Ring.Answers.{process_request-Handled, destroy-base}
use us_blkback.Ring.Dispatch.{SoundFor}
use us_blkback.Frontend.Bind.{bound-RingInv}
use us_blkback.Frontend.{
  Result, terminated, thrown, ◌>>=◌, write_all, entries, XenStore, event_channel, ring_ref, params,
  unquote, Owned, bound, returned, on_bind, release, on_closing,
}

returned-if :
    {A : Type 0} (r : Result (Unit {0})) (b : Bool) (x o : A)
    → (r >>= λ _. if b then returned x else thrown) ≡ returned o
    → o ≡ x
returned-if terminated b x o h = absurd (ground arith)
returned-if thrown b x o h = absurd (ground arith)
returned-if (returned tt) true x o h = ground arith
returned-if (returned tt) false x o h = absurd (ground arith)

module _ {F : Type 0} (file : MappedFile F) where
  module _ {W : Type 0} (open_file : List ℕ → Option F) (ring_opens : ℕ → ℕ → ℕ → Bool)
      (store : XenStore) (dom_id : ℕ) (w : W) (o : Owned W F) where
    pub on_bind-returned :
        on_bind file open_file ring_opens store dom_id w ≡ returned o
        → (image : DiskImage F) × IsWf file image × (o ≡ bound dom_id image w)
    unfolding on_bind
    on_bind-returned h = elim (Option-cases (store.read_int event_channel)) [
      | inl missing ↦ absurd (ground (arith, h))
      | inr (port, a) ↦ elim (Option-cases (store.read_int ring_ref)) [
        | inl missing ↦ absurd (ground (arith, h))
        | inr (ref, b) ↦ elim (Option-cases (store.read_string params)) [
          | inl missing ↦ absurd (ground (arith, h))
          | inr (path, c) ↦ elim (Option-cases (unquote path)) [
            | inl missing ↦ absurd (ground (arith, h))
            | inr (name, d) ↦ elim (Option-cases (open_file name)) [
              | inl missing ↦ absurd (ground (arith, h))
              | inr (f, e) ↦ elim (Option-cases (open_image file f)) [
                | inl missing ↦ absurd (ground (arith, h))
                | inr (image, i) ↦
                    let written : Result (Unit {0}) = write_all store (entries image) in
                    let created : Owned W F = bound dom_id image w in
                    let rest : (written >>= λ _.
                    if ring_opens dom_id port ref && store.adds_ring
                    then returned created
                    else thrown)
                        ≡ returned o =
                      ground (arith, h, a, b, c, d, e, i) in
                    (
                      image,
                      open_image-IsWf file f image i,
                      returned-if written (ring_opens dom_id port ref && store.adds_ring) created o
                          rest,
                    )
              ]
            ]
          ]
        ]
      ]
    ]

-- Sound requests were handled in order from the ring `r` on.
module _ {W F : Type 0} (abi : Abi) (segment_at : (ℕ → ℕ) → ℕ → Segment) (gnt : Gnttab W)
    (file : MappedFile F) (gnt_ok : IsGnttab gnt) (file_ok : IsMappedFile file)
    (base : ℕ → Option ℕ) (abi_ok : IsAbi abi) where
  pub data Serves (r : Ring W F) : List Request → Ring W F → Type 0 where
    idle : Serves r [] r
    served :
        {reqs : List Request} {r1 r2 : Ring W F} (req : Request)
        → Serves r reqs r1
        → SoundFor abi segment_at gnt file gnt_ok file_ok base abi_ok req.operation req r1
        → process_request abi segment_at gnt file req r1 ≡ some r2
        → Serves r (reqs ++ (req ∷ [])) r2

  Serves-RingInv :
      (r : Ring W F) (reqs : List Request) (r' : Ring W F)
      → RingInv gnt file base r
      → Serves r reqs r'
      → RingInv gnt file base r' × (length r'.sent ≡ length reqs + length r.sent)
  Serves-RingInv r _ _ v idle = (v, omega arith)
  Serves-RingInv r _ r2 v (served {reqs} {r1} req before sound ran) =
      let (v1, counted) = Serves-RingInv r reqs r1 v before in
      let (rc, r', ran', v', handled) =
        process_request-Handled abi segment_at gnt file gnt_ok file_ok base abi_ok req r1 v1
          sound in
      let e : r' ≡ r2 = ground (arith, ran, ran') in
      let one : length r2.sent ≡ suc (length r1.sent) =
        ap (λ x. length x.sent) (sym e ∙ handled.1) ∙ omega arith in
      (subst (RingInv gnt file base) e v', omega (arith, length-append reqs (req ∷ [])))

module _ {W F : Type 0} (abi : Abi) (segment_at : (ℕ → ℕ) → ℕ → Segment) (gnt : Gnttab W)
    (file : MappedFile F) (gnt_ok : IsGnttab gnt) (file_ok : IsMappedFile file) (abi_ok : IsAbi abi)
    (open_file : List ℕ → Option F) (ring_opens : ℕ → ℕ → ℕ → Bool) where
  -- A frontend that is bound, has sound requests handled and is closed was sent as many responses.
  -- Closing alone leaves its grants mapped; when the second owner drops the ring too, exactly what
  -- was mapped before the bind is mapped.
  pub session-on_bind :
      (store : XenStore) (dom_id : ℕ) (w : W) (o : Owned W F) (reqs : List Request) (r : Ring W F)
      → on_bind file open_file ring_opens store dom_id w ≡ returned o
      → Serves abi segment_at gnt file gnt_ok file_ok (λ a. gnt.resolve w a) abi_ok o.ring reqs r
      → (length r.sent ≡ length reqs)
        × (on_closing abi segment_at gnt file (record o { ring = r })
            ≡ record o { ring = r; owners = 1 })
        × ((a : ℕ)
            → gnt.resolve
                (release abi segment_at gnt file
                  (on_closing abi segment_at gnt file (record o { ring = r }))).ring.grants.world
                a
              ≡ gnt.resolve w a)
  unfolding on_closing release
  session-on_bind store dom_id w o reqs r opened serves =
      let (image, ok, e) = on_bind-returned file open_file ring_opens store dom_id w o opened in
      let two : o.owners ≡ 2 = ap (λ x. x.owners) e in
      let v : RingInv gnt file (λ a. gnt.resolve w a) o.ring =
        subst (λ x. RingInv gnt file (λ a. gnt.resolve w a) x.ring) (sym e)
          (bound-RingInv gnt file dom_id image w ok) in
      let (v', counted) =
        Serves-RingInv abi segment_at gnt file gnt_ok file_ok (λ a. gnt.resolve w a) abi_ok o.ring
          reqs r v serves in
      let none_sent : length o.ring.sent ≡ 0 = ap (λ x. length x.ring.sent) e in
      (
        omega arith,
        rw two refl,
        λ a. rw two (
            destroy-base abi segment_at gnt file gnt_ok file_ok (λ a. gnt.resolve w a) abi_ok r v'
              a),
      )
