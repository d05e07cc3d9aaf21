-- ===== src/Guest/Handlers.antt =====
-- What one handler does in a call of `processRequest`, of `onClosing`, or of libxenbe's that clears
-- the list of rings (BlkBackend.cpp).
use us_blkback.Base.{
  ℕ, zero, suc, ◌+◌, ◌≡◌, ◌≢◌, refl, ap, ◌∙◌, Option, some, List, [], ◌∷◌, ◌==◌, false, arith,
  Bool-cases, inl, inr,
}
use us_blkback.Disk.Image.{MappedFile, Rsp}
use us_blkback.Disk.Bounds.{IsMappedFile}
use us_blkback.Limits.{Abi, IsAbi}
use us_blkback.Grants.{Gnttab, free_grants}
use us_blkback.Grants.Inv.{IsGnttab}
use us_blkback.Grants.Evict.{free_grants-Inv}
use us_blkback.Ring.{
  Segment, Request, Op, read, write, write_barrier, flush_diskcache, discards, indirects, other,
  Ring, Response, destroy,
}
use us_blkback.Ring.Effects.{RingInv}
use us_blkback.Ring.Answers.{Handled, process_request-Handled}
use us_blkback.Ring.Dispatch.{answered, SoundFor}
use us_blkback.Ring.Refusals.{refusal, process_request-refusal}
use us_blkback.Guest.Lookup.{ids}
use us_blkback.Frontend.{Key, Owned, returned, release, on_closing}
use us_blkback.Guest.{BoundHandler, with_ring, answer_request, close_ring, drop_list}
use us_blkback.Guest.Calls.{Fits}

module _ {W F : Type 0} (abi : Abi) (segment_at : (ℕ → ℕ) → ℕ → Segment) (gnt : Gnttab W)
    (file : MappedFile F) (gnt_ok : IsGnttab gnt) (file_ok : IsMappedFile file)
    (abi_ok : IsAbi abi) where
  -- What a request needs does not depend on what else is mapped.
  SoundFor-base :
      (b c : ℕ → Option ℕ) (op : Op) (req : Request) (r : Ring W F)
      → SoundFor abi segment_at gnt file gnt_ok file_ok b abi_ok op req r
      → SoundFor abi segment_at gnt file gnt_ok file_ok c abi_ok op req r
  SoundFor-base b c read req r s = record {
    some_segment = s.some_segment;
    few_segments = s.few_segments;
    in_array = s.in_array;
    all_safe = s.all_safe;
    no_wrap = s.no_wrap;
  }
  SoundFor-base b c write req r s = record {
    some_segment = s.some_segment;
    few_segments = s.few_segments;
    in_array = s.in_array;
    all_safe = s.all_safe;
    no_wrap = s.no_wrap;
  }
  SoundFor-base b c write_barrier req r s = tt
  SoundFor-base b c flush_diskcache req r s = tt
  SoundFor-base b c discards req r s = s
  SoundFor-base b c indirects req r s = s
  SoundFor-base b c (other n) req r s = tt

  -- A request that a ring has carried out, over the mappings `b` of the others.
  abbrev pub Answered : Request → BoundHandler W F → (ℕ → Option ℕ) → BoundHandler W F → Type 0
  Answered req h b h' =
      (rc : Rsp) × Handled abi segment_at gnt file gnt_ok file_ok b abi_ok req h.ring rc h'.ring

  pub answer_request-Fits :
      (dom_id : ℕ) (base b : ℕ → Option ℕ) (req : Request) (h : BoundHandler W F)
      → Fits gnt file dom_id b h
      → h.owners ≢ 0
      → SoundFor abi segment_at gnt file gnt_ok file_ok base abi_ok req.operation req h.ring
      → (h' : BoundHandler W F) × (answer_request abi segment_at gnt file req h ≡ returned h')
        × Fits gnt file dom_id b h'
        × Answered req h b h'
  unfolding answer_request
  answer_request-Fits dom_id base b req h v owned sound =
      let (rc, r, ran, ok, handled) =
        process_request-Handled abi segment_at gnt file gnt_ok file_ok b abi_ok req h.ring v.ring_ok
          (SoundFor-base base b req.operation req h.ring sound) in
      let (done, e, stays, _) = handled in
      let some_owner : (h.owners == 0) ≡ false = ground arith in
      (
        with_ring h r,
        ground (arith, some_owner, ran),
        record {
          ring_ok = ok;
          same_domain = ap (λ x. x.grants.dom_id) e ∙ stays.same_domain ∙ v.same_domain;
          counted = v.counted;
          freed = λ none_left. absurd (owned none_left);
        },
        (rc, handled),
      )

  -- A request that is refused before it touches anything only adds its response.
  pub answer_request-refused :
      (dom_id : ℕ) (b : ℕ → Option ℕ) (req : Request) (h : BoundHandler W F) (rc : Rsp)
      → Fits gnt file dom_id b h
      → h.owners ≢ 0
      → refusal abi segment_at gnt file req.operation req h.ring ≡ some rc
      → (h' : BoundHandler W F) × (answer_request abi segment_at gnt file req h ≡ returned h')
        × Fits gnt file dom_id b h'
        × (ids h'.ring.sent ≡ req.id ∷ ids h.ring.sent)
  unfolding answer_request
  answer_request-refused dom_id b req h rc v owned refused =
      let rsp : Response = record {
        id = req.id;
        operation = answered req.operation req;
        status = rc;
      } in
      let some_owner : (h.owners == 0) ≡ false = ground arith in
      let ran = process_request-refusal abi segment_at gnt file req h.ring rc refused in
      (
        with_ring h (record (h.ring) { sent = rsp ∷ h.ring.sent }),
        ground (arith, some_owner, ran),
        record {
          ring_ok = record { grants_ok = v.ring_ok.grants_ok; image_ok = v.ring_ok.image_ok };
          same_domain = v.same_domain;
          counted = v.counted;
          freed = λ none_left. absurd (owned none_left);
        },
        refl,
      )

  -- What losing an owner keeps.
  pub record Loses (o o' : Owned W F) : Type 0 where
    pub same_sent : o'.ring.sent ≡ o.ring.sent
    pub same_image : o'.ring.image ≡ o.ring.image
    pub same_domain : o'.ring.grants.dom_id ≡ o.ring.grants.dom_id

  -- The last owner destroys the ring.
  release-owners :
      (b : ℕ → Option ℕ) (published : List (Key × ℕ)) (r : Ring W F) (n : ℕ)
      → RingInv gnt file b r
      → n ≢ 0
      → let o : Owned W F = record { published = published; ring = r; owners = n } in
        let o' = release abi segment_at gnt file o in
        RingInv gnt file b o'.ring
        × (o'.owners + 1 ≡ n)
        × (o'.owners ≡ 0 → o'.ring.grants.lru ≡ [])
        × Loses o o'
  unfolding release destroy free_grants
  release-owners b published r zero v some_owner = absurd (some_owner refl)
  release-owners b published r (suc zero) v some_owner = (
    record { grants_ok = free_grants-Inv gnt gnt_ok b r.grants v.grants_ok; image_ok = v.image_ok },
    refl,
    λ e. refl,
    record { same_sent = refl; same_image = refl; same_domain = refl },
  )
  release-owners b published r (suc (suc n)) v some_owner = (
    v,
    omega arith,
    λ e. absurd (omega arith),
    record { same_sent = refl; same_image = refl; same_domain = refl },
  )

  pub close_ring-Fits :
      (dom_id : ℕ) (b : ℕ → Option ℕ) (h : BoundHandler W F)
      → Fits gnt file dom_id b h
      → Fits gnt file dom_id b (close_ring abi segment_at gnt file h)
        × Loses h.owned (close_ring abi segment_at gnt file h).owned
  unfolding close_ring on_closing
  close_ring-Fits dom_id b h v = elim (Bool-cases h.holds) [
    | inl holds ↦
        let some_owner : h.owners ≢ 0 = ground (arith, v.counted, holds) in
        let (ok, fewer, freed, loses) =
          release-owners b h.owned.published h.ring h.owners v.ring_ok some_owner in
        rw holds (
          record {
            ring_ok = ok;
            same_domain = loses.same_domain ∙ v.same_domain;
            counted = ground (arith, v.counted, holds, fewer);
            freed = freed;
          },
          loses,
        )
    | inr reset ↦ simp reset (v, record { same_sent = refl; same_image = refl; same_domain = refl })
  ]

  pub drop_list-Fits :
      (dom_id : ℕ) (b : ℕ → Option ℕ) (h : BoundHandler W F)
      → Fits gnt file dom_id b h
      → Fits gnt file dom_id b (drop_list abi segment_at gnt file h)
        × Loses h.owned (drop_list abi segment_at gnt file h).owned
  unfolding drop_list
  drop_list-Fits dom_id b h v = elim (Bool-cases h.listed) [
    | inl listed ↦
        let some_owner : h.owners ≢ 0 = ground (arith, v.counted, listed) in
        let (ok, fewer, freed, loses) =
          release-owners b h.owned.published h.ring h.owners v.ring_ok some_owner in
        rw listed (
          record {
            ring_ok = ok;
            same_domain = loses.same_domain ∙ v.same_domain;
            counted = ground (arith, v.counted, listed, fewer);
            freed = freed;
          },
          loses,
        )
    | inr cleared ↦
        simp cleared (v, record { same_sent = refl; same_image = refl; same_domain = refl })
  ]
