-- ===== src/Backend.antt =====
-- `BlkBackend::onNewFrontend` and `frontendCount` (BlkBackend.cpp).
use us_blkback.Base.{
  ℕ, suc, ◌+◌, ◌*◌, ◌≤◌, ◌<◌, ◌≡◌, refl, List, [], ◌∷◌, ◌++◌, length, length-append, leb, ltb,
  Bool-cases, if◌then◌else◌, ◌⊎◌, inl, inr, u64, arith,
}
use us_blkback.Limits.{minimum, max_frontends, max_pgrants, max_pgrants_per_frontend}

-- `devName` is the backend's own and the same for all, so a handler is its two numbers.
pub record FrontendId : Type 0 where
  pub dom_id : ℕ
  pub dev_id : ℕ

-- frontendCount, and the list that `addFrontendHandler` of libxenbe appends to.
pub record Backend : Type 0 where
  pub frontend_count : ℕ
  pub handlers : List FrontendId

-- frontendCount is 0 at first, and `main` sets it to 0.
abbrev pub initial : Backend
initial = record { frontend_count = 0; handlers = [] }

unfoldable pub on_new_frontend : FrontendId → Backend → Backend
on_new_frontend id b =
    if leb max_frontends b.frontend_count
    then b
    else record { frontend_count = u64 (b.frontend_count + 1); handlers = b.handlers ++ (id ∷ []) }

-- What happens to a backend: a frontend appears, or libxenbe removes some handlers, for which
-- `BlkBackend` has no code. The number counts the frontends that appeared.
pub data Reaches : ℕ → Backend → Type 0 where
  started : Reaches 0 initial
  appeared :
      {n : ℕ} {b : Backend} (id : FrontendId) → Reaches n b → Reaches (suc n) (on_new_frontend id b)
  removed :
      {n : ℕ} {b : Backend} (left : List FrontendId)
      → Reaches n b
      → length left ≤ length b.handlers
      → Reaches n (record b { handlers = left })

on_new_frontend-count :
    (id : FrontendId) (n : ℕ) (b : Backend)
    → b.frontend_count ≡ minimum n 8
    → length b.handlers ≤ b.frontend_count
    → ((on_new_frontend id b).frontend_count ≡ minimum (suc n) 8)
      × (length (on_new_frontend id b).handlers ≤ (on_new_frontend id b).frontend_count)
unfolding on_new_frontend
on_new_frontend-count id n b e h =
    let l : length (b.handlers ++ (id ∷ [])) ≡ length b.handlers + 1 =
      length-append b.handlers (id ∷ []) in
    (ground arith, ground arith)

-- After `n` frontends have appeared the count is the lesser of `n` and 8, however many were
-- removed, and there are at most that many handlers.
pub Reaches-count :
    (n : ℕ) (b : Backend)
    → Reaches n b
    → (b.frontend_count ≡ minimum n 8) × (length b.handlers ≤ b.frontend_count)
Reaches-count _ _ started = (refl, omega arith)
Reaches-count _ _ (appeared {n} {b} id before) =
    let (e, h) = Reaches-count n b before in on_new_frontend-count id n b e h
Reaches-count _ _ (removed {n} {b} left before fewer) =
    let (e, h) = Reaches-count n b before in (e, omega arith)

-- Once 8 frontends have appeared, each further one is turned away, however many were removed,
-- while before that each one gets a handler; and the number of handlers times
-- MAX_PGRANTS_PER_FRONTEND is at most MAX_PGRANTS.
pub on_new_frontend-Reaches :
    (n : ℕ) (b : Backend) (id : FrontendId)
    → Reaches n b
    → (length b.handlers * max_pgrants_per_frontend ≤ max_pgrants)
      × (((n < 8) × (length (on_new_frontend id b).handlers ≡ length b.handlers + 1))
          ⊎ ((8 ≤ n) × (on_new_frontend id b ≡ b)))
unfolding on_new_frontend
on_new_frontend-Reaches n b id reached =
    let (e, h) = Reaches-count n b reached in
    let l : length (b.handlers ++ (id ∷ [])) ≡ length b.handlers + 1 =
      length-append b.handlers (id ∷ []) in
    (
      ground arith,
      elim (Bool-cases (ltb n 8)) [ inl few ↦ inl (ground arith) | inr many ↦ inr (ground arith) ],
    )
