-- ===== src/Program/Rules.antt =====
-- Rules for the order in which `main` (BlkBackend.cpp) and `blkback_worker` (Service.cpp) make
-- their calls.
use us_blkback.Base.{
  ℕ, ◌≡◌, ◌≢◌, refl, sym, subst, Option, some, List, ◌∷◌, Bool, true, false, Bool-cases,
  if◌then◌else◌, inl, inr, arith,
}
use us_blkback.Program.{
  Opt, Parsed, Call, Fault, thrown, terminated, undefined, exited, End, value, fault, Run, ask,
  call, give, fail, ◌>>=◌, follow, recover, catching,
}
use us_blkback.Program.Protocol.{Phase, after, phase}

-- How a run ends that starts in phase `p`: with a value and phase for which `ok` holds, or with a
-- fault and phase for which `bad` holds.
pub data Outcome {ℓ} {A : Type ℓ} (throws : List Call → Bool) (from : Phase)
    (ok : A → Phase → Type 0) (bad : Fault → Phase → Type 0) (r : End A × List Call) : Type ℓ where
  gives :
      (a : A) (q : Phase)
      → r.0 ≡ value a
      → phase throws from r.1 ≡ some q
      → ok a q
      → Outcome throws from ok bad r
  faults :
      (e : Fault) (q : Phase)
      → r.0 ≡ fault e
      → phase throws from r.1 ≡ some q
      → bad e q
      → Outcome throws from ok bad r

module _ (throws : List Call → Bool) (from : Phase) where
  abbrev pub Leads {ℓ} :
      {A : Type ℓ} → Phase → Run A → (A → Phase → Type 0) → (Fault → Phase → Type 0) → Type ℓ
  Leads p m ok bad =
      (cs : List Call) → phase throws from cs ≡ some p → Outcome throws from ok bad (m cs)

  pub Leads-bind {ℓ κ} :
      {A : Type ℓ} {B : Type κ} (p : Phase) (m : Run A) (f : A → Run B) (mid : A → Phase → Type 0)
      (ok : B → Phase → Type 0) (bad : Fault → Phase → Type 0)
      → Leads p m mid bad
      → ((a : A) (q : Phase) → mid a q → Leads q (f a) ok bad)
      → Leads p (m >>= f) ok bad
  Leads-bind p m f mid ok bad first rest cs at = elim (first cs at) [
    | gives a q e reached good ↦
        subst (λ x. Outcome throws from ok bad (follow f x (m cs).1)) (sym e)
          (rest a q good (m cs).1 reached)
    | faults d q e reached wrong ↦
        subst (λ x. Outcome throws from ok bad (follow f x (m cs).1)) (sym e)
          (faults d q refl reached wrong)
  ]

  pub Leads-catching :
      (p : Phase) (m h : Run (Unit {0})) (ok : Unit {0} → Phase → Type 0)
      (caught bad : Fault → Phase → Type 0)
      → Leads p m ok caught
      → ((q : Phase) → caught thrown q → Leads q h ok bad)
      → ((e : Fault) (q : Phase) → e ≢ thrown → caught e q → bad e q)
      → Leads p (catching m h) ok bad
  Leads-catching p m h ok caught bad body handler others cs at =
      let after_m : End (Unit {0}) → Type 0 =
        λ x. Outcome throws from ok bad (recover h x (m cs).1) in
      elim (body cs at) [
        | gives a q e reached good ↦ subst after_m (sym e) (gives a q refl reached good)
        | faults thrown q e reached wrong ↦ subst after_m (sym e) (handler q wrong (m cs).1 reached)
        | faults terminated q e reached wrong ↦
            subst after_m (sym e)
              (faults terminated q refl reached (others terminated q (ground arith) wrong))
        | faults undefined q e reached wrong ↦
            subst after_m (sym e)
              (faults undefined q refl reached (others undefined q (ground arith) wrong))
        | faults (exited n) q e reached wrong ↦
            subst after_m (sym e)
              (faults (exited n) q refl reached (others (exited n) q (ground arith) wrong))
      ]

  -- The end of a run in the phase `q`.
  abbrev pub At {ℓ} : {A : Type ℓ} → Phase → A → Phase → Type 0
  At q a q' = q' ≡ q

  pub Leads-then {ℓ κ} :
      {A : Type ℓ} {B : Type κ} (p q : Phase) (m : Run A) (f : A → Run B) (ok : B → Phase → Type 0)
      (bad : Fault → Phase → Type 0)
      → Leads p m (At q) bad
      → ((a : A) → Leads q (f a) ok bad)
      → Leads p (m >>= f) ok bad
  Leads-then p q m f ok bad first rest =
      Leads-bind p m f (At q) ok bad first
        (λ a q' e. subst (λ x. Leads x (f a) ok bad) (sym e) (rest a))

  pub Leads-weaken {ℓ} :
      {A : Type ℓ} (p : Phase) (m : Run A) (ok ok' : A → Phase → Type 0)
      (bad : Fault → Phase → Type 0)
      → Leads p m ok bad
      → ((a : A) (q : Phase) → ok a q → ok' a q)
      → Leads p m ok' bad
  Leads-weaken p m ok ok' bad first weaker cs at = elim (first cs at) [
    | gives a q e reached good ↦ gives a q e reached (weaker a q good)
    | faults d q e reached wrong ↦ faults d q e reached wrong
  ]

  pub Leads-if {ℓ} :
      {A : Type ℓ} (p : Phase) (b : Bool) (m n : Run A) (ok : A → Phase → Type 0)
      (bad : Fault → Phase → Type 0)
      → Leads p m ok bad
      → Leads p n ok bad
      → Leads p (if b then m else n) ok bad
  Leads-if p true m n ok bad first second = first
  Leads-if p false m n ok bad first second = second

  -- The same, with what the condition says in each branch.
  pub Leads-case {ℓ} :
      {A : Type ℓ} (p : Phase) (b : Bool) (m n : Run A) (ok : A → Phase → Type 0)
      (bad : Fault → Phase → Type 0)
      → (b ≡ true → Leads p m ok bad)
      → (b ≡ false → Leads p n ok bad)
      → Leads p (if b then m else n) ok bad
  Leads-case p true m n ok bad first second = first refl
  Leads-case p false m n ok bad first second = second refl

  pub Leads-give {ℓ} :
      {A : Type ℓ} (p : Phase) (a : A) (ok : A → Phase → Type 0) (bad : Fault → Phase → Type 0)
      → ok a p
      → Leads p (give a) ok bad
  Leads-give p a ok bad good cs at = gives a p refl at good

  pub Leads-fail {ℓ} :
      {A : Type ℓ} (p : Phase) (e : Fault) (ok : A → Phase → Type 0) (bad : Fault → Phase → Type 0)
      → bad e p
      → Leads p (fail e) ok bad
  Leads-fail p e ok bad wrong cs at = faults e p refl at wrong

  module _ (os : List Call → ℕ) (cxxopts : List Opt → List (List ℕ) → Option Parsed)
      (cpu_set : ℕ → List ℕ → List ℕ) where
    pub Leads-ask :
        (p q : Phase) (c : Call) (bad : Fault → Phase → Type 0)
        → ((threw : Bool) → after p c threw ≡ some q)
        → Leads p (ask os throws cxxopts cpu_set c) (At q) bad
    Leads-ask p q c bad allowed cs at =
        gives (os (c ∷ cs)) q refl (rw (phase, at) (allowed (throws (c ∷ cs)))) refl

    pub Leads-call :
        (p q q' : Phase) (c : Call) (bad : Fault → Phase → Type 0)
        → after p c false ≡ some q
        → after p c true ≡ some q'
        → bad thrown q'
        → Leads p (call os throws cxxopts cpu_set c) (At q) bad
    Leads-call p q q' c bad allowed threw wrong cs at = elim (Bool-cases (throws (c ∷ cs))) [
      | inl t ↦ faults thrown q' (rw t refl) (rw (phase, at, t) threw) wrong
      | inr t ↦ gives tt q (rw t refl) (rw (phase, at, t) allowed) refl
    ]

    pub Leads-next {ℓ} :
        {B : Type ℓ} (p q : Phase) (c : Call) (f : ℕ → Run B) (ok : B → Phase → Type 0)
        (bad : Fault → Phase → Type 0)
        → ((threw : Bool) → after p c threw ≡ some q)
        → ((r : ℕ) → Leads q (f r) ok bad)
        → Leads p (ask os throws cxxopts cpu_set c >>= f) ok bad
    Leads-next p q c f ok bad allowed rest =
        Leads-then p q (ask os throws cxxopts cpu_set c) f ok bad (Leads-ask p q c bad allowed) rest
