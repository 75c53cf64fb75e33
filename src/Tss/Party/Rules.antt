-- ===== src/Tss/Party/Rules.antt =====
-- Rules for `BaseUpdate` over any protocol, from what its methods do.
use mpc_lib.Prelude.{
  ℕ, zero, suc, ◌≤◌, ◌<◌, true, false, Option, none, some, ◌≡◌, ◌≢◌, arith, Bool-cases, inl, inr,
}
use mpc_lib.Tss.Message.{Error}
use mpc_lib.Tss.Party.{
  Step, done, failed, crashed, Party, after_start, enter_next, after_update, after_store,
  after_validate, base_update,
}

-- What holds of the state that a method leaves, if it leaves one.
abbrev pub Leaves {ℓ} : {S : Type 0} → (S → Type ℓ) → Step S → Type ℓ
Leaves P (done s b) = P s
Leaves P (failed s e) = P s
Leaves P crashed = Unit

abbrev pub LeavesSome {ℓ} : {S : Type 0} → (S → Type ℓ) → Option (Step S) → Type ℓ
LeavesSome P none = Unit
LeavesSome P (some r) = Leaves P r

pub Leaves-map {ℓ κ} :
    {S : Type 0} {P : S → Type ℓ} {Q : S → Type κ} (f : (s : S) → P s → Q s) (r : Step S)
    → Leaves P r
    → Leaves Q r
Leaves-map f (done s b) l = f s l
Leaves-map f (failed s e) l = f s l
Leaves-map f crashed l = tt

module _ {S M : Type 0} (p : Party S M) where
  -- A count of the rounds still to come: no method raises it, and a new round lowers it.
  pub record HasRoundsLeft (left : S → ℕ) : Type 0 where
    pub stored : (s : S) (m : M) → Leaves (λ t. left t ≤ left s) (p.store_message s m)
    pub updated : (s : S) → Leaves (λ t. left t ≤ left s) (p.update_round s)
    pub started : (s : S) → Leaves (λ t. left t ≤ left s) (p.start_round s)
    pub advanced : (s : S) → p.can_proceed s ≡ true → left (p.advance s) < left s

  -- What every method keeps.
  pub record IsKept {ℓ} (P : S → Type ℓ) : Type ℓ where
    pub stored : (s : S) (m : M) → P s → Leaves P (p.store_message s m)
    pub updated : (s : S) → P s → Leaves P (p.update_round s)
    pub started : (s : S) → P s → Leaves P (p.start_round s)
    pub advanced : (s : S) → P s → P (p.advance s)

module _ {S M : Type 0} (p : Party S M) (left : S → ℕ) (h : HasRoundsLeft p left) where
  module _ (again : S → Option (Step S)) where
    after_start-ne-none :
        (n : ℕ) (r : Step S)
        → Leaves (λ t. left t ≤ n) r
        → ((t : S) → left t ≤ n → again t ≢ none)
        → after_start p again r ≢ none
    unfolding after_start
    after_start-ne-none n (done s b) l ends = ends s l
    after_start-ne-none n (failed s e) l ends = λ q. cc
    after_start-ne-none n crashed l ends = λ q. cc

    enter_next-ne-none :
        (s : S)
        → ((t : S) → left t ≤ left (p.advance s) → again t ≢ none)
        → enter_next p again s ≢ none
    unfolding enter_next
    enter_next-ne-none s ends e =
        let t = p.advance s in
        ground (
          arith,
          after_start-ne-none (left t) (p.start_round t) (h.started t) ends,
          ends t (omega arith),
        )

    after_update-ne-none :
        (n : ℕ) (r : Step S)
        → Leaves (λ t. left t ≤ n) r
        → ((t : S) → left t < n → again t ≢ none)
        → after_update p again r ≢ none
    unfolding after_update
    after_update-ne-none n (done s b) l ends = elim (Bool-cases (p.can_proceed s)) [
      | inl go ↦ rw go (enter_next-ne-none s (λ t le. ends t (omega (arith, h.advanced s go))))
      | inr stay ↦ rw stay (λ q. cc)
    ]
    after_update-ne-none n (failed s e) l ends = λ q. cc
    after_update-ne-none n crashed l ends = λ q. cc

    after_store-ne-none :
        (n : ℕ) (r : Step S)
        → Leaves (λ t. left t ≤ n) r
        → ((t : S) → left t < n → again t ≢ none)
        → after_store p again r ≢ none
    unfolding after_store
    after_store-ne-none n (done s false) l ends = λ q. cc
    after_store-ne-none n (done s true) l ends = elim (Bool-cases (p.has_round s)) [
      | inl on ↦ rw on (
          after_update-ne-none (left s) (p.update_round s) (h.updated s)
            (λ t lt. ends t (omega arith)))
      | inr off ↦ rw off (λ q. cc)
    ]
    after_store-ne-none n (failed s e) l ends = λ q. cc
    after_store-ne-none n crashed l ends = λ q. cc

    after_validate-ne-none :
        (m : M) (s : S) (v : Option Error)
        → ((t : S) → left t < left s → again t ≢ none)
        → after_validate p again m s v ≢ none
    unfolding after_validate
    after_validate-ne-none m s (some e) ends = λ q. cc
    after_validate-ne-none m s none ends =
        after_store-ne-none (left s) (p.store_message s m) (h.stored s m) ends

  -- `BaseUpdate` ends: more fuel than there are rounds left is enough.
  pub base_update-ne-none :
      (fuel : ℕ) (m : M) (s : S) → left s < fuel → base_update p fuel m s ≢ none
  unfolding base_update
  base_update-ne-none zero m s lt = absurd (omega arith)
  base_update-ne-none (suc fuel) m s lt =
      after_validate-ne-none (base_update p fuel m) m s (p.validate_message s m)
        (λ t le. base_update-ne-none fuel m t (omega arith))

module _ {ℓ} {S M : Type 0} (p : Party S M) (P : S → Type ℓ) (h : IsKept p P) where
  module _ (again : S → Option (Step S)) (keeps : (t : S) → P t → LeavesSome P (again t)) where
    after_start_keeps : (r : Step S) → Leaves P r → LeavesSome P (after_start p again r)
    unfolding after_start
    after_start_keeps (done s b) l = keeps s l
    after_start_keeps (failed s e) l = l
    after_start_keeps crashed l = tt

    enter_next_keeps : (s : S) → P s → LeavesSome P (enter_next p again s)
    unfolding enter_next
    enter_next_keeps s k =
        let t = p.advance s in
        elim (Bool-cases (p.has_round t)) [
          | inl on ↦ rw on (after_start_keeps (p.start_round t) (h.started t (h.advanced s k)))
          | inr off ↦ rw off (keeps t (h.advanced s k))
        ]

    after_update_keeps : (r : Step S) → Leaves P r → LeavesSome P (after_update p again r)
    unfolding after_update
    after_update_keeps (done s b) l = elim (Bool-cases (p.can_proceed s)) [
      | inl go ↦ rw go (enter_next_keeps s l)
      | inr stay ↦ rw stay l
    ]
    after_update_keeps (failed s e) l = l
    after_update_keeps crashed l = tt

    after_store_keeps : (r : Step S) → Leaves P r → LeavesSome P (after_store p again r)
    unfolding after_store
    after_store_keeps (done s false) l = l
    after_store_keeps (done s true) l = elim (Bool-cases (p.has_round s)) [
      | inl on ↦ rw on (after_update_keeps (p.update_round s) (h.updated s l))
      | inr off ↦ rw off l
    ]
    after_store_keeps (failed s e) l = l
    after_store_keeps crashed l = tt

    after_validate_keeps :
        (m : M) (s : S) (v : Option Error) → P s → LeavesSome P (after_validate p again m s v)
    unfolding after_validate
    after_validate_keeps m s (some e) k = k
    after_validate_keeps m s none k = after_store_keeps (p.store_message s m) (h.stored s m k)

  -- What every method keeps, `BaseUpdate` keeps, in whichever way it returns.
  pub base_update_keeps : (fuel : ℕ) (m : M) (s : S) → P s → LeavesSome P (base_update p fuel m s)
  unfolding base_update
  base_update_keeps zero m s k = tt
  base_update_keeps (suc fuel) m s k =
      after_validate_keeps (base_update p fuel m) (base_update_keeps fuel m) m s
        (p.validate_message s m) k
