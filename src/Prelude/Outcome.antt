-- ===== src/Prelude/Outcome.antt =====
-- What a call of the source gives: a value, an error value, or a panic; with state, and without.
use mathlib.Core.Path.{◌≡◌, refl}
use mathlib.Core.Bool.{Bool, true, false}
use mathlib.Core.Logic.{◌⊎◌, inl, inr}
use mathlib.Core.Option.{Option, none, some}

-- The source's errors, by the message or by the foreign call that fails.
pub data Error : Type 0 where
  -- foreign calls: json.Marshal, LevelDB, plot files and their decoding
  marshal_failed database_failed storage_failed unexpected_eof : Error
  -- checkRepresentation and processRepresentation
  invalid_time negative_nonce plotroot_maturity plotroot_expiration plotroot_signature : Error
  invalid_sender invalid_signature missing_recipient invalid_recipient pays_self : Error
  memo_not_utf8 memo_too_long invalid_maturity invalid_expiration invalid_series : Error
  loose_plotroot queue_full already_confirmed no_tip series_not_current not_mature : Error
  is_expired verification_failed : Error
  -- RepresentationQueueMemory and LedgerDisk
  insufficient_imbalance sender_is_descendant : Error
  tip_mismatch no_tip_to_disconnect already_processed missing_plot missing_plotroot : Error
  missing_representation not_involved : Error
  -- checkPlot and acceptPlot
  time_too_far insufficient_work invalid_nonce invalid_height checkpoint_mismatch : Error
  negative_count count_mismatch no_representations first_not_plotroot too_many : Error
  multiple_plotroots duplicate_representation hash_list_root_mismatch : Error
  -- PeerStorageDisk
  unknown_peer : Error
  -- the fuel of a model of a loop, which the source does not have
  out_of_fuel : Error
  orphan unexpected_height incorrect_target incorrect_thread_work time_too_early : Error

pub data Result (A : Type 0) : Type 0 where
  ok : A → Result A
  err : Error → Result A
  panic : Result A

-- A call on a state: what it wrote stays written after an error.
abbrev pub Action : Type 0 → Type 0 → Type 0
Action S A = S → Result A × S

-- Chains of calls that leave the state alone.
abbrev pub bind : {A B : Type 0} → Result A → (A → Result B) → Result B
bind (ok a) f = f a
bind (err e) f = err e
bind panic f = panic

module _ {S : Type 0} where
  abbrev pub pure : {A : Type 0} → A → Action S A
  pure a s = (ok a, s)

  abbrev pub fail : {A : Type 0} → Error → Action S A
  fail e s = (err e, s)

  abbrev pub lift : {A : Type 0} → Result A → Action S A
  lift r s = (r, s)

  abbrev pub gets : {A : Type 0} → (S → A) → Action S A
  gets f s = (ok (f s), s)

  abbrev pub modify : (S → S) → Action S (Unit {0})
  modify f s = (ok tt, f s)

  -- The rest of a call, on what its first part gave.
  abbrev pub continue : {A B : Type 0} → Result A × S → (A → Action S B) → Result B × S
  continue (ok a, s) f = f a s
  continue (err e, s) f = (err e, s)
  continue (panic, s) f = (panic, s)

abbrev pub some_or : {A : Type 0} → Option A → Error → Result A
some_or none e = err e
some_or (some a) e = ok a

-- A chain that succeeds has succeeded at each link.
pub bind-eq-ok :
    {A B : Type 0} (r : Result A) (f : A → Result B) {b : B}
    → bind r f ≡ ok b
    → (a : A) × (r ≡ ok a) × (f a ≡ ok b)
bind-eq-ok (ok a) f h = (a, refl, h)
bind-eq-ok (err e) f h = cc
bind-eq-ok panic f h = cc

-- `if b { return err }`
abbrev pub refuse : Bool → Error → Result (Unit {0})
refuse true e = err e
refuse false e = ok tt

pub Result-cases :
    {A : Type 0} (r : Result A) → ((a : A) × (r ≡ ok a)) ⊎ ((e : Error) × (r ≡ err e)) ⊎ (r ≡ panic)
Result-cases (ok a) = inl (a, refl)
Result-cases (err e) = inr (inl (e, refl))
Result-cases panic = inr (inr refl)
