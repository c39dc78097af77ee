-- ===== src/Processor/Calls.antt =====
-- processor.go: the calls of the ledger, of plot storage and of the queue, one at a time.
use plot_thread.Prelude.{◌≡◌, Result, ok, Result-cases, arith, inl, inr}
use plot_thread.Processor.State.{Processor, on_disk, write_disk}

module _ {W F : Type 0} where
  pub on_disk-keeps :
      {A : Type 0} (P : Processor W F → Type 0) (f : W → Result (A × W)) (p : Processor W F)
      → P p
      → ((a : A) (w : W) → f p.disk ≡ ok (a, w) → P (record p { disk = w }))
      → P (on_disk f p).1
  on_disk-keeps P f p h keep = elim (Result-cases (f p.disk)) [
    | inl ((a, w), e) ↦ rw (e, on_disk) (keep a w e)
    | inr (inl (x, e)) ↦ rw (e, on_disk) h
    | inr (inr e) ↦ rw (e, on_disk) h
  ]

  pub write_disk-keeps :
      (P : Processor W F → Type 0) (f : W → Result W) (p : Processor W F)
      → P p
      → ((w : W) → f p.disk ≡ ok w → P (record p { disk = w }))
      → P (write_disk f p).1
  write_disk-keeps P f p h keep = elim (Result-cases (f p.disk)) [
    | inl (w, e) ↦ rw (e, write_disk) (keep w e)
    | inr (inl (x, e)) ↦ rw (e, write_disk) h
    | inr (inr e) ↦ rw (e, write_disk) h
  ]

  pub on_disk-eq-ok :
      {A : Type 0} (f : W → Result (A × W)) (p p' : Processor W F) (a : A)
      → on_disk f p ≡ (ok a, p')
      → (w : W) × (f p.disk ≡ ok (a, w)) × (p' ≡ record p { disk = w })
  on_disk-eq-ok f p p' a done = elim (Result-cases (f p.disk)) [
    | inl ((b, w), e) ↦ (w, ground arith, ground arith)
    | inr (inl (x, e)) ↦ absurd (ground arith)
    | inr (inr e) ↦ absurd (ground arith)
  ]

  pub write_disk-eq-ok :
      (f : W → Result W) (p p' : Processor W F)
      → write_disk f p ≡ (ok tt, p')
      → (w : W) × (f p.disk ≡ ok w) × (p' ≡ record p { disk = w })
  write_disk-eq-ok f p p' done = elim (Result-cases (f p.disk)) [
    | inl (w, e) ↦ (w, e, ground arith)
    | inr (inl (x, e)) ↦ absurd (ground arith)
    | inr (inr e) ↦ absurd (ground arith)
  ]
