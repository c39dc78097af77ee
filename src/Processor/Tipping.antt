-- ===== src/Processor/Tipping.antt =====
-- processor.go: which plot is the tip after `acceptPlotContinue`.
use plot_thread.Prelude.{
  ap, sym, ◌∙◌, ℕ, ◌≡◌, Bool, true, false, Bool-cases, Option, none, some, ℤ, Result, ok,
  bind-eq-ok, pure, arith, ◌⊎◌, inl, inr,
}
use plot_thread.Prelude.Stateful.{continue-eq-ok, branch}
use plot_thread.Prelude.Bytes.{Bytes, bytes_eq, bytes_eq_iff}
use plot_thread.Representation.{Crypto}
use plot_thread.RepresentationQueue.Valid.{IsValid}
use plot_thread.Plot.{Plot, PlotHeader, compare}
use plot_thread.LedgerDisk.Queries.{side}
use plot_thread.Processor.Target.{deref}
use plot_thread.Processor.State.{Processor, PlotStorage, Ledger, look, on_disk, notify}
use plot_thread.Processor.Tips.{tail_of, remove_confirmed, connect_plot, get_thread_tip_header}
use plot_thread.Processor.Reorganize.{
  find_ways, connect_all, disconnect_all, reorganize, adopt_if, compare_with_tip,
  accept_plot_continue,
}
use plot_thread.Processor.Laws.{IsSized, IsLedger}
use plot_thread.Processor.Calls.{on_disk-eq-ok, write_disk-eq-ok}
use plot_thread.Processor.Keeping.{IsGood}
use plot_thread.Processor.Keeping.Reorganizing.{disconnect_all-keeps, connect_all-keeps}
use plot_thread.Processor.Run.Healthy.{sound_keeps}

deref-eq-ok : {A : Type 0} (o : Option A) (a : A) → deref o ≡ ok a → o ≡ some a
unfolding deref
deref-eq-ok none a e = cc
deref-eq-ok (some b) a e = ground arith

module _ {W F : Type 0} (plot_store : PlotStorage W) (ledger : Ledger W F) where
  tip_header-eq-ok :
      (w : W) (at : Option (Bytes × ℤ)) (tip : Bytes × Option (PlotHeader × ℤ))
      → ledger.get_thread_tip w ≡ ok at
      → get_thread_tip_header ledger plot_store w ≡ ok (some tip)
      → (tip_height : ℤ) × (ledger.get_thread_tip w ≡ ok (some (tip.0, tip_height)))
        × (plot_store.get_plot_header w tip.0 ≡ ok tip.1)
  unfolding get_thread_tip_header
  tip_header-eq-ok w none tip e h = absurd (ground (arith, e, h))
  tip_header-eq-ok w (some (tip_id, tip_height)) tip e h =
      let h' = rw e at h in
      let (found, read, same) = bind-eq-ok (plot_store.get_plot_header w tip_id) _ h' in
      (tip_height, ground (arith, e, same), ground (arith, read, same))

  get_thread_tip_header-eq-ok :
      (w : W) (tip : Bytes × Option (PlotHeader × ℤ))
      → get_thread_tip_header ledger plot_store w ≡ ok (some tip)
      → (tip_height : ℤ) × (ledger.get_thread_tip w ≡ ok (some (tip.0, tip_height)))
        × (plot_store.get_plot_header w tip.0 ≡ ok tip.1)
  unfolding get_thread_tip_header
  get_thread_tip_header-eq-ok w tip h =
      let (at, read, rest) = bind-eq-ok (ledger.get_thread_tip w) _ h in
      tip_header-eq-ok w at tip read h

module _ (c : Crypto) {W F : Type 0} (plot_store : PlotStorage W) (ledger : Ledger W F)
    (IsSound : W → Type 0) (laws : IsLedger c plot_store ledger IsSound) where
  connected-tip :
      (plot_id : Bytes) (plot : Plot) (source : Bytes) (more : Bool) (p p' : Processor W F)
      → IsSound p.disk
      → IsSized plot_id plot
      → connect_plot c ledger plot_id plot source more p ≡ (ok tt, p')
      → ledger.get_thread_tip p'.disk ≡ ok (some (plot_id, plot.header.height))
  unfolding connect_plot look notify remove_confirmed
  connected-tip plot_id plot source more p p' sound sized e =
      let graph = p.graphs p.looks in
      let call = ledger.connect_plot graph plot_id plot in
      let (tx_ids, q, first, rest) = continue-eq-ok (on_disk call (look p).1) _ e in
      let (w, done, same) = on_disk-eq-ok call (look p).1 q tx_ids first in
      let (confirmed, r, second, rest') = continue-eq-ok (tail_of tx_ids, q) _ rest in
      let (u, s, third, last) =
        continue-eq-ok (remove_confirmed c ledger confirmed plot.header.height more r) _ rest' in
      let (kept, tip, ids) =
        laws.connect_sound graph plot_id plot p.disk w tx_ids sound sized done in
      ground (arith, same, second, third, last, tip)

module _ (c : Crypto) (marshal_header : PlotHeader → Result Bytes) {W F : Type 0}
    (plot_store : PlotStorage W) (ledger : Ledger W F) (fuel : ℕ) (IsSound : W → Type 0)
    (laws : IsLedger c plot_store ledger IsSound) where
  reorganize-tip :
      (plot_id : Bytes) (plot : Plot) (tip_id : Bytes) (tip_header : PlotHeader)
      (prev_header : Option PlotHeader) (source : Bytes) (p p' : Processor W F)
      → IsSound p.disk
      → IsValid c p.queue
      → IsSized plot_id plot
      → reorganize c marshal_header plot_store ledger fuel plot_id plot tip_id tip_header
          prev_header source p
        ≡ (ok tt, p')
      → ledger.get_thread_tip p'.disk ≡ ok (some (plot_id, plot.header.height))
  unfolding reorganize
  reorganize-tip plot_id plot tip_id tip_header prev_header source p p' sound valid sized e =
      let keeps = sound_keeps c plot_store ledger IsSound laws in
      let (prev, q, first, e₁) = continue-eq-ok (deref prev_header, p) _ e in
      let at_q : IsGood c plot_store ledger IsSound keeps q =
        let same : p ≡ q = ground (arith, first) in rw (← same) (sound, valid) in
      let (ways, r, second, e₂) =
        continue-eq-ok
          (
            find_ways (plot_store.get_plot_header q.disk) fuel tip_id tip_header
                plot.header.previous prev,
            q,
          )
          _ e₁ in
      let at_r : IsGood c plot_store ledger IsSound keeps r =
        let same : q ≡ r = ground (arith, second) in rw (← same) at_q in
      let (u, s, third, e₃) =
        continue-eq-ok (disconnect_all c marshal_header plot_store ledger fuel source ways.0 r) _
          e₂ in
      let at_s : IsGood c plot_store ledger IsSound keeps s = rw (ap (λ x. x.1) third) at (
        disconnect_all-keeps c marshal_header plot_store ledger fuel IsSound keeps source ways.0 r
          at_r) in
      let (v, t, fourth, e₄) =
        continue-eq-ok (connect_all c marshal_header plot_store ledger fuel source ways.1 s) _ e₃ in
      let at_t : IsGood c plot_store ledger IsSound keeps t = rw (ap (λ x. x.1) fourth) at (
        connect_all-keeps c marshal_header plot_store ledger fuel IsSound keeps source ways.1 s
          at_s) in
      connected-tip c plot_store ledger IsSound laws plot_id plot source false t p' at_t.0 sized e₄

  -- What `acceptPlotContinue` did with a plot that is compared with the tip.
  abbrev pub Compared : Bytes → Plot → ℤ → PlotHeader × ℤ → Processor W F → Processor W F → Type 0
  Compared plot_id plot plot_when tip p p' =
      ((compare c marshal_header plot.header tip.0 plot_when tip.1 ≡ ok true)
        × (ledger.get_thread_tip p'.disk ≡ ok (some (plot_id, plot.header.height))))
      ⊎ ((compare c marshal_header plot.header tip.0 plot_when tip.1 ≡ ok false)
          × (ledger.get_thread_tip p'.disk ≡ ledger.get_thread_tip p.disk)
          × (ledger.get_branch_type plot_id p'.disk ≡ ok side)
          × (p'.queue ≡ p.queue)
          × (p'.sent ≡ p.sent))

  adopt_if-Compared :
      (better : Bool) (plot_id : Bytes) (plot : Plot) (plot_when : ℤ) (tip_id : Bytes)
      (tip : PlotHeader × ℤ) (prev_header : Option PlotHeader) (source : Bytes)
      (p p' : Processor W F)
      → IsSound p.disk
      → IsValid c p.queue
      → IsSized plot_id plot
      → compare c marshal_header plot.header tip.0 plot_when tip.1 ≡ ok better
      → adopt_if c marshal_header plot_store ledger fuel better plot_id plot tip_id tip.0
          prev_header source p
        ≡ (ok tt, p')
      → Compared plot_id plot plot_when tip p p'
  unfolding adopt_if
  adopt_if-Compared true plot_id plot plot_when tip_id tip prev_header source p p' sound valid sized
        compared e =
      inl (
        compared,
        reorganize-tip plot_id plot tip_id tip.0 prev_header source p p' sound valid sized e,
      )
  adopt_if-Compared false plot_id plot plot_when tip_id tip prev_header source p p' sound valid
        sized compared e =
      let (w, done, same) = write_disk-eq-ok (ledger.set_branch_type plot_id side) p p' e in
      let (kept, tip_kept, typed) = laws.set_branch_type_sound plot_id side p.disk w sound done in
      inr (
        compared,
        ground (arith, same, tip_kept),
        ground (arith, same, typed),
        ground (arith, same),
        ground (arith, same),
      )

  compare_with_tip-Compared :
      (plot_id : Bytes) (plot : Plot) (plot_when : ℤ) (prev_header : Option PlotHeader)
      (source : Bytes) (tip : Bytes × Option (PlotHeader × ℤ)) (p p' : Processor W F)
      → IsSound p.disk
      → IsValid c p.queue
      → IsSized plot_id plot
      → compare_with_tip c marshal_header plot_store ledger fuel plot_id plot plot_when prev_header
          source tip p
        ≡ (ok tt, p')
      → (t : PlotHeader × ℤ) × (tip.1 ≡ some t) × Compared plot_id plot plot_when t p p'
  unfolding compare_with_tip
  compare_with_tip-Compared plot_id plot plot_when prev_header source tip p p' sound valid sized e =
      let (t, q, first, e₁) = continue-eq-ok (deref tip.1, p) _ e in
      let (better, r, second, e₂) =
        continue-eq-ok (compare c marshal_header plot.header t.0 plot_when t.1, q) _ e₁ in
      let r_is_p : r ≡ p = ground (arith, first, second) in
      (
        t,
        deref-eq-ok tip.1 t (ground (arith, first)),
        adopt_if-Compared better plot_id plot plot_when tip.0 t prev_header source p p' sound valid
            sized (ground (arith, second)) (rw r_is_p at e₂),
      )

  against-Compared :
      (plot_id : Bytes) (plot : Plot) (plot_when : ℤ) (prev_header : Option PlotHeader)
      (source : Bytes) (tip : Bytes × Option (PlotHeader × ℤ)) (p p' : Processor W F)
      → IsSound p.disk
      → IsValid c p.queue
      → IsSized plot_id plot
      → branch
          (bytes_eq plot_id tip.0)
          (pure tt)
          (compare_with_tip c marshal_header plot_store ledger fuel plot_id plot plot_when
            prev_header source tip)
          p
        ≡ (ok tt, p')
      → ((tip.0 ≡ plot_id) × (p' ≡ p))
        ⊎ ((t : PlotHeader × ℤ) × (tip.1 ≡ some t) × Compared plot_id plot plot_when t p p')
  against-Compared plot_id plot plot_when prev_header source tip p p' sound valid sized e =
      elim (Bool-cases (bytes_eq plot_id tip.0)) [
        | inl same ↦
            inl (sym ((bytes_eq_iff plot_id tip.0).0 same), sym (ap (λ t. t.1) (rw same at e)))
        | inr apart ↦ inr (
            compare_with_tip-Compared plot_id plot plot_when prev_header source tip p p' sound valid
              sized (rw apart at e))
      ]

  -- Where `acceptPlotContinue` succeeds on a ledger and a plot storage that obey their laws, there
  -- was a tip. Either it was the plot itself, and nothing changed; or the plot was compared with the
  -- header of the tip, and was the better and is the tip now, whatever had to be disconnected and
  -- connected, or was not, and is on a side branch, with the tip, the queue and the messages sent
  -- as they were. The data is sound, the plot sized, and the queue's map and list agree.
  pub accept_plot_continue-Compared :
      (plot_id : Bytes) (plot : Plot) (plot_when : ℤ) (prev_header : Option PlotHeader)
      (source : Bytes) (p p' : Processor W F)
      → IsSound p.disk
      → IsValid c p.queue
      → IsSized plot_id plot
      → accept_plot_continue c marshal_header plot_store ledger fuel plot_id plot plot_when
          prev_header source p
        ≡ (ok tt, p')
      → (tip_id : Bytes) × (tip_height : ℤ) × (ledger.get_thread_tip p.disk
          ≡ ok (some (tip_id, tip_height)))
        × (((tip_id ≡ plot_id) × (p' ≡ p))
            ⊎ ((tip : PlotHeader × ℤ) × (plot_store.get_plot_header p.disk tip_id ≡ ok (some tip))
                × Compared plot_id plot plot_when tip p p'))
  unfolding accept_plot_continue
  accept_plot_continue-Compared plot_id plot plot_when prev_header source p p' sound valid sized e =
      let (found, q, first, e₁) =
        continue-eq-ok (get_thread_tip_header ledger plot_store p.disk, p) _ e in
      let (tip, r, second, e₂) = continue-eq-ok (deref found, q) _ e₁ in
      let r_is_p : r ≡ p = ground (arith, first, second) in
      let (tip_height, at, header) =
        get_thread_tip_header-eq-ok plot_store ledger p.disk tip
          (ground (arith, first, deref-eq-ok found tip (ground (arith, second)))) in
      (
        tip.0,
        tip_height,
        at,
        elim (against-Compared plot_id plot plot_when prev_header source tip p p' sound valid sized
            (rw r_is_p at e₂)) [
              | inl same ↦ inl same
              | inr (t, there, compared) ↦ inr (t, header ∙ ap ok there, compared)
            ],
      )
