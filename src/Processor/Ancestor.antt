-- ===== src/Processor/Ancestor.antt =====
-- processor.go: the search of `acceptPlotContinue` for the common ancestor of two threads.
use mathlib.Core.List.{reverse, reverse-append, reverse-reverse}
use plot_thread.Prelude.{
  ℕ, zero, suc, ◌≡◌, ap, sym, subst, ◌∙◌, true, Bool-cases, Option, none, some, List, [], ◌∷◌, ◌++◌,
  ℤ, ltb_ℤ, Result, ok, bind-eq-ok, arith, inl, inr,
}
use plot_thread.Prelude.Bytes.{Bytes, bytes_eq_iff}
use plot_thread.Plot.{PlotHeader}
use plot_thread.Processor.Target.{deref}
use plot_thread.Processor.Reorganize.{header_eq, walk_down, scan_both, lower, find_ways}

pub header_eq_iff : (a b : PlotHeader) → header_eq a b ≡ true → a ≡ b
unfolding header_eq
header_eq_iff a b h = ground (
  arith,
  bytes_eq_iff a.previous b.previous,
  bytes_eq_iff a.hash_list_root b.hash_list_root,
  bytes_eq_iff a.target b.target,
  bytes_eq_iff a.thread_work b.thread_work,
)

module _ (get_plot_header : Bytes → Result (Option (PlotHeader × ℤ))) where
  -- The plots on the way down from one plot to another, the last one left out.
  pub data Way (a : Bytes) (k : PlotHeader) : Bytes → PlotHeader → List Bytes → Type 0 where
    here : Way a k a k []
    step :
        {ids : List Bytes} (i : Bytes) (h h' : PlotHeader) (when : ℤ)
        → get_plot_header h.previous ≡ ok (some (h', when))
        → Way a k h.previous h' ids
        → Way a k i h (i ∷ ids)

  Way-append :
      {a b : Bytes} {k l : PlotHeader} {ids' : List Bytes} {i : Bytes} {h : PlotHeader}
      {ids : List Bytes}
      → Way b l i h ids
      → Way a k b l ids'
      → Way a k i h (ids ++ ids')
  Way-append here q = q
  Way-append (step i h h' when found p) q = step i h h' when found (Way-append p q)

  deref-eq-ok : {A : Type 0} (o : Option A) (a : A) → deref o ≡ ok a → o ≡ some a
  unfolding deref
  deref-eq-ok none a e = cc
  deref-eq-ok (some b) a e = ground arith

  walk_down-Way :
      (fuel : ℕ) (min_height : ℤ) (i : Bytes) (h : PlotHeader)
      (way : List Bytes × Bytes × PlotHeader)
      → walk_down get_plot_header fuel min_height i h ≡ ok way
      → Way way.1 way.2 i h way.0
  unfolding walk_down
  walk_down-Way zero min_height i h way e = cc
  walk_down-Way (suc fuel) min_height i h way e = elim (Bool-cases (ltb_ℤ min_height h.height)) [
    | inl on ↦
        let (found, read, e₁) =
          bind-eq-ok (get_plot_header h.previous) _ (rw (on, walk_down) at e) in
        let (previous, there, e₂) = bind-eq-ok (deref found) _ e₁ in
        let (rest, walked, same) =
          bind-eq-ok (walk_down get_plot_header fuel min_height h.previous previous.0) _ e₂ in
        let same' : (i ∷ rest.0, rest.1, rest.2) ≡ way = ground (arith, same) in
        rw (← same') (
          step i h previous.0 previous.1 (read ∙ ap ok (deref-eq-ok found previous there))
            (walk_down-Way fuel min_height h.previous previous.0 rest walked))
    | inr off ↦
        let same : ([], i, h) ≡ way = ground (arith, rw (off, walk_down) at e) in rw (← same) here
  ]

  -- One more round at the bottom of both ways.
  scan_step :
      {a b : Bytes} {k : PlotHeader} (i j : Bytes) (g h g' h' : PlotHeader) (s t : ℤ)
      (rest ways : List Bytes × List Bytes)
      → get_plot_header g.previous ≡ ok (some (g', s))
      → get_plot_header h.previous ≡ ok (some (h', t))
      → (i ∷ rest.0, rest.1 ++ j ∷ []) ≡ ways
      → Way a k g.previous g' rest.0
      → Way b k h.previous h' (reverse rest.1)
      → Way a k i g ways.0 × Way b k j h (reverse ways.1)
  scan_step {a} {b} {k} i j g h g' h' s t rest ways found found' same p q = (
    subst (λ (w : List Bytes × List Bytes). Way a k i g w.0) same (step i g g' s found p),
    subst (λ (w : List Bytes × List Bytes). Way b k j h (reverse w.1)) same
        (subst (λ l. Way b k j h l) (sym (reverse-append rest.1 (j ∷ [])))
          (step j h h' t found' q)),
  )

  scan_both-Way :
      (fuel : ℕ) (i : Bytes) (g : PlotHeader) (j : Bytes) (h : PlotHeader)
      (ways : List Bytes × List Bytes)
      → scan_both get_plot_header fuel i g j h ≡ ok ways
      → (a : Bytes) × (b : Bytes) × (k : PlotHeader) × Way a k i g ways.0
        × Way b k j h (reverse ways.1)
  unfolding scan_both
  scan_both-Way zero i g j h ways e = cc
  scan_both-Way (suc fuel) i g j h ways e = elim (Bool-cases (header_eq h g)) [
    | inl met ↦
        let same : ([], []) ≡ ways = ground (arith, rw (met, scan_both) at e) in
        let equal = header_eq_iff h g met in (i, j, g, rw (← same) here, rw (← same, equal) here)
    | inr apart ↦
        let (tip_found, read, e₁) =
          bind-eq-ok (get_plot_header g.previous) _ (rw (apart, scan_both) at e) in
        let (new_found, read', e₂) = bind-eq-ok (get_plot_header h.previous) _ e₁ in
        let (g', there, e₃) = bind-eq-ok (deref tip_found) _ e₂ in
        let (h', there', e₄) = bind-eq-ok (deref new_found) _ e₃ in
        let (rest, scanned, same) =
          bind-eq-ok (scan_both get_plot_header fuel g.previous g'.0 h.previous h'.0) _ e₄ in
        let (a, b, k, p, q) = scan_both-Way fuel g.previous g'.0 h.previous h'.0 rest scanned in
        let (p', q') =
          scan_step i j g h g'.0 h'.0 g'.1 h'.1 rest ways
            (read ∙ ap ok (deref-eq-ok tip_found g' there))
            (read' ∙ ap ok (deref-eq-ok new_found h' there')) (ground (arith, same)) p q in
        (a, b, k, p', q')
  ]

  -- Each thread is followed from its top to the common ancestor: the plots to disconnect are those
  -- from the tip down to it, and the plots to connect, read backwards, those from the new plot's
  -- parent down to it.
  pub find_ways-Way :
      (fuel : ℕ) (tip_id : Bytes) (tip : PlotHeader) (new_id : Bytes) (new : PlotHeader)
      (ways : List Bytes × List Bytes)
      → find_ways get_plot_header fuel tip_id tip new_id new ≡ ok ways
      → (a : Bytes) × (b : Bytes) × (k : PlotHeader) × Way a k tip_id tip ways.0
        × Way b k new_id new (reverse ways.1)
  unfolding find_ways
  find_ways-Way fuel tip_id tip new_id new ways e =
      let m = lower tip.height new.height in
      let (down, walked, e₁) = bind-eq-ok (walk_down get_plot_header fuel m tip_id tip) _ e in
      let (up, climbed, e₂) = bind-eq-ok (walk_down get_plot_header fuel m new_id new) _ e₁ in
      let (both, scanned, same) =
        bind-eq-ok (scan_both get_plot_header fuel down.1 down.2 up.1 up.2) _ e₂ in
      let (a, b, k, p, q) = scan_both-Way fuel down.1 down.2 up.1 up.2 both scanned in
      let left : down.0 ++ both.0 ≡ ways.0 = ground (arith, same) in
      let connected : both.1 ++ reverse up.0 ≡ ways.1 = ground (arith, same) in
      let right : up.0 ++ reverse both.1 ≡ reverse ways.1 =
        sym (ap (λ t. t ++ reverse both.1) (reverse-reverse up.0))
        ∙ sym (reverse-append both.1 (reverse up.0))
        ∙ ap reverse connected in
      (
        a,
        b,
        k,
        rw left at (Way-append (walk_down-Way fuel m tip_id tip down walked) p),
        rw right at (Way-append (walk_down-Way fuel m new_id new up climbed) q),
      )
