-- ===== src/Plot/Root.antt =====
-- plot.go: `NewPlot` and `AddRepresentation` keep the hash list root that `computeHashListRoot`
-- computes anew.
use plot_thread.Prelude.{
  ◌≡◌, refl, sym, ap, ◌∙◌, bind, panic, none, some, List, [], ◌∷◌, ◌++◌, ℤ, ok, bind-eq-ok, arith,
  subst, refuse, ltb, length, Error,
}
use mathlib.Core.List.{append_assoc, append-nil}
use plot_thread.Prelude.Bytes.{Bytes}
use plot_thread.Representation.{Representation, Crypto, id}
use plot_thread.Plot.{
  Plot, PlotHeader, next_count, max_representations_per_plot, write_ids, compute_hash_list_root,
  new_plot, add_plotroot_to_hash_list_root, add_with, add_representation,
}

module _ (c : Crypto) where
  write_ids-append :
      (txs : List Representation) (tx : Representation) (tx_id ids : Bytes)
      → id c tx ≡ ok tx_id
      → write_ids c txs ≡ ok ids
      → write_ids c (txs ++ tx ∷ []) ≡ ok (ids ++ tx_id)
  unfolding write_ids
  write_ids-append [] tx tx_id ids h e = ground (arith, append-nil tx_id)
  write_ids-append (u ∷ txs) tx tx_id ids h e =
      let (u_id, named, rest) = bind-eq-ok (id c u) _ e in
      let (ids', written, same) = bind-eq-ok (write_ids c txs) _ rest in
      ground (
        arith,
        named,
        same,
        append_assoc u_id ids' tx_id,
        write_ids-append txs tx tx_id ids' h written,
      )

  -- The header has the root of the representations, and the hasher has taken their IDs in.
  abbrev pub IsRooted : Plot → Type 0
  IsRooted plot =
      (hasher : Bytes) × (plot.hasher ≡ some hasher)
      × (compute_hash_list_root c [] plot.representations ≡ ok (plot.header.hash_list_root, hasher))

  added :
      (txs : List Representation) (tx_id : Bytes) (tx : Representation) (plot plot' : Plot)
      (hasher : Bytes)
      → plot.representations ≡ txs
      → id c tx ≡ ok tx_id
      → plot.hasher ≡ some hasher
      → compute_hash_list_root c [] plot.representations ≡ ok (plot.header.hash_list_root, hasher)
      → add_representation c tx_id tx plot ≡ ok plot'
      → IsRooted plot' × (plot'.representations ≡ plot.representations ++ tx ∷ [])
  unfolding add_representation add_with compute_hash_list_root
  added [] tx_id tx plot plot' hasher e named has root made = ground arith
  added (plotroot ∷ txs) tx_id tx plot plot' hasher e named has root made =
      let root' : compute_hash_list_root c [] (plotroot ∷ txs)
          ≡ ok (plot.header.hash_list_root, hasher) =
        subst (λ l. compute_hash_list_root c [] l ≡ ok (plot.header.hash_list_root, hasher)) e
          root in
      let (ids, written, rest) = bind-eq-ok (write_ids c txs) _ root' in
      let longer = write_ids-append txs tx tx_id ids named written in
      ((hasher ++ tx_id, ground arith, ground (arith, rest, written, longer)), ground arith)

  -- Where `NewPlot` succeeds, the plot has the given representations, their root in its header, and
  -- a hasher that has taken in what the root is computed from.
  pub new_plot-IsRooted :
      (now rand : ℤ) (previous : Bytes) (height : ℤ) (target thread_work : Bytes)
      (txs : List Representation) (plot : Plot)
      → new_plot c now rand previous height target thread_work txs ≡ ok plot
      → IsRooted plot × (plot.representations ≡ txs)
  unfolding new_plot
  new_plot-IsRooted now rand previous height target thread_work txs plot made =
      let (_, small, made') =
        bind-eq-ok (refuse (ltb max_representations_per_plot (length txs)) Error.too_many) _ made in
      let (r, found, rest) = bind-eq-ok (compute_hash_list_root c [] txs) _ made' in
      ((r.1, ground arith, ground (arith, found)), ground arith)

  -- The header that comes out is computed from the plotroot and the hasher alone.
  add_with-header :
      (tx_id : Bytes) (tx : Representation) (hasher : Bytes) (plotroot : Representation)
      (txs others : List Representation) (plot plot' : Plot)
      → add_with c tx_id tx hasher (plotroot ∷ txs) plot ≡ ok plot'
      → (other : Plot) × (add_with c tx_id tx hasher
            (plotroot ∷ others)
            (record plot { representations = plotroot ∷ others })
          ≡ ok other)
        × (other.header ≡ plot'.header)
        × (other.hasher ≡ plot'.hasher)
        × (plot'.hasher ≡ some (hasher ++ tx_id))
  unfolding add_with
  add_with-header tx_id tx hasher plotroot txs others plot plot' e =
      let (root, found, same) =
        bind-eq-ok (add_plotroot_to_hash_list_root c (hasher ++ tx_id) plotroot) _ e in
      let header : PlotHeader = record plot.header {
        hash_list_root = root;
        representation_count = next_count c plot.header.representation_count;
      } in
      let other : Plot = record {
        header = header;
        representations = (plotroot ∷ others) ++ tx ∷ [];
        hasher = some (hasher ++ tx_id);
      } in
      (
        other,
        ap
            (λ r.
              bind r
                (λ root. ok (record other { header = record header { hash_list_root = root } })))
            found,
        ground (arith, same),
        ground (arith, same),
        ground (arith, same),
      )

  with_hasher :
      (tx_id : Bytes) (tx : Representation) (plot : Plot) (hasher : Bytes)
      → plot.hasher ≡ some hasher
      → add_representation c tx_id tx plot ≡ add_with c tx_id tx hasher plot.representations plot
  unfolding add_representation
  with_hasher tx_id tx plot hasher has =
      ap (λ o. elim o [ none ↦ panic | some h ↦ add_with c tx_id tx h plot.representations plot ])
        has

  added-alike :
      (reps others : List Representation) (tx_id : Bytes) (tx : Representation) (plot plot' : Plot)
      (hasher : Bytes)
      → plot.representations ≡ reps
      → plot.hasher ≡ some hasher
      → add_representation c tx_id tx plot ≡ ok plot'
      → (plotroot : Representation) × (txs : List Representation) × (other : Plot)
        × (plot.representations ≡ plotroot ∷ txs)
        × (add_representation c tx_id tx (record plot { representations = plotroot ∷ others })
            ≡ ok other)
        × (other.header ≡ plot'.header)
        × (other.hasher ≡ plot'.hasher)
        × (plot'.hasher ≡ some (hasher ++ tx_id))
  unfolding add_with
  added-alike [] others tx_id tx plot plot' hasher e has made =
      absurd (ground (arith, e, made, with_hasher tx_id tx plot hasher has))
  added-alike (plotroot ∷ txs) others tx_id tx plot plot' hasher e has made =
      let made₀ = sym (with_hasher tx_id tx plot hasher has) ∙ made in
      let (other, made', header, hashers, written) =
        add_with-header tx_id tx hasher plotroot txs others plot plot'
          (subst (λ l. add_with c tx_id tx hasher l plot ≡ ok plot') e made₀) in
      (
        plotroot,
        txs,
        other,
        e,
        with_hasher tx_id tx (record plot { representations = plotroot ∷ others }) hasher has
            ∙ made',
        header,
        hashers,
        written,
      )

  -- Where `AddRepresentation` succeeds under the representation's ID on a plot that has the root of
  -- its representations, it appends the representation and keeps the root that of all of them, and
  -- the hasher has taken in just its ID more. There is a plotroot, and on a plot that differs in the
  -- representations after it only, the header and the hasher would come out the same.
  pub add_representation-IsRooted :
      (tx_id : Bytes) (tx : Representation) (plot plot' : Plot) (others : List Representation)
      → id c tx ≡ ok tx_id
      → IsRooted plot
      → add_representation c tx_id tx plot ≡ ok plot'
      → IsRooted plot'
        × (plot'.representations ≡ plot.representations ++ tx ∷ [])
        × ((hasher : Bytes) × (plot.hasher ≡ some hasher)
            × ((plotroot : Representation) × (txs : List Representation) × (other : Plot)
                × (plot.representations ≡ plotroot ∷ txs)
                × (add_representation c tx_id tx
                      (record plot { representations = plotroot ∷ others })
                    ≡ ok other)
                × (other.header ≡ plot'.header)
                × (other.hasher ≡ plot'.hasher)
                × (plot'.hasher ≡ some (hasher ++ tx_id))))
  add_representation-IsRooted tx_id tx plot plot' others named (hasher, has, root) made =
      let (rooted, appended) =
        added plot.representations tx_id tx plot plot' hasher refl named has root made in
      (
        rooted,
        appended,
        (
          hasher,
          has,
          added-alike plot.representations others tx_id tx plot plot' hasher refl has made,
        ),
      )
