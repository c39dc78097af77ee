-- ===== src/Tests/Hashing.antt =====
-- The theorem on the header hasher, at a concrete input.
use plot_thread.Prelude.{◌≡◌, refl, List, [], ◌∷◌, map, replicate, pos}
use plot_thread.Prelude.Bytes.{copy_array}
use plot_thread.Plot.{PlotHeader}
use plot_thread.PlotHeaderHasher.{new_plot_header_hasher}
use plot_thread.PlotHeaderHasher.Hashed.{Change, headers, hashes, hash_of, hashes-encoded}

abbrev start : PlotHeader
start = record {
  previous = replicate 32 8;
  hash_list_root = replicate 32 7;
  time = pos 99;
  target = replicate 32 1;
  thread_work = replicate 32 2;
  nonce = pos 12345;
  height = pos 3;
  representation_count = pos 1;
}

-- The time gets longer while the nonce gets shorter, and then the count gets longer.
abbrev changes : List Change
changes = (replicate 32 7, pos 100, pos 0, pos 1) ∷ (replicate 32 9, pos 100, pos 1, pos 10) ∷ []

hashes-encoded_example :
    hashes (copy_array 32) (headers start changes) new_plot_header_hasher
    ≡ map (hash_of (copy_array 32)) (headers start changes)
unfolding new_plot_header_hasher
hashes-encoded_example =
    hashes-encoded (copy_array 32) start changes new_plot_header_hasher refl (refl, (refl, tt))
