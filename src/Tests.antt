-- ===== src/Tests.antt =====
-- Small inputs for the examples of the child modules: keys, representations, plots, a graph, and
-- stand-ins for the foreign functions.
pub mod Representations
pub mod Ledgers
pub mod Queues
pub mod Graphs
pub mod Plots
pub mod Processing
pub mod Threads
pub mod Runs
pub mod Peers
pub mod Hashing
use plot_thread.Prelude.{
  ℕ, Bool, true, false, Option, none, some, List, [], ◌∷◌, ◌++◌, ℤ, pos, Result, ok, replicate, ◌+◌,
  ◌*◌,
}
use plot_thread.Prelude.Bytes.{Bytes, bytes_eq, copy_array}
use plot_thread.Representation.{Representation, Crypto}
use plot_thread.Graph.{Graph, new_graph, link}
use plot_thread.PubKey.{pub_key_to_string}

abbrev pub alice : Bytes
alice = replicate 32 1

abbrev pub bob : Bytes
bob = replicate 32 2

abbrev pub carol : Bytes
carol = replicate 32 3

-- A marshalling that shows the memo, a hash that pads, and signatures that show what they sign.
abbrev pub crypto : Crypto
crypto = record {
  marshal = λ tx. ok tx.memo;
  sum256 = copy_array 32;
  ed25519_sign = λ priv m. ok (priv ++ m);
  ed25519_verify = λ pub_key m s. ok (bytes_eq (pub_key ++ m) s);
}

abbrev pub transfer : Option Bytes → Option Bytes → ℕ → Representation
transfer by for n = record {
  time = pos 5;
  nonce = pos 7;
  by = by;
  for = for;
  memo = n ∷ [];
  matures = pos 0;
  expires = pos 0;
  series = pos 1;
  signature = [];
}

-- The ID of a representation with that memo.
abbrev pub memo_id : ℕ → Bytes
memo_id n = copy_array 32 (n ∷ [])

abbrev pub plotroot : Representation
plotroot = transfer none (some alice) 10

abbrev pub alice_to_bob : Representation
alice_to_bob = transfer (some alice) (some bob) 11

abbrev pub bob_to_carol : Representation
bob_to_carol = transfer (some bob) (some carol) 12

-- Everybody has 5.
abbrev pub five : Bytes → Result ℤ
five key = ok (pos 5)

abbrev pub no_graph : Graph ℕ
no_graph = new_graph

-- Bob represents Alice.
abbrev pub bob_alice : Graph ℕ
bob_alice =
    link 0 (λ a b. a + b) (pub_key_to_string (some bob)) (pub_key_to_string (some alice)) 1
      new_graph
