-- ===== src/PlotHeaderHasher/Filled.antt =====
-- plot_header_hasher.go: what the buffer holds, and one stage of its update.
use mathlib.Core.List.{append_assoc}
use plot_thread.Prelude.{
  ℕ, ◌+◌, ◌≡◌, refl, ap, ◌∙◌, Bool, true, false, List, [], ◌∷◌, ◌++◌, length, length-append, drop,
  ℤ, pos, sub_ℕ, eqb_ℤ, arith, if◌then◌else◌,
}
use plot_thread.Prelude.Bytes.{Bytes}
use plot_thread.Plot.{PlotHeader}
use plot_thread.Processor.Limits.{encode_hex}
use plot_thread.PlotHeaderHasher.{
  PlotHeaderHasher, format_int, write_at, shift, hdr_time, hdr_end, before_root, time_to_nonce,
  nonce_to_count, refresh,
}
use plot_thread.PlotHeaderHasher.Buffer.{concat, drop_front, write_at-front, refresh-refreshed}

-- The JSON of a header, up to each of the fields that change, and as a whole.
abbrev pub up_to_time : PlotHeader → Bytes
up_to_time header = concat (before_root header) ++ (encode_hex header.hash_list_root ++ hdr_time)

abbrev pub up_to_nonce : PlotHeader → Bytes
up_to_nonce header = up_to_time header ++ (format_int header.time ++ concat (time_to_nonce header))

abbrev pub up_to_count : PlotHeader → Bytes
up_to_count header =
    up_to_nonce header ++ (format_int header.nonce ++ concat (nonce_to_count header))

abbrev pub encoded : PlotHeader → Bytes
encoded header =
    up_to_count header ++ (format_int header.representation_count ++ concat (hdr_end ∷ []))

-- The buffer starts with the JSON of the header, and every offset and length is right for it.
pub record IsFilled (header : PlotHeader) (h : PlotHeaderHasher) : Type 0 where
  pub rest : Bytes
  pub filled : h.buffer ≡ encoded header ++ rest
  pub initialized : h.initialized ≡ true
  pub root : h.previous_hash_list_root ≡ header.hash_list_root
  pub time : h.previous_time ≡ header.time
  pub nonce : h.previous_nonce ≡ header.nonce
  pub count : h.previous_representation_count ≡ header.representation_count
  pub root_offset : h.hash_list_root_offset ≡ length (concat (before_root header))
  pub time_offset : h.time_offset ≡ length (up_to_time header)
  pub nonce_offset : h.nonce_offset ≡ length (up_to_nonce header)
  pub count_offset : h.representation_count_offset ≡ length (up_to_count header)
  pub time_len : h.time_len ≡ length (format_int header.time)
  pub nonce_len : h.nonce_len ≡ length (format_int header.nonce)
  pub tx_count_len : h.tx_count_len ≡ length (format_int header.representation_count)
  pub buf_len : h.buf_len ≡ length (encoded header)

pub length-three : (p x w : Bytes) → length (p ++ (x ++ w)) ≡ length p + (length x + length w)
length-three p x w = omega (arith, length-append p (x ++ w), length-append x w)

sub_ℕ-further :
    (a c b d e m n : ℕ) → m ≡ a + (c + e) → n ≡ b + (d + e) → sub_ℕ (a + c) (b + d) ≡ sub_ℕ m n
sub_ℕ-further a c b d e m n h k = ground (arith, h, k)

pub sub_ℕ-self : (n : ℕ) → pos 0 ≡ sub_ℕ n n
sub_ℕ-self n = ground arith

-- One stage of the update, between a buffer that is right up to a field and one that is right up to
-- the next.
pub stage :
    (same : Bool) (p u x x' : Bytes) (ws : List Bytes) (v o : Bytes) (offset : ℤ) (at old_len : ℕ)
    (buffer : Bytes)
    → (same ≡ true → x ≡ x')
    → o ≡ u ++ (x ++ (concat ws ++ v))
    → offset ≡ sub_ℕ (length p) (length u)
    → at ≡ length p
    → old_len ≡ length x
    → buffer ≡ p ++ drop (length p) o
    → refresh same offset at x' old_len ws buffer ≡ (
      (p ++ (x' ++ concat ws)) ++ drop (length (p ++ (x' ++ concat ws))) o,
      sub_ℕ (length (p ++ (x' ++ concat ws))) (length (u ++ (x ++ concat ws))),
      length x',
    )
stage same p u x x' ws v o offset at old_len buffer equal whole moved there long before =
    rw (moved, there, long, before, whole)
      (refresh-refreshed same p u x x' ws v equal
        ∙ ap
            (λ z. (
              (p ++ (x' ++ concat ws))
                  ++ drop (length (p ++ (x' ++ concat ws))) (u ++ (x ++ (concat ws ++ v))),
              z,
              length x',
            ))
            (sub_ℕ-further (length p) (length x') (length u) (length x) (length (concat ws))
              (length (p ++ (x' ++ concat ws))) (length (u ++ (x ++ concat ws)))
              (length-three p x' (concat ws)) (length-three u x (concat ws))))

-- Where a text starts after those before it moved.
pub shift-sub_ℕ : (n a b : ℕ) → n ≡ b → shift n (sub_ℕ a b) ≡ a
unfolding shift
shift-sub_ℕ n a b e = ground (arith, e)

pub same_text : (a b c : ℤ) → a ≡ b → eqb_ℤ a c ≡ true → format_int b ≡ format_int c
same_text a b c e h = let equal : b ≡ c = ground (arith, e, h) in ap format_int equal

-- The root is written over the old one, which is as long.
pub rooted_lem :
    (a r r' z : Bytes) (same : Bool)
    → length r ≡ length r'
    → (same ≡ true → r ≡ r')
    → (if same then a ++ (r ++ z) else write_at (length a) r' (a ++ (r ++ z))) ≡ a ++ (r' ++ z)
rooted_lem a r r' z true long equal = ap (λ t. a ++ (t ++ z)) (equal refl)
rooted_lem a r r' z false long equal =
    write_at-front a r' (r ++ z)
    ∙ ap (λ t. a ++ (r' ++ t)) (ap (λ n. drop n (r ++ z)) (omega (arith, long)) ∙ drop_front r z 0)

pub append_all :
    (a r t₀ t b n c k e z : Bytes)
    → ((((a ++ (r ++ t₀)) ++ (t ++ b)) ++ (n ++ c)) ++ (k ++ e)) ++ z
      ≡ a ++ (r ++ (t₀ ++ (t ++ (b ++ (n ++ (c ++ (k ++ (e ++ z))))))))
append_all a r t₀ t b n c k e z = simp append_assoc

pub append_three : (a r t z : Bytes) → (a ++ (r ++ t)) ++ z ≡ a ++ (r ++ (t ++ z))
append_three a r t z = simp append_assoc

-- A header with another root, time, nonce and count.
abbrev pub next : PlotHeader → Bytes → ℤ → ℤ → ℤ → PlotHeader
next header root time nonce count = record header {
  hash_list_root = root;
  time = time;
  nonce = nonce;
  representation_count = count;
}

pub length-encode_hex : (b : Bytes) → length (encode_hex b) ≡ length b + length b
unfolding encode_hex
length-encode_hex [] = omega arith
length-encode_hex (x ∷ b) = omega (arith, length-encode_hex b)
