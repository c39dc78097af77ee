-- ===== src/PlotHeaderHasher/Buffer.antt =====
-- plot_header_hasher.go: writing texts into a buffer, and moving those behind a text.
use mathlib.Core.List.{append_assoc}
use plot_thread.Prelude.{
  ℕ, zero, suc, ◌+◌, ◌≡◌, refl, sym, ap, ◌∙◌, Bool, true, false, ◌&&◌, List, [], ◌∷◌, ◌++◌, length,
  length-append, take, drop, ℤ, pos, sub_ℕ, eqb_ℤ, ◌+ℤ◌, arith, if◌then◌else◌,
}
use plot_thread.Prelude.Bytes.{Bytes}
use plot_thread.PlotHeaderHasher.{write_at, write_all, total, refresh}

-- Texts, one after the other.
unfoldable pub concat : List Bytes → Bytes
concat [] = []
concat (w ∷ ws) = w ++ concat ws

pub length-concat : (ws : List Bytes) → length (concat ws) ≡ total ws
unfolding concat total
length-concat [] = refl
length-concat (w ∷ ws) = omega (arith, length-append w (concat ws), length-concat ws)

pub take_front : (p r : Bytes) → take (length p) (p ++ r) ≡ p
take_front [] r = refl
take_front (x ∷ p) r = ap (◌∷◌ x) (take_front p r)

suc_plus : (m n : ℕ) → suc m + n ≡ suc (m + n)
suc_plus m n = omega arith

pub drop_front : (p r : Bytes) (n : ℕ) → drop (length p + n) (p ++ r) ≡ drop n r
drop_front [] r n = ap (λ k. drop k r) (omega arith)
drop_front (x ∷ p) r n = ap (λ k. drop k (x ∷ (p ++ r))) (suc_plus (length p) n) ∙ drop_front p r n

drop-nil : (n : ℕ) → drop {A = ℕ} n [] ≡ []
drop-nil zero = refl
drop-nil (suc n) = refl

pub drop-drop : (m n : ℕ) (r : Bytes) → drop n (drop m r) ≡ drop (m + n) r
drop-drop zero n r = ap (λ k. drop k r) (omega arith)
drop-drop (suc m) n [] = drop-nil n ∙ sym (drop-nil (suc m + n))
drop-drop (suc m) n (x ∷ r) = drop-drop m n r ∙ sym (ap (λ k. drop k (x ∷ r)) (suc_plus m n))

pub write_at-front :
    (p w r : Bytes) → write_at (length p) w (p ++ r) ≡ p ++ (w ++ drop (length w) r)
unfolding write_at
write_at-front p w r = rw (take_front p r, drop_front p r (length w)) refl

pub write_all-front :
    (p : Bytes) (ws : List Bytes) (r : Bytes)
    → write_all (length p) ws (p ++ r) ≡ p ++ (concat ws ++ drop (total ws) r)
unfolding write_all concat total
write_all-front p [] r = refl
write_all-front p (w ∷ ws) r =
    ap (λ b. write_all (length p + length w) ws b)
      (write_at-front p w r ∙ sym (append_assoc p w (drop (length w) r)))
    ∙ ap (λ n. write_all n ws ((p ++ w) ++ drop (length w) r)) (sym (length-append p w))
    ∙ write_all-front (p ++ w) ws (drop (length w) r)
    ∙ append_assoc p w (concat ws ++ drop (total ws) (drop (length w) r))
    ∙ ap (λ t. p ++ (w ++ (concat ws ++ t))) (drop-drop (length w) (total ws) r)
    ∙ ap (λ t. p ++ t) (sym (append_assoc w (concat ws) (drop (length w + total ws) r)))

sub_ℕ-plus : (a b c d : ℕ) → sub_ℕ a b +ℤ sub_ℕ c d ≡ sub_ℕ (a + c) (b + d)
unfolding ◌+ℤ◌
sub_ℕ-plus a b c d = ground arith

module _ (p u x x' : Bytes) (ws : List Bytes) (v : Bytes) where
  -- What was there before, and the new texts.
  abbrev old : Bytes
  old = u ++ (x ++ (concat ws ++ v))

  abbrev new : Bytes
  new = p ++ (x' ++ concat ws)

  length-new : length new ≡ length p + (length x' + total ws)
  length-new =
      omega
        (arith, length-append p (x' ++ concat ws), length-append x' (concat ws), length-concat ws)

  drop-old : (n : ℕ) → drop (length u + (length x + n)) old ≡ drop n (concat ws ++ v)
  drop-old n = drop_front u (x ++ (concat ws ++ v)) (length x + n) ∙ drop_front x (concat ws ++ v) n

  moved_all :
      write_all (length p) (x' ∷ ws) (p ++ drop (length p) old) ≡ new ++ drop (length new) old
  unfolding concat total
  moved_all =
      write_all-front p (x' ∷ ws) (drop (length p) old)
      ∙ ap (λ t. p ++ ((x' ++ concat ws) ++ t)) (drop-drop (length p) (length x' + total ws) old)
      ∙ sym (append_assoc p (x' ++ concat ws) (drop (length p + (length x' + total ws)) old))
      ∙ ap (λ n. new ++ drop n old) (sym length-new)

  -- What comes after stays where it was.
  rest_kept : length p + length x' ≡ length u + length x → drop (length new) old ≡ v
  rest_kept even =
      ap (λ n. drop n old) (omega (arith, length-new, even))
      ∙ drop-old (total ws)
      ∙ ap (λ n. drop n (concat ws ++ v)) (omega (arith, length-concat ws))
      ∙ drop_front (concat ws) v 0

  written_in_place :
      length p + length x' ≡ length u + length x
      → write_at (length p) x' (p ++ drop (length p) old) ≡ new ++ drop (length new) old
  written_in_place even =
      write_at-front p x' (drop (length p) old)
      ∙ ap (λ t. p ++ (x' ++ t))
          (drop-drop (length p) (length x') old
            ∙ ap (λ n. drop n old) (omega (arith, even))
            ∙ drop-old 0)
      ∙ ap (λ t. p ++ t) (sym (append_assoc x' (concat ws) v))
      ∙ sym (append_assoc p (x' ++ concat ws) v)
      ∙ ap (λ t. new ++ t) (sym (rest_kept even))

  left_alone :
      length p ≡ length u → x ≡ x' → p ++ drop (length p) old ≡ new ++ drop (length new) old
  left_alone even equal =
      ap (λ t. p ++ t)
        (ap (λ n. drop n old) (omega (arith, even))
          ∙ drop_front u (x ++ (concat ws ++ v)) 0
          ∙ ap (λ t. t ++ (concat ws ++ v)) equal
          ∙ sym (append_assoc x' (concat ws) v))
      ∙ sym (append_assoc p (x' ++ concat ws) v)
      ∙ ap (λ t. new ++ t) (sym (rest_kept (omega (arith, even, ap length equal))))

choose :
    (first second : Bool) (a b c r : Bytes × ℤ × ℕ)
    → (first ≡ true → a ≡ r)
    → (second ≡ true → b ≡ r)
    → c ≡ r
    → (if first then a else if second then b else c) ≡ r
choose true second a b c r f g h = f refl
choose false true a b c r f g h = g refl
choose false false a b c r f g h = h

triple :
    {a a' : Bytes} {b b' : ℤ} {c c' : ℕ}
    → a ≡ a'
    → b ≡ b'
    → c ≡ c'
    → ◌≡◌ {A = Bytes × ℤ × ℕ} (a, b, c) (a', b', c')
triple p q r = rw (p, q, r) refl

sub_ℕ-zero : (a b : ℕ) → eqb_ℤ (sub_ℕ a b) (pos 0) ≡ true → a ≡ b
sub_ℕ-zero a b h = ground arith

sub_ℕ-same : (a b c d : ℕ) → a ≡ b → d ≡ c → sub_ℕ a b ≡ sub_ℕ (a + c) (b + d)
sub_ℕ-same a b c d e f = ground arith

both : (a b : Bool) → (a && b) ≡ true → (a ≡ true) × (b ≡ true)
both true b h = (refl, h)
both false b h = cc

-- The buffer after a field was refreshed: the new texts, and behind them what was there.
pub refresh-refreshed :
    (same : Bool) (p u x x' : Bytes) (ws : List Bytes) (v : Bytes)
    → (same ≡ true → x ≡ x')
    → refresh same
        (sub_ℕ (length p) (length u))
        (length p)
        x'
        (length x)
        ws
        (p ++ drop (length p) (u ++ (x ++ (concat ws ++ v))))
      ≡ (
        (p ++ (x' ++ concat ws))
            ++ drop (length (p ++ (x' ++ concat ws))) (u ++ (x ++ (concat ws ++ v))),
        sub_ℕ (length p + length x') (length u + length x),
        length x',
      )
unfolding refresh
refresh-refreshed same p u x x' ws v equal =
    let moved = sub_ℕ-plus (length p) (length u) (length x') (length x) in
    choose (same && eqb_ℤ (sub_ℕ (length p) (length u)) (pos 0)) _ _ _ _ _
      (λ kept.
        let (is, zero_offset) = both same (eqb_ℤ (sub_ℕ (length p) (length u)) (pos 0)) kept in
        let even = sub_ℕ-zero (length p) (length u) zero_offset in
        let long = ap length (equal is) in
        triple (left_alone p u x x' ws v even (equal is))
          (sub_ℕ-same (length p) (length u) (length x') (length x) even long) long)
      (λ in_place.
        triple
          (written_in_place p u x x' ws v
            (sub_ℕ-zero (length p + length x') (length u + length x) (rw moved at in_place)))
          moved refl)
      (triple (moved_all p u x x' ws v) moved refl)
