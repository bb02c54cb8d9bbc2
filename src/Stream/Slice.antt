-- ===== src/Stream/Slice.antt =====
-- The bytes of a source between two offsets.
use ott_quic.Common.{
  ℕ, zero, suc, ◌+◌, ◌-◌, ◌≤◌, ◌≡◌, refl, ap, ◌∙◌, List, [], ◌∷◌, ◌++◌, length, take, drop, arith,
}

-- The `k` bytes of `src` from offset `n` on.
abbrev pub slice : (ℕ → ℕ) → ℕ → ℕ → List ℕ
slice src n zero = []
slice src n (suc k) = src n ∷ slice src (n + 1) k

module _ (src : ℕ → ℕ) where
  pub length-slice : (n k : ℕ) → length (slice src n k) ≡ k
  length-slice n zero = refl
  length-slice n (suc k) = ap suc (length-slice (n + 1) k)

  -- Equal bounds, equal slices.
  pub slice_eq : (a b j k : ℕ) → a ≡ b → j ≡ k → slice src a j ≡ slice src b k
  slice_eq a b j k p q = rw (p, q)

  pub slice-append : (n j k : ℕ) → slice src n j ++ slice src (n + j) k ≡ slice src n (j + k)
  slice-append n zero k = slice_eq (n + 0) n k (0 + k) (omega arith) (omega arith)
  slice-append n (suc j) k =
      ap (λ t. src n ∷ (slice src (n + 1) j ++ t))
        (slice_eq (n + suc j) (n + 1 + j) k k (omega arith) refl)
      ∙ ap (λ t. src n ∷ t) (slice-append (n + 1) j k)
      ∙ slice_eq n n (suc (j + k)) (suc j + k) refl (omega arith)

  pub drop-slice : (d n k : ℕ) → drop d (slice src n k) ≡ slice src (n + d) (k - d)
  drop-slice zero n k = slice_eq n (n + 0) k (k - 0) (omega arith) (omega arith)
  drop-slice (suc d) n zero = slice_eq (n + suc d) (n + suc d) 0 (0 - suc d) refl (omega arith)
  drop-slice (suc d) n (suc k) =
      drop-slice d (n + 1) k
      ∙ slice_eq (n + 1 + d) (n + suc d) (k - d) (suc k - suc d) (omega arith) (omega arith)

  pub take-slice : (t n k : ℕ) → t ≤ k → take t (slice src n k) ≡ slice src n t
  take-slice zero n k h = refl
  take-slice (suc t) n zero h = elim h [ ]
  take-slice (suc t) n (suc k) h = ap (λ u. src n ∷ u) (take-slice t (n + 1) k (omega arith))
