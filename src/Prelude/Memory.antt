-- ===== src/Prelude/Memory.antt =====
-- Arrays that are read and written in bounds, and the loop that closes a gap in one.
use Prim.Native.Nat.{ℕ, zero, suc, ◌+◌, ◌<◌}
use mathlib.Core.Path.{◌≡◌, refl, ap, sym, ◌∙◌}
use mathlib.Core.List.{List, [], ◌∷◌, ◌++◌}
use mathlib.Core.Option.{some}
use native.Mathlib.Nat.{zero-add, suc-add}
use native.Mathlib.Omega.{arith}
use networks_course.Prelude.Tests.{ltb, lt→ltb}
use networks_course.Prelude.Lists.{length, get_elem?, set, take, drop, get_elem?-IsSome, length-set}
use networks_course.Prelude.Outcome.{Run, ok, ◌>>=◌, ◌>>◌, access, in_bounds}

module _ {ℓ} {A : Type ℓ} where
  unfoldable pub read : List A → ℕ → Run A
  read xs i = access (get_elem? xs i)

  unfoldable pub write : List A → ℕ → A → Run (List A)
  write xs i v = in_bounds (ltb i (length xs)) >> ok (set xs i v)

  -- `for (; k > 0; k--, i++) xs[i] = xs[i + 1];`
  unfoldable pub shift : ℕ → ℕ → List A → Run (List A)
  shift zero i xs = ok xs
  shift (suc k) i xs = do v ← read xs (suc i); xs' ← write xs i v; shift k (suc i) xs'

  pub write-ok : (xs : List A) (i : ℕ) (v : A) → i < length xs → write xs i v ≡ ok (set xs i v)
  unfolding write
  write-ok xs i v h = rw (lt→ltb i (length xs) h)

module _ {ℓ} {A : Type ℓ} where
  shift-step :
      (k i : ℕ) (xs : List A) (v : A)
      → get_elem? xs (suc i) ≡ some v
      → i < length xs
      → shift (suc k) i xs ≡ shift k (suc i) (set xs i v)
  unfolding shift read
  shift-step k i xs v e h = rw (e, write-ok xs i v h)

  shift-cons :
      (k i : ℕ) (x : A) (xs : List A)
      → i + k < length xs
      → shift k (suc i) (x ∷ xs) ≡ (shift k i xs >>= λ ys. ok (x ∷ ys))
  unfolding shift
  shift-cons zero i x xs h = refl
  shift-cons (suc k) i x xs h =
      let (v, e) = get_elem?-IsSome xs (suc i) (omega arith) in
      shift-step k (suc i) (x ∷ xs) v e (omega arith)
      ∙ shift-cons k (suc i) x (set xs i v) (omega (arith, length-set xs i v))
      ∙ ap (λ r. r >>= λ ys. ok (x ∷ ys)) (sym (shift-step k i xs v e (omega arith)))

  -- `k` rounds from `i` on drop element `i` from the first `i + k + 1`.
  pub shift-ok :
      (k i : ℕ) (xs : List A)
      → i + k < length xs
      → (ys : List A) × (shift k i xs ≡ ok ys)
        × (length ys ≡ length xs)
        × (take (i + k) ys ≡ take i xs ++ take k (drop (suc i) xs))
  shift-ok k i [] h = absurd (omega arith)
  shift-ok zero zero (x ∷ xs) h = (x ∷ xs, unfold shift in refl, refl, refl)
  shift-ok (suc k) zero (x ∷ []) h = absurd (omega arith)
  shift-ok (suc k) zero (x ∷ y ∷ r) h =
      let (ys, run, size, kept) = shift-ok k zero (y ∷ r) (omega arith) in
      (
        y ∷ ys,
        shift-step k zero (x ∷ y ∷ r) y refl (omega arith)
            ∙ shift-cons k zero y (y ∷ r) (omega arith)
            ∙ ap (λ t. t >>= λ zs. ok (y ∷ zs)) run,
        ap suc size,
        rw (zero-add (suc k)) (ap (λ t. y ∷ t) (rw zero-add at kept)),
      )
  shift-ok k (suc i) (x ∷ xs) h =
      let (ys, run, size, kept) = shift-ok k i xs (omega arith) in
      (
        x ∷ ys,
        shift-cons k i x xs (omega arith) ∙ ap (λ t. t >>= λ zs. ok (x ∷ zs)) run,
        ap suc size,
        rw (suc-add i k) (ap (λ t. x ∷ t) kept),
      )
