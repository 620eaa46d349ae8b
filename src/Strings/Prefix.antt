-- ===== src/Strings/Prefix.antt =====
-- Prefixes of byte strings: `strings.HasPrefix`, and where one string begins another.
use kiroxy.Prelude.{
  ◌≤◌, ◌≡◌, refl, Bool, true, false, ◌&&◌, ◌==◌, [], ◌∷◌, ◌++◌, arith, length, drop,
}
use kiroxy.Prelude.Bytes.{Bytes}

-- `strings.HasPrefix(s, p)`, the prefix first.
unfoldable pub has_prefix : Bytes → Bytes → Bool
has_prefix [] s = true
has_prefix (x ∷ p) [] = false
has_prefix (x ∷ p) (y ∷ s) = x == y && has_prefix p s

pub has_prefix-split : (p s : Bytes) → has_prefix p s ≡ true → p ++ drop (length p) s ≡ s
unfolding has_prefix
has_prefix-split [] s h = refl
has_prefix-split (x ∷ p) [] h = cc
has_prefix-split (x ∷ p) (y ∷ s) h = ground (arith, has_prefix-split p s)

pub has_prefix-append_self : (p s : Bytes) → has_prefix p (p ++ s) ≡ true
unfolding has_prefix
has_prefix-append_self [] s = refl
has_prefix-append_self (x ∷ p) s = ground (arith, has_prefix-append_self p s)

-- A prefix stays one when text is added behind.
pub has_prefix-append : (p s t : Bytes) → has_prefix p s ≡ true → has_prefix p (s ++ t) ≡ true
unfolding has_prefix
has_prefix-append [] s t h = refl
has_prefix-append (x ∷ p) [] t h = cc
has_prefix-append (x ∷ p) (y ∷ s) t h = ground (arith, has_prefix-append p s t)

pub has_prefix-length : (p s : Bytes) → has_prefix p s ≡ true → length p ≤ length s
unfolding has_prefix
has_prefix-length [] s h = omega arith
has_prefix-length (x ∷ p) [] h = cc
has_prefix-length (x ∷ p) (y ∷ s) h = ground (arith, has_prefix-length p s)

pub drop-append :
    (p s t : Bytes) → has_prefix p s ≡ true → drop (length p) (s ++ t) ≡ drop (length p) s ++ t
unfolding has_prefix
drop-append [] s t h = refl
drop-append (x ∷ p) [] t h = cc
drop-append (x ∷ p) (y ∷ s) t h = ground (arith, drop-append p s t)

-- Two strings that differ before either ends differ whatever follows.
pub not-has_prefix-append :
    (p s t : Bytes)
    → has_prefix p s ≡ false
    → has_prefix s p ≡ false
    → (has_prefix p (s ++ t) ≡ false) × (has_prefix (s ++ t) p ≡ false)
unfolding has_prefix
not-has_prefix-append [] s t h k = cc
not-has_prefix-append (x ∷ p) [] t h k = cc
not-has_prefix-append (x ∷ p) (y ∷ s) t h k = ground (arith, not-has_prefix-append p s t)
