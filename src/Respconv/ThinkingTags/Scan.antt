-- ===== src/Respconv/ThinkingTags/Scan.antt =====
-- A description of the tag parser of internal/respconv/thinking_tags.go that reads one byte after
-- the other and knows nothing of chunks, and its law of concatenation.
use kiroxy.Prelude.{
  ℕ, zero, suc, ◌-◌, ◌≤◌, ◌≡◌, refl, ap, ◌∙◌, Bool, true, false, not, ◌||◌, if◌then◌else◌, [], ◌∷◌,
  ◌++◌, arith, length, drop, inl, inr, Bool-cases, append_assoc,
}
use kiroxy.Prelude.Bytes.{Bytes}
use kiroxy.Strings.Prefix.{has_prefix, has_prefix-append, has_prefix-length, not-has_prefix-append}
use kiroxy.Respconv.ThinkingTags.{tag_of}

-- What is read from a text: the two outputs, the side on which it ends, the tail that may begin a
-- tag, and whether a <thinking> tag was seen.
pub record Scanned : Type 0 where
  pub text : Bytes
  pub thinking : Bytes
  pub inside : Bool
  pub rest : Bytes
  pub opened : Bool

abbrev pub stop : Bool → Bytes → Scanned
stop i r = record { text = []; thinking = []; inside = i; rest = r; opened = false }

abbrev pub prepend : Bool → Bytes → Scanned → Scanned
prepend i s r = record r {
  text = if i then r.text else s ++ r.text;
  thinking = if i then s ++ r.thinking else r.thinking;
}

abbrev pub opening : Bool → Scanned → Scanned
opening i r = record r { opened = not i || r.opened }

-- `scan i k s` reads `s` from its `k`-th byte on, on side `i`.
unfoldable pub scan : Bool → ℕ → Bytes → Scanned
scan i k [] = stop i []
scan i (suc k) (c ∷ s) = scan i k s
scan i zero (c ∷ s) =
    let after_tag = opening i (scan (not i) (length (tag_of i) - 1) s) in
    let after_byte = prepend i (c ∷ []) (scan i zero s) in
    if has_prefix (tag_of i) (c ∷ s)
    then after_tag
    else if has_prefix (c ∷ s) (tag_of i)
    then stop i (c ∷ s)
    else after_byte

abbrev pub join : Scanned → Scanned → Scanned
join a b = record {
  text = a.text ++ b.text;
  thinking = a.thinking ++ b.thinking;
  inside = b.inside;
  rest = b.rest;
  opened = a.opened || b.opened;
}

pub scan-skip : (i : Bool) (k : ℕ) (s : Bytes) → scan i k s ≡ scan i 0 (drop k s)
unfolding scan
scan-skip i zero s = refl
scan-skip i (suc k) [] = refl
scan-skip i (suc k) (c ∷ s) = scan-skip i k s

pub tag_of-length : (i : Bool) → suc (length (tag_of i) - 1) ≡ length (tag_of i)
tag_of-length true = refl
tag_of-length false = refl

join-opening : (i : Bool) (a b : Scanned) → opening i (join a b) ≡ join (opening i a) b
join-opening true a b = refl
join-opening false a b = refl

join-prepend :
    (i : Bool) (s : Bytes) (a b : Scanned) → prepend i s (join a b) ≡ join (prepend i s a) b
join-prepend true s a b = simp append_assoc
join-prepend false s a b = simp append_assoc

-- Reading on from where a first part ended gives what reading both parts at once gives.
pub scan-append :
    (i : Bool) (k : ℕ) (x y : Bytes)
    → k ≤ length x
    → scan i k (x ++ y) ≡ join (scan i k x) (scan (scan i k x).inside 0 ((scan i k x).rest ++ y))
unfolding scan
scan-append i zero [] y h = refl
scan-append i (suc k) [] y h = absurd (omega arith)
scan-append i (suc k) (c ∷ x) y h = scan-append i k x y (omega arith)
scan-append i zero (c ∷ x) y h = elim (Bool-cases (has_prefix (tag_of i) (c ∷ x))) [
  | inl tag ↦
      let n = length (tag_of i) - 1 in
      let a = scan (not i) n x in
      rw (tag, has_prefix-append (tag_of i) (c ∷ x) y tag)
        (ap (opening i) (
            scan-append (not i) n x y
              (omega (arith, tag_of-length i, has_prefix-length (tag_of i) (c ∷ x) tag)))
          ∙ join-opening i a (scan a.inside 0 (a.rest ++ y)))
  | inr no_tag ↦ elim (Bool-cases (has_prefix (c ∷ x) (tag_of i))) [
    | inl partial ↦ rw (no_tag, partial) refl
    | inr byte ↦
        let differ = not-has_prefix-append (tag_of i) (c ∷ x) y no_tag byte in
        let a = scan i 0 x in
        rw (no_tag, byte, differ.0, differ.1)
          (ap (prepend i (c ∷ [])) (scan-append i zero x y (omega arith))
            ∙ join-prepend i (c ∷ []) a (scan a.inside 0 (a.rest ++ y)))
  ]
]

-- One step of the scan, in each of its three cases.
pub scan_tag :
    (i : Bool) (c : ℕ) (s : Bytes)
    → has_prefix (tag_of i) (c ∷ s) ≡ true
    → scan i 0 (c ∷ s) ≡ opening i (scan (not i) 0 (drop (length (tag_of i)) (c ∷ s)))
unfolding scan
scan_tag true c s tag = rw tag (ap (opening true) (scan-skip false 10 s))
scan_tag false c s tag = rw tag (ap (opening false) (scan-skip true 9 s))

pub scan_partial :
    (i : Bool) (c : ℕ) (s : Bytes)
    → has_prefix (tag_of i) (c ∷ s) ≡ false
    → has_prefix (c ∷ s) (tag_of i) ≡ true
    → scan i 0 (c ∷ s) ≡ stop i (c ∷ s)
unfolding scan
scan_partial i c s no_tag partial = rw (no_tag, partial)

pub scan_byte :
    (i : Bool) (c : ℕ) (s : Bytes)
    → has_prefix (tag_of i) (c ∷ s) ≡ false
    → has_prefix (c ∷ s) (tag_of i) ≡ false
    → scan i 0 (c ∷ s) ≡ prepend i (c ∷ []) (scan i 0 s)
unfolding scan
scan_byte i c s no_tag byte = rw (no_tag, byte)
