-- ===== src/Strings/Utf8.antt =====
-- Runes of byte strings: `utf8.DecodeRuneInString` and `utf8.RuneCountInString`. An invalid byte is
-- one rune, as in Go.
use kiroxy.Prelude.{ℕ, zero, suc, ◌-◌, Bool, ◌&&◌, leb, ◌==◌, if◌then◌else◌, [], ◌∷◌}
use kiroxy.Prelude.Bytes.{Bytes}

abbrev within : ℕ → ℕ → ℕ → Bool
within lo hi c = leb lo c && leb c hi

-- The second byte of a sequence of three or four bytes, whose range depends on the first.
second_of_three : ℕ → ℕ → Bool
second_of_three a b =
    if a == 0xe0
    then within 0xa0 0xbf b
    else if a == 0xed
    then within 0x80 0x9f b
    else within 0x80 0xbf b

second_of_four : ℕ → ℕ → Bool
second_of_four a b =
    if a == 0xf0
    then within 0x90 0xbf b
    else if a == 0xf4
    then within 0x80 0x8f b
    else within 0x80 0xbf b

-- The number of bytes of the first rune.
unfoldable pub rune_size : Bytes → ℕ
unfolding second_of_three second_of_four
rune_size [] = 0
rune_size (a ∷ []) = 1
rune_size (a ∷ b ∷ []) = if within 0xc2 0xdf a && within 0x80 0xbf b then 2 else 1
rune_size (a ∷ b ∷ c ∷ []) =
    if within 0xc2 0xdf a && within 0x80 0xbf b
    then 2
    else if within 0xe0 0xef a && second_of_three a b && within 0x80 0xbf c
    then 3
    else 1
rune_size (a ∷ b ∷ c ∷ d ∷ s) =
    if within 0xc2 0xdf a && within 0x80 0xbf b
    then 2
    else if within 0xe0 0xef a && second_of_three a b && within 0x80 0xbf c
    then 3
    else if within 0xf0 0xf4 a && second_of_four a b && within 0x80 0xbf c && within 0x80 0xbf d
    then 4
    else 1

-- The runes of `s` from its `k`-th byte on.
unfoldable pub runes_from : ℕ → Bytes → ℕ
runes_from k [] = 0
runes_from (suc k) (c ∷ s) = runes_from k s
runes_from zero (c ∷ s) = suc (runes_from (rune_size (c ∷ s) - 1) s)

-- `utf8.RuneCountInString`
unfoldable pub rune_count : Bytes → ℕ
unfolding runes_from
rune_count s = runes_from 0 s

-- The byte offset behind the first `n` runes, counted from byte `k` on.
unfoldable pub offset_from : ℕ → ℕ → Bytes → ℕ
offset_from n k [] = 0
offset_from n (suc k) (c ∷ s) = suc (offset_from n k s)
offset_from zero zero (c ∷ s) = 0
offset_from (suc n) zero (c ∷ s) = suc (offset_from n (rune_size (c ∷ s) - 1) s)

unfoldable pub rune_offset : ℕ → Bytes → ℕ
unfolding offset_from
rune_offset n s = offset_from n 0 s
