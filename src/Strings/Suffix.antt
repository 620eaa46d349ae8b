-- ===== src/Strings/Suffix.antt =====
-- `strings.CutSuffix` and `strings.HasSuffix`.
use kiroxy.Prelude.{
  ◌-◌, Bool, true, false, ltb, if◌then◌else◌, Option, none, some, length, take, drop,
}
use kiroxy.Prelude.Bytes.{Bytes, beq}

-- `strings.CutSuffix(s, p)`, the suffix first; none where it is not one.
unfoldable pub cut_suffix : Bytes → Bytes → Option Bytes
cut_suffix p s =
    let k = length s - length p in
    if ltb (length s) (length p) then none else if beq (drop k s) p then some (take k s) else none

unfoldable pub has_suffix : Bytes → Bytes → Bool
unfolding cut_suffix
has_suffix p s = elim (cut_suffix p s) [ none ↦ false | some t ↦ true ]
