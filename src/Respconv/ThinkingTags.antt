-- ===== src/Respconv/ThinkingTags.antt =====
-- internal/respconv/thinking_tags.go: the parser that splits streamed text into visible text and
-- thinking, with <thinking> tags that may be cut by a chunk boundary.
pub mod Scan
pub mod Search
pub mod Loop
pub mod Chunks
use kiroxy.Prelude.{
  ℕ, zero, suc, ◌+◌, ◌-◌, min, Bool, true, false, not, ◌&&◌, ltb, if◌then◌else◌, [], ◌∷◌, ◌++◌,
  none, some, length, take, drop,
}
use kiroxy.Prelude.Bytes.{Bytes, codes, beq, is_empty}
use kiroxy.Strings.Index.{index, contains_byte}

abbrev pub thinking_open_tag : Bytes
thinking_open_tag = codes "<thinking>"

abbrev pub thinking_close_tag : Bytes
thinking_close_tag = codes "</thinking>"

-- The parser's fields of `responseAccumulator`: `thinkingTagInside`, `thinkingTagBuf` and
-- `suppressReasoningContent`.
pub record TagState : Type 0 where
  pub inside : Bool
  pub buf : Bytes
  pub suppress : Bool

pub record Parsed : Type 0 where
  pub tags : TagState
  pub text : Bytes
  pub thinking : Bytes

-- The tag that the parser looks for.
abbrev pub tag_of : Bool → Bytes
tag_of true = thinking_close_tag
tag_of false = thinking_open_tag

-- `textBuilder.WriteString` or `thinkBuilder.WriteString`, by where the parser is.
abbrev pub emit : Bool → Bytes → Parsed → Parsed
emit true s p = record p { thinking = p.thinking ++ s }
emit false s p = record p { text = p.text ++ s }

-- The loop of `partialTagSuffix` from a suffix of `n` bytes down.
unfoldable pub partial_from : Bytes → Bytes → ℕ → ℕ
partial_from s tag zero = 0
partial_from s tag (suc n) =
    let rest = partial_from s tag n in
    if beq (drop (length s - suc n) s) (take (suc n) tag) then suc n else rest

unfoldable pub partial_tag_suffix : Bytes → Bytes → ℕ
partial_tag_suffix s tag = partial_from s tag (min (length tag - 1) (length s))

-- A tag at position `i`: what stands before it is emitted, the tag dropped, the side changed.
unfoldable pub tag_found : ℕ → Parsed → Parsed
tag_found i p =
    let before = emit p.tags.inside (take i p.tags.buf) p in
    record before {
      tags = record {
        inside = not p.tags.inside;
        buf = drop (i + length (tag_of p.tags.inside)) p.tags.buf;
        suppress = if p.tags.inside then p.tags.suppress else true;
      };
    }

-- No tag: all is emitted but a tail that may begin one.
unfoldable pub tag_missing : Parsed → Parsed
tag_missing p =
    let b = p.tags.buf in
    let keep = partial_tag_suffix b (tag_of p.tags.inside) in
    if ltb 0 keep
    then record (emit p.tags.inside (take (length b - keep) b) p) {
      tags = record p.tags { buf = drop (length b - keep) b };
    }
    else record (emit p.tags.inside b p) { tags = record p.tags { buf = [] } }

-- The loop of `parseThinkingTags`. Each tag found shortens the buffer, so a fuel above its length
-- is enough.
unfoldable pub parse_loop : ℕ → Parsed → Parsed
parse_loop zero p = p
parse_loop (suc fuel) p = elim (is_empty p.tags.buf) [
  | true ↦ p
  | false ↦ elim (index (tag_of p.tags.inside) p.tags.buf) [
    | some i ↦ parse_loop fuel (tag_found i p)
    | none ↦ tag_missing p
  ]
]

unfoldable pub parse_thinking_tags : TagState → Bytes → Parsed
parse_thinking_tags t delta =
    if is_empty t.buf && not t.inside && not (contains_byte b'<' delta)
    then record { tags = t; text = delta; thinking = [] }
    else let b = t.buf ++ delta in
      parse_loop (suc (length b)) (record { tags = record t { buf = b }; text = []; thinking = [] })

unfoldable pub finalize_thinking_tags : TagState → Parsed
finalize_thinking_tags t =
    if is_empty t.buf
    then record { tags = t; text = []; thinking = [] }
    else let cleared = record t { buf = [] } in
      if t.inside
      then record { tags = cleared; text = []; thinking = t.buf }
      else record { tags = cleared; text = t.buf; thinking = [] }
