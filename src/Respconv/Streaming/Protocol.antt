-- ===== src/Respconv/Streaming/Protocol.antt =====
-- internal/respconv/streaming.go: the grammar of an Anthropic event stream, and that the writer keeps
-- to it.
use kiroxy.Prelude.{
  ℕ, ◌+◌, ◌-◌, ◌≤◌, ◌≡◌, ◌⊎◌, inl, inr, Bool, true, false, ◌==◌, ◌&&◌, if◌then◌else◌, List, [], ◌∷◌,
  ◌++◌, Option, none, some, arith, Option-cases,
}
use kiroxy.Prelude.Bytes.{Bytes}
use kiroxy.Respconv.Streaming.{
  BlockType, thinking, redacted_thinking, tool_use, server_tool_use, tool_search_tool_result, Sse,
  Writer, write_sse, ensure_started, close_active_block, open_block, write_delta,
  fire_visible_output,
}

-- Where a reader of the stream stands: before the message, between two blocks with the number of those
-- read, inside a block of a type, behind the message's delta, or at the end.
pub data Phase : Type 0 where
  before : Phase
  between : ℕ → Phase
  inside : ℕ → BlockType → Phase
  closing : Phase
  ended : Phase

-- Whether a block of the first type takes deltas of the second.
unfoldable pub takes : BlockType → BlockType → Bool
takes BlockType.text BlockType.text = true
takes thinking thinking = true
takes tool_use tool_use = true
takes server_tool_use server_tool_use = true
takes _ _ = false

-- One event read. An error may stand between two blocks.
unfoldable pub read_sse : Phase → Sse → Option Phase
unfolding takes
read_sse before Sse.message_start = some (between 0)
read_sse (between n) (Sse.block_start i t p q) = if i == n then some (inside n t) else none
read_sse (inside n t) (Sse.block_delta i u s) =
    if i == n && takes t u then some (inside n t) else none
read_sse (inside n t) (Sse.block_stop i) = if i == n then some (between (n + 1)) else none
read_sse (between n) (Sse.message_delta r q u) = some closing
read_sse (between n) (Sse.sse_error k m) = some (between n)
read_sse closing Sse.message_stop = some ended
read_sse _ _ = none

unfoldable pub read_all : Phase → List Sse → Option Phase
read_all p [] = some p
read_all p (x ∷ xs) = elim (read_sse p x) [ none ↦ none | some q ↦ read_all q xs ]

pub read_all-snoc :
    (p q : Phase) (xs : List Sse) (x : Sse)
    → read_all p xs ≡ some q
    → read_all p (xs ++ (x ∷ [])) ≡ read_sse q x
unfolding read_all
read_all-snoc p q [] x h = elim (Option-cases (read_sse p x)) [
  | inl e ↦ ground (arith, e)
  | inr (r, e) ↦ ground (arith, e)
]
read_all-snoc p q (y ∷ xs) x h = elim (Option-cases (read_sse p y)) [
  | inl e ↦ ground (arith, e)
  | inr (r, e) ↦ ground (arith, e, read_all-snoc r q xs x)
]

unfoldable pub is_some {ℓ} : {A : Type ℓ} → Option A → Bool
is_some none = false
is_some (some a) = true

-- Blocks that are no output to see: thinking, and the result of a search, which comes after a block to see.
unfoldable pub is_hidden : Sse → Bool
is_hidden (Sse.block_start i t p q) = elim t [
  | thinking ↦ true
  | redacted_thinking ↦ true
  | tool_search_tool_result c ↦ true
  | _ ↦ false
]
is_hidden _ = true

unfoldable pub all_hidden : List Sse → Bool
unfolding is_hidden
all_hidden [] = true
all_hidden (x ∷ xs) = is_hidden x && all_hidden xs

pub all_hidden-snoc :
    (xs : List Sse) (x : Sse) → all_hidden (xs ++ (x ∷ [])) ≡ all_hidden xs && is_hidden x
unfolding all_hidden
all_hidden-snoc [] x = ground (arith, x)
all_hidden-snoc (y ∷ xs) x = ground (arith, all_hidden-snoc xs x)

-- Nothing to see is written before the visible output is announced.
unfoldable pub Shown : Writer → Type 0
Shown w = (w.visible_fired ≡ true) ⊎ (all_hidden w.written ≡ true)

-- What was written is read to some phase, and to the phase given unless a write has failed; and
-- what there is to see was announced.
unfoldable pub Follows : Writer → Phase → Type 0
Follows w p =
    (is_some (read_all before w.written) ≡ true)
    × ((w.write_err ≡ true) ⊎ (read_all before w.written ≡ some p))
    × Shown w

-- The message has begun and no block is open.
unfoldable pub Between : Writer → Type 0
Between w = (w.started ≡ true) × ((w.active_type ≡ none) × Follows w (between w.block_count))

-- The message has begun and the block opened last is open, and of the type given.
unfoldable pub InsideOf : BlockType → Writer → Type 0
InsideOf t w =
    (w.started ≡ true)
    × ((w.active_type ≡ some t) × ((1 ≤ w.block_count) × Follows w (inside (w.block_count - 1) t)))

unfoldable pub Inside : Writer → Type 0
Inside w = (t : BlockType) × InsideOf t w

unfoldable pub Running : Writer → Type 0
Running w = Between w ⊎ Inside w

-- The writer and a reader of what it wrote agree on where they stand.
unfoldable pub InStep : Writer → Type 0
InStep w =
    ((w.started ≡ false) × ((w.active_type ≡ none) × ((w.block_count ≡ 0) × Follows w before)))
    ⊎ Running w

module _ (fails : List Sse → Sse → Bool) where
  pub ensure_started-Running : (w : Writer) → InStep w → Running (ensure_started fails w)
  unfolding InStep Running Between ensure_started Inside InsideOf read_sse write_sse Follows is_some
      Shown is_hidden
  ensure_started-Running w h = ground (
    arith,
    read_all-snoc before before w.written Sse.message_start,
    all_hidden-snoc w.written Sse.message_start,
  )

  close_inside-Between :
      (t : BlockType) (w : Writer) → InsideOf t w → Between (close_active_block fails w)
  unfolding Between close_active_block InsideOf read_sse is_some write_sse Follows Shown is_hidden
  close_inside-Between t w h = ground (
    arith,
    read_all-snoc before (inside (w.block_count - 1) t) w.written
        (Sse.block_stop (w.block_count - 1)),
    all_hidden-snoc w.written (Sse.block_stop (w.block_count - 1)),
  )

  close_none-Between : (w : Writer) → Between w → Between (close_active_block fails w)
  unfolding Between close_active_block
  close_none-Between w h = ground (arith, h)

  pub close_active_block-Between : (w : Writer) → Running w → Between (close_active_block fails w)
  unfolding Running Inside
  close_active_block-Between w (inl h) = close_none-Between w h
  close_active_block-Between w (inr (t, h)) = close_inside-Between t w h

  pub open_block-Inside :
      (t : BlockType) (p q : Bytes) (w : Writer)
      → (is_hidden (Sse.block_start w.block_count t p q) ≡ true) ⊎ (w.visible_fired ≡ true)
      → Between w
      → InsideOf t (open_block fails t p q w)
  unfolding Between open_block InsideOf read_sse is_some write_sse Follows Shown
  open_block-Inside t p q w v h = ground (
    arith,
    v,
    read_all-snoc before (between w.block_count) w.written (Sse.block_start w.block_count t p q),
    all_hidden-snoc w.written (Sse.block_start w.block_count t p q),
  )

  pub write_delta-Inside :
      (t : BlockType) (s : Bytes) (w : Writer)
      → takes t t ≡ true
      → InsideOf t w
      → InsideOf t (write_delta fails t s w)
  unfolding write_delta InsideOf read_sse is_some write_sse Follows Shown is_hidden
  write_delta-Inside t s w k h = ground (
    arith,
    k,
    read_all-snoc before (inside (w.block_count - 1) t) w.written
        (Sse.block_delta (w.block_count - 1) t s),
    all_hidden-snoc w.written (Sse.block_delta (w.block_count - 1) t s),
  )

  pub fire_visible_output-visible :
      (w : Writer) → (fire_visible_output fails w).visible_fired ≡ true
  unfolding fire_visible_output
  fire_visible_output-visible w = ground arith

  pub close_active_block-visible :
      (w : Writer) → (close_active_block fails w).visible_fired ≡ w.visible_fired
  unfolding close_active_block write_sse
  close_active_block-visible w = ground arith
