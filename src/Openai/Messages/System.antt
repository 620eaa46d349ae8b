-- ===== src/Openai/Messages/System.antt =====
-- internal/openai/translate_request.go: `splitSystem` takes off what the system says, and no more.
use kiroxy.Prelude.{
  ◌≡◌, refl, sym, ap, inl, inr, Bool, true, false, if◌then◌else◌, List, [], ◌∷◌, ◌++◌, arith,
  Bool-cases,
}
use kiroxy.Prelude.Bytes.{Bytes}
use kiroxy.Reqconv.Text.{join}
use kiroxy.Openai.Chat.{ChatMessage, ok}
use kiroxy.Openai.Content.{content_as_text}
use kiroxy.Openai.Messages.{is_system, has_system, leading_system, split_system}
use kiroxy.Openai.Messages.Items.{first_ok, ok_inj}

-- Messages of the system with these texts.
abbrev pub Say : List ChatMessage → List Bytes → Type 0
Say [] [] = Unit
Say (m ∷ ms) (t ∷ ts) = (is_system m.role ≡ true) × (content_as_text m.content ≡ ok t) × Say ms ts
Say _ _ = ⊥

test_true {ℓ} :
    {A : Type ℓ} {b : Bool} (x y : A) {z : A} → b ≡ true → (if b then x else y) ≡ z → x ≡ z
test_true {b = true} x y e h = h
test_true {b = false} x y e h = absurd cc

test_false {ℓ} :
    {A : Type ℓ} {b : Bool} (x y : A) {z : A} → b ≡ false → (if b then x else y) ≡ z → y ≡ z
test_false {b = true} x y e h = absurd cc
test_false {b = false} x y e h = h

leading_system-Say :
    (ms : List ChatMessage) (r : List Bytes × List ChatMessage)
    → leading_system ms ≡ ok r
    → (lead : List ChatMessage) × (ms ≡ lead ++ r.1) × Say lead r.0
unfolding leading_system
leading_system-Say [] r h = rw (sym (ok_inj h)) ([], refl, tt)
leading_system-Say (m ∷ ms) r h = elim (Bool-cases (is_system m.role)) [
  | inl y ↦
      let (t, e, h') = first_ok (content_as_text m.content) _ (test_true _ _ y h) in
      let (q, f, g) = first_ok (leading_system ms) _ h' in
      let (lead, split, said) = leading_system-Say ms q f in
      rw (sym (ok_inj g)) (m ∷ lead, ap (◌∷◌ m) split, (y, e, said))
  | inr n ↦ let all : ([], m ∷ ms) ≡ r = ok_inj (test_false _ _ n h) in rw (sym all) ([], refl, tt)
]

-- A system prompt that is split off is the texts of the messages that stand first, with a blank line
-- between two; these are all from the system, and those behind them are none of them.
pub split_system-Say :
    (ms rest : List ChatMessage) (prompt : Bytes)
    → split_system ms ≡ ok (prompt, rest)
    → (lead : List ChatMessage) × (ts : List Bytes) × (ms ≡ lead ++ rest)
      × Say lead ts
      × (prompt ≡ join (10 ∷ 10 ∷ []) ts)
      × (has_system rest ≡ false)
unfolding split_system
split_system-Say ms rest prompt h =
    let (r, e, h') = first_ok (leading_system ms) _ h in
    let (lead, split, said) = leading_system-Say ms r e in
    elim (Bool-cases (has_system r.1)) [
      | inl y ↦ absurd (ground (arith, y))
      | inr n ↦
          let same : (join (10 ∷ 10 ∷ []) r.0, r.1) ≡ (prompt, rest) =
            ok_inj (test_false _ _ n h') in
          let tail : r.1 ≡ rest = ap (λ p. p.1) same in
          (lead, r.0, rw (sym tail) split, said, sym (ap (λ p. p.0) same), rw (sym tail) n)
    ]
