-- ===== src/Std/Search.antt =====
-- std::string::find of a character, from the start or from a position on.
use mathlib.Core.Option
use mathlib.Core.Path.{◌≡⟨◌⟩◌, ◌∎}
use apk.Base.{
  ℕ, suc, ◌+◌, ◌-◌, ◌≡◌, ◌≢◌, refl, ap, ◌∙◌, Bool, true, false, ◌&&◌, Option, none, some, [], ◌∷◌,
  ◌++◌, arith, ◌==◌, if◌then◌else◌, length, take, drop, All, drop-append, sym, Bool-cases,
  Option-cases, inl, inr, take-append-drop, take-add, drop-add, append_assoc,
}
use apk.Base.Text.{Str}

-- `none` is npos.
unfoldable pub find_char : ℕ → Str → Option ℕ
find_char x [] = none
find_char x (c ∷ s) = if c == x then some 0 else Option.map suc (find_char x s)

unfoldable pub find_from : ℕ → ℕ → Str → Option ℕ
find_from x start s = Option.map (λ i. start + i) (find_char x (drop start s))

-- Whether the text starts with the prefix.
unfoldable pub starts_with : Str → Str → Bool
starts_with [] s = true
starts_with (d ∷ prefix) [] = false
starts_with (d ∷ prefix) (c ∷ s) = c == d && starts_with prefix s

-- find of a text that is not empty.
unfoldable pub find_text : Str → Str → Option ℕ
find_text needle [] = none
find_text needle (c ∷ s) =
    let later = Option.map suc (find_text needle s) in
    if starts_with needle (c ∷ s) then some 0 else later

-- rfind: the last place of a character.
unfoldable pub rfind_char : ℕ → Str → Option ℕ
rfind_char x [] = none
rfind_char x (c ∷ s) = elim (rfind_char x s) [
  | none ↦ if c == x then some 0 else none
  | some i ↦ some (suc i)
]

starts_with-append : (d s t : Str) → starts_with d s ≡ true → starts_with d (s ++ t) ≡ true
unfolding starts_with
starts_with-append [] s t h = refl
starts_with-append (x ∷ d) [] t h = absurd (cc)
starts_with-append (x ∷ d) (c ∷ s) t h = ground (arith, starts_with-append d s t)

-- What is found in the last part of a text is found in the text.
pub find_text-append : (d s t : Str) → find_text d t ≢ none → find_text d (s ++ t) ≢ none
unfolding find_text
find_text-append d [] t h = h
find_text-append d (c ∷ s) t h = ground (arith, find_text-append d s t)

abbrev pub Lacks : ℕ → Str → Type 0
Lacks x s = All (λ c. c ≢ x) s

rfind_char-Lacks : (x : ℕ) (s : Str) → Lacks x s → rfind_char x s ≡ none
unfolding rfind_char
rfind_char-Lacks x [] h = refl
rfind_char-Lacks x (c ∷ s) h = ground (arith, h.0, rfind_char-Lacks x s h.1)

-- The last place is that before a part which lacks the character.
pub rfind_char-append :
    (x : ℕ) (s rest : Str) → Lacks x rest → rfind_char x (s ++ (x ∷ rest)) ≡ some (length s)
unfolding rfind_char
rfind_char-append x [] rest h = ground (arith, rfind_char-Lacks x rest h)
rfind_char-append x (c ∷ s) rest h = ground (arith, rfind_char-append x s rest h)

pub find_char-Lacks : (x : ℕ) (s : Str) → Lacks x s → find_char x s ≡ none
unfolding find_char
find_char-Lacks x [] h = refl
find_char-Lacks x (c ∷ s) h = ground (arith, h.0, find_char-Lacks x s h.1)

pub find_char-append :
    (x : ℕ) (s rest : Str) → Lacks x s → find_char x (s ++ (x ∷ rest)) ≡ some (length s)
unfolding find_char
find_char-append x [] rest h = ground arith
find_char-append x (c ∷ s) rest h = ground (arith, h.0, find_char-append x s rest h.1)

-- A position that was found splits the text.
pub find_char-split :
    (x : ℕ) (s : Str) (i : ℕ) → find_char x s ≡ some i → s ≡ take i s ++ (x ∷ drop (suc i) s)
unfolding find_char
find_char-split x [] i h = cc
find_char-split x (c ∷ s) i h = elim (Bool-cases (c == x)) [
  | inl hit ↦
      let first : i ≡ 0 = ground arith in let same : c ≡ x = ground arith in rw (first, same)
  | inr miss ↦ elim (Option-cases (find_char x s)) [
    | inl e ↦ absurd (ground arith)
    | inr (j, e) ↦
        let later : i ≡ suc j = ground arith in rw later (ap (◌∷◌ c) (find_char-split x s j e))
  ]
]

pub find_from-append :
    (x start : ℕ) (before s rest : Str)
    → length before ≡ start
    → Lacks x s
    → find_from x start (before ++ (s ++ (x ∷ rest))) ≡ some (start + length s)
unfolding find_from
find_from-append x start before s rest size h =
    rw (drop-append start before (s ++ (x ∷ rest)) size, find_char-append x s rest h)

pub find_from-split :
    (x start : ℕ) (s : Str) (k : ℕ)
    → find_from x start s ≡ some k
    → s ≡ take k s ++ (x ∷ drop (k + 1) s)
unfolding find_from
find_from-split x start s k h = elim (Option-cases (find_char x (drop start s))) [
  | inl e ↦ absurd (ground arith)
  | inr (i, e) ↦
      let place : k ≡ start + i = ground arith in
      let after : drop (suc i) (drop start s) ≡ drop (start + i + 1) s =
        drop-add start (suc i) s ∙ ap (λ n. drop n s) (omega arith) in
      rw place (
        s
        ≡⟨ sym (take-append-drop start s) ⟩ take start s ++ drop start s
        ≡⟨ ap (◌++◌ (take start s)) (find_char-split x (drop start s) i e) ⟩
          take start s ++ (take i (drop start s) ++ (x ∷ drop (suc i) (drop start s)))
        ≡⟨ sym (append_assoc (take start s) (take i (drop start s)) _) ⟩
          (take start s ++ take i (drop start s)) ++ (x ∷ drop (suc i) (drop start s))
        ≡⟨ (rw (take-add start i s, after)) ⟩ take (start + i) s ++ (x ∷ drop (start + i + 1) s) ∎)
]

find_char-drop : (x : ℕ) (s : Str) (i : ℕ) → find_char x s ≡ some i → drop i s ≡ x ∷ drop (suc i) s
unfolding find_char
find_char-drop x [] i h = cc
find_char-drop x (c ∷ s) i h = elim (Bool-cases (c == x)) [
  | inl hit ↦
      let first : i ≡ 0 = ground arith in let same : c ≡ x = ground arith in rw (first, same)
  | inr miss ↦ elim (Option-cases (find_char x s)) [
    | inl e ↦ absurd (ground arith)
    | inr (j, e) ↦ let later : i ≡ suc j = ground arith in rw later (find_char-drop x s j e)
  ]
]

-- What lies before the second of two positions: the part before the first, and the part between.
pub find_from-between :
    (x : ℕ) (s : Str) (i k : ℕ)
    → find_char x s ≡ some i
    → find_from x (i + 1) s ≡ some k
    → take k s ≡ take i s ++ (x ∷ take (k - i - 1) (drop (i + 1) s))
unfolding find_from
find_from-between x s i k h f = elim (Option-cases (find_char x (drop (i + 1) s))) [
  | inl e ↦ absurd (ground arith)
  | inr (j, e) ↦
      let place : k ≡ i + suc j = ground arith in
      let gap : i + suc j - i - 1 ≡ j = omega arith in
      let next : suc i ≡ i + 1 = omega arith in
      let drop_next : drop i s ≡ x ∷ drop (i + 1) s =
        find_char-drop x s i h ∙ ap (λ n. x ∷ drop n s) next in
      rw (place, gap)
        (sym (take-add i (suc j) s) ∙ ap (λ r. take i s ++ take (suc j) r) (drop_next))
]
