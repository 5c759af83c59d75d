-- ===== src/Text/Sentences.antt =====
-- What the sentences of a text hold of it.
use Prim.Native.Char.{Char, char, code}
use Prim.Native.String.{String, ◌++◌}
use text.Mathlib.TextLemmas.{cons-append, nil-append}
use llm_evaluation_pipeline.Prelude.{
  ◌≡◌, refl, sym, ap, ◌∙◌, Bool, true, false, false≢true, Bool-cases, inl, inr, List, [], ◌∷◌, ◌&&◌,
  ◌||◌, if◌then◌else◌, ◌==◌, number_comparable, All, arith,
}
use llm_evaluation_pipeline.App.Rows.{both}
use llm_evaluation_pipeline.Text.{
  is_text, is_space, replace_newlines, strip_left, keep, strip_right, strip, push, split_stops,
  stripped, split_sentences,
}

-- a character before others, unless it is white space or a full stop
unfoldable pub before_solid : Char → List Char → List Char
before_solid c rest = if is_space c || code c == 46 then rest else c ∷ rest

-- the characters of a text but for white space and full stops, before others
unfoldable pub solid : String → List Char → List Char
solid String.[] more = more
solid (String.◌∷◌ c s) more = before_solid c (solid s more)

-- those of several texts, one after the other
unfoldable pub solids : List String → List Char
solids [] = []
solids (p ∷ ps) = solid p (solids ps)

before_solid-space : (c : Char) (rest : List Char) → is_space c ≡ true → before_solid c rest ≡ rest
unfolding before_solid
before_solid-space c rest h = rw h refl

before_solid-stop :
    (c : Char) (rest : List Char) → (code c == 46) ≡ true → before_solid c rest ≡ rest
unfolding before_solid
before_solid-stop c rest h = ground (arith, h)

newline_is_space : (c : Char) → (code c == 10) ≡ true → is_space c ≡ true
unfolding is_space
newline_is_space c h = rw (number_comparable.same_sound (code c) 10 h) refl

blank_is_space : (c : Char) → (code c == 32) ≡ true → is_space c ≡ true
unfolding is_space
blank_is_space c h = rw (number_comparable.same_sound (code c) 32 h) refl

blank : Char
blank = char 32 tt

solid-blank : (s : String) (more : List Char) → solid (" " ++ s) more ≡ solid s more
unfolding solid blank
solid-blank s more =
    ap (λ t. solid t more) (cons-append blank "" s ∙ ap (λ t. String.◌∷◌ blank t) (nil-append s))
    ∙ before_solid-space blank (solid s more) (blank_is_space blank refl)

solid-replace_newlines :
    (s : String) (more : List Char) → solid (replace_newlines s) more ≡ solid s more
unfolding replace_newlines solid
solid-replace_newlines String.[] more = refl
solid-replace_newlines (String.◌∷◌ c s) more =
    let rest = solid-replace_newlines s more in
    elim (Bool-cases (code c == 10)) [
      | inl h ↦ rw h (
          solid-blank (replace_newlines s) more
          ∙ (rest ∙ sym (before_solid-space c (solid s more) (newline_is_space c h))))
      | inr h ↦ rw h (ap (before_solid c) rest)
    ]

solid-strip_left : (s : String) (more : List Char) → solid (strip_left s) more ≡ solid s more
unfolding strip_left solid
solid-strip_left String.[] more = refl
solid-strip_left (String.◌∷◌ c s) more =
    let rest = solid-strip_left s more in
    elim (Bool-cases (is_space c)) [
      | inl h ↦ rw h (rest ∙ sym (before_solid-space c (solid s more) h))
      | inr h ↦ rw h refl
    ]

solid-keep :
    (c : Char) (s : String) (more : List Char)
    → solid (keep c s) more ≡ before_solid c (solid s more)
unfolding keep solid
solid-keep c String.[] more = elim (Bool-cases (is_space c)) [
  | inl h ↦ rw h (sym (before_solid-space c more h))
  | inr h ↦ rw h refl
]
solid-keep c (String.◌∷◌ d s) more = refl

solid-strip_right : (s : String) (more : List Char) → solid (strip_right s) more ≡ solid s more
unfolding strip_right solid
solid-strip_right String.[] more = refl
solid-strip_right (String.◌∷◌ c s) more =
    solid-keep c (strip_right s) more ∙ ap (before_solid c) (solid-strip_right s more)

solid-strip : (s : String) (more : List Char) → solid (strip s) more ≡ solid s more
unfolding strip
solid-strip s more = solid-strip_right (strip_left s) more ∙ solid-strip_left s more

solids-push : (c : Char) (ps : List String) → solids (push c ps) ≡ before_solid c (solids ps)
unfolding push solids solid
solids-push c [] = refl
solids-push c (p ∷ ps) = refl

solids-split_stops : (s : String) → solids (split_stops s) ≡ solid s []
unfolding split_stops solids solid
solids-split_stops String.[] = refl
solids-split_stops (String.◌∷◌ c String.[]) = refl
solids-split_stops (String.◌∷◌ c (String.◌∷◌ d s)) =
    go (code c == 46 && code d == 32) refl (solids-split_stops s)
      (solids-split_stops (String.◌∷◌ d s))
  where
    go :
        (b : Bool)
        → (code c == 46 && code d == 32) ≡ b
        → solids (split_stops s) ≡ solid s []
        → solids (split_stops (String.◌∷◌ d s)) ≡ before_solid d (solid s [])
        → solids (elim b as (λ _. List String) [
          | true ↦ "" ∷ split_stops s
          | false ↦ push c (split_stops (String.◌∷◌ d s))
        ])
          ≡ before_solid c (before_solid d (solid s []))
    go true e h k =
        let (dot, space) = both (code c == 46) (code d == 32) e in
        h
        ∙ (sym (before_solid-space d (solid s []) (blank_is_space d space))
            ∙ sym (before_solid-stop c (before_solid d (solid s [])) dot))
    go false e h k = solids-push c (split_stops (String.◌∷◌ d s)) ∙ ap (before_solid c) k

solid-no_text : (t : String) (more : List Char) → is_text t ≡ false → solid t more ≡ more
unfolding solid
solid-no_text String.[] more h = refl
solid-no_text (String.◌∷◌ c t) more h = elim (false≢true (sym h)) [ ]

solids-stripped : (ps : List String) → solids (stripped ps) ≡ solids ps
unfolding stripped solids
solids-stripped [] = refl
solids-stripped (p ∷ ps) =
    let rest = solid-strip p (solids (stripped ps)) ∙ ap (solid p) (solids-stripped ps) in
    elim (Bool-cases (is_text (strip p))) [
      | inl h ↦ rw h rest
      | inr h ↦ rw h (sym (solid-no_text (strip p) (solids (stripped ps)) h) ∙ rest)
    ]

stripped_text : (ps : List String) → All (λ p. is_text p ≡ true) (stripped ps)
unfolding stripped
stripped_text [] = tt
stripped_text (p ∷ ps) = elim (Bool-cases (is_text (strip p))) [
  | inl h ↦ rw h (h, stripped_text ps)
  | inr h ↦ rw h (stripped_text ps)
]

-- The sentences that an answer is split into hold all of it, in order: every character of the text that
-- is neither white space nor a full stop is in exactly one of them, at its place, and nothing else is
-- but white space and full stops. No sentence is empty.
pub split_sentences-solid :
    (text : String)
    → (solids (split_sentences text) ≡ solid text [])
      × All (λ p. is_text p ≡ true) (split_sentences text)
unfolding split_sentences
split_sentences-solid text = (
  solids-stripped (split_stops (replace_newlines text))
      ∙ (solids-split_stops (replace_newlines text) ∙ solid-replace_newlines text []),
  stripped_text (split_stops (replace_newlines text)),
)
