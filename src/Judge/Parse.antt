-- ===== src/Judge/Parse.antt =====
-- How evaluator/judge.py finds an object inside a text.
use Prim.Native.Char.{Char, char, code}
use Prim.Native.String.{◌++◌}
use text.Mathlib.TextLemmas.{cons-append, nil-append, append_assoc}
use llm_evaluation_pipeline.Prelude.{
  ℕ, ◌≡◌, refl, sym, ap, ◌∙◌, String, Bool, true, false, Option, none, some, ◌||◌, if◌then◌else◌,
  ◌==◌, number_comparable, false≢true,
}
use llm_evaluation_pipeline.App.{Result, ok, raised, json_error}
use llm_evaluation_pipeline.Text.{from_char, up_to_last, after}
use llm_evaluation_pipeline.Judge.{
  Reply, null, parse_response, parse_block, parse_braced, braced, cut, unless_decoded, is_some,
  content_or_empty,
}

-- `chr(n) in s`
unfoldable pub has_char : ℕ → String → Bool
has_char n String.[] = false
has_char n (String.◌∷◌ c s) = code c == n || has_char n s

-- the two halves of a test that fails
neither : (a b : Bool) → (a || b) ≡ false → (a ≡ false) × (b ≡ false)
neither false b h = (refl, h)
neither true b h = elim (false≢true (sym h)) [ ]

from_char-append :
    (n : ℕ) (a : String) (c : Char) (s : String)
    → (code c == n) ≡ true
    → has_char n a ≡ false
    → from_char n (a ++ String.◌∷◌ c s) ≡ some (String.◌∷◌ c s)
unfolding from_char has_char
from_char-append n String.[] c s e h = ap (from_char n) (nil-append _) ∙ rw e refl
from_char-append n (String.◌∷◌ d a) c s e h =
    let (k, l) = neither (code d == n) (has_char n a) h in
    ap (from_char n) (cons-append d a _) ∙ rw k (from_char-append n a c s e l)

up_to_last-none : (n : ℕ) (s : String) → has_char n s ≡ false → up_to_last n s ≡ none
unfolding up_to_last has_char
up_to_last-none n String.[] h = refl
up_to_last-none n (String.◌∷◌ c s) h =
    let (k, l) = neither (code c == n) (has_char n s) h in rw (up_to_last-none n s l, k) refl

up_to_last-here :
    (n : ℕ) (c : Char) (s : String)
    → (code c == n) ≡ true
    → has_char n s ≡ false
    → up_to_last n (String.◌∷◌ c s) ≡ some (String.◌∷◌ c "")
unfolding up_to_last
up_to_last-here n c s e h = rw (up_to_last-none n s h, e) refl

up_to_last_cons :
    (n : ℕ) (d : Char) (s t : String)
    → up_to_last n s ≡ some t
    → up_to_last n (String.◌∷◌ d s) ≡ some (String.◌∷◌ d t)
unfolding up_to_last
up_to_last_cons n d s t i = rw i refl

up_to_last-append :
    (n : ℕ) (a : String) (c : Char) (s : String)
    → (code c == n) ≡ true
    → has_char n s ≡ false
    → up_to_last n (a ++ String.◌∷◌ c s) ≡ some (a ++ String.◌∷◌ c "")
unfolding up_to_last
up_to_last-append n String.[] c s e h =
    ap (up_to_last n) (nil-append (String.◌∷◌ c s))
    ∙ (up_to_last-here n c s e h ∙ ap some (sym (nil-append _)))
up_to_last-append n (String.◌∷◌ d a) c s e h =
    ap (up_to_last n) (cons-append d a _)
    ∙ (up_to_last_cons n d (a ++ String.◌∷◌ c s) (a ++ String.◌∷◌ c "")
          (up_to_last-append n a c s e h)
        ∙ ap some (sym (cons-append d a _)))

-- a "{", `b`, a "}"
abbrev pub object_text : String → String
object_text b = String.◌∷◌ (char 123 tt) (b ++ "}")

-- what stands around an object
abbrev pub embed : String → String → String → String
embed a b c = a ++ String.◌∷◌ (char 123 tt) (b ++ String.◌∷◌ (char 125 tt) c)

embed-braced :
    (a b c : String)
    → has_char 123 a ≡ false
    → has_char 125 c ≡ false
    → braced (embed a b c) ≡ some (object_text b)
unfolding braced cut
embed-braced a b c h k =
    ap (cut (embed a b c))
      (from_char-append 123 a (char 123 tt) (b ++ String.◌∷◌ (char 125 tt) c) refl h)
    ∙ go (up_to_last 125 (embed a b c)) last
        (up_to_last 125 (String.◌∷◌ (char 123 tt) (b ++ String.◌∷◌ (char 125 tt) c))) last_of_rest
  where
    whole : embed a b c ≡ (a ++ String.◌∷◌ (char 123 tt) b) ++ String.◌∷◌ (char 125 tt) c
    whole =
        ap (λ t. a ++ t) (sym (cons-append (char 123 tt) b _))
        ∙ sym (append_assoc a (String.◌∷◌ (char 123 tt) b) _)

    last : up_to_last 125 (embed a b c) ≡ some ((a ++ String.◌∷◌ (char 123 tt) b) ++ "}")
    last = ap (up_to_last 125) whole ∙ up_to_last-append 125 _ (char 125 tt) c refl k

    last_of_rest :
        up_to_last 125 (String.◌∷◌ (char 123 tt) (b ++ String.◌∷◌ (char 125 tt) c))
        ≡ some (object_text b)
    last_of_rest =
        ap (up_to_last 125) (sym (cons-append (char 123 tt) b _))
        ∙ up_to_last-append 125 (String.◌∷◌ (char 123 tt) b) (char 125 tt) c refl k
        ∙ ap some (cons-append (char 123 tt) b _)

    go :
        (o : Option String)
        → o ≡ some ((a ++ String.◌∷◌ (char 123 tt) b) ++ "}")
        → (r : Option String) → r ≡ some (object_text b)
        → (if is_some o then some (content_or_empty r) else none) ≡ some (object_text b)
    go o e r d = rw (e, d) refl

module _ {F : Type 0} (loads : String → Result (Reply F)) where
  -- An object that stands inside other text is what the judge's reply is parsed from: of a text whose
  -- first "{" and last "}" enclose `b`, which is not JSON as a whole and has no "```json" block,
  -- `json.loads` decides on the text from that "{" to that "}"; if that is no JSON there is no reply.
  pub parse_response-embed :
      (a b c : String)
      → has_char 123 a ≡ false
      → has_char 125 c ≡ false
      → loads (embed a b c) ≡ raised json_error
      → after 7 "```json" (embed a b c) ≡ none
      → parse_response loads (embed a b c) ≡ unless_decoded (loads (object_text b)) (ok null)
  unfolding parse_response parse_block parse_braced
  parse_response-embed a b c h k whole no_block = rw (whole, no_block, embed-braced a b c h k) refl
