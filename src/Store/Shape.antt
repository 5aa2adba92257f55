-- ===== src/Store/Shape.antt =====
-- The shape of the file of plugin/src/store.ts: lines, each a text in braces, with a newline behind
-- each.
use Prim.Native.Char.{Char}
use Prim.Native.String.{◌++◌}
use text.Mathlib.TextLemmas.{cons-append, append_assoc}
use openclaw_rtc_plugin.Common.{
  String, true, false, ◌≡◌, refl, ap, ◌∙◌, sym, List, [], ◌∷◌, All, ◌++◌ as append,
}
use openclaw_rtc_plugin.Common.Texts.{is_empty, trim}
use openclaw_rtc_plugin.Common.Lines.{
  newline, one_line, split_lines, split_lines-line, split_lines-last, trim-solid,
}

abbrev open_brace : Char
open_brace = "{"

abbrev close_brace : Char
close_brace = "}"

-- A text in braces.
abbrev pub braced : String → String
braced s = String.◌∷◌ open_brace (s ++ String.◌∷◌ close_brace String.[])

-- Lines with a newline between each two.
abbrev pub separated : String → List String → String
separated l [] = l
separated l (m ∷ ms) = l ++ (newline ++ separated m ms)

pub split-separated :
    (l : String) (ms : List String)
    → one_line l ≡ true
    → All (λ m. one_line m ≡ true) ms
    → split_lines (separated l ms) ≡ l ∷ ms
split-separated l [] h hs = split_lines-last l h
split-separated l (m ∷ ms) h hs =
    split_lines-line l (separated m ms) h ∙ ap (λ xs. l ∷ xs) (split-separated m ms hs.0 hs.1)

pub separated-snoc :
    (l m : String) (ms : List String)
    → separated l (append ms (m ∷ [])) ≡ separated l ms ++ (newline ++ m)
separated-snoc l m [] = refl
separated-snoc l m (k ∷ ms) =
    ap (λ t. l ++ (newline ++ t)) (separated-snoc k m ms)
    ∙ ap (λ t. l ++ t) (sym (append_assoc newline (separated k ms) (newline ++ m)))
    ∙ sym (append_assoc l (newline ++ separated k ms) (newline ++ m))

abbrev closing : String
closing = String.◌∷◌ close_brace String.[]

-- Braced texts are braced together.
braced-append :
    (s t : String)
    → braced s ++ (newline ++ braced t)
      ≡ braced ((s ++ closing) ++ (newline ++ String.◌∷◌ open_brace t))
braced-append s t =
    cons-append open_brace (s ++ closing) (newline ++ braced t)
    ∙ ap (λ u. String.◌∷◌ open_brace ((s ++ closing) ++ (newline ++ u)))
        (sym (cons-append open_brace t closing))
    ∙ ap (λ u. String.◌∷◌ open_brace ((s ++ closing) ++ u))
        (sym (append_assoc newline (String.◌∷◌ open_brace t) closing))
    ∙ ap (String.◌∷◌ open_brace)
        (sym (append_assoc (s ++ closing) (newline ++ String.◌∷◌ open_brace t) closing))

abbrev pub IsBraced : String → Type 0
IsBraced l = (s : String) × (l ≡ braced s)

pub separated-IsBraced :
    (l : String) (ms : List String) → IsBraced l → All IsBraced ms → IsBraced (separated l ms)
separated-IsBraced l [] b bs = b
separated-IsBraced l (m ∷ ms) (s, e) bs =
    let (t, f) = separated-IsBraced m ms bs.0 bs.1 in
    (
      (s ++ closing) ++ (newline ++ String.◌∷◌ open_brace t),
      ap (λ u. u ++ (newline ++ separated m ms)) e
          ∙ ap (λ u. braced s ++ (newline ++ u)) f
          ∙ braced-append s t,
    )

pub trim-IsBraced : (l : String) → IsBraced l → trim (l ++ newline) ≡ l
trim-IsBraced l (s, e) =
    ap (λ u. trim (u ++ newline)) e ∙ trim-solid open_brace close_brace s refl refl ∙ sym e

pub not_empty : (l : String) → IsBraced l → is_empty l ≡ false
not_empty l (s, e) = ap is_empty e
