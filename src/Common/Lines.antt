-- ===== src/Common/Lines.antt =====
-- Lines of a text: `split("\n")`, and how it and `trim` take apart what was written line by line.
use Prim.Native.Char.{Char, code}
use Prim.Native.String.{String, ◌++◌}
use mathlib.Core.Path.{◌≡◌, refl, ap, ◌∙◌, sym}
use mathlib.Core.Bool.{Bool, true, false, not, ◌&&◌}
use mathlib.Core.List.{List, [], ◌∷◌}
use native.Mathlib.Omega.{arith}
use text.Mathlib.TextLemmas.{nil-append, cons-append}
use openclaw_rtc_plugin.Common.Tests.{◌==◌, if◌then◌else◌}
use openclaw_rtc_plugin.Common.Texts.{is_white, trim_start, trim_last, trim_end, trim}

abbrev is_newline : Char → Bool
is_newline c = code c == 10

abbrev onto_first : Char → List String → List String
onto_first c [] = String.◌∷◌ c String.[] ∷ []
onto_first c (l ∷ ls) = String.◌∷◌ c l ∷ ls

-- `s.split("\n")`
abbrev pub split_lines : String → List String
split_lines String.[] = String.[] ∷ []
split_lines (String.◌∷◌ c s) =
    if is_newline c then String.[] ∷ split_lines s else onto_first c (split_lines s)

abbrev pub one_line : String → Bool
one_line String.[] = true
one_line (String.◌∷◌ c s) = not (is_newline c) && one_line s

abbrev newline_char : Char
newline_char = "\n"

abbrev pub newline : String
newline = String.◌∷◌ newline_char String.[]

-- `trim` takes the last newline away.
trim_end-newline : (s : String) → trim_end (s ++ newline) ≡ trim_end s
unfolding trim_end
trim_end-newline String.[] = ap trim_end (nil-append newline)
trim_end-newline (String.◌∷◌ c s) =
    ap trim_end (cons-append c s newline) ∙ ap (trim_last c) (trim_end-newline s)

trim_last-solid :
    (c d : Char) (s : String)
    → trim_last c (s ++ String.◌∷◌ d String.[]) ≡ String.◌∷◌ c (s ++ String.◌∷◌ d String.[])
trim_last-solid c d String.[] =
    ap (trim_last c) (nil-append _) ∙ sym (ap (String.◌∷◌ c) (nil-append _))
trim_last-solid c d (String.◌∷◌ e s) =
    ap (trim_last c) (cons-append e s _) ∙ sym (ap (String.◌∷◌ c) (cons-append e s _))

solid_last : (d : Char) → is_white (code d) ≡ false → trim_last d String.[] ≡ String.◌∷◌ d String.[]
solid_last d h = rw h refl

-- A text that ends in a character that is not white keeps its end.
trim_end-solid :
    (d : Char) (s : String)
    → is_white (code d) ≡ false
    → trim_end (s ++ String.◌∷◌ d String.[]) ≡ s ++ String.◌∷◌ d String.[]
unfolding trim_end
trim_end-solid d String.[] h =
    ap trim_end (nil-append (String.◌∷◌ d String.[])) ∙ solid_last d h ∙ sym (nil-append _)
trim_end-solid d (String.◌∷◌ c s) h =
    ap trim_end (cons-append c s _)
    ∙ ap (trim_last c) (trim_end-solid d s h)
    ∙ trim_last-solid c d s
    ∙ sym (cons-append c s _)

trim_start-solid :
    (c : Char) (s : String)
    → is_white (code c) ≡ false
    → trim_start (String.◌∷◌ c s) ≡ String.◌∷◌ c s
unfolding trim_start
trim_start-solid c s h = rw h refl

-- A text between two characters that are not white, with a newline behind it.
pub trim-solid :
    (c d : Char) (s : String)
    → is_white (code c) ≡ false
    → is_white (code d) ≡ false
    → trim (String.◌∷◌ c (s ++ String.◌∷◌ d String.[]) ++ newline)
      ≡ String.◌∷◌ c (s ++ String.◌∷◌ d String.[])
unfolding trim
trim-solid c d s h k =
    let whole = String.◌∷◌ c (s ++ String.◌∷◌ d String.[]) in
    ap (λ t. trim_end (trim_start t)) (cons-append c _ newline)
    ∙ ap trim_end (trim_start-solid c (_ ++ newline) h ∙ sym (cons-append c _ newline))
    ∙ trim_end-newline whole
    ∙ ap trim_end (sym (cons-append c s _))
    ∙ trim_end-solid d (String.◌∷◌ c s) k
    ∙ cons-append c s _

split_lines-cons :
    (c : Char) (s : String) (ls : List String)
    → is_newline c ≡ false
    → split_lines s ≡ ls
    → split_lines (String.◌∷◌ c s) ≡ onto_first c ls
split_lines-cons c s ls h e = rw (h, e) refl

one_line-cons :
    (c : Char) (s : String)
    → one_line (String.◌∷◌ c s) ≡ true
    → (is_newline c ≡ false) × (one_line s ≡ true)
one_line-cons c s h = both (is_newline c) (one_line s) h
  where
    both : (a b : Bool) → (not a && b) ≡ true → (a ≡ false) × (b ≡ true)
    both a b e = ground arith

-- A line is split off.
pub split_lines-line :
    (l rest : String)
    → one_line l ≡ true
    → split_lines (l ++ (newline ++ rest)) ≡ l ∷ split_lines rest
split_lines-line String.[] rest h =
    ap split_lines (nil-append (newline ++ rest) ∙ cons-append newline_char String.[] rest)
    ∙ ap (λ t. String.[] ∷ split_lines t) (nil-append rest)
split_lines-line (String.◌∷◌ c l) rest h =
    let (c_inside, l_inside) = one_line-cons c l h in
    ap split_lines (cons-append c l (newline ++ rest))
    ∙ split_lines-cons c (l ++ (newline ++ rest)) (l ∷ split_lines rest) c_inside
        (split_lines-line l rest l_inside)

pub split_lines-last : (l : String) → one_line l ≡ true → split_lines l ≡ l ∷ []
split_lines-last String.[] h = refl
split_lines-last (String.◌∷◌ c l) h =
    let (c_inside, l_inside) = one_line-cons c l h in
    split_lines-cons c l (l ∷ []) c_inside (split_lines-last l l_inside)
