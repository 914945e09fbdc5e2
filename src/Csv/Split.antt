-- ===== src/Csv/Split.antt =====
-- `splitCSV`, beside the rows that it takes apart.
use Prim.Native.Char.{Char, code}
use Prim.Native.String.{String, ◌++◌ as append}
use text.Mathlib.TextLemmas.{append-nil, append_assoc, nil-append, cons-append}
use lobsimulater.Base.{◌≡◌, refl, ◌∙◌, ap, List, [], ◌∷◌, Bool, true, false, not, ◌==◌, ◌&&◌, All}
use lobsimulater.Csv.{split_from, split_csv}

abbrev quote_mark : Char
quote_mark = "\""

abbrev comma : Char
comma = ","

-- A row as it is usually written: each column in quotation marks, with commas between them.
abbrev pub quoted : String → String → String
quoted f rest = String.◌∷◌ quote_mark (append f (String.◌∷◌ quote_mark rest))

unfoldable pub row : String → List String → String
row f [] = quoted f ""
row f (g ∷ gs) = quoted f (String.◌∷◌ comma (row g gs))

-- A column without quotation marks.
abbrev pub IsPlain : String → Type 0
IsPlain String.[] = Unit
IsPlain (String.◌∷◌ c s) = ((code c == 34) ≡ false) × IsPlain s

never_cut : (b : Bool) → (b && not true) ≡ false
never_cut true = refl
never_cut false = refl

-- Inside quotation marks every other character is kept, commas included.
split_from-append :
    (f cur rest : String)
    → IsPlain f
    → split_from true cur (append f (String.◌∷◌ quote_mark rest))
      ≡ split_from false (append cur f) rest
unfolding split_from
split_from-append String.[] cur rest p =
    rw (nil-append (String.◌∷◌ quote_mark rest), append-nil cur)
split_from-append (String.◌∷◌ c f) cur rest (plain, p) =
    rw (cons-append c f (String.◌∷◌ quote_mark rest), plain, never_cut (code c == 44))
      (split_from-append f (append cur (String.◌∷◌ c String.[])) rest p
        ∙ ap (λ x. split_from false x rest)
            (append_assoc cur (String.◌∷◌ c String.[]) f
              ∙ ap (append cur) (cons-append c String.[] f ∙ ap (String.◌∷◌ c) (nil-append f))))

split_csv-quoted :
    (f rest : String) → IsPlain f → split_from false "" (quoted f rest) ≡ split_from false f rest
unfolding split_from
split_csv-quoted f rest p =
    split_from-append f "" rest p ∙ ap (λ x. split_from false x rest) (nil-append f)

-- Splitting a row of columns without quotation marks, each written in quotation marks, gives back the
-- columns, whatever commas stand in them.
pub split_csv-row :
    (f : String) (gs : List String) → IsPlain f → All IsPlain gs → split_csv (row f gs) ≡ f ∷ gs
unfolding split_csv row split_from
split_csv-row f [] p ps = split_csv-quoted f "" p
split_csv-row f (g ∷ gs) p (q, qs) =
    split_csv-quoted f (String.◌∷◌ comma (row g gs)) p ∙ ap (λ x. f ∷ x) (split_csv-row g gs q qs)
