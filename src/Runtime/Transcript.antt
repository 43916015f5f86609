-- ===== src/Runtime/Transcript.antt =====
-- What is read from the buffer are the lines that were wrapped into it.
use wootty.Base.{
  ℕ, suc, ◌≡◌, refl, sym, ap, ◌∙◌, true, false, List, [], ◌∷◌, ◌++◌, map, reverse, Option, some,
  Text, join,
}
use mathlib.Core.List.{reverse_aux, reverse_aux-eq, reverse-cons, reverse-append, reverse-reverse}
use wootty.Runtime.{Row, read_rows, drop_empty, read_transcript}

-- A line of the terminal: the row that it begins with and the rows that it is wrapped into.
abbrev pub Line : Type 0
Line = Text × List Text

abbrev pub line_text : Line → Text
line_text (first, []) = first
line_text (first, t ∷ ts) = line_text (first ++ t, ts)

abbrev wrapped_rows : List Text → List (Option Row) → List (Option Row)
wrapped_rows [] rest = rest
wrapped_rows (t ∷ ts) rest = some (record { text = t; is_wrapped = true }) ∷ wrapped_rows ts rest

abbrev pub screen_rows : List Line → List (Option Row)
screen_rows [] = []
screen_rows ((first, ts) ∷ lines) =
    some (record { text = first; is_wrapped = false }) ∷ wrapped_rows ts (screen_rows lines)

-- Without the empty lines at the end.
abbrev keep_line : Text → List Text → List Text
keep_line [] [] = []
keep_line t rest = t ∷ rest

abbrev pub without_empty_end : List Text → List Text
without_empty_end [] = []
without_empty_end (t ∷ ts) = keep_line t (without_empty_end ts)

-- The lines of the screen, of which the first one stays even if all are empty.
abbrev pub expected_lines : List Line → List Text
expected_lines [] = []
expected_lines (line ∷ lines) = line_text line ∷ without_empty_end (map line_text lines)

abbrev together : Text × List Text → List Text
together (current, lines) = current ∷ lines

read_wrapped :
    (ts : List Text) (index : ℕ) (rest : List (Option Row)) (current : Text) (lines : List Text)
    → (i : ℕ) × (read_rows (suc index) (wrapped_rows ts rest) (current, lines)
        ≡ read_rows (suc i) rest (line_text (current, ts), lines))
read_wrapped [] index rest current lines = (index, refl)
read_wrapped (t ∷ ts) index rest current lines =
    read_wrapped ts (suc index) rest (current ++ t) lines

read_screen :
    (screen : List Line) (index : ℕ) (current : Text) (lines : List Text)
    → together (read_rows (suc index) (screen_rows screen) (current, lines))
      ≡ reverse_aux (map line_text screen) (current ∷ lines)
read_screen [] index current lines = refl
read_screen ((first, ts) ∷ screen) index current lines =
    let (i, e) = read_wrapped ts (suc index) (screen_rows screen) first (current ∷ lines) in
    ap together e ∙ read_screen screen i (line_text (first, ts)) (current ∷ lines)

empty_end : (ts : List Text) → without_empty_end (ts ++ [] ∷ []) ≡ without_empty_end ts
empty_end [] = refl
empty_end (t ∷ ts) = ap (keep_line t) (empty_end ts)

keep_before :
    (t : Text) (ts : List Text) (c : ℕ) (u : Text)
    → keep_line t (ts ++ (c ∷ u) ∷ []) ≡ t ∷ ts ++ (c ∷ u) ∷ []
keep_before [] [] c u = refl
keep_before [] (t ∷ ts) c u = refl
keep_before (d ∷ t) ts c u = refl

full_end :
    (ts : List Text) (c : ℕ) (u : Text)
    → without_empty_end (ts ++ (c ∷ u) ∷ []) ≡ ts ++ (c ∷ u) ∷ []
full_end [] c u = refl
full_end (t ∷ ts) c u = ap (keep_line t) (full_end ts c u) ∙ keep_before t ts c u

drop_one : (x : Text) (ys : List Text) → drop_empty ([] ∷ ys ++ x ∷ []) ≡ drop_empty (ys ++ x ∷ [])
drop_one x [] = refl
drop_one x (y ∷ ys) = refl

drop_none :
    (x : Text) (c : ℕ) (y : Text) (ys : List Text)
    → drop_empty ((c ∷ y) ∷ ys ++ x ∷ []) ≡ (c ∷ y) ∷ ys ++ x ∷ []
drop_none x c y [] = refl
drop_none x c y (z ∷ ys) = refl

reverse-end : (x : Text) (ys : List Text) → reverse (ys ++ x ∷ []) ≡ x ∷ reverse ys
reverse-end x ys = reverse-append ys (x ∷ [])

dropped :
    (x : Text) (ys : List Text)
    → reverse (drop_empty (ys ++ x ∷ [])) ≡ x ∷ without_empty_end (reverse ys)
dropped x [] = refl
dropped x ([] ∷ ys) =
    ap reverse (drop_one x ys)
    ∙ dropped x ys
    ∙ ap (λ ts. x ∷ ts)
        (sym (empty_end (reverse ys)) ∙ ap without_empty_end (sym (reverse-cons [] ys)))
dropped x ((c ∷ y) ∷ ys) =
    ap reverse (drop_none x c y ys)
    ∙ reverse-cons (c ∷ y) (ys ++ x ∷ [])
    ∙ ap (λ ts. ts ++ (c ∷ y) ∷ []) (reverse-end x ys)
    ∙ ap (λ ts. x ∷ ts)
        (sym (full_end (reverse ys) c y) ∙ ap without_empty_end (sym (reverse-cons (c ∷ y) ys)))

-- For every screen with a line: the transcript is that of its lines, each in one piece however it is
-- wrapped, joined by line ends, without the empty lines at the end, of which the first line stays.
pub read_transcript-lines :
    (line : Line) (screen : List Line)
    → read_transcript (some (screen_rows (line ∷ screen)))
      ≡ join (10 ∷ []) (expected_lines (line ∷ screen))
unfolding read_transcript
read_transcript-lines (first, ts) screen =
    let x = line_text (first, ts) in
    let xs = map line_text screen in
    let (i, e) = read_wrapped ts 0 (screen_rows screen) first [] in
    ap (join (10 ∷ [])) (
      ap (λ r. reverse (drop_empty (together r))) e
      ∙ ap (λ r. reverse (drop_empty r)) (read_screen screen i x [] ∙ reverse_aux-eq xs (x ∷ []))
      ∙ dropped x (reverse xs)
      ∙ ap (λ r. x ∷ without_empty_end r) (reverse-reverse xs))
