-- ===== src/Storage/Postgres/Arrays.antt =====
-- internal/storage/postgres.go: what the text of an array tells of its elements. PostgreSQL's
-- format for the text of an array is read here with its separators and its escapes, in the part of
-- it that has every element between quotes and no space outside them.
use mathlib.Core.List.{append-nil, append_assoc}
use hermes_waf.Prelude.{
  ℕ, suc, Str, bytes, ◌≡◌, ◌≢◌, refl, ap, sym, ◌∙◌, Option, none, some, List, [], ◌∷◌, ◌++◌, arith,
  All, ltb, eqb, if◌then◌else◌,
}
use hermes_waf.Storage.Postgres.{quoted, array, join_loop, join_strings}

-- The loop adds a comma and a quoted text for each element after the first.
unfoldable pub rest_of : List Str → Str
rest_of [] = []
rest_of (s ∷ ss) = b',' ∷ (quoted s ++ rest_of ss)

with_comma : (i : ℕ) (r : Str) → (if ltb 0 (suc i) then r ++ bytes "," else r) ≡ r ++ bytes ","
with_comma i r = ground arith

join_loop-rest_of :
    (i : ℕ) (result : Str) (ss : List Str) → join_loop (suc i) result ss ≡ result ++ rest_of ss
unfolding join_loop rest_of
join_loop-rest_of i result [] = sym (append-nil result)
join_loop-rest_of i result (s ∷ ss) =
    ap (λ r. join_loop (suc (suc i)) (r ++ quoted s) ss) (with_comma i result)
    ∙ join_loop-rest_of (suc i) ((result ++ bytes ",") ++ quoted s) ss
    ∙ append_assoc (result ++ bytes ",") (quoted s) (rest_of ss)
    ∙ append_assoc result (bytes ",") (quoted s ++ rest_of ss)

join_strings-cons : (s : Str) (ss : List Str) → join_strings (s ∷ ss) ≡ quoted s ++ rest_of ss
unfolding join_strings join_loop
join_strings-cons s ss = join_loop-rest_of 0 (quoted s) ss

-- How far a reader of an array has come, with the elements that it has read: before the brace,
-- after it, in an element, after a backslash in it, after an element, after a comma, at the end,
-- or at an error.
pub data Reading : Type 0 where
  start opened : Reading
  inside escaped : List Str → Str → Reading
  after next finished : List Str → Reading
  malformed : Reading

unfoldable pub read_byte : ℕ → Reading → Reading
read_byte c start = if eqb c b'{' then opened else malformed
read_byte c opened =
    if eqb c b'"' then inside [] [] else if eqb c b'}' then finished [] else malformed
read_byte c (inside done text) =
    if eqb c b'"'
    then after (done ++ text ∷ [])
    else if eqb c b'\\'
    then escaped done text
    else inside done (text ++ c ∷ [])
read_byte c (escaped done text) = inside done (text ++ c ∷ [])
read_byte c (after done) =
    if eqb c b',' then next done else if eqb c b'}' then finished done else malformed
read_byte c (next done) = if eqb c b'"' then inside done [] else malformed
read_byte c (finished done) = malformed
read_byte c malformed = malformed

unfoldable pub read_all : Str → Reading → Reading
read_all [] r = r
read_all (c ∷ t) r = read_all t (read_byte c r)

abbrev pub read_elements : Reading → Option (List Str)
read_elements (finished done) = some done
read_elements _ = none

-- The elements of an array's text, if it is one.
pub read_array : Str → Option (List Str)
read_array t = read_elements (read_all t start)

-- The byte stands for itself between quotes.
abbrev pub IsPlain : ℕ → Type 0
IsPlain c = (c ≢ b'"') × (c ≢ b'\\')

read_all-inside :
    (done : List Str) (text s t : Str)
    → All IsPlain s
    → read_all (s ++ b'"' ∷ t) (inside done text) ≡ read_all t (after (done ++ (text ++ s) ∷ []))
unfolding read_all read_byte
read_all-inside done text [] t h = rw (append-nil text)
read_all-inside done text (c ∷ s) t ((p, q), h) =
    let step : read_byte c (inside done text) ≡ inside done (text ++ c ∷ []) = ground arith in
    ap (λ r. read_all (s ++ b'"' ∷ t) r) step
    ∙ read_all-inside done (text ++ c ∷ []) s t h
    ∙ ap (λ u. read_all t (after (done ++ u ∷ []))) (append_assoc text (c ∷ []) s)

read_all-rest_of :
    (done ss : List Str)
    → All (All IsPlain) ss
    → read_all (rest_of ss ++ bytes "}") (after done) ≡ finished (done ++ ss)
unfolding read_all read_byte rest_of
read_all-rest_of done [] h = ap finished (sym (append-nil done))
read_all-rest_of done (s ∷ ss) (k, h) =
    ap (λ t. read_all (t ++ bytes "}") (inside done [])) (append_assoc s (bytes "\"") (rest_of ss))
    ∙ ap (λ t. read_all t (inside done [])) (append_assoc s (b'"' ∷ rest_of ss) (bytes "}"))
    ∙ read_all-inside done [] s (rest_of ss ++ bytes "}") k
    ∙ read_all-rest_of (done ++ s ∷ []) ss h
    ∙ ap finished (append_assoc done (s ∷ []) ss)

array-cons :
    (s : Str) (ss : List Str)
    → array (s ∷ ss) ≡ bytes "{" ++ (quoted s ++ (rest_of ss ++ bytes "}"))
array-cons s ss =
    ap (λ t. b'{' ∷ t)
      (ap (λ t. t ++ bytes "}") (join_strings-cons s ss)
        ∙ append_assoc (quoted s) (rest_of ss) (bytes "}"))

-- A reader of PostgreSQL's format, which wants the braces, the quotes and one comma between two
-- elements, and takes the byte after a backslash for itself, reads from the text of an array its
-- elements in order, if no element has a quote or a backslash.
pub read_array-array : (ss : List Str) → All (All IsPlain) ss → read_array (array ss) ≡ some ss
unfolding read_array read_all read_byte join_strings join_loop
read_array-array [] h = refl
read_array-array (s ∷ ss) (k, h) =
    ap read_array (array-cons s ss)
    ∙ ap (λ t. read_elements (read_all t (inside [] [])))
        (append_assoc s (bytes "\"") (rest_of ss ++ bytes "}"))
    ∙ ap read_elements (read_all-inside [] [] s (rest_of ss ++ bytes "}") k)
    ∙ ap read_elements (read_all-rest_of (s ∷ []) ss h)

-- An element that has a quote, a comma and a quote in it is written as two: the array of `x","y` is
-- the array of `x` and `y`, whatever follows.
pub array_split :
    (x y : Str) (ss : List Str) → array ((x ++ (bytes "\",\"" ++ y)) ∷ ss) ≡ array (x ∷ y ∷ ss)
unfolding rest_of
array_split x y ss =
    array-cons (x ++ (bytes "\",\"" ++ y)) ss ∙ (simp append_assoc) ∙ sym (array-cons x (y ∷ ss))
