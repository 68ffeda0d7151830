-- ===== src/Url/Split.antt =====
-- `find` and `split` of zcm/url.cpp on what they look for.
use zcm.Prelude.{
  ℕ, zero, suc, ◌-◌, ◌≤◌, ◌<◌, ◌≡◌, ◌∙◌, ap, refl, sym, arith, true, List, [], ◌∷◌, ◌++◌, none,
  some, ◌≢◌, equal_self, equal_other, length, get_or, All, All-get_or, length-append, lt→ltb,
}
use zcm.Url.{starts_with, find, upto, getline_loop, split}

-- None of the characters is `c`.
abbrev pub Without : ℕ → List ℕ → Type 0
Without c xs = All (λ x. c ≢ x) xs

starts_with-append : (what ys : List ℕ) → starts_with what (what ++ ys) ≡ true
starts_with-append [] ys = refl
starts_with-append (w ∷ what) ys = rw (equal_self w) (starts_with-append what ys)

pub find-append :
    (w : ℕ) (what xs ys : List ℕ)
    → Without w xs
    → find (w ∷ what) (xs ++ ((w ∷ what) ++ ys)) ≡ some (length xs)
unfolding find
find-append w what [] ys h = rw (equal_self w, starts_with-append what ys) refl
find-append w what (x ∷ xs) ys (h, hs) = rw (equal_other w x h, find-append w what xs ys hs) refl

pub find-none : (w : ℕ) (xs : List ℕ) → Without w xs → find (w ∷ []) xs ≡ none
unfolding find
find-none w [] h = refl
find-none w (x ∷ xs) (h, hs) = rw (equal_other w x h, find-none w xs hs) refl

upto-append : (d : ℕ) (t rest : List ℕ) → Without d t → upto d (t ++ (d ∷ rest)) ≡ (t, rest)
upto-append d [] rest h = rw (equal_self d) refl
upto-append d (c ∷ t) rest (h, hs) =
    rw (equal_other c d (λ e. h (sym e)), upto-append d t rest hs) refl

upto_all : (d : ℕ) (t : List ℕ) → Without d t → upto d t ≡ (t, [])
upto_all d [] h = refl
upto_all d (c ∷ t) (h, hs) = rw (equal_other c d (λ e. h (sym e)), upto_all d t hs) refl

-- The pieces with the delimiter between them.
abbrev pub join : ℕ → List (List ℕ) → List ℕ
join d [] = []
join d (t ∷ []) = t
join d (t ∷ (t' ∷ ts)) = t ++ (d ∷ join d (t' ∷ ts))

abbrev pub Piece : ℕ → List ℕ → Type 0
Piece d t = (0 < length t) × Without d t

-- What a round takes that finds something.
getline_loop_step :
    (fuel d : ℕ) (str tok rest : List ℕ)
    → 0 < length str
    → upto d str ≡ (tok, rest)
    → getline_loop (suc fuel) d str ≡ tok ∷ getline_loop fuel d rest
unfolding getline_loop
getline_loop_step fuel d [] tok rest h e = absurd (omega arith)
getline_loop_step fuel d (c ∷ cs) tok rest h e = ap (λ (t, r). t ∷ getline_loop fuel d r) e

getline_loop_done : (fuel d : ℕ) → getline_loop fuel d [] ≡ []
unfolding getline_loop
getline_loop_done zero d = refl
getline_loop_done (suc fuel) d = refl

getline_loop-join :
    (fuel d : ℕ) (ts : List (List ℕ))
    → All (Piece d) ts
    → length (join d ts) ≤ fuel
    → getline_loop fuel d (join d ts) ≡ ts
getline_loop-join fuel d [] p h = getline_loop_done fuel d
getline_loop-join zero d (t ∷ []) ((l, w), ps) h = absurd (omega arith)
getline_loop-join (suc fuel) d (t ∷ []) ((l, w), ps) h =
    getline_loop_step fuel d t t [] l (upto_all d t w) ∙ ap (λ r. t ∷ r) (getline_loop_done fuel d)
getline_loop-join zero d (t ∷ (t' ∷ ts)) ((l, w), ps) h =
    absurd (omega (arith, length-append t (d ∷ join d (t' ∷ ts))))
getline_loop-join (suc fuel) d (t ∷ (t' ∷ ts)) ((l, w), ps) h =
    let more = join d (t' ∷ ts) in
    let size = length-append t (d ∷ more) in
    getline_loop_step fuel d (t ++ (d ∷ more)) t more (omega arith) (upto-append d t more w)
    ∙ ap (λ r. t ∷ r) (getline_loop-join fuel d (t' ∷ ts) ps (omega arith))

last_of_append :
    (xs ys : List ℕ)
    → 0 < length ys
    → get_or (xs ++ ys) (length (xs ++ ys) - 1) 0 ≡ get_or ys (length ys - 1) 0
last_of_append [] ys h = refl
last_of_append (x ∷ xs) ys h =
    let size = length-append xs ys in
    ap (λ i. get_or (x ∷ (xs ++ ys)) i 0) {x = suc (length (xs ++ ys)) - 1}
      {y = suc (length (xs ++ ys) - 1)} (omega arith)
    ∙ last_of_append xs ys h

last_of_join :
    (d : ℕ) (t : List ℕ) (ts : List (List ℕ))
    → All (Piece d) (t ∷ ts)
    → (0 < length (join d (t ∷ ts)))
      × (d ≢ get_or (join d (t ∷ ts)) (length (join d (t ∷ ts)) - 1) 0)
last_of_join d t [] ((l, w), ps) = (l, All-get_or (λ x. d ≢ x) t (length t - 1) 0 w (omega arith))
last_of_join d t (t' ∷ ts) ((l, w), ps) =
    let (some_there, differs) = last_of_join d t' ts ps in
    let more = join d (t' ∷ ts) in
    (
      omega (arith, length-append t (d ∷ more)),
      λ e.
          differs (
            e
            ∙ last_of_append t (d ∷ more) (omega arith)
            ∙ last_of_append (d ∷ []) more some_there),
    )

pub split-join :
    (d : ℕ) (t : List ℕ) (ts : List (List ℕ))
    → All (Piece d) (t ∷ ts)
    → split (join d (t ∷ ts)) d ≡ t ∷ ts
unfolding split
split-join d t ts p =
    let str = join d (t ∷ ts) in
    let (there, differs) = last_of_join d t ts p in
    rw
      (
        lt→ltb 0 (length str) there,
        equal_other (get_or str (length str - 1) 0) d (λ e. differs (sym e)),
      )
      (getline_loop-join (length str) d (t ∷ ts) p (omega arith))
