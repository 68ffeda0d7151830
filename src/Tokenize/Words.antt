-- ===== src/Tokenize/Words.antt =====
-- A word that white space follows is one token.
use zcm.Prelude.{
  ℕ, ◌≡◌, ◌≢◌, ap, refl, arith, true, false, List, [], ◌∷◌, ◌++◌, none, some, length, All,
  equal_other, ◌==◌,
}
use zcm.Tokenize.{
  tok_other, is_space, is_single, is_op, Chunk, operator, blob, token_from, skip_spaces, token,
  chars,
}

abbrev pub Blank : List ℕ → Type 0
Blank = All (λ c. is_space c ≡ true)

-- A character of a name or a number.
abbrev pub Plain : ℕ → Type 0
Plain c = (is_space c ≡ false) × (is_single c ≡ false) × (is_op c ≡ false)

-- A token: a name or a number, which does not start with a slash; a punctuation mark that is not a
-- quote; or an operator.
pub data Word : List ℕ → Type 0 where
  name : (c : ℕ) (cs : List ℕ) → All Plain (c ∷ cs) → c ≢ b'/' → Word (c ∷ cs)
  mark : (c : ℕ) → is_single c ≡ true → c ≢ 39 → c ≢ 34 → Word (c ∷ [])
  sign : (c : ℕ) (cs : List ℕ) → All (λ o. is_op o ≡ true) (c ∷ cs) → Word (c ∷ cs)

-- The rest of the file behind the white space character that ends a token.
operator-ends :
    (c : ℕ) (cs : List ℕ) (g : ℕ) (rest : List ℕ)
    → All (λ o. is_op o ≡ true) cs
    → is_op g ≡ false
    → operator c (cs ++ (g ∷ rest)) ≡ record { text = c ∷ cs; behind = rest; given_back = some g }
unfolding operator
operator-ends c [] g rest a e = rw e refl
operator-ends c (d ∷ cs) g rest (o, a) e = rw o (
    ap (λ (k : Chunk). let r : Chunk = record k { text = c ∷ k.text } in r)
      (operator-ends d cs g rest a e))

blob-ends :
    (c : ℕ) (cs : List ℕ) (g : ℕ) (rest : List ℕ)
    → All Plain (c ∷ cs)
    → is_space g ≡ true
    → is_single g ≡ false
    → is_op g ≡ false
    → blob c (cs ++ (g ∷ rest)) ≡ record { text = c ∷ cs; behind = rest; given_back = none }
unfolding blob
blob-ends c [] g rest ((s, n, o), a) e n' o' = rw (n, n', o', e) refl
blob-ends c (d ∷ cs) g rest ((s, n, o), ((s', n', o'), a)) e m p =
    rw (n, n', o', s')
      (ap (λ (k : Chunk). let r : Chunk = record k { text = c ∷ k.text } in r)
        (blob-ends d cs g rest ((s', n', o'), a) e m p))

space_plain : (g : ℕ) → is_space g ≡ true → (is_single g ≡ false) × (is_op g ≡ false)
unfolding is_space is_single is_op
space_plain g e = (ground arith, ground arith)

op_plain :
    (c : ℕ) → is_op c ≡ true → (is_space c ≡ false) × ((c == 39) ≡ false) × ((c == 34) ≡ false)
unfolding is_space is_op
op_plain c e = (ground arith, ground arith, ground arith)

mark_plain :
    (c : ℕ) → is_single c ≡ true → (is_space c ≡ false) × (is_op c ≡ false) × ((c == b'/') ≡ false)
unfolding is_space is_single is_op
mark_plain c e = (ground arith, ground arith, ground arith)

pub plain_not_quote : (c : ℕ) → is_single c ≡ false → ((c == 39) ≡ false) × ((c == 34) ≡ false)
unfolding is_single
plain_not_quote c e = (ground arith, ground arith)

pub skip_spaces-Blank :
    (before rest : List ℕ) → Blank before → skip_spaces (before ++ rest) ≡ skip_spaces rest
unfolding skip_spaces
skip_spaces-Blank [] rest b = refl
skip_spaces-Blank (c ∷ before) rest (e, b) = rw e (skip_spaces-Blank before rest b)

pub skip_spaces-none : (before : List ℕ) → Blank before → skip_spaces before ≡ none
unfolding skip_spaces
skip_spaces-none [] b = refl
skip_spaces-none (c ∷ before) (e, b) = rw e (skip_spaces-none before b)

-- The characters that are read next.
abbrev pub next_chars : Chunk → List ℕ
next_chars k = elim k.given_back as (λ x. List ℕ) [ none ↦ k.behind | some c ↦ c ∷ k.behind ]

-- The token is the word, and at most white space is read again.
pub record Taken (w rest : List ℕ) (c : ℕ) (cs : List ℕ) : Type 0 where
  pub k : Chunk
  pub read : token_from c cs ≡ (chars (length w), tok_other, k)
  pub same : k.text ≡ w
  pub starts : is_space c ≡ false
  pub again : List ℕ
  pub blank : Blank again
  pub left : next_chars k ≡ again ++ rest

pub token_from-name :
    (c : ℕ) (cs : List ℕ) (g : ℕ) (rest : List ℕ)
    → All Plain (c ∷ cs)
    → c ≢ b'/'
    → is_space g ≡ true
    → Taken (c ∷ cs) rest c (cs ++ (g ∷ rest))
unfolding token_from token
token_from-name c cs g rest ((s, n, o), a) slash e =
    let (gs, go) = space_plain g e in
    let (q, d) = plain_not_quote c n in
    record {
      k = record { text = c ∷ cs; behind = rest; given_back = none };
      read =
          rw (q, d, o, equal_other c b'/' slash, blob-ends c cs g rest ((s, n, o), a) e gs go) refl;
      same = refl;
      starts = s;
      again = [];
      blank = tt;
      left = refl;
    }

pub token_from-mark :
    (c g : ℕ) (rest : List ℕ)
    → is_single c ≡ true
    → c ≢ 39
    → c ≢ 34
    → is_space g ≡ true
    → Taken (c ∷ []) rest c (g ∷ rest)
unfolding token_from token blob
token_from-mark c g rest m q d e =
    let (s, o, slash) = mark_plain c m in
    record {
      k = record { text = c ∷ []; behind = g ∷ rest; given_back = none };
      read = rw (equal_other c 39 q, equal_other c 34 d, o, slash, m) refl;
      same = refl;
      starts = s;
      again = g ∷ [];
      blank = (e, tt);
      left = refl;
    }

pub token_from-sign :
    (c : ℕ) (cs : List ℕ) (g : ℕ) (rest : List ℕ)
    → All (λ o. is_op o ≡ true) (c ∷ cs)
    → is_space g ≡ true
    → Taken (c ∷ cs) rest c (cs ++ (g ∷ rest))
unfolding token_from token
token_from-sign c cs g rest (o, a) e =
    let (gs, go) = space_plain g e in
    let (s, q, d) = op_plain c o in
    record {
      k = record { text = c ∷ cs; behind = rest; given_back = some g };
      read = rw (q, d, o, operator-ends c cs g rest a go) refl;
      same = refl;
      starts = s;
      again = g ∷ [];
      blank = (e, tt);
      left = refl;
    }
