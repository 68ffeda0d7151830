-- ===== src/Tokenize/Print.antt =====
-- Tokens that stand between white space are read as they stand.
use zcm.Prelude.{
  ℕ, zero, suc, ◌≡◌, ◌∙◌, ap, ap₂, refl, sym, arith, true, false, List, [], ◌∷◌, ◌++◌, append_assoc,
  append-nil, ◌<◌, map, none, some, length, All, if◌then◌else◌,
}
use zcm.Tokenize.{
  tok_other, tok_eof, is_space, Tokenizer, tokenize_create, pending, skip_spaces, after,
  tokenize_next_internal, tokenize_next, Status, chars, eof, with_first, with_token, all_tokens,
}
use zcm.Tokenize.Words.{
  Blank, Word, name, mark, sign, Taken, skip_spaces-Blank, skip_spaces-none, token_from-name,
  token_from-mark, token_from-sign,
}

-- What the next call does, with white space before the word.
pub record Yields (w rest : List ℕ) (t : Tokenizer) : Type 0 where
  pub t' : Tokenizer
  pub read : tokenize_next t ≡ (chars (length w), t')
  pub same : t'.token ≡ w
  pub type_same : t'.token_type ≡ tok_other
  pub no_peek : t'.hasnext ≡ false
  pub again : List ℕ
  pub blank : Blank again
  pub left : pending t' ≡ again ++ rest

pub unpeeked : (t : Tokenizer) → t.hasnext ≡ false → tokenize_next t ≡ tokenize_next_internal t
unfolding tokenize_next
unpeeked t h =
    ap (λ b. if b then (chars 0, record t { hasnext = false }) else tokenize_next_internal t) h

pub next-Taken :
    (t : Tokenizer) (before w rest : List ℕ) (c : ℕ) (cs : List ℕ)
    → t.hasnext ≡ false
    → pending t ≡ before ++ (c ∷ cs)
    → Blank before
    → Taken w rest c cs
    → Yields w rest t
unfolding tokenize_next_internal pending
next-Taken t before w rest c cs h p b k =
    let skipped : skip_spaces (pending t) ≡ some (c, cs) =
      ap skip_spaces p ∙ skip_spaces-Blank before (c ∷ cs) b ∙ here in
    record {
      t' = after t tok_other k.k;
      read = unpeeked t h ∙ rw (skipped, tokenize_next_internal, k.read) refl;
      same = k.same;
      type_same = refl;
      no_peek = h;
      again = k.again;
      blank = k.blank;
      left = k.left;
    }
  where
    here : skip_spaces (c ∷ cs) ≡ some (c, cs)
    here = unfold skip_spaces in rw k.starts refl

next-Word :
    (t : Tokenizer) (before w : List ℕ) (g : ℕ) (rest : List ℕ)
    → t.hasnext ≡ false
    → pending t ≡ before ++ (w ++ (g ∷ rest))
    → Blank before
    → Word w
    → is_space g ≡ true
    → Yields w rest t
next-Word t before _ g rest h p b (name c cs a slash) e =
    next-Taken t before (c ∷ cs) rest c (cs ++ (g ∷ rest)) h p b
      (token_from-name c cs g rest a slash e)
next-Word t before _ g rest h p b (mark c m q d) e =
    next-Taken t before (c ∷ []) rest c (g ∷ rest) h p b (token_from-mark c g rest m q d e)
next-Word t before _ g rest h p b (sign c cs a) e =
    next-Taken t before (c ∷ cs) rest c (cs ++ (g ∷ rest)) h p b (token_from-sign c cs g rest a e)

-- A token with the white space behind it.
pub record Spaced : Type 0 where
  pub word : List ℕ
  pub gap : ℕ
  pub more : List ℕ

abbrev pub Apart : Spaced → Type 0
Apart p = Word p.word × (is_space p.gap ≡ true) × Blank p.more

abbrev pub print : List Spaced → List ℕ
print [] = []
print (p ∷ ps) = p.word ++ (p.gap ∷ (p.more ++ print ps))

pub all_tokens-next :
    (n : ℕ) (t t' : Tokenizer) (s : Status)
    → tokenize_next t ≡ (s, t')
    → all_tokens (suc n) t ≡ with_token s t' (all_tokens n t')
unfolding all_tokens
all_tokens-next n t t' s e =
    ap (λ (r : Status × Tokenizer). with_token r.0 r.1 (all_tokens n r.1)) e

pub all_tokens-eof :
    (n : ℕ) (t : Tokenizer) (before : List ℕ)
    → t.hasnext ≡ false
    → pending t ≡ before ++ []
    → Blank before
    → all_tokens (suc n) t ≡ some []
unfolding tokenize_next_internal
all_tokens-eof n t before h p b =
    let skipped = ap skip_spaces (p ∙ append-nil before) ∙ skip_spaces-none before b in
    let t' : Tokenizer = record t { input = []; unget_char = none; token_type = tok_eof } in
    all_tokens-next n t t' eof (unpeeked t h ∙ rw (skipped, tokenize_next_internal) refl)

blank-append : (xs ys : List ℕ) → Blank xs → Blank ys → Blank (xs ++ ys)
blank-append [] ys a b = b
blank-append (x ∷ xs) ys (e, a) b = (e, blank-append xs ys a b)

tokens-from :
    (ps : List Spaced) (n : ℕ) (t : Tokenizer) (before : List ℕ)
    → t.hasnext ≡ false
    → pending t ≡ before ++ print ps
    → Blank before
    → All Apart ps
    → length ps < n
    → all_tokens n t ≡ some (map (λ p. (tok_other, p.word)) ps)
tokens-from ps zero t before h p b a l = absurd (omega arith)
tokens-from [] (suc n) t before h p b a l = all_tokens-eof n t before h p b
tokens-from (q ∷ ps) (suc n) t before h p b ((w, g, m), a) l =
    let x = next-Word t before q.word q.gap (q.more ++ print ps) h p b w g in
    let further =
      tokens-from ps n x.t' (x.again ++ q.more) x.no_peek
        (x.left ∙ sym (append_assoc x.again q.more (print ps)))
        (blank-append x.again q.more x.blank m) a (omega arith) in
    all_tokens-next n t x.t' (chars (length q.word)) x.read
    ∙ ap₂ (λ y ts. with_first y ts) (ap₂ (λ a b. (a, b)) x.type_same x.same) further

-- Any names, numbers, punctuation marks but quotes, and operators, each with white space behind it, are
-- read from a file as they stand, each as one token, and then comes the end of the file.
pub tokens-print :
    (ps : List Spaced) (before : List ℕ) (n : ℕ)
    → Blank before
    → All Apart ps
    → length ps < n
    → all_tokens n (tokenize_create (before ++ print ps)) ≡ some (map (λ p. (tok_other, p.word)) ps)
unfolding tokenize_create pending
tokens-print ps before n b a l =
    tokens-from ps n (tokenize_create (before ++ print ps)) before refl refl b a l
