-- ===== src/Tokenize/Comment.antt =====
-- A comment that ends with the file, with no newline behind it.
use zcm.Prelude.{
  ℕ, ◌≡◌, ◌≢◌, ◌∙◌, ap, ap₂, refl, false, List, [], ◌∷◌, ◌++◌, none, some, length, get_or, All,
  equal_other,
}
use zcm.Tokenize.{
  tok_comment, tok_other, is_space, is_op, Tokenizer, pending, Chunk, blob, line_rest, strip,
  line_comment, slash, token, token_from, skip_spaces, after, tokenize_next_internal, tokenize_next,
  chars, all_tokens, with_first,
}
use zcm.Tokenize.Print.{unpeeked, next-Taken, all_tokens-next, all_tokens-eof}
use zcm.Tokenize.Words.{Blank, Plain, Taken, skip_spaces-Blank, plain_not_quote}

line_rest-end :
    (last : ℕ) (body : List ℕ) (x : ℕ)
    → All (λ c. c ≢ 10) (body ++ (x ∷ []))
    → line_rest last (body ++ (x ∷ []))
      ≡ record { text = body ++ (x ∷ []); behind = []; given_back = some x }
unfolding line_rest
line_rest-end last [] x (h, a) = rw (equal_other x 10 h) refl
line_rest-end last (c ∷ body) x (h, a) = rw (equal_other c 10 h) (
    ap (λ (k : Chunk). let r : Chunk = record k { text = c ∷ k.text } in r)
      (line_rest-end c body x a))

strip-first : (last : ℕ) (xs : List ℕ) → get_or xs 0 b' ' ≢ b' ' → strip b' ' last xs ≡ (last, xs)
unfolding strip
strip-first last [] h = refl
strip-first last (x ∷ xs) h = rw (equal_other x b' ' h) refl

line_comment-end :
    (body : List ℕ) (x : ℕ)
    → All (λ c. c ≢ 10) (body ++ (x ∷ []))
    → get_or (body ++ (x ∷ [])) 0 b' ' ≢ b' '
    → line_comment (b' ' ∷ (body ++ (x ∷ [])))
      ≡ record { text = body ++ (x ∷ []); behind = []; given_back = some x }
unfolding line_comment strip
line_comment-end body x a s =
    ap (λ (r : ℕ × List ℕ). line_rest r.0 r.1) (strip-first b' ' (body ++ (x ∷ [])) s)
    ∙ line_rest-end b' ' body x a

-- The comment as a chunk, with its last character given back.
comment_read :
    (body : List ℕ) (x : ℕ)
    → All (λ c. c ≢ 10) (body ++ (x ∷ []))
    → get_or (body ++ (x ∷ [])) 0 b' ' ≢ b' '
    → token_from b'/' (b'/' ∷ b' ' ∷ (body ++ (x ∷ []))) ≡ (
      chars (length (body ++ (x ∷ []))),
      tok_comment,
      record { text = body ++ (x ∷ []); behind = []; given_back = some x },
    )
unfolding token_from slash token is_op
comment_read body x a s = ap (token tok_comment) (line_comment-end body x a s)

token_from-last : (x : ℕ) → Plain x → x ≢ b'/' → Taken (x ∷ []) [] x []
unfolding token_from token blob
token_from-last x (s, n, o) h =
    let (q, d) = plain_not_quote x n in
    record {
      k = record { text = x ∷ []; behind = []; given_back = none };
      read = rw (q, d, o, equal_other x b'/' h) refl;
      same = refl;
      starts = s;
      again = [];
      blank = tt;
      left = refl;
    }

comment_next :
    (t : Tokenizer) (before body : List ℕ) (x : ℕ)
    → t.hasnext ≡ false
    → Blank before
    → pending t ≡ before ++ (b'/' ∷ b'/' ∷ b' ' ∷ (body ++ (x ∷ [])))
    → All (λ c. c ≢ 10) (body ++ (x ∷ []))
    → get_or (body ++ (x ∷ [])) 0 b' ' ≢ b' '
    → tokenize_next t ≡ (
      chars (length (body ++ (x ∷ []))),
      after t tok_comment (record { text = body ++ (x ∷ []); behind = []; given_back = some x }),
    )
unfolding tokenize_next_internal
comment_next t before body x h b p a s =
    unpeeked t h ∙ rw (skipped, tokenize_next_internal, comment_read body x a s) refl
  where
    here :
        skip_spaces (b'/' ∷ b'/' ∷ b' ' ∷ (body ++ (x ∷ [])))
        ≡ some (b'/', b'/' ∷ b' ' ∷ (body ++ (x ∷ [])))
    here = unfold skip_spaces in unfold is_space in refl

    skipped : skip_spaces (pending t) ≡ some (b'/', b'/' ∷ b' ' ∷ (body ++ (x ∷ [])))
    skipped = ap skip_spaces p ∙ skip_spaces-Blank before _ b ∙ here

-- A comment after two slashes and a space, with which the file ends: the comment is read, and then its
-- last character once more, as a token by itself, if that is one of a name or a number.
pub comment_char_again :
    (t : Tokenizer) (before body : List ℕ) (x : ℕ)
    → t.hasnext ≡ false
    → Blank before
    → pending t ≡ before ++ (b'/' ∷ b'/' ∷ b' ' ∷ (body ++ (x ∷ [])))
    → All (λ c. c ≢ 10) (body ++ (x ∷ []))
    → get_or (body ++ (x ∷ [])) 0 b' ' ≢ b' '
    → Plain x
    → x ≢ b'/'
    → all_tokens 3 t ≡ some ((tok_comment, body ++ (x ∷ [])) ∷ (tok_other, x ∷ []) ∷ [])
unfolding pending
comment_char_again t before body x h b p a s plain not_slash =
    let k : Chunk = record { text = body ++ (x ∷ []); behind = []; given_back = some x } in
    let t' = after t tok_comment k in
    let y = next-Taken t' [] (x ∷ []) [] x [] h refl tt (token_from-last x plain not_slash) in
    all_tokens-next 2 t t' _ (comment_next t before body x h b p a s)
    ∙ ap (with_first (tok_comment, body ++ (x ∷ []))) (
        all_tokens-next 1 t' y.t' (chars 1) y.read
        ∙ ap₂ (λ z ts. with_first z ts) (ap₂ (λ a b. (a, b)) y.type_same y.same)
            (all_tokens-eof 0 y.t' y.again y.no_peek y.left y.blank))
