-- ===== src/Tests/TokenizeTests.antt =====
-- The tokens of small type definitions.
use zcm.Prelude.{ℕ, ◌≡◌, refl, arith, List, [], ◌∷◌, ◌++◌, some, none, false}
use zcm.Tokenize.{TokenType, tok_comment, tok_other, Tokenizer, tokenize_create, all_tokens}
use zcm.Tokenize.Print.{Spaced, print, tokens-print}
use zcm.Tokenize.Words.{Word, name, mark, sign}
use zcm.Tokenize.Comment.{comment_char_again}

-- `a = 1;` in words.
abbrev spaced : List ℕ → Spaced
spaced word = record { word = word; gap = b' '; more = 10 ∷ [] }

abbrev assignment : List Spaced
assignment = spaced (b'a' ∷ b'b' ∷ []) ∷ spaced (b'=' ∷ []) ∷ spaced (b';' ∷ []) ∷ []

ab-Word : Word (b'a' ∷ b'b' ∷ [])
unfolding zcm.Tokenize.is_space zcm.Tokenize.is_single zcm.Tokenize.is_op
ab-Word = name b'a' (b'b' ∷ []) ((refl, refl, refl), ((refl, refl, refl), tt)) (omega arith)

sign-Word : Word (b'=' ∷ [])
unfolding zcm.Tokenize.is_op
sign-Word = sign b'=' [] (refl, tt)

mark-Word : Word (b';' ∷ [])
unfolding zcm.Tokenize.is_single
mark-Word = mark b';' refl (omega arith) (omega arith)

tokens-print_example :
    all_tokens 4 (tokenize_create ([] ++ print assignment))
    ≡ some ((tok_other, b'a' ∷ b'b' ∷ []) ∷ (tok_other, b'=' ∷ []) ∷ (tok_other, b';' ∷ []) ∷ [])
unfolding zcm.Tokenize.is_space
tokens-print_example =
    tokens-print assignment [] 4 tt
      (
        (ab-Word, refl, (refl, tt)),
        ((sign-Word, refl, (refl, tt)), ((mark-Word, refl, (refl, tt)), tt)),
      )
      (omega arith)

-- `// ok` at the end of the file.
abbrev open_comment : Tokenizer
open_comment = record {
  input = b'/' ∷ b'/' ∷ b' ' ∷ b'o' ∷ b'k' ∷ [];
  unget_char = none;
  token = [];
  token_type = tok_other;
  hasnext = false;
}

comment_char_again_example :
    all_tokens 3 open_comment ≡ some ((tok_comment, b'o' ∷ b'k' ∷ []) ∷ (tok_other, b'k' ∷ []) ∷ [])
unfolding zcm.Tokenize.is_space zcm.Tokenize.is_single zcm.Tokenize.is_op zcm.Tokenize.pending
comment_char_again_example =
    comment_char_again open_comment [] (b'o' ∷ []) b'k' refl tt refl
      ((λ e. absurd (omega arith)), ((λ e. absurd (omega arith)), tt)) (λ e. absurd (omega arith))
      (refl, refl, refl) (omega arith)

-- `/** x`, a line `*  y */` and `a`: the asterisks, and a space behind them, are no part of the comment.
comment_test :
    all_tokens 3 (
      tokenize_create (
        b'/' ∷ b'*' ∷ b'*' ∷ b' ' ∷ b'x' ∷ 10 ∷ b' ' ∷ b'*' ∷ b' ' ∷ b' ' ∷ b'y' ∷ b'*' ∷ b'/'
        ∷ b'a' ∷ []))
    ≡ some ((tok_comment, b'x' ∷ 10 ∷ b' ' ∷ b'y' ∷ []) ∷ (tok_other, b'a' ∷ []) ∷ [])
unfolding all_tokens zcm.Tokenize.tokenize_next zcm.Tokenize.tokenize_next_internal
    zcm.Tokenize.skip_spaces zcm.Tokenize.pending zcm.Tokenize.tokenize_create
    zcm.Tokenize.token_from zcm.Tokenize.slash zcm.Tokenize.extended_comment
    zcm.Tokenize.comment_step zcm.Tokenize.comment_char zcm.Tokenize.is_space zcm.Tokenize.is_op
    zcm.Tokenize.is_single zcm.Tokenize.blob zcm.Tokenize.token zcm.Tokenize.char_literal
    zcm.Tokenize.close_literal
comment_test = refl
