-- ===== src/Tokenize.antt =====
-- gen/tokenize.c: the tokens of a type definition. A character is its code, below 128 and not 0; the
-- positions of the tokens are left out.

pub mod Words
pub mod Print
pub mod Comment
use zcm.Prelude.{
  ℕ, zero, suc, ◌+◌, ◌-◌, Bool, true, false, not, ◌&&◌, ◌||◌, List, [], ◌∷◌, ◌++◌, Option, none,
  some, if◌then◌else◌, leb, ◌==◌, length, take,
}

-- `zcm_token_type_t`
pub data TokenType : Type 0 where
  tok_invalid tok_eof tok_comment tok_other : TokenType

-- `isspace`
unfoldable pub is_space : ℕ → Bool
is_space c = c == b' ' || (leb 9 c && leb c 13)

abbrev pub one_of : List ℕ → ℕ → Bool
one_of [] c = false
one_of (x ∷ xs) c = x == c || one_of xs c

-- `strchr(single_char_toks, c)`
unfoldable pub is_single : ℕ → Bool
is_single = one_of (b'(' ∷ b')' ∷ b';' ∷ 34 ∷ b',' ∷ b':' ∷ 39 ∷ b'[' ∷ b']' ∷ [])

-- `strchr(op_chars, c)`
unfoldable pub is_op : ℕ → Bool
is_op = one_of (b'!' ∷ b'~' ∷ b'<' ∷ b'>' ∷ b'=' ∷ b'&' ∷ b'|' ∷ b'^' ∷ b'%' ∷ b'*' ∷ b'+' ∷ [])

unfoldable pub unescape : ℕ → ℕ
unescape c = if c == b'n' then 10 else if c == b'r' then 13 else if c == b't' then 9 else c

-- `tokenize_t`: the characters of the file that were not read yet, and the one that was given back.
-- `token` is the token without its closing NUL; after -4 or -5 it is what was written of it, and
-- after an extended comment that is not closed it is empty, since nothing closes it.
pub record Tokenizer : Type 0 where
  pub input : List ℕ
  pub unget_char : Option ℕ
  pub token : List ℕ
  pub token_type : TokenType
  pub hasnext : Bool

unfoldable pub tokenize_create : List ℕ → Tokenizer
tokenize_create text = record {
  input = text;
  unget_char = none;
  token = [];
  token_type = tok_invalid;
  hasnext = false;
}

-- What `tokenize_next_char` gives from here on.
unfoldable pub pending : Tokenizer → List ℕ
pending t = elim t.unget_char [ none ↦ t.input | some c ↦ c ∷ t.input ]

-- What is read of a token, the file behind it and the character that is given back. `tokenize_ungetc`
-- gives back the one that was read last, whatever its argument is: at the end of the file that is one of
-- the token.
pub record Chunk : Type 0 where
  pub text : List ℕ
  pub behind : List ℕ
  pub given_back : Option ℕ

abbrev pub put : ℕ → Chunk → Chunk
put c k = record k { text = c ∷ k.text }

-- The loop over an operator, from its first character on.
unfoldable pub operator : ℕ → List ℕ → Chunk
operator c [] = record { text = c ∷ []; behind = []; given_back = some c }
operator c (d ∷ ds) =
    let further = put c (operator d ds) in
    if is_op d then further else record { text = c ∷ []; behind = ds; given_back = some d }

-- The loop over any other token.
unfoldable pub blob : ℕ → List ℕ → Chunk
blob c [] = record { text = c ∷ []; behind = []; given_back = none }
blob c (d ∷ ds) =
    let further = put c (blob d ds) in
    if is_single c
    then record { text = c ∷ []; behind = d ∷ ds; given_back = none }
    else if is_single d || is_op d
    then record { text = c ∷ []; behind = ds; given_back = some d }
    else if is_space d
    then record { text = c ∷ []; behind = ds; given_back = none }
    else further

-- The rest of the line, behind the character that was read last.
unfoldable pub line_rest : ℕ → List ℕ → Chunk
line_rest last [] = record { text = []; behind = []; given_back = some last }
line_rest last (c ∷ cs) =
    let further = put c (line_rest c cs) in
    if c == 10 then record { text = []; behind = cs; given_back = some c } else further

-- The loops that pass over one character.
unfoldable pub strip : ℕ → ℕ → List ℕ → ℕ × List ℕ
strip x last [] = (last, [])
strip x last (c ∷ cs) = let further = strip x c cs in if c == x then further else (last, c ∷ cs)

-- Behind the two slashes.
unfoldable pub line_comment : List ℕ → Chunk
line_comment cs =
    let (last, cs') = strip b'/' b'/' cs in
    let (last', cs'') = strip b' ' last cs' in line_rest last' cs''

-- Behind the opening quote: an escaped character is left out.
unfoldable pub string_rest : Bool → List ℕ → Chunk
string_rest escape [] = record { text = []; behind = []; given_back = none }
string_rest escape (c ∷ cs) =
    let further = string_rest (not escape && c == 92) cs in
    if escape
    then further
    else if c == 34
    then record { text = c ∷ []; behind = cs; given_back = none }
    else if c == 92
    then further
    else put c further

-- Where the loop over an extended comment is: at the white space that a line starts with, at its
-- asterisks, behind the space that follows these, or behind a character of the comment.
pub data Place : Type 0 where
  leading asterisks blank : Place
  inside : ℕ → Place

pub data Extended : Type 0 where
  going : Place → ℕ → List ℕ → Extended
  finished : List ℕ → Extended

-- A character of the comment, or the end of its line.
unfoldable pub comment_char : ℕ → List ℕ → ℕ → Extended
comment_char line_start text c =
    if c == 10
    then (if line_start == length text
        then going leading line_start text
        else going leading (length text + 1) (text ++ (c ∷ [])))
    else going (inside c) line_start (text ++ (c ∷ []))

unfoldable pub comment_step : Place → ℕ → List ℕ → ℕ → Extended
comment_step leading line_start text c =
    if c == b' ' || c == 9
    then going leading line_start (text ++ (c ∷ []))
    else if c == b'*'
    then going asterisks line_start (text ++ (c ∷ []))
    else comment_char line_start text c
comment_step asterisks line_start text c =
    if c == b'*'
    then going asterisks line_start (text ++ (c ∷ []))
    else if c == b'/'
    then finished (take line_start text)
    else if c == b' '
    then going blank line_start (take line_start text)
    else comment_char line_start (take line_start text) c
comment_step blank line_start text c = comment_char line_start text c
comment_step (inside last) line_start text c =
    if last == b'*' && c == b'/'
    then finished (take (length text - 1) text)
    else comment_char line_start text c

-- `tokenize_extended_comment`; `none` at the end of the file.
unfoldable pub extended_comment : Place → ℕ → List ℕ → List ℕ → Option Chunk
extended_comment place line_start text [] = none
extended_comment place line_start text (c ∷ cs) = elim (comment_step place line_start text c) [
  | going place' line_start' text' ↦ extended_comment place' line_start' text' cs
  | finished text' ↦ some (record { text = text'; behind = cs; given_back = none })
]

-- What `tokenize_next` returns: how many characters the token has, `EOF`, or -4 or -5 at a character
-- literal that is not closed.
pub data Status : Type 0 where
  chars : ℕ → Status
  eof no_char no_quote : Status

abbrev chunk : List ℕ → List ℕ → Option ℕ → Chunk
chunk text behind given_back = record { text = text; behind = behind; given_back = given_back }

-- The closing quote of a character literal.
unfoldable pub close_literal : ℕ → List ℕ → Status × Chunk
close_literal c [] = (no_quote, chunk (39 ∷ c ∷ []) [] none)
close_literal c (q ∷ cs) =
    if q == 39
    then (chars 3, chunk (39 ∷ c ∷ 39 ∷ []) cs none)
    else (no_quote, chunk (39 ∷ c ∷ []) cs none)

unfoldable pub escaped_literal : List ℕ → Status × Chunk
escaped_literal [] = (no_char, chunk (39 ∷ []) [] none)
escaped_literal (c ∷ cs) = close_literal (unescape c) cs

-- Behind the opening quote.
unfoldable pub char_literal : List ℕ → Status × Chunk
char_literal [] = (no_char, chunk (39 ∷ []) [] none)
char_literal (c ∷ cs) = if c == 92 then escaped_literal cs else close_literal c cs

abbrev literal_type : Status → TokenType
literal_type (chars n) = tok_other
literal_type eof = tok_invalid
literal_type no_char = tok_invalid
literal_type no_quote = tok_invalid

-- A chunk that is a token of the type.
unfoldable pub token : TokenType → Chunk → Status × TokenType × Chunk
token type k = (chars (length k.text), type, k)

-- Behind a slash.
unfoldable pub slash : List ℕ → Status × TokenType × Chunk
slash [] = token tok_other (chunk (b'/' ∷ []) [] none)
slash (d ∷ ds) =
    if d == b'*'
    then elim (extended_comment leading 0 [] ds) [
      | none ↦ (eof, tok_invalid, chunk [] [] none)
      | some k ↦ token tok_comment k
    ]
    else if d == b'/'
    then token tok_comment (line_comment ds)
    else token tok_other (chunk (b'/' ∷ []) ds (some d))

-- The token that starts with the character; the type of a string stays invalid.
unfoldable pub token_from : ℕ → List ℕ → Status × TokenType × Chunk
token_from c cs =
    let (s, k) = char_literal cs in
    if c == 39
    then (s, literal_type s, k)
    else if c == 34
    then token tok_invalid (put 34 (string_rest false cs))
    else if is_op c
    then token tok_other (operator c cs)
    else if c == b'/'
    then slash cs
    else token tok_other (blob c cs)

unfoldable pub skip_spaces : List ℕ → Option (ℕ × List ℕ)
skip_spaces [] = none
skip_spaces (c ∷ cs) = let further = skip_spaces cs in if is_space c then further else some (c, cs)

abbrev pub after : Tokenizer → TokenType → Chunk → Tokenizer
after t type k = record t {
  input = k.behind;
  unget_char = k.given_back;
  token = k.text;
  token_type = type;
}

unfoldable pub tokenize_next_internal : Tokenizer → Status × Tokenizer
tokenize_next_internal t = elim (skip_spaces (pending t)) [
  | none ↦ (eof, record t { input = []; unget_char = none; token_type = tok_eof })
  | some (c, cs) ↦ let (s, type, k) = token_from c cs in (s, after t type k)
]

unfoldable pub tokenize_next : Tokenizer → Status × Tokenizer
tokenize_next t =
    if t.hasnext then (chars 0, record t { hasnext = false }) else tokenize_next_internal t

unfoldable pub tokenize_peek : Tokenizer → Status × Tokenizer
tokenize_peek t =
    let (s, t') = tokenize_next t in
    if t.hasnext then (chars 0, t) else elim s [
      | chars n ↦ (chars n, record t' { hasnext = true })
      | eof ↦ (eof, t')
      | no_char ↦ (no_char, record t' { hasnext = true })
      | no_quote ↦ (no_quote, record t' { hasnext = true })
    ]

abbrev pub with_first : {A : Type 0} → A → Option (List A) → Option (List A)
with_first a none = none
with_first a (some xs) = some (a ∷ xs)

abbrev pub with_token :
    Status → Tokenizer → Option (List (TokenType × List ℕ)) → Option (List (TokenType × List ℕ))
with_token eof t rest = some []
with_token (chars k) t rest = with_first (t.token_type, t.token) rest
with_token no_char t rest = with_first (t.token_type, t.token) rest
with_token no_quote t rest = with_first (t.token_type, t.token) rest

-- What `tokenize_next` gives until the end of the file, if that comes within n calls.
unfoldable pub all_tokens : ℕ → Tokenizer → Option (List (TokenType × List ℕ))
all_tokens zero t = none
all_tokens (suc n) t = let (s, t') = tokenize_next t in with_token s t' (all_tokens n t')
