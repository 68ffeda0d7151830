-- ===== src/Tests/UrlTests.antt =====
-- zcm/url.cpp on `ipc://a?k=v&b=`.
use zcm.Prelude.{◌≡◌, refl, arith, List, [], ◌∷◌, none}
use zcm.Url.{Opt, Url, parse, split}
use zcm.Url.Print.{url_text, parse-url_text}

abbrev opts : List Opt
opts = record { key = 107 ∷ []; val = 118 ∷ [] } ∷ record { key = 98 ∷ []; val = [] } ∷ []

parse-url_text_example :
    parse (url_text (105 ∷ 112 ∷ 99 ∷ []) (97 ∷ []) opts)
    ≡ record { protocol = 105 ∷ 112 ∷ 99 ∷ []; address = 97 ∷ []; opts = opts; zopts = none }
parse-url_text_example =
    parse-url_text (105 ∷ 112 ∷ 99 ∷ []) (97 ∷ []) opts
      (
        (λ e. absurd (omega arith)),
        ((λ e. absurd (omega arith)), ((λ e. absurd (omega arith)), tt)),
      )
      ((λ e. absurd (omega arith)), tt)
      (
        (
          ((λ e. absurd (omega arith)), tt),
          (((λ e. absurd (omega arith)), tt), ((λ e. absurd (omega arith)), tt)),
        ),
        ((((λ e. absurd (omega arith)), tt), (((λ e. absurd (omega arith)), tt), tt)), tt),
      )

-- A delimiter at the end gives an empty piece.
split_test : split (97 ∷ 38 ∷ []) 38 ≡ (97 ∷ []) ∷ [] ∷ []
unfolding split zcm.Url.getline_loop
split_test = refl
