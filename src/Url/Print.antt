-- ===== src/Url/Print.antt =====
-- A URL written out is parsed into its parts.
use zcm.Prelude.{
  ℕ, ◌+◌, ◌≡◌, ◌∙◌, ap, ap₂, refl, sym, arith, List, [], ◌∷◌, ◌++◌, append_assoc, map, none, ◌≢◌,
  length, drop, All, length-append, take-length_append, drop-length_append,
}
use zcm.Url.{find, split, Opt, cut_opt, new_opt, Url, separator, cut_address, cut_protocol, parse}
use zcm.Url.Split.{Without, find-append, find-none, join, Piece, split-join}

-- `key=value`
abbrev pub opt_text : Opt → List ℕ
opt_text o = o.key ++ (61 ∷ o.val)

-- A key without `=` and `&`, and a value without `&`.
abbrev pub Printable : Opt → Type 0
Printable o = Without 61 o.key × (Without 38 o.key × Without 38 o.val)

abbrev pub address_text : List ℕ → List Opt → List ℕ
address_text address [] = address
address_text address (o ∷ os) = address ++ (63 ∷ join 38 (map opt_text (o ∷ os)))

-- `protocol://address?key=value&key=value`
abbrev pub url_text : List ℕ → List ℕ → List Opt → List ℕ
url_text protocol address os = protocol ++ (separator ++ address_text address os)

-- What stands behind what was found.
drop_found :
    (xs what ys : List ℕ) (n : ℕ) → n ≡ length xs + length what → drop n (xs ++ (what ++ ys)) ≡ ys
drop_found xs what ys n e =
    ap (drop n) (sym (append_assoc xs what ys))
    ∙ drop-length_append (xs ++ what) ys n (omega (arith, length-append xs what))

new_opt-opt_text : (o : Opt) → Without 61 o.key → new_opt (opt_text o) ≡ o
unfolding new_opt
new_opt-opt_text o h =
    let s = opt_text o in
    ap (cut_opt s) (find-append 61 [] o.key o.val h)
    ∙ ap₂ (λ k v. record { key = k; val = v })
        (take-length_append o.key (61 ∷ o.val) (length o.key) refl)
        (drop_found o.key (61 ∷ []) o.val (length o.key + 1) refl)

new_opts-opt_text : (os : List Opt) → All Printable os → map new_opt (map opt_text os) ≡ os
new_opts-opt_text [] h = refl
new_opts-opt_text (o ∷ os) (p, ps) =
    ap₂ (λ a l. a ∷ l) (new_opt-opt_text o p.0) (new_opts-opt_text os ps)

Without-append : (c : ℕ) (xs ys : List ℕ) → Without c xs → Without c ys → Without c (xs ++ ys)
Without-append c [] ys h k = k
Without-append c (x ∷ xs) ys (h, hs) k = (h, Without-append c xs ys hs k)

opt_text-Piece : (os : List Opt) → All Printable os → All (Piece 38) (map opt_text os)
opt_text-Piece [] h = tt
opt_text-Piece (o ∷ os) ((e, (k, v)), ps) =
    let amp : ◌≢◌ {A = ℕ} 38 61 = λ q. absurd (omega arith) in
    (
      (
        omega (arith, length-append o.key (61 ∷ o.val)),
        Without-append 38 o.key (61 ∷ o.val) k (amp, v),
      ),
      opt_text-Piece os ps,
    )

abbrev parts : List ℕ → List ℕ → List Opt → Url
parts protocol address os = record {
  protocol = protocol;
  address = address;
  opts = os;
  zopts = none;
}

cut_address-text :
    (protocol address : List ℕ) (os : List Opt)
    → Without 63 address
    → All Printable os
    → cut_address protocol (address_text address os) (find (63 ∷ []) (address_text address os))
      ≡ parts protocol address os
cut_address-text protocol address [] a p =
    ap (cut_address protocol address) (find-none 63 address a)
cut_address-text protocol address (o ∷ os) a p =
    let texts = map opt_text (o ∷ os) in
    let text = address ++ (63 ∷ join 38 texts) in
    let behind : split (drop (length address + 1) text) 38 ≡ texts =
      ap (λ s. split s 38) (drop_found address (63 ∷ []) (join 38 texts) (length address + 1) refl)
      ∙ split-join 38 (opt_text o) (map opt_text os) (opt_text-Piece (o ∷ os) p) in
    ap (cut_address protocol text) (find-append 63 [] address (join 38 texts) a)
    ∙ ap₂ (parts protocol) (take-length_append address (63 ∷ join 38 texts) (length address) refl)
        (ap (map new_opt) behind ∙ new_opts-opt_text (o ∷ os) p)

-- The protocol, the address and the options of a URL are found in it, in order, where the protocol
-- has no `:`, the address no `?`, a key neither `=` nor `&`, and a value no `&`.
pub parse-url_text :
    (protocol address : List ℕ) (os : List Opt)
    → Without 58 protocol
    → Without 63 address
    → All Printable os
    → parse (url_text protocol address os)
      ≡ record { protocol = protocol; address = address; opts = os; zopts = none }
unfolding parse
parse-url_text protocol address os h a p =
    let rest = address_text address os in
    let url = url_text protocol address os in
    ap (cut_protocol url) (find-append 58 (47 ∷ 47 ∷ []) protocol rest h)
    ∙ ap₂ (λ t r. cut_address t r (find (63 ∷ []) r))
        (take-length_append protocol (separator ++ rest) (length protocol) refl)
        (drop_found protocol separator rest (length protocol + 3) refl)
    ∙ cut_address-text protocol address os a p
