-- ===== src/Url.antt =====
-- zcm/url.cpp: the parts of a transport's URL. A string is its characters, none of which is NUL.
pub mod Split
pub mod Print
use zcm.Prelude.{
  ℕ, zero, suc, ◌+◌, ◌-◌, Bool, true, false, ◌&&◌, List, [], ◌∷◌, ◌++◌, map, Option, none, some,
  if◌then◌else◌, ltb, ◌==◌, length, take, drop, get_or, min,
}

-- `str.find(what)`: how many characters stand before it.
abbrev pub starts_with : List ℕ → List ℕ → Bool
starts_with [] str = true
starts_with (w ∷ what) [] = false
starts_with (w ∷ what) (c ∷ str) = w == c && starts_with what str

abbrev pub one_later : Option ℕ → Option ℕ
one_later none = none
one_later (some n) = some (suc n)

unfoldable pub find : List ℕ → List ℕ → Option ℕ
find what [] = if starts_with what [] then some 0 else none
find what (c ∷ str) =
    let rest = find what str in if starts_with what (c ∷ str) then some 0 else one_later rest

-- What `getline` takes, and what it leaves.
abbrev pub upto : ℕ → List ℕ → List ℕ × List ℕ
upto delimiter [] = ([], [])
upto delimiter (c ∷ cs) =
    let (tok, rest) = upto delimiter cs in if c == delimiter then ([], cs) else (c ∷ tok, rest)

-- The loop of `split`, which ends when the stream is empty. Each round takes a character.
unfoldable pub getline_loop : ℕ → ℕ → List ℕ → List (List ℕ)
getline_loop zero delimiter str = []
getline_loop (suc fuel) delimiter [] = []
getline_loop (suc fuel) delimiter (c ∷ cs) =
    let (tok, rest) = upto delimiter (c ∷ cs) in tok ∷ getline_loop fuel delimiter rest

unfoldable pub split : List ℕ → ℕ → List (List ℕ)
split str delimiter =
    let len = length str in
    let v = getline_loop len delimiter str in
    if ltb 0 len && (get_or str (len - 1) 0 == delimiter) then v ++ ([] ∷ []) else v

pub record Opt : Type 0 where
  pub key : List ℕ
  pub val : List ℕ

-- `Opt::Opt`, where `=` is 61.
abbrev pub cut_opt : List ℕ → Option ℕ → Opt
cut_opt s none = record { key = s; val = [] }
cut_opt s (some sep) = record { key = take sep s; val = drop (sep + 1) s }

unfoldable pub new_opt : List ℕ → Opt
new_opt s = cut_opt s (find (61 ∷ []) s)

-- `zcm_url`, less the string it was made from; `zopts` are those of `zcm_url_opts_t` in use.
pub record Url : Type 0 where
  pub protocol : List ℕ
  pub address : List ℕ
  pub opts : List Opt
  pub zopts : Option (List Opt)

-- `://` and `?`
abbrev pub separator : List ℕ
separator = 58 ∷ 47 ∷ 47 ∷ []

-- What `parse` does with what stands behind `://`.
abbrev pub cut_address : List ℕ → List ℕ → Option ℕ → Url
cut_address protocol rest none = record {
  protocol = protocol;
  address = rest;
  opts = [];
  zopts = none;
}
cut_address protocol rest (some sep) = record {
  protocol = protocol;
  address = take sep rest;
  opts = map new_opt (split (drop (sep + 1) rest) 38);
  zopts = none;
}

abbrev pub cut_protocol : List ℕ → Option ℕ → Url
cut_protocol url none = record { protocol = url; address = []; opts = []; zopts = none }
cut_protocol url (some sep) =
    let rest = drop (sep + 3) url in cut_address (take sep url) rest (find (63 ∷ []) rest)

-- `zcm_url_create`
unfoldable pub parse : List ℕ → Url
parse url = cut_protocol url (find separator url)

-- `ZCM_OPTS_MAX`
abbrev pub opts_max : ℕ
opts_max = 128

abbrev pub populate : Url → Option (List Opt) → List Opt × Url
populate u (some zopts) = (zopts, u)
populate u none =
    let zopts = take (min (length u.opts) opts_max) u.opts in
    (zopts, record u { zopts = some zopts })

-- `getZopts`
unfoldable pub get_zopts : Url → List Opt × Url
get_zopts u = populate u u.zopts
