-- ===== src/Servlet/Tests.antt =====
-- Runs of a ServletDispatch, and its theorem at a concrete input.
use c.Prelude.{◌≡◌, refl, Bool, true, false, [], ◌∷◌, none, some, if◌then◌else◌}
use c.Prelude.Text.{String, same}
use c.Servlet.{
  ServletDispatch, find, add_servlet, del_servlet, add_glob_servlet, del_glob_servlet, get_servlet,
  first_match, or_else, get_matched_servlet,
}
use c.Servlet.Dispatch.{Unique, get_matched_servlet_lem}

-- A pattern that ends in a star, 42, matches what begins as it does.
starts : String → String → Bool
starts [] [] = true
starts [] (y ∷ ys) = false
starts (x ∷ xs) [] = false
starts (x ∷ xs) (y ∷ ys) =
    if same (x ∷ []) (42 ∷ []) then true else if same (x ∷ []) (y ∷ []) then starts xs ys else false

-- "/a" and "/*"
abbrev d0 : ServletDispatch
d0 = record { datas = (47 ∷ 97 ∷ [], 1) ∷ []; globs = (47 ∷ 42 ∷ [], 2) ∷ []; default = some 9 }

exact : get_matched_servlet starts (47 ∷ 97 ∷ []) d0 ≡ some 1
unfolding get_matched_servlet find same
exact = refl

glob : get_matched_servlet starts (47 ∷ 98 ∷ []) d0 ≡ some 2
unfolding get_matched_servlet find same first_match starts
glob = refl

d0-Unique : Unique d0.datas
unfolding Unique find
d0-Unique = (refl, tt)

get_matched_servlet_lem_example :
    (get_matched_servlet starts (47 ∷ 97 ∷ []) (add_servlet (47 ∷ 97 ∷ []) 5 d0) ≡ (
      if same (47 ∷ 97 ∷ []) (47 ∷ 97 ∷ [])
      then some 5
      else get_matched_servlet starts (47 ∷ 97 ∷ []) d0))
    × Unique (add_servlet (47 ∷ 97 ∷ []) 5 d0).datas
    × (get_matched_servlet starts (47 ∷ 97 ∷ []) (del_servlet (47 ∷ 97 ∷ []) d0) ≡ (
        if same (47 ∷ 97 ∷ []) (47 ∷ 97 ∷ [])
        then or_else (first_match starts (47 ∷ 97 ∷ []) d0.globs) d0.default
        else get_matched_servlet starts (47 ∷ 97 ∷ []) d0))
    × Unique (del_servlet (47 ∷ 97 ∷ []) d0).datas
    × (get_matched_servlet starts (47 ∷ 97 ∷ []) (add_glob_servlet (47 ∷ 97 ∷ []) 5 d0)
        ≡ or_else (get_servlet (47 ∷ 97 ∷ []) d0) (
            or_else
              (first_match starts (47 ∷ 97 ∷ []) (del_glob_servlet (47 ∷ 97 ∷ []) d0).globs)
              (or_else (if starts (47 ∷ 97 ∷ []) (47 ∷ 97 ∷ []) then some 5 else none) d0.default)))
get_matched_servlet_lem_example =
    get_matched_servlet_lem starts (47 ∷ 97 ∷ []) (47 ∷ 97 ∷ []) 5 d0 d0-Unique
