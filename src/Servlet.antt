-- ===== src/Servlet.antt =====
-- htttp/servlet.h, htttp/servlet.cc: which servlet answers a request. A string is a list of
-- characters' codes, a servlet is its address, and fnmatch is an argument.
pub mod Dispatch
mod Tests
use c.Prelude.{
  ℕ, Bool, true, false, List, [], ◌∷◌, ◌++◌, Option, none, some, ◌==◌, ◌&&◌, if◌then◌else◌,
}
use c.Prelude.Text.{String, same}

-- ServletDispatch: m_datas, the pairs of an unordered_map, each uri at most once; m_globs in order;
-- and m_default.
pub record ServletDispatch : Type 0 where
  pub datas : List (String × ℕ)
  pub globs : List (String × ℕ)
  pub default : Option ℕ

-- The first pair with this uri, and the pairs without the first with it.
unfoldable pub find : String → List (String × ℕ) → Option ℕ
find uri [] = none
find uri (p ∷ ps) = if same p.0 uri then some p.1 else find uri ps

unfoldable pub erase : String → List (String × ℕ) → List (String × ℕ)
erase uri [] = []
erase uri (p ∷ ps) = if same p.0 uri then ps else p ∷ erase uri ps

-- m_datas[uri] = slt
unfoldable pub assign : String → ℕ → List (String × ℕ) → List (String × ℕ)
assign uri slt [] = (uri, slt) ∷ []
assign uri slt (p ∷ ps) = if same p.0 uri then (p.0, slt) ∷ ps else p ∷ assign uri slt ps

-- ServletDispatch::ServletDispatch(), with the NotFoundServlet at an address.
pub init : ℕ → ServletDispatch
init not_found = record { datas = []; globs = []; default = some not_found }

-- addServlet(uri, slt); with a callback, slt is the new FunctionServlet.
unfoldable pub add_servlet : String → ℕ → ServletDispatch → ServletDispatch
add_servlet uri slt d = record d { datas = assign uri slt d.datas }

unfoldable pub add_glob_servlet : String → ℕ → ServletDispatch → ServletDispatch
add_glob_servlet uri slt d = record d { globs = erase uri d.globs ++ (uri, slt) ∷ [] }

unfoldable pub del_servlet : String → ServletDispatch → ServletDispatch
del_servlet uri d = record d { datas = erase uri d.datas }

unfoldable pub del_glob_servlet : String → ServletDispatch → ServletDispatch
del_glob_servlet uri d = record d { globs = erase uri d.globs }

unfoldable pub get_servlet : String → ServletDispatch → Option ℕ
get_servlet uri d = find uri d.datas

unfoldable pub get_glob_servlet : String → ServletDispatch → Option ℕ
get_glob_servlet uri d = find uri d.globs

-- The loop of getMatchedServlet over m_globs; `fnmatch pattern uri` tells whether it returns 0.
unfoldable pub first_match : (String → String → Bool) → String → List (String × ℕ) → Option ℕ
first_match fnmatch uri [] = none
first_match fnmatch uri (p ∷ ps) = if fnmatch p.0 uri then some p.1 else first_match fnmatch uri ps

abbrev pub or_else : Option ℕ → Option ℕ → Option ℕ
or_else (some x) y = some x
or_else none y = y

unfoldable pub get_matched_servlet : (String → String → Bool) → String → ServletDispatch → Option ℕ
get_matched_servlet fnmatch uri d =
    or_else (find uri d.datas) (or_else (first_match fnmatch uri d.globs) d.default)

-- ServletDispatch::handle: the servlet that it hands the request to; it returns 0 in any case.
pub handle : (String → String → Bool) → String → ServletDispatch → Option ℕ
handle fnmatch path d = get_matched_servlet fnmatch path d
