-- ===== src/Http/Method/RoundTrip.antt =====
-- The methods' names are read back as the methods.
use mathlib.Core.Path.{subst}
use c.Prelude.{All, ◌⊎◌, ◌≡◌, refl, ◌≢◌, List, [], ◌∷◌, ◌++◌, Bool-cases, inl, inr}
use c.Prelude.Text.{String, same, same_iff, starts_with}
use c.Http.Method.{
  HttpMethod, delete, get, head, post, put, connect, options, trace, copy, lock, mkcol, move,
  propfind, proppatch, search, unlock, bind, rebind, unbind, acl, report, mkactivity, checkout,
  merge, msearch, notify, subscribe, unsubscribe, patch, purge, mkcalendar, link, unlink, source,
  invalid_method, string_to_http_method, chars_to_http_method, http_method_to_string,
  http_method_map, find_equal, find_prefix, method_strings,
}

-- A chain of tests finds no method, or one that is listed with this string.
find_equal-All :
    (P : HttpMethod → String → Type 0) (s : String) (xs : List (HttpMethod × String))
    → All (λ x. P x.0 x.1) xs
    → (find_equal s xs ≡ invalid_method) ⊎ P (find_equal s xs) s
unfolding find_equal
find_equal-All P s [] h = inl refl
find_equal-All P s ((m, t) ∷ xs) (here, h) = elim (Bool-cases (same t s)) [
  | inl e ↦ rw e (inr (subst (P m) ((same_iff t s).0 e) here))
  | inr e ↦ rw e (find_equal-All P s xs h)
]

named : All (λ x. http_method_to_string x.0 ≡ x.1) http_method_map
unfolding http_method_to_string method_strings
named = (
  refl,
  (
    refl,
    (
      refl,
      (
        refl,
        (
          refl,
          (
            refl,
            (
              refl,
              (
                refl,
                (
                  refl,
                  (
                    refl,
                    (
                      refl,
                      (
                        refl,
                        (
                          refl,
                          (
                            refl,
                            (
                              refl,
                              (
                                refl,
                                (
                                  refl,
                                  (
                                    refl,
                                    (
                                      refl,
                                      (
                                        refl,
                                        (
                                          refl,
                                          (
                                            refl,
                                            (
                                              refl,
                                              (
                                                refl,
                                                (
                                                  refl,
                                                  (
                                                    refl,
                                                    (
                                                      refl,
                                                      (
                                                        refl,
                                                        (
                                                          refl,
                                                          (
                                                            refl,
                                                            (refl, (refl, (refl, (refl, tt)))),
                                                          ),
                                                        ),
                                                      ),
                                                    ),
                                                  ),
                                                ),
                                              ),
                                            ),
                                          ),
                                        ),
                                      ),
                                    ),
                                  ),
                                ),
                              ),
                            ),
                          ),
                        ),
                      ),
                    ),
                  ),
                ),
              ),
            ),
          ),
        ),
      ),
    ),
  ),
)

-- StringToHttpMethod gives INVALID_METHOD or a method of which the text is the whole name.
string_to_http_method-name :
    (s : String)
    → (string_to_http_method s ≡ invalid_method)
      ⊎ (http_method_to_string (string_to_http_method s) ≡ s)
unfolding string_to_http_method
string_to_http_method-name s =
    find_equal-All (λ m t. http_method_to_string m ≡ t) s http_method_map named

-- For each method but INVALID_METHOD: StringToHttpMethod reads its name back as it, and so does
-- CharsToHttpMethod, whatever characters follow the name, as no method's name starts another
-- one's. And a text that StringToHttpMethod does not refuse is the name of the method that it gives.
pub method-name :
    (m : HttpMethod) (rest s : String)
    → m ≢ invalid_method
    → (string_to_http_method (http_method_to_string m) ≡ m)
      × (chars_to_http_method (http_method_to_string m ++ rest) ≡ m)
      × ((string_to_http_method s ≡ invalid_method)
          ⊎ (http_method_to_string (string_to_http_method s) ≡ s))
unfolding string_to_http_method chars_to_http_method http_method_to_string find_equal find_prefix
    starts_with method_strings same
method-name delete rest s h = (refl, refl, string_to_http_method-name s)
method-name get rest s h = (refl, refl, string_to_http_method-name s)
method-name head rest s h = (refl, refl, string_to_http_method-name s)
method-name post rest s h = (refl, refl, string_to_http_method-name s)
method-name put rest s h = (refl, refl, string_to_http_method-name s)
method-name connect rest s h = (refl, refl, string_to_http_method-name s)
method-name options rest s h = (refl, refl, string_to_http_method-name s)
method-name trace rest s h = (refl, refl, string_to_http_method-name s)
method-name copy rest s h = (refl, refl, string_to_http_method-name s)
method-name lock rest s h = (refl, refl, string_to_http_method-name s)
method-name mkcol rest s h = (refl, refl, string_to_http_method-name s)
method-name move rest s h = (refl, refl, string_to_http_method-name s)
method-name propfind rest s h = (refl, refl, string_to_http_method-name s)
method-name proppatch rest s h = (refl, refl, string_to_http_method-name s)
method-name search rest s h = (refl, refl, string_to_http_method-name s)
method-name unlock rest s h = (refl, refl, string_to_http_method-name s)
method-name bind rest s h = (refl, refl, string_to_http_method-name s)
method-name rebind rest s h = (refl, refl, string_to_http_method-name s)
method-name unbind rest s h = (refl, refl, string_to_http_method-name s)
method-name acl rest s h = (refl, refl, string_to_http_method-name s)
method-name report rest s h = (refl, refl, string_to_http_method-name s)
method-name mkactivity rest s h = (refl, refl, string_to_http_method-name s)
method-name checkout rest s h = (refl, refl, string_to_http_method-name s)
method-name merge rest s h = (refl, refl, string_to_http_method-name s)
method-name msearch rest s h = (refl, refl, string_to_http_method-name s)
method-name notify rest s h = (refl, refl, string_to_http_method-name s)
method-name subscribe rest s h = (refl, refl, string_to_http_method-name s)
method-name unsubscribe rest s h = (refl, refl, string_to_http_method-name s)
method-name patch rest s h = (refl, refl, string_to_http_method-name s)
method-name purge rest s h = (refl, refl, string_to_http_method-name s)
method-name mkcalendar rest s h = (refl, refl, string_to_http_method-name s)
method-name link rest s h = (refl, refl, string_to_http_method-name s)
method-name unlink rest s h = (refl, refl, string_to_http_method-name s)
method-name source rest s h = (refl, refl, string_to_http_method-name s)
method-name invalid_method rest s h = absurd (h refl)
