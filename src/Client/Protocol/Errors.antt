-- ===== src/Client/Protocol/Errors.antt =====
-- wrapAll of internal/client/error.go and what errors.Is and errors.As find in its result.
use edgedb_go.Common.{Bool, true, false, ◌||◌, Option, none, some, List, [], ◌∷◌, ◌≡◌, refl}
use edgedb_go.Client.Protocol.{
  FlowError, FlowErrors, many, nil, cons, present, wrap_present, wrap_all, found, any_found,
}

-- Some error of the list, where it is not nil, has it.
unfoldable pub any : (FlowError → Bool) → List (Option FlowError) → Bool
any test [] = false
any test (none ∷ es) = any test es
any test (some e ∷ es) = found test e || any test es

abbrev pub found_in : (FlowError → Bool) → Option FlowError → Bool
found_in test none = false
found_in test (some e) = found test e

present-any :
    (test : FlowError → Bool) (es : List (Option FlowError))
    → any_found test (present es) ≡ any test es
unfolding present any found
present-any test [] = refl
present-any test (none ∷ es) = present-any test es
present-any test (some e ∷ es) = rw (present-any test es) refl

or_false : (b : Bool) → (b || false) ≡ b
or_false true = refl
or_false false = refl

-- An error is found in what wrapAll makes of a list of errors exactly when it is found in one of
-- them that is not nil: none is lost, and none is made up. The test looks for no error that wrapAll
-- makes itself.
pub wrap_all-found :
    (test : FlowError → Bool) (es : List (Option FlowError))
    → ((wrapped : FlowErrors) → test (many wrapped) ≡ false)
    → found_in test (wrap_all es) ≡ any test es
unfolding wrap_all found
wrap_all-found test es h = by_count (present es) (present-any test es)
  where
    by_count :
        (p : FlowErrors)
        → any_found test p ≡ any test es
        → found_in test (wrap_present p) ≡ any test es
    by_count nil e = e
    by_count (cons x nil) e = rw (or_false (found test x)) at e
    by_count (cons x (cons y p)) e = rw (h (cons x (cons y p))) e
