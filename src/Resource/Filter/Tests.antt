-- ===== src/Resource/Filter/Tests.antt =====
-- Selectors as they are typed. The expressions stand in by what the tests need of them.
use kubiq.Resource.Filter.{split, normalise, is_label_selector, parse}
use kubiq.Resource.Filter.Round.{is_label_selector-normalise}
use kubiq.Base.{◌≡◌, refl, Bool, true, false, ◌||◌, [], ◌∷◌, Text, codes, ◌==◌}

-- Whether a text holds an equals sign, or a parenthesis.
abbrev has_equals : Text → Bool
has_equals [] = false
has_equals (c ∷ s) = c == 61 || has_equals s

abbrev has_set : Text → Bool
has_set [] = false
has_set (c ∷ s) = c == 40 || has_set s

abbrev any : Text → Bool
any t = true

abbrev typed : Text
typed = codes " app=web , tier in (a, b) ,!gone"

split-typed : split typed ≡ codes "app=web" ∷ codes "tier in (a, b)" ∷ codes "!gone" ∷ []
unfolding split
split-typed = refl

parse-typed :
    parse has_equals has_set any typed
    ≡ record { text = []; label_selector = codes "app=web,tier in (a, b),!gone" }
unfolding parse
parse-typed = refl

no_requirements : split (codes "app=web,,x") ≡ []
unfolding split
no_requirements = refl

is_label_selector-normalise_example :
    (split (normalise typed) ≡ split typed)
    × (is_label_selector has_equals has_set any (normalise typed)
        ≡ is_label_selector has_equals has_set any typed)
is_label_selector-normalise_example = is_label_selector-normalise has_equals has_set any typed
