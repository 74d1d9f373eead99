-- ===== src/Reach/Tests.antt =====
-- The classifier's containment at concrete paths.
use sentinel_host.Prelude.{false, [], ◌∷◌, Text, codes, ◌≡◌, refl}
use sentinel_host.Reach.Classify.{Classifier, under}

neighbour : under (codes "/home/u/public_html2/x") (codes "/home/u/public_html") ≡ false
unfolding under
neighbour = refl

abbrev classifier : Classifier
classifier = record { doc_roots = codes "/home/u/public_html" ∷ []; trashes = [] }

abbrev neighbour_site : Text
neighbour_site = codes "/home/u/public_html2/x"

abbrev same_path : Text → Text
same_path p = p
