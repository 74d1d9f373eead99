-- ===== src/Schema/SnippetTests.antt =====
-- Snippets that are cleaned, cut and lost.
use sentinel_host.Prelude.{◌≡◌, refl, [], ◌∷◌, ◌++◌, Text, codes, length, ◌≤◌, All}
use sentinel_host.Schema.Snippet.{sanitize_snippet, max_matched_content_bytes}
use sentinel_host.Schema.Snippets.{Printable, sanitize_snippet-Printable}

-- A bell, a line feed and a byte that starts no code point.
abbrev noisy : Text
noisy = codes " a" ++ 7 ∷ 10 ∷ 0xff ∷ 0xc3 ∷ 0xa9 ∷ 32 ∷ []

noisy_cleaned : sanitize_snippet noisy ≡ codes "a. ." ++ 0xc3 ∷ 0xa9 ∷ []
unfolding sanitize_snippet
noisy_cleaned = refl

sanitize_snippet-Printable_example :
    All Printable (sanitize_snippet noisy)
    × (length (sanitize_snippet noisy) ≤ max_matched_content_bytes)
sanitize_snippet-Printable_example = sanitize_snippet-Printable noisy
